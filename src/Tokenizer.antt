-- ===== src/Tokenizer.antt =====
-- internal/tokenizer/tokenizer.go: how a query is classified. A text is its bytes up to the second loop
-- of `stripSQLComments`, and its characters from there on, all of them below 256.
pub mod Statements
mod Tests
use geryon.Base.{
  ℕ, ◌+◌, ◌-◌, ◌/◌, ◌%◌, Bool, true, false, List, [], ◌∷◌, ◌++◌, ltb, leb, ◌==◌, ◌&&◌, ◌||◌, not,
  if◌then◌else◌,
}

pub data QueryType : Type 0 where
  query_unknown query_select query_insert query_update query_delete query_begin query_commit :
      QueryType
  query_rollback query_ddl query_other : QueryType

-- Printable ASCII, white space and the bytes of other characters.
unfoldable pub is_kept : ℕ → Bool
is_kept c = (leb 32 c && ltb c 127) || (c == 10 || (c == 13 || (c == 9 || leb 128 c)))

unfoldable pub strip_control_chars : List ℕ → List ℕ
strip_control_chars [] = []
strip_control_chars (c ∷ cs) =
    let rest = strip_control_chars cs in if is_kept c then c ∷ rest else rest

-- `string(query[i])` takes the byte for a character, which UTF-8 writes in two bytes from 128 on.
unfoldable pub byte_text : ℕ → List ℕ
byte_text c = if ltb c 128 then c ∷ [] else (192 + c / 64) ∷ (128 + c % 64) ∷ []

unfoldable pub starts : ℕ → List ℕ → Bool
starts c [] = false
starts c (x ∷ xs) = x == c

-- The first loop of `stripSQLComments`; the flag says that the loop is inside of a comment, which ends
-- behind the end of the line.
unfoldable pub strip_lines : Bool → List ℕ → List ℕ
strip_lines commented [] = []
strip_lines true (c ∷ cs) =
    let out = strip_lines false cs in let on = strip_lines true cs in if c == 10 then out else on
strip_lines false (c ∷ cs) =
    let comment = strip_lines true cs in
    let rest = strip_lines false cs in
    if c == 45 && starts 45 cs then comment else byte_text c ++ rest

-- The second loop, with the characters it writes: at a slash before a star, at that star, inside, and at the slash that ends it.
pub data Place : Type 0 where
  outside opening inside closing : Place

unfoldable pub strip_blocks : Place → List ℕ → List ℕ
strip_blocks p [] = []
strip_blocks outside (c ∷ cs) =
    let comment = strip_blocks opening cs in
    let rest = strip_blocks outside cs in if c == 47 && starts 42 cs then comment else c ∷ rest
strip_blocks opening (c ∷ cs) = strip_blocks inside cs
strip_blocks inside (c ∷ cs) =
    let out = strip_blocks closing cs in
    let on = strip_blocks inside cs in if c == 42 && starts 47 cs then out else on
strip_blocks closing (c ∷ cs) = strip_blocks outside cs

unfoldable pub strip_sql_comments : List ℕ → List ℕ
strip_sql_comments query = strip_blocks outside (strip_lines false query)

-- strings.TrimSpace: white space below 256.
unfoldable pub is_space : ℕ → Bool
is_space c = (leb 9 c && leb c 13) || (c == 32 || (c == 133 || c == 160))

unfoldable pub trim_left : List ℕ → List ℕ
trim_left [] = []
trim_left (c ∷ cs) = let rest = trim_left cs in if is_space c then rest else c ∷ cs

abbrev pub is_empty : List ℕ → Bool
is_empty [] = true
is_empty (c ∷ cs) = false

unfoldable pub trim_right : List ℕ → List ℕ
trim_right [] = []
trim_right (c ∷ cs) =
    let rest = trim_right cs in if is_space c && is_empty rest then [] else c ∷ rest

abbrev pub trim_space : List ℕ → List ℕ
trim_space s = trim_right (trim_left s)

unfoldable pub has_semicolon : List ℕ → Bool
has_semicolon [] = false
has_semicolon (c ∷ cs) = let rest = has_semicolon cs in c == 59 || rest

-- What stands before the first semicolon.
unfoldable pub before_semicolon : List ℕ → List ℕ
before_semicolon [] = []
before_semicolon (c ∷ cs) = let rest = before_semicolon cs in if c == 59 then [] else c ∷ rest

-- strings.ToUpper on the letters of the keywords; no other character below 256 becomes one of these.
unfoldable pub to_upper : List ℕ → List ℕ
to_upper [] = []
to_upper (c ∷ cs) = let rest = to_upper cs in (if leb 97 c && leb c 122 then c - 32 else c) ∷ rest

unfoldable pub has_prefix : List ℕ → List ℕ → Bool
has_prefix s [] = true
has_prefix [] (p ∷ ps) = false
has_prefix (c ∷ cs) (p ∷ ps) = let rest = has_prefix cs ps in c == p && rest

unfoldable pub classify_statement : List ℕ → QueryType
classify_statement s =
    let is : List ℕ → Bool = has_prefix (to_upper s) in
    if is (83 ∷ 69 ∷ 76 ∷ 69 ∷ 67 ∷ 84 ∷ [])
    then query_select
    else if is (73 ∷ 78 ∷ 83 ∷ 69 ∷ 82 ∷ 84 ∷ [])
    then query_insert
    else if is (85 ∷ 80 ∷ 68 ∷ 65 ∷ 84 ∷ 69 ∷ [])
    then query_update
    else if is (68 ∷ 69 ∷ 76 ∷ 69 ∷ 84 ∷ 69 ∷ [])
    then query_delete
    else if is (66 ∷ 69 ∷ 71 ∷ 73 ∷ 78 ∷ [])
        || is (
            83 ∷ 84 ∷ 65 ∷ 82 ∷ 84 ∷ 32 ∷ 84 ∷ 82 ∷ 65 ∷ 78 ∷ 83 ∷ 65 ∷ 67 ∷ 84 ∷ 73 ∷ 79 ∷ 78 ∷ [])
    then query_begin
    else if is (67 ∷ 79 ∷ 77 ∷ 77 ∷ 73 ∷ 84 ∷ [])
    then query_commit
    else if is (82 ∷ 79 ∷ 76 ∷ 76 ∷ 66 ∷ 65 ∷ 67 ∷ 75 ∷ [])
    then query_rollback
    else if is (67 ∷ 82 ∷ 69 ∷ 65 ∷ 84 ∷ 69 ∷ [])
        || (is (68 ∷ 82 ∷ 79 ∷ 80 ∷ [])
            || (is (65 ∷ 76 ∷ 84 ∷ 69 ∷ 82 ∷ [])
                || is (84 ∷ 82 ∷ 85 ∷ 78 ∷ 67 ∷ 65 ∷ 84 ∷ 69 ∷ [])))
    then query_ddl
    else query_unknown

-- The text of a query that is looked at: the first statement, without comments.
unfoldable pub first_statement : List ℕ → List ℕ
first_statement query =
    let text = trim_space query in
    if has_semicolon text then trim_space (before_semicolon text) else text

unfoldable pub classify_query : List ℕ → QueryType
classify_query query =
    classify_statement (first_statement (strip_sql_comments (strip_control_chars query)))

unfoldable pub is_write_query : QueryType → Bool
is_write_query query_insert = true
is_write_query query_update = true
is_write_query query_delete = true
is_write_query query_ddl = true
is_write_query _ = false

unfoldable pub is_read_query : QueryType → Bool
is_read_query query_select = true
is_read_query _ = false
