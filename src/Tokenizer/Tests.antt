-- ===== src/Tokenizer/Tests.antt =====
-- Queries of two statements, classified as internal/tokenizer/tokenizer.go does.
use geryon.Base.{ℕ, ◌≡◌, ◌≤◌, ◌<◌, refl, true, List, [], ◌∷◌, ◌++◌, arith}
use geryon.Tokenizer.{
  query_select, is_kept, strip_control_chars, byte_text, starts, strip_lines, strip_blocks,
  strip_sql_comments, is_space, trim_left, trim_right, has_semicolon, before_semicolon, to_upper,
  has_prefix, classify_statement, first_statement, classify_query, is_read_query, is_write_query,
}
use geryon.Tokenizer.Statements.{IsPlain, classify_query-append}

letter : (c : ℕ) → 65 ≤ c → c < 127 → IsPlain c
letter c l u = record {
  printable = omega arith;
  ascii = u;
  no_dash = λ e. omega arith;
  no_slash = λ e. omega arith;
  no_semicolon = λ e. omega arith;
}

abbrev begin : List ℕ
begin = 98 ∷ 101 ∷ 71 ∷ 105 ∷ 110 ∷ []

-- `DROP t`.
abbrev drop_table : List ℕ
drop_table = 68 ∷ 82 ∷ 79 ∷ 80 ∷ 32 ∷ 116 ∷ []

-- `/*;*/SeL--x`, the rest in the next line, a semicolon and the removal of a table.
hidden :
    classify_query (
      47 ∷ 42 ∷ 59 ∷ 42 ∷ 47 ∷ 83 ∷ 101 ∷ 76 ∷ 45 ∷ 45 ∷ 120 ∷ 10 ∷ 101 ∷ 99 ∷ 84 ∷ 59 ∷ drop_table)
    ≡ query_select
unfolding classify_query strip_control_chars is_kept strip_sql_comments strip_lines byte_text starts
    strip_blocks first_statement trim_left trim_right is_space has_semicolon before_semicolon
    classify_statement to_upper has_prefix
hidden = refl

write : is_write_query (classify_query drop_table) ≡ true
unfolding classify_query strip_control_chars is_kept strip_sql_comments strip_lines byte_text starts
    strip_blocks first_statement trim_left trim_right is_space has_semicolon before_semicolon
    classify_statement to_upper has_prefix is_write_query
write = refl

read : is_read_query query_select ≡ true
unfolding is_read_query
read = refl

classify_query-append_example : classify_query (begin ++ 59 ∷ drop_table) ≡ classify_query begin
classify_query-append_example = classify_query-append begin drop_table (
  letter 98 (omega arith) (omega arith),
  (
    letter 101 (omega arith) (omega arith),
    (
      letter 71 (omega arith) (omega arith),
      (letter 105 (omega arith) (omega arith), (letter 110 (omega arith) (omega arith), tt)),
    ),
  ),
)
