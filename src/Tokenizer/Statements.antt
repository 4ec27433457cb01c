-- ===== src/Tokenizer/Statements.antt =====
-- internal/tokenizer/tokenizer.go: a query is classified by its first statement.
use geryon.Base.{
  ℕ, ◌≡◌, ◌≢◌, ◌<◌, ◌≤◌, refl, ◌∙◌, sym, ap, Bool, true, false, List, [], ◌∷◌, ◌++◌, ◌==◌, ◌&&◌,
  ◌||◌, arith, All, Bool-cases, inl, inr,
}
use geryon.Tokenizer.{
  is_kept, strip_control_chars, byte_text, strip_lines, outside, strip_blocks, strip_sql_comments,
  is_space, trim_left, is_empty, trim_right, trim_space, has_semicolon, before_semicolon,
  first_statement, classify_statement, classify_query,
}

-- A printable character that neither ends a statement nor may open a comment.
pub record IsPlain (c : ℕ) : Type 0 where
  pub printable : 32 ≤ c
  pub ascii : c < 127
  pub no_dash : c ≢ 45
  pub no_slash : c ≢ 47
  pub no_semicolon : c ≢ 59

kept-plain : (c : ℕ) → IsPlain c → is_kept c ≡ true
unfolding is_kept
kept-plain c p = let a = p.printable in let b = p.ascii in ground arith

text-plain : (c : ℕ) → IsPlain c → byte_text c ≡ c ∷ []
unfolding byte_text
text-plain c p = let b = p.ascii in ground arith

other : (c k : ℕ) → c ≢ k → (c == k) ≡ false
other c k n = ground arith

strip_control_chars-append :
    (a b : List ℕ) → All IsPlain a → strip_control_chars (a ++ b) ≡ a ++ strip_control_chars b
unfolding strip_control_chars
strip_control_chars-append [] b h = refl
strip_control_chars-append (c ∷ cs) b (p, h) =
    rw (kept-plain c p, strip_control_chars-append cs b h) refl

strip_lines-append :
    (a b : List ℕ) → All IsPlain a → strip_lines false (a ++ b) ≡ a ++ strip_lines false b
unfolding strip_lines
strip_lines-append [] b h = refl
strip_lines-append (c ∷ cs) b (p, h) =
    rw (other c 45 p.no_dash, text-plain c p, strip_lines-append cs b h) refl

strip_blocks-append :
    (a b : List ℕ) → All IsPlain a → strip_blocks outside (a ++ b) ≡ a ++ strip_blocks outside b
unfolding strip_blocks
strip_blocks-append [] b h = refl
strip_blocks-append (c ∷ cs) b (p, h) = rw (other c 47 p.no_slash, strip_blocks-append cs b h) refl

trim_left-append : (a b : List ℕ) → trim_left (a ++ 59 ∷ b) ≡ trim_left a ++ 59 ∷ b
unfolding trim_left is_space
trim_left-append [] b = refl
trim_left-append (c ∷ cs) b = elim (Bool-cases (is_space c)) [
  | inl e ↦ rw (e, trim_left-append cs b) refl
  | inr e ↦ rw e refl
]

trim_left-twice : (a : List ℕ) → trim_left (trim_left a) ≡ trim_left a
unfolding trim_left
trim_left-twice [] = refl
trim_left-twice (c ∷ cs) = elim (Bool-cases (is_space c)) [
  | inl e ↦ rw e (trim_left-twice cs)
  | inr e ↦ rw (e, e) refl
]

no_end : (a b : List ℕ) → is_empty (a ++ 59 ∷ b) ≡ false
no_end [] b = refl
no_end (c ∷ cs) b = refl

append-nil : (a : List ℕ) → a ++ [] ≡ a
append-nil [] = refl
append-nil (c ∷ cs) = ap (λ l. c ∷ l) (append-nil cs)

trim_right-append : (a b : List ℕ) → trim_right (a ++ 59 ∷ b) ≡ a ++ 59 ∷ trim_right b
unfolding trim_right is_space
trim_right-append [] b = refl
trim_right-append (c ∷ cs) b = elim (Bool-cases (is_space c)) [
  | inl e ↦ rw (e, trim_right-append cs b, no_end cs (trim_right b)) refl
  | inr e ↦ rw (e, trim_right-append cs b) refl
]

trim_space-append : (a b : List ℕ) → trim_space (a ++ 59 ∷ b) ≡ trim_left a ++ 59 ∷ trim_right b
trim_space-append a b = ap trim_right (trim_left-append a b) ∙ trim_right-append (trim_left a) b

abbrev IsOther : ℕ → Type 0
IsOther c = c ≢ 59

trim_left-IsOther : (a : List ℕ) → All IsOther a → All IsOther (trim_left a)
unfolding trim_left
trim_left-IsOther [] h = tt
trim_left-IsOther (c ∷ cs) h = elim (Bool-cases (is_space c)) [
  | inl e ↦ rw e (trim_left-IsOther cs h.1)
  | inr e ↦ rw e h
]

trim_right-IsOther : (a : List ℕ) → All IsOther a → All IsOther (trim_right a)
unfolding trim_right
trim_right-IsOther [] h = tt
trim_right-IsOther (c ∷ cs) h = elim (Bool-cases (is_space c && is_empty (trim_right cs))) [
  | inl e ↦ rw e tt
  | inr e ↦ rw e (h.0, trim_right-IsOther cs h.1)
]

no_semicolon : (a : List ℕ) → All IsOther a → has_semicolon a ≡ false
unfolding has_semicolon
no_semicolon [] h = refl
no_semicolon (c ∷ cs) (n, h) = rw (other c 59 n, no_semicolon cs h) refl

or_true : (b : Bool) → (b || true) ≡ true
or_true true = refl
or_true false = refl

semicolon : (a b : List ℕ) → has_semicolon (a ++ 59 ∷ b) ≡ true
unfolding has_semicolon
semicolon [] b = refl
semicolon (c ∷ cs) b = rw (semicolon cs b) (or_true (c == 59))

before_semicolon-append : (a b : List ℕ) → All IsOther a → before_semicolon (a ++ 59 ∷ b) ≡ a
unfolding before_semicolon
before_semicolon-append [] b h = refl
before_semicolon-append (c ∷ cs) b (n, h) = rw (other c 59 n, before_semicolon-append cs b h) refl

first_statement-alone : (a : List ℕ) → All IsOther a → first_statement a ≡ trim_space a
unfolding first_statement
first_statement-alone a h =
    rw (no_semicolon (trim_space a) (trim_right-IsOther (trim_left a) (trim_left-IsOther a h))) refl

-- A text up to its first semicolon is the first statement of the whole.
first_statement-append :
    (a b : List ℕ) → All IsOther a → first_statement (a ++ 59 ∷ b) ≡ first_statement a
unfolding first_statement
first_statement-append a b h =
    rw
      (
        first_statement-alone a h,
        trim_space-append a b,
        semicolon (trim_left a) (trim_right b),
        before_semicolon-append (trim_left a) (trim_right b) (trim_left-IsOther a h),
        trim_left-twice a,
      )
      refl

plain-IsOther : (a : List ℕ) → All IsPlain a → All IsOther a
plain-IsOther [] h = tt
plain-IsOther (c ∷ cs) (p, h) = (p.no_semicolon, plain-IsOther cs h)

strip-append :
    (a b : List ℕ)
    → All IsPlain a
    → strip_sql_comments (strip_control_chars (a ++ b))
      ≡ a ++ strip_sql_comments (strip_control_chars b)
unfolding strip_sql_comments
strip-append a b h =
    rw
      (
        strip_control_chars-append a b h,
        strip_lines-append a (strip_control_chars b) h,
        strip_blocks-append a (strip_lines false (strip_control_chars b)) h,
      )
      refl

strip-semicolon :
    (b : List ℕ)
    → strip_sql_comments (strip_control_chars (59 ∷ b))
      ≡ 59 ∷ strip_sql_comments (strip_control_chars b)
unfolding strip_sql_comments strip_control_chars is_kept strip_lines strip_blocks byte_text
strip-semicolon b = refl

strip-plain : (a : List ℕ) → All IsPlain a → strip_sql_comments (strip_control_chars a) ≡ a
unfolding strip_sql_comments strip_control_chars strip_lines strip_blocks
strip-plain a h =
    ap (λ t. strip_sql_comments (strip_control_chars t)) (sym (append-nil a))
    ∙ (strip-append a [] h ∙ append-nil a)

-- A query that starts with plain characters and a semicolon is classified as these characters alone are,
-- whatever follows them.
pub classify_query-append :
    (a b : List ℕ) → All IsPlain a → classify_query (a ++ 59 ∷ b) ≡ classify_query a
unfolding classify_query
classify_query-append a b h =
    ap (λ t. classify_statement (first_statement t))
      (strip-append a (59 ∷ b) h ∙ ap (λ t. a ++ t) (strip-semicolon b))
    ∙ (ap classify_statement (
          first_statement-append a (strip_sql_comments (strip_control_chars b)) (plain-IsOther a h))
        ∙ ap (λ t. classify_statement (first_statement t)) (sym (strip-plain a h)))
