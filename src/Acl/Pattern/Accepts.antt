-- ===== src/Acl/Pattern/Accepts.antt =====
-- A hole in AclPatternValidator.validate_new_acl of dino/validation/acl.py: it stops at the first
-- or-clause that is well formed, so what stands behind a '|' is never looked at.
use dino.Prelude.{
  ℕ, suc, true, false, [], ◌∷◌, ◌++◌, ◌≡◌, refl, arith, length, Bool-cases, inl, inr,
}
use dino.Prelude.Text.{Text, has_char, is_blank}
use dino.Prelude.Split.{Lacks, split-append}
use dino.Prelude.Dict.{Dict}
use dino.Prelude.Result.{ok}
use dino.Acl.{granted, Validator}
use dino.Acl.Pattern.{
  Leaf, test_clause, and_step, and_loop, or_loop, split_and_test, matches_pattern, new_pattern,
}
use dino.Acl.Pattern.Clauses.{IsAtom, extract-no_parenthesis}

Lacks-is_blank : (s : Text) → has_char b'=' s ≡ true → is_blank s ≡ false
Lacks-is_blank [] h = cc
Lacks-is_blank (c ∷ s) h = ground (arith, Lacks-is_blank s)

has_char-append : (c : ℕ) (s t : Text) → has_char c s ≡ true → has_char c (s ++ t) ≡ true
has_char-append c [] t h = cc
has_char-append c (d ∷ s) t h = ground (arith, has_char-append c s t)

test_clause-has_equal :
    (validators : Dict Validator) (leaf : Leaf) (a : Text)
    → test_clause validators leaf a ≡ ok granted
    → has_char b'=' a ≡ true
unfolding test_clause
test_clause-has_equal validators leaf a h = elim (Bool-cases (has_char b'=' a)) [
  | inl found ↦ found
  | inr missing ↦ absurd (cc (rw missing at h))
]

has_bar : (a s : Text) → has_char b'|' (a ++ b'|' ∷ s) ≡ true
has_bar [] s = refl
has_bar (c ∷ a) s = ground (arith, has_bar a s)

module _ (validators : Dict Validator) (leaf : Leaf) (depth : ℕ) (a rest : Text) where
  first_or_clause :
      IsAtom a
      → Lacks b'(' (a ++ b'|' ∷ rest)
      → test_clause validators leaf a ≡ ok granted
      → split_and_test validators leaf (suc depth) [] (a ++ b'|' ∷ rest) ≡ ok []
  unfolding split_and_test or_loop and_loop and_step
  first_or_clause (no_at, no_bar, no_comma) flat passes = rw (
    extract-no_parenthesis (length (a ++ b'|' ∷ rest)) [] (a ++ b'|' ∷ rest) flat,
    has_bar a rest,
    split-append b'|' a rest no_bar,
    no_comma,
    no_at,
    no_bar,
    no_comma,
    passes,
  )

  -- Whatever stands behind a first or-clause that is a single clause, with no comma, bar or at-sign,
  -- and passes its test, is accepted with it, if only its characters are legal and it has no
  -- parenthesis: unknown acls, values that their validators reject, or no
  -- clause at all.
  pub new_pattern-first_or_clause :
      IsAtom a
      → test_clause validators leaf a ≡ ok granted
      → matches_pattern (a ++ b'|' ∷ rest) ≡ true
      → Lacks b'(' (a ++ b'|' ∷ rest)
      → Lacks b')' (a ++ b'|' ∷ rest)
      → new_pattern validators leaf (suc depth) (a ++ b'|' ∷ rest) ≡ ok tt
  unfolding new_pattern
  new_pattern-first_or_clause atom passes legal no_open no_close = rw (
    Lacks-is_blank (a ++ b'|' ∷ rest)
        (has_char-append b'=' a (b'|' ∷ rest) (test_clause-has_equal validators leaf a passes)),
    legal,
    no_open,
    no_close,
    first_or_clause atom no_open passes,
  )
