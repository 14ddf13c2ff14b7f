-- ===== src/Acl/Pattern/Clauses.antt =====
-- The meaning of a custom pattern without parentheses, of AclPatternValidator in
-- dino/validation/acl.py: an or of ands.
use dino.Prelude.{
  ℕ, suc, Bool, true, List, [], ◌∷◌, ◌≡◌, ◌↔◌, refl, arith, if◌then◌else◌, ltb, length, all, any,
  All,
}
use dino.Prelude.Text.{Text, split}
use dino.Prelude.Split.{Lacks, split-Lacks_sep, split-Lacks, split_if_has}
use dino.Prelude.Dict.{Dict}
use dino.Prelude.Result.{Result, ok, err}
use dino.Acl.{
  Reason, no_or_clause, no_and_clause, Exception, validation_exception, granted, denied, Validator,
}
use dino.Acl.Pattern.{
  Leaf, extract, test_clause, and_step, and_loop, or_loop, split_and_test, caught,
}

-- No separator and no at-sign: nothing but the clause itself is tested.
abbrev pub IsAtom : Text → Type 0
IsAtom a = Lacks b'@' a × Lacks b'|' a × Lacks b',' a

module _ (validators : Dict Validator) (leaf : Leaf) where
  -- The test of a clause raises nothing, and is granted if `holds` says so.
  abbrev pub Decides : (Text → Bool) → Text → Type 0
  Decides holds a =
      (r : Reason) × (test_clause validators leaf a ≡ ok (if holds a then granted else denied r))

  module _ (holds : Text → Bool) (recurse : List Text → Text → Result Exception (List Text)) where
    and_step-atom :
        (groups : List Text) (a : Text)
        → IsAtom a
        → Decides holds a
        → and_step validators leaf recurse groups a ≡ ok (holds a, groups)
    unfolding and_step
    and_step-atom groups a (no_at, no_bar, no_comma) (r, e) =
        rw (no_at, no_bar, no_comma, e) (ground arith)

    and_loop-atoms :
        (groups : List Text) (l : List Text)
        → All IsAtom l
        → All (Decides holds) l
        → and_loop validators leaf recurse groups l ≡ ok (all holds l, groups)
    unfolding and_loop
    and_loop-atoms groups [] p q = refl
    and_loop-atoms groups (a ∷ l) (p, ps) (q, qs) =
        rw (and_step-atom groups a p q) (ground (arith, and_loop-atoms groups l ps qs))

    or_loop-atoms :
        (last : Reason) (groups : List Text) (l : List Text)
        → All (λ o. All IsAtom (split b',' o)) l
        → All (λ o. All (Decides holds) (split b',' o)) l
        → or_loop validators leaf recurse last groups l ≡ (
            if any (λ o. all holds (split b',' o)) l
            then ok groups
            else err (validation_exception last))
    unfolding or_loop
    or_loop-atoms last groups [] p q = refl
    or_loop-atoms last groups (o ∷ l) (p, ps) (q, qs) =
        rw (split_if_has b',' o, and_loop-atoms groups (split b',' o) p q)
          (ground (arith, or_loop-atoms last groups l ps qs))

All-IsAtom :
    (l : List Text) → All (Lacks b'@') l → All (Lacks b'|') l → All (Lacks b',') l → All IsAtom l
All-IsAtom [] p q r = tt
All-IsAtom (a ∷ l) (p, ps) (q, qs) (r, rs) = ((p, q, r), All-IsAtom l ps qs rs)

ands-IsAtom :
    (l : List Text)
    → All (Lacks b'@') l
    → All (Lacks b'|') l
    → All (λ o. All IsAtom (split b',' o)) l
ands-IsAtom [] p q = tt
ands-IsAtom (o ∷ l) (p, ps) (q, qs) = (
  All-IsAtom (split b',' o) (split-Lacks b'@' b',' o p) (split-Lacks b'|' b',' o q)
      (split-Lacks_sep b',' o),
  ands-IsAtom l ps qs,
)

pub extract-no_parenthesis :
    (f : ℕ) (groups : List Text) (clause : Text)
    → Lacks b'(' clause
    → extract (suc f) groups clause ≡ ok (groups, clause)
unfolding extract
extract-no_parenthesis f groups clause h = rw h

module _ (validators : Dict Validator) (leaf : Leaf) where
  -- A pattern without parentheses and at-signs, each of whose clauses is decided without an
  -- exception, is tried as an or of ands: nothing is raised if an or-clause has all its and-clauses
  -- granted, and else the exception says that none had.
  pub split_and_test-clauses :
      (depth : ℕ) (groups : List Text) (clause : Text) (holds : Text → Bool)
      → Lacks b'(' clause
      → Lacks b'@' clause
      → All (λ o. All (Decides validators leaf holds) (split b',' o)) (split b'|' clause)
      → split_and_test validators leaf (suc depth) groups clause ≡ (
          if any (λ o. all holds (split b',' o)) (split b'|' clause)
          then ok groups
          else err (
              validation_exception
                (if ltb 1 (length (split b'|' clause)) then no_or_clause else no_and_clause)))
  unfolding split_and_test
  split_and_test-clauses depth groups clause holds no_open no_at decided =
      rw (extract-no_parenthesis (length clause) groups clause no_open, split_if_has b'|' clause)
        (or_loop-atoms validators leaf holds (split_and_test validators leaf depth) _ groups
          (split b'|' clause)
          (ands-IsAtom (split b'|' clause) (split-Lacks b'@' b'|' clause no_at)
            (split-Lacks_sep b'|' clause))
          decided)

  -- A pattern without parentheses and at-signs, each of whose clauses is decided without an
  -- exception, is granted by `__call__` exactly when the or of ands of its clauses holds.
  pub caught-clauses_iff :
      (depth : ℕ) (clause : Text) (holds : Text → Bool)
      → Lacks b'(' clause
      → Lacks b'@' clause
      → All (λ o. All (Decides validators leaf holds) (split b',' o)) (split b'|' clause)
      → (caught (split_and_test validators leaf (suc depth) [] clause) ≡ ok granted)
        ↔ (any (λ o. all holds (split b',' o)) (split b'|' clause) ≡ true)
  caught-clauses_iff depth clause holds no_open no_at decided =
      rw (split_and_test-clauses depth [] clause holds no_open no_at decided) (ground arith)
