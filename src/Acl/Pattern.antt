-- ===== src/Acl/Pattern.antt =====
-- AclPatternValidator of dino/validation/acl.py: the language of the "custom" acl, clauses joined by
-- '|' and ',' with parentheses one deep, as in "gender=m|(age=:35,gender=!m)".
--
-- The dict `groups` has the keys 0, 1, …, so it is a list; it is shared by the recursion, so it is
-- passed on and comes back. Fuel stands for the recursion limit of Python, and bounds the `while`.
pub mod Extract
pub mod Clauses
pub mod Accepts
use dino.Prelude.{
  ℕ, zero, suc, ◌+◌, ◌-◌, Bool, true, false, not, ◌&&◌, ◌||◌, Option, none, some, List, [], ◌∷◌,
  ◌++◌, eqb, ltb, if◌then◌else◌, length, take, drop, get_elem?, last_or, init, all,
}
use dino.Prelude.Text.{Text, ◌==◌, str, split, has_char, is_blank, is_digit_char}
use dino.Prelude.Dict.{Dict, lookup}
use dino.Prelude.Int.{ℤ, pos, negsuc}
use dino.Prelude.Result.{Result, ok, err, ◌>>=◌, ◌>>◌, guard}
use dino.Generic.{parse_int}
use dino.Generic.Decimal.{show}
use dino.Acl.{
  Reason, no_equal_sign, equal_sign_mismatch, invalid_acl, nested_custom, mismatched_at_signs,
  no_or_clause, no_and_clause, blank_pattern, pattern_mismatch, parenthesis_mismatch,
  nested_parenthesis, Exception, validation_exception, value_error, index_error, key_error,
  recursion_error, diverged, Verdict, granted, denied, Check, Validator, Env,
}

-- `s.index(c)`
unfoldable pub index? : ℕ → Text → Option ℕ
index? c [] = none
index? c (d ∷ s) =
    let rest = index? c s in
    if eqb c d then some 0 else elim rest [ none ↦ none | some i ↦ some (suc i) ]

abbrev pub or_raise {ℓ} : {A : Type ℓ} → Exception → Option A → Result Exception A
or_raise e none = err e
or_raise e (some a) = ok a

-- '@%s@' % pos
abbrev pub placeholder : ℕ → Text
placeholder n = b'@' ∷ (show n ++ b'@' ∷ [])

-- One round of `while '(' in clause`.
unfoldable pub extract_round : List Text → Text → Result Exception (List Text × Text)
unfolding index?
extract_round groups clause = do
  start ← or_raise value_error (index? b'(' clause)
  end ← or_raise value_error (index? b')' clause)
  ok (
    groups ++ take (end - (start + 1)) (drop (start + 1) clause) ∷ [],
    take start clause ++ (placeholder (length groups) ++ drop (end + 1) clause),
  )

unfoldable pub extract : ℕ → List Text → Text → Result Exception (List Text × Text)
extract zero groups clause = err diverged
extract (suc fuel) groups clause =
    let rest = extract_round groups clause >>= λ r. extract fuel r.0 r.1 in
    if has_char b'(' clause then rest else ok (groups, clause)

abbrev pub count_char : ℕ → Text → ℕ
count_char c [] = 0
count_char c (d ∷ s) = if eqb c d then suc (count_char c s) else count_char c s

abbrev pub first_or : ℕ → Text → ℕ
first_or d [] = d
first_or d (c ∷ s) = c

abbrev pub group_at : List Text → ℤ → Result Exception Text
group_at groups (pos n) = or_raise key_error (get_elem? groups n)
group_at groups (negsuc n) = err key_error

-- A clause with an at-sign stands for its group.
unfoldable pub resolve : List Text → Text → Result Exception Text
resolve groups clause =
    if has_char b'@' clause
    then (if not (eqb (first_or 0 clause) b'@')
          || not (eqb (last_or 0 clause) b'@')
          || not (eqb (count_char b'@' clause) 2)
        then err (validation_exception mismatched_at_signs)
        else do n ← or_raise value_error (parse_int (init (drop 1 clause))); group_at groups n)
    else ok clause

abbrev pub two_parts : List Text → Result Exception (Text × Text)
two_parts (a ∷ b ∷ []) = ok (a, b)
two_parts _ = err (validation_exception equal_sign_mismatch)

-- What is done with a validator, its acl type and value, and whether the value is negated: it is
-- called for a user's action, and its `validate_new_acl` is called for a new rule.
abbrev pub Leaf : Type 0
Leaf = Validator → Text → Text → Bool → Check

abbrev pub negation : Text → Result Exception (Text × Bool)
negation [] = err index_error
negation (c ∷ s) = ok (if eqb c b'!' then (s, true) else (c ∷ s, false))

module _ (validators : Dict Validator) (leaf : Leaf) where
  -- AclPatternValidator._test_a_clause
  unfoldable pub test_clause : Text → Check
  test_clause clause = do
    guard (has_char b'=' clause) (validation_exception no_equal_sign)
    parts ← two_parts (split b'=' clause)
    validator ← or_raise (validation_exception invalid_acl) (lookup parts.0 validators)
    guard (not (parts.0 == str "custom")) (validation_exception nested_custom)
    value ← negation parts.1
    leaf validator parts.0 value.0 value.1

  -- One round of the loop over the and-clauses: whether it goes on, and the groups.
  unfoldable pub and_step :
      (List Text → Text → Result Exception (List Text))
      → List Text
      → Text
      → Result Exception (Bool × List Text)
  unfolding resolve
  and_step recurse groups and_clause = do
    clause ← resolve groups and_clause
    if has_char b'|' clause || has_char b',' clause
        then (recurse groups clause >>= λ g. ok (true, g))
        else (test_clause clause >>= λ v. elim v [
          | granted ↦ ok (true, groups)
          | denied _ ↦ ok (false, groups)
        ])

  unfoldable pub and_loop :
      (List Text → Text → Result Exception (List Text))
      → List Text
      → List Text
      → Result Exception (Bool × List Text)
  and_loop recurse groups [] = ok (true, groups)
  and_loop recurse groups (c ∷ clauses) = do
    r ← and_step recurse groups c
    elim r.0 [ true ↦ and_loop recurse r.1 clauses | false ↦ ok (false, r.1) ]

  -- The loop over the or-clauses returns at the first whose and-clauses are all granted. `last` is
  -- what is raised after it.
  unfoldable pub or_loop :
      (List Text → Text → Result Exception (List Text))
      → Reason
      → List Text
      → List Text
      → Result Exception (List Text)
  or_loop recurse last groups [] = err (validation_exception last)
  or_loop recurse last groups (c ∷ clauses) = do
    r ← and_loop recurse groups (if has_char b',' c then split b',' c else c ∷ [])
    elim r.0 [ true ↦ ok r.1 | false ↦ or_loop recurse last r.1 clauses ]

  abbrev pub or_clauses : Text → List Text
  or_clauses clause = if has_char b'|' clause then split b'|' clause else clause ∷ []

  -- AclPatternValidator._split_and_test_clause
  unfoldable pub split_and_test : ℕ → List Text → Text → Result Exception (List Text)
  unfolding extract
  split_and_test zero groups clause = err recursion_error
  split_and_test (suc depth) groups clause = do
    r ← extract (suc (length clause)) groups clause
    or_loop (split_and_test depth)
        (if ltb 1 (length (or_clauses r.1)) then no_or_clause else no_and_clause) r.0
        (or_clauses r.1)

-- AclPatternValidator.__call__ catches the exception of the class ValidationException.
abbrev pub caught : Result Exception (List Text) → Check
caught (ok _) = ok granted
caught (err (validation_exception r)) = ok (denied r)
caught (err e) = err e

-- The characters of '^[0-9a-z!\|,\(\):=_]*$'; the '$' lets one newline stand at the end.
abbrev pub is_pattern_char : ℕ → Bool
is_pattern_char c =
    is_digit_char c
    || (if ltb c b'a' then false else not (ltb b'z' c))
    || eqb c b'!'
    || eqb c b'|'
    || eqb c b','
    || eqb c b'('
    || eqb c b')'
    || eqb c b':'
    || eqb c b'='
    || eqb c b'_'

unfoldable pub matches_pattern : Text → Bool
matches_pattern s = all is_pattern_char s || (eqb (last_or 0 s) 10 && all is_pattern_char (init s))

-- The loop over the characters: `opened` and `closed` never differ by more than one, and no
-- parenthesis closes before it opens.
unfoldable pub not_nested : ℕ → ℕ → Text → Bool
not_nested opened closed [] = true
not_nested opened closed (c ∷ s) =
    let opened' = if eqb c b'(' then opened + 1 else opened in
    let closed' = if eqb c b')' && not (eqb c b'(') then closed + 1 else closed in
    not (ltb (closed' + 1) opened' || ltb opened' closed') && not_nested opened' closed' s

-- AclPatternValidator.validate_new_acl up to the clauses themselves
unfoldable pub check_parentheses : Text → Result Exception (Unit {0})
unfolding not_nested
check_parentheses values =
    if has_char b'(' values || has_char b')' values
    then (guard (eqb (count_char b'(' values) (count_char b')' values))
          (validation_exception parenthesis_mismatch)
        >> guard (not_nested 0 0 values) (validation_exception nested_parenthesis))
    else ok tt

-- AclPatternValidator.validate_new_acl
unfoldable pub new_pattern : Dict Validator → Leaf → ℕ → Text → Result Exception (Unit {0})
unfolding check_parentheses matches_pattern
new_pattern validators leaf depth values = do
  guard (not (is_blank values)) (validation_exception blank_pattern)
  guard (matches_pattern values) (validation_exception pattern_mismatch)
  check_parentheses values
  split_and_test validators leaf depth [] values
  ok tt
