-- ===== src/Tests/Patterns.antt =====
-- Custom acl patterns at concrete inputs.
use dino.Prelude.{Bool, true, [], ◌∷◌, ◌++◌, ◌≡◌, refl, ltb, if◌then◌else◌, length, any, all, All}
use dino.Prelude.Text.{Text, ◌==◌, text_dec, split, str}
use dino.Prelude.Dict.{lookup}
use dino.Prelude.Result.{ok, err}
use dino.Acl.{granted, denied, no_or_clause, no_and_clause, validation_exception, not_in_values}
use dino.Acl.Pattern.{Leaf, test_clause, split_and_test, matches_pattern, new_pattern}
use dino.Acl.Pattern.Clauses.{Decides, split_and_test-clauses}
use dino.Acl.Pattern.Accepts.{new_pattern-first_or_clause}
use dino.Tests.Acls.{env}

-- Grants the value 'f' alone.
abbrev f_only : Leaf
f_only v acl_type value negated = ok (if value == str "f" then granted else denied not_in_values)

abbrev f_holds : Text → Bool
f_holds a = a == str "gender=f"

f-Decides : Decides env.validators f_only f_holds (str "gender=f")
unfolding test_clause split lookup text_dec
f-Decides = (not_in_values, refl)

m-Decides : Decides env.validators f_only f_holds (str "gender=m")
unfolding test_clause split lookup text_dec
m-Decides = (not_in_values, refl)

clauses-Decides :
    All
      (λ o. All (Decides env.validators f_only f_holds) (split b',' o))
      (split b'|' (str "gender=m|gender=f"))
unfolding split
clauses-Decides = ((m-Decides, tt), ((f-Decides, tt), tt))

split_and_test-clauses_example :
    split_and_test env.validators f_only 3 [] (str "gender=m|gender=f") ≡ (
      if any (λ o. all f_holds (split b',' o)) (split b'|' (str "gender=m|gender=f"))
      then ok []
      else err (
          validation_exception (
            if ltb 1 (length (split b'|' (str "gender=m|gender=f")))
            then no_or_clause
            else no_and_clause)))
split_and_test-clauses_example =
    split_and_test-clauses env.validators f_only 2 [] (str "gender=m|gender=f") f_holds refl refl
      clauses-Decides

f_is_granted : test_clause env.validators f_only (str "gender=f") ≡ ok granted
unfolding test_clause split lookup text_dec
f_is_granted = refl

matches : matches_pattern (str "gender=f" ++ b'|' ∷ str "unknown") ≡ true
unfolding matches_pattern
matches = refl

new_pattern-first_or_clause_example :
    new_pattern env.validators f_only 3 (str "gender=f" ++ b'|' ∷ str "unknown") ≡ ok tt
new_pattern-first_or_clause_example =
    new_pattern-first_or_clause env.validators f_only 2 (str "gender=f") (str "unknown")
      (refl, refl, refl) f_is_granted matches refl refl
