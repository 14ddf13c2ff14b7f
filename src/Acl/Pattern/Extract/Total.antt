-- ===== src/Acl/Pattern/Extract/Total.antt =====
-- The `while` of AclPatternValidator in dino/validation/acl.py: each round lowers the number of
-- parentheses by one pair, so it ends.
use dino.Prelude.{ℕ, ◌+◌, true, List, ◌∷◌, ◌++◌, ◌≡◌, length}
use dino.Prelude.Text.{Text}
use dino.Prelude.Split.{Lacks}
use dino.Prelude.Result.{ok}
use dino.Acl.Pattern.{placeholder, extract, count_char, not_nested}
use dino.Acl.Pattern.Extract.{IsFlat}

-- As many parentheses close as open, and none stands inside another pair.
pub record IsBalanced (s : Text) : Type 0 where
  pub equal : count_char b'(' s ≡ count_char b')' s
  pub nested : not_nested 0 0 s ≡ true

record Group (s : Text) : Type 0 where
  before : Text
  inside : Text
  after : Text
  parts : s ≡ before ++ b'(' ∷ (inside ++ b')' ∷ after)
  flat_before : IsFlat before
  flat_inside : IsFlat inside
  nested : not_nested 0 0 after ≡ true

module _ (s : Text) (w : IsBalanced s) (g : Group s) (n : ℕ) where
  abbrev replaced : Text
  replaced = g.before ++ (placeholder n ++ g.after)

-- What the loop returns: no parenthesis is left, and each one that opened has its group.
pub record Extracts (fuel : ℕ) (groups : List Text) (s : Text) : Type 0 where
  pub found : List Text
  pub clause : Text
  pub returns : extract fuel groups s ≡ ok (found, clause)
  pub none_left : Lacks b'(' clause
  pub all_found : length found ≡ length groups + count_char b'(' s
