-- ===== src/Generic.antt =====
-- dino/validation/generic.py, and Python's `int` of a text, which its callers use after it.
pub mod Decimal
pub mod Parse
use dino.Prelude.{
  ℕ, zero, ◌+◌, ◌-◌, ◌*◌, Bool, true, false, ◌&&◌, ◌||◌, Option, none, some, [], ◌∷◌, eqb,
  if◌then◌else◌, all,
}
use dino.Prelude.Text.{Text, is_digit_char, strip}
use dino.Prelude.Int.{ℤ, pos, neg_ℕ}
use mathlib.Core.Option

-- `str.isdigit`
unfoldable pub isdigit : Text → Bool
isdigit [] = false
isdigit (c ∷ s) = all is_digit_char (c ∷ s)

-- `GenericValidator.is_digit`, at a text.
unfoldable pub is_digit : Text → Bool
unfolding isdigit
is_digit [] = false
is_digit (c ∷ s) = if eqb c b'-' || eqb c b'+' then isdigit s else isdigit (c ∷ s)

-- The digits of `int`, one underscore allowed between two of them; `prev` says that a digit came
-- last.
unfoldable pub digits : Bool → ℕ → Text → Option ℕ
digits prev n [] = if prev then some n else none
digits prev n (c ∷ s) =
    if is_digit_char c || (eqb c b'_' && prev)
    then digits (is_digit_char c) (if is_digit_char c then n * 10 + (c - b'0') else n) s
    else none

-- `int` behind its sign.
unfoldable pub signed : Text → Option ℤ
unfolding digits
signed [] = none
signed (c ∷ s) =
    if eqb c b'-'
    then Option.map neg_ℕ (digits false 0 s)
    else if eqb c b'+'
    then Option.map pos (digits false 0 s)
    else Option.map pos (digits false 0 (c ∷ s))

-- `int(s)`; `none` is the `ValueError`.
unfoldable pub parse_int : Text → Option ℤ
unfolding signed
parse_int s = signed (strip s)
