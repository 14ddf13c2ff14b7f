-- ===== src/Prelude/Text.antt =====
-- Python's `str` as the list of its code points, and the methods of it that the program calls.
-- The tests of character classes are those of ASCII.
use Prim.Native.Char.{code}
use Prim.Native.String.{String}
use Prim.Native.Nat.{ℕ, ◌+◌}
use mathlib.Core.Path.{◌≡◌, refl, ap₂}
use mathlib.Core.Logic.{ite, dite}
use mathlib.Core.Bool.{Bool, true, false, ◌&&◌, ◌||◌, Bool-discrete}
use mathlib.Core.List.{List, [], ◌∷◌, ◌++◌}
use native.Mathlib.Omega.{arith}
use dino.Prelude.Tests.{eqb, leb, if◌then◌else◌}
use dino.Prelude.Lists.{any}

abbrev pub Text : Type 0
Text = List ℕ

-- A literal of the source.
abbrev pub str : String → Text
str String.[] = []
str (String.◌∷◌ c s) = code c ∷ str s

text_beq : Text → Text → Bool
text_beq [] [] = true
text_beq (a ∷ s) (b ∷ t) = eqb a b && text_beq s t
text_beq _ _ = false

text_beq_sound : (s t : Text) → text_beq s t ≡ true → s ≡ t
unfolding text_beq
text_beq_sound [] [] h = refl
text_beq_sound (a ∷ s) (b ∷ t) h =
    ap₂ (λ (x : ℕ) (xs : Text). x ∷ xs) (ground arith) (text_beq_sound s t (ground arith))
text_beq_sound [] (b ∷ t) h = cc
text_beq_sound (a ∷ s) [] h = cc

text_beq_refl : (s : Text) → text_beq s s ≡ true
unfolding text_beq
text_beq_refl [] = refl
text_beq_refl (a ∷ s) = ground (arith, text_beq_refl s)

-- Shut in proofs, where a split on `s == t` yields the equation or its negation.
unfoldable pub text_dec : Discrete Text
unfolding text_beq text_beq_sound text_beq_refl
text_dec s t =
    dite (Bool-discrete (text_beq s t) true) (λ same. yes (text_beq_sound s t same))
      (λ differ. no (λ p. differ (rw p (text_beq_refl t))))

infix 50 ◌==◌
abbrev pub ◌==◌ : Text → Text → Bool
s == t = ite (text_dec s t) true false

-- `s in l`
abbrev pub contains : List Text → Text → Bool
contains [] s = false
contains (t ∷ l) s = s == t || contains l s

pub contains-append :
    (l m : List Text) (u : Text) → contains (l ++ m) u ≡ (contains l u || contains m u)
contains-append [] m u = refl
contains-append (t ∷ l) m u = ground (arith, contains-append l m u)

-- `str.isspace` of a character
abbrev pub is_space : ℕ → Bool
is_space c = (leb 9 c && leb c 13) || (leb 28 c && leb c 32)

abbrev pub is_digit_char : ℕ → Bool
is_digit_char c = leb b'0' c && leb c b'9'

-- `len(s.strip()) == 0`
abbrev pub is_blank : Text → Bool
is_blank [] = true
is_blank (c ∷ s) = is_space c && is_blank s

abbrev pub strip_left : Text → Text
strip_left [] = []
strip_left (c ∷ s) = let rest = strip_left s in if is_space c then rest else c ∷ s

-- What `rstrip` leaves: a space goes if all behind it goes.
abbrev pub strip_right : Text → Text
strip_right [] = []
strip_right (c ∷ s) = if is_space c && is_blank s then [] else c ∷ strip_right s

abbrev pub strip : Text → Text
strip s = strip_right (strip_left s)

-- `str.lower`
abbrev pub lower_char : ℕ → ℕ
lower_char c = if leb b'A' c && leb c b'Z' then c + 32 else c

abbrev pub lower : Text → Text
lower [] = []
lower (c ∷ s) = lower_char c ∷ lower s

-- `c in s`, for one character
abbrev pub has_char : ℕ → Text → Bool
has_char c s = any (eqb c) s

abbrev pub cons_head : ℕ → List Text → List Text
cons_head c [] = (c ∷ []) ∷ []
cons_head c (t ∷ l) = (c ∷ t) ∷ l

-- `s.split(sep)`
unfoldable pub split : ℕ → Text → List Text
split sep [] = [] ∷ []
split sep (c ∷ s) = let rest = split sep s in if eqb sep c then [] ∷ rest else cons_head c rest

-- `sep.join(l)`
unfoldable pub join : ℕ → List Text → Text
join sep [] = []
join sep (t ∷ []) = t
join sep (t ∷ u ∷ l) = t ++ (sep ∷ join sep (u ∷ l))

abbrev pub starts_with : Text → Text → Bool
starts_with [] s = true
starts_with (c ∷ p) [] = false
starts_with (c ∷ p) (d ∷ s) = eqb c d && starts_with p s

-- `p in s`, for a text
abbrev pub has_part : Text → Text → Bool
has_part p [] = starts_with p []
has_part p (c ∷ s) = starts_with p (c ∷ s) || has_part p s
