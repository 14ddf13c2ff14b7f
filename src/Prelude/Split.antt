-- ===== src/Prelude/Split.antt =====
-- What `str.split` leaves in its parts.
use dino.Prelude.Tests.{eqb, if◌then◌else◌, Bool-cases}
use dino.Prelude.Lists.{All}
use dino.Prelude.Text.{Text, split, join, has_char, cons_head}
use Prim.Native.Nat.{ℕ}
use mathlib.Core.Path.{◌≡◌, refl, ap, ◌∙◌}
use mathlib.Core.Logic.{inl, inr}
use mathlib.Core.Bool.{false}
use mathlib.Core.List.{List, [], ◌∷◌, ◌++◌}
use native.Mathlib.Omega.{arith}

-- A text without the character `c`.
abbrev pub Lacks : ℕ → Text → Type 0
Lacks c s = has_char c s ≡ false

cons_head-Lacks :
    (c d : ℕ) (l : List Text) → eqb c d ≡ false → All (Lacks c) l → All (Lacks c) (cons_head d l)
cons_head-Lacks c d [] h k = (rw h, tt)
cons_head-Lacks c d (s ∷ l) h (p, k) = (rw h p, k)

-- The parts lack the separator.
pub split-Lacks_sep : (sep : ℕ) (s : Text) → All (Lacks sep) (split sep s)
unfolding split
split-Lacks_sep sep [] = (refl, tt)
split-Lacks_sep sep (c ∷ s) = elim (Bool-cases (eqb sep c)) [
  | inl same ↦ rw same (refl, split-Lacks_sep sep s)
  | inr other ↦ rw other (cons_head-Lacks sep c (split sep s) other (split-Lacks_sep sep s))
]

-- What the text lacks its parts lack.
pub split-Lacks : (c sep : ℕ) (s : Text) → Lacks c s → All (Lacks c) (split sep s)
unfolding split
split-Lacks c sep [] h = (refl, tt)
split-Lacks c sep (d ∷ s) h =
    let differs : eqb c d ≡ false = ground arith in
    let rest : Lacks c s = ground arith in
    elim (Bool-cases (eqb sep d)) [
      | inl same ↦ rw same (refl, split-Lacks c sep s rest)
      | inr other ↦ rw other (cons_head-Lacks c d (split sep s) differs (split-Lacks c sep s rest))
    ]

pub split_of_Lacks : (sep : ℕ) (s : Text) → Lacks sep s → split sep s ≡ s ∷ []
unfolding split
split_of_Lacks sep [] h = refl
split_of_Lacks sep (c ∷ s) h =
    let differs : eqb sep c ≡ false = ground arith in
    rw (differs, split_of_Lacks sep s (ground arith))

-- `[s]`, or `s.split(sep)` if the separator is in it, is the split in either case.
pub split_if_has :
    (sep : ℕ) (s : Text) → (if has_char sep s then split sep s else s ∷ []) ≡ split sep s
split_if_has sep s = elim (Bool-cases (has_char sep s)) [
  | inl found ↦ rw found
  | inr missing ↦ rw (missing, split_of_Lacks sep s missing)
]

-- Up to the first separator.
pub split-append : (sep : ℕ) (s t : Text) → Lacks sep s → split sep (s ++ sep ∷ t) ≡ s ∷ split sep t
unfolding split
split-append sep [] t h = ground arith
split-append sep (c ∷ s) t h =
    let differs : eqb sep c ≡ false = ground arith in
    rw (differs, split-append sep s t (ground arith)) refl

-- Parts without the separator are read back.
pub split-join :
    (sep : ℕ) (s : Text) (l : List Text)
    → All (Lacks sep) (s ∷ l)
    → split sep (join sep (s ∷ l)) ≡ s ∷ l
unfolding join
split-join sep s [] (h, _) = split_of_Lacks sep s h
split-join sep s (t ∷ l) (h, k) =
    split-append sep s (join sep (t ∷ l)) h ∙ ap (λ p. s ∷ p) (split-join sep t l k)
