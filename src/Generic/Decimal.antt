-- ===== src/Generic/Decimal.antt =====
-- Decimal numbers: what `is_digit` accepts `int` can read, and `int` reads back what `str` of a
-- number writes.
use dino.Prelude.{
  ℕ, zero, suc, ◌+◌, ◌-◌, ◌*◌, ◌/◌, ◌%◌, ◌≡◌, refl, ◌∙◌, ap, Bool, true, false, some, [], ◌∷◌, ◌++◌,
  arith, ltb, ◌<◌, if◌then◌else◌, all, Bool-cases, inl, inr,
}
use dino.Prelude.Text.{Text, is_digit_char}
use dino.Generic.{isdigit, digits}

-- `str(n)`, on fuel.
show_fuel : ℕ → ℕ → Text
show_fuel zero n = []
show_fuel (suc f) n =
    let rest = show_fuel f (n / 10) in
    if ltb n 10 then (b'0' + n) ∷ [] else rest ++ (b'0' + n % 10) ∷ []

-- `str(n)`. Each round divides by ten, so `n + 1` rounds are enough.
unfoldable pub show : ℕ → Text
unfolding show_fuel
show n = show_fuel (suc n) n

test_show : show 1205 ≡ 49 ∷ 50 ∷ 48 ∷ 53 ∷ []
unfolding show
test_show = refl

-- Reading goes on from any prefix of digits.
digits-append :
    (b : Bool) (n c : ℕ) (s : Text) (m : ℕ)
    → is_digit_char c ≡ true
    → digits b n s ≡ some m
    → digits b n (s ++ c ∷ []) ≡ some (m * 10 + (c - b'0'))
unfolding digits
digits-append b n c [] m d h = ground arith
digits-append b n c (e ∷ s) m d h = ground (
  arith,
  digits-append (is_digit_char e) (if is_digit_char e then n * 10 + (e - b'0') else n) c s m d,
)

digits-show_fuel : (f n : ℕ) → n < f → digits false 0 (show_fuel f n) ≡ some n
unfolding show_fuel
digits-show_fuel zero n h = elim h [ ]
digits-show_fuel (suc f) n h = elim (Bool-cases (ltb n 10)) [
  | inl small ↦ rw small (unfold digits in ground arith)
  | inr big ↦ rw big (
      digits-append false 0 (b'0' + n % 10) (show_fuel f (n / 10)) (n / 10) (ground arith)
        (digits-show_fuel f (n / 10) (ground arith))
      ∙ ap some (ground arith))
]

-- `int` reads back the digits of a number.
pub digits-show : (n : ℕ) → digits false 0 (show n) ≡ some n
unfolding show
digits-show n = digits-show_fuel (suc n) n (omega arith)

all-show_fuel : (f n : ℕ) → all is_digit_char (show_fuel f n) ≡ true
unfolding show_fuel
all-show_fuel zero n = refl
all-show_fuel (suc f) n = elim (Bool-cases (ltb n 10)) [
  | inl small ↦ rw small (ground arith)
  | inr big ↦ rw big (all_snoc (show_fuel f (n / 10)) (all-show_fuel f (n / 10)))
]
  where
    all_snoc :
        (s : Text)
        → all is_digit_char s ≡ true
        → all is_digit_char (s ++ (b'0' + n % 10) ∷ []) ≡ true
    all_snoc [] h = ground arith
    all_snoc (c ∷ s) h = ground (arith, all_snoc s)

pub all-show : (n : ℕ) → all is_digit_char (show n) ≡ true
unfolding show
all-show n = all-show_fuel (suc n) n

show_fuel-ne-nil : (f n : ℕ) → n < f → show_fuel f n ≡ [] → ⊥
unfolding show_fuel
show_fuel-ne-nil zero n h e = elim h [ ]
show_fuel-ne-nil (suc f) n h e = elim (Bool-cases (ltb n 10)) [
  | inl small ↦ cc (rw small at e)
  | inr big ↦ snoc (show_fuel f (n / 10)) (rw big at e)
]
  where
    snoc : (s : Text) → s ++ (b'0' + n % 10) ∷ [] ≡ [] → ⊥
    snoc [] k = cc
    snoc (c ∷ s) k = cc

pub isdigit-show : (n : ℕ) → isdigit (show n) ≡ true
unfolding isdigit
isdigit-show n = go (show n) (all-show n) (unfold show in show_fuel-ne-nil (suc n) n (omega arith))
  where
    go : (s : Text) → all is_digit_char s ≡ true → (s ≡ [] → ⊥) → isdigit s ≡ true
    go [] h k = absurd (k refl)
    go (c ∷ s) h k = h
