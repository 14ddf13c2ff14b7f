-- ===== src/Generic/Parse.antt =====
-- What `is_digit` accepts `int` reads, and `int` reads back what `str` wrote.
use dino.Prelude.{
  ℕ, ◌≡◌, refl, true, false, not, some, [], ◌∷◌, arith, ◌+◌, ◌-◌, ◌*◌, all, Bool-cases, inl, inr,
  eqb, ◌||◌, if◌then◌else◌,
}
use dino.Prelude.Text.{Text, is_digit_char, is_space, strip, strip_right, str, starts_with}
use dino.Prelude.Int.{ℤ, pos, neg_ℕ}
use dino.Generic.{isdigit, is_digit, digits, parse_int}
use dino.Generic.Decimal.{show, digits-show, isdigit-show}

abbrev pub HasNoSpace : Text → Type 0
HasNoSpace s = all (λ c. not (is_space c)) s ≡ true

strip_right-HasNoSpace : (s : Text) → HasNoSpace s → strip_right s ≡ s
strip_right-HasNoSpace [] h = refl
strip_right-HasNoSpace (c ∷ s) h = ground (arith, strip_right-HasNoSpace s)

pub strip-HasNoSpace : (s : Text) → HasNoSpace s → strip s ≡ s
strip-HasNoSpace [] h = refl
strip-HasNoSpace (c ∷ s) h = ground (arith, strip_right-HasNoSpace (c ∷ s))

pub digits-HasNoSpace : (s : Text) → all is_digit_char s ≡ true → HasNoSpace s
digits-HasNoSpace [] h = refl
digits-HasNoSpace (c ∷ s) h = ground (arith, digits-HasNoSpace s)

digits_total :
    (s : Text) (n : ℕ) → all is_digit_char s ≡ true → (m : ℕ) × (digits true n s ≡ some m)
unfolding digits
digits_total [] n h = (n, refl)
digits_total (c ∷ s) n h =
    let is_one : is_digit_char c ≡ true = ground arith in
    let (m, e) = digits_total s (n * 10 + (c - b'0')) (ground arith) in (m, rw is_one e)

pub digits-isdigit : (s : Text) → isdigit s ≡ true → (m : ℕ) × (digits false 0 s ≡ some m)
unfolding isdigit digits
digits-isdigit [] h = cc
digits-isdigit (c ∷ s) h =
    let is_one : is_digit_char c ≡ true = ground arith in
    let (m, e) = digits_total s (0 * 10 + (c - b'0')) (ground arith) in (m, rw is_one e)

pub all-isdigit : (s : Text) → isdigit s ≡ true → all is_digit_char s ≡ true
unfolding isdigit
all-isdigit [] h = cc
all-isdigit (c ∷ s) h = h

-- The text of digits alone is read as the number that they write.
pub parse_int-digits :
    (s : Text) (m : ℕ) → isdigit s ≡ true → digits false 0 s ≡ some m → parse_int s ≡ some (pos m)
unfolding parse_int
parse_int-digits [] m h e = cc
parse_int-digits (c ∷ s) m h e =
    rw (strip-HasNoSpace (c ∷ s) (digits-HasNoSpace (c ∷ s) (all-isdigit (c ∷ s) h)))
      (unfold isdigit in ground arith)

pub parse_int-show : (n : ℕ) → parse_int (show n) ≡ some (pos n)
parse_int-show n = parse_int-digits (show n) n (isdigit-show n) (digits-show n)

signed_total : (c : ℕ) (s : Text) → is_digit (c ∷ s) ≡ true → (z : ℤ) × (parse_int (c ∷ s) ≡ some z)
unfolding is_digit
signed_total c s h = elim (Bool-cases (eqb c b'-' || eqb c b'+')) [
  | inl sign ↦
      let ds : isdigit s ≡ true = rw sign at h in
      let (m, e) = digits-isdigit s ds in
      let no_space : HasNoSpace (c ∷ s) = ground (arith, digits-HasNoSpace s, all-isdigit s) in
      (
        (if eqb c b'-' then neg_ℕ m else pos m),
        (unfold parse_int in rw (strip-HasNoSpace (c ∷ s) no_space) (ground arith)),
      )
  | inr no_sign ↦
      let ds : isdigit (c ∷ s) ≡ true = rw no_sign at h in
      let (m, e) = digits-isdigit (c ∷ s) ds in (pos m, parse_int-digits (c ∷ s) m ds e)
]

-- `int` raises nothing at a text that `is_digit` accepts.
pub parse_int-is_digit : (s : Text) → is_digit s ≡ true → (z : ℤ) × (parse_int s ≡ some z)
unfolding is_digit
parse_int-is_digit [] h = cc
parse_int-is_digit (c ∷ s) h = signed_total c s h

-- With no minus in front the number is not negative.
pub parse_int-no_minus :
    (s : Text)
    → is_digit s ≡ true
    → starts_with (str "-") s ≡ false
    → (m : ℕ) × (parse_int s ≡ some (pos m))
unfolding is_digit
parse_int-no_minus [] h k = cc
parse_int-no_minus (c ∷ s) h k = elim (Bool-cases (eqb c b'+')) [
  | inl sign ↦
      let ds : isdigit s ≡ true = ground arith in
      let (m, e) = digits-isdigit s ds in
      let no_space : HasNoSpace (c ∷ s) = ground (arith, digits-HasNoSpace s, all-isdigit s) in
      (m, (unfold parse_int in rw (strip-HasNoSpace (c ∷ s) no_space) (ground arith)))
  | inr no_sign ↦
      let ds : isdigit (c ∷ s) ≡ true = ground arith in
      let (m, e) = digits-isdigit (c ∷ s) ds in (m, parse_int-digits (c ∷ s) m ds e)
]
