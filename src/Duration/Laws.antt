-- ===== src/Duration/Laws.antt =====
-- What a validated duration lasts.
use dino.Prelude.{
  ℕ, ◌+◌, ◌*◌, ◌≤◌, ◌≡◌, refl, true, false, some, [], ◌∷◌, ◌++◌, arith, init, last_or, last_or-snoc,
  init-snoc, Bool-cases, inl, inr, ◌&&◌, leb, if◌then◌else◌,
}
use dino.Prelude.Text.{Text, str, starts_with}
use dino.Prelude.Int.{pos}
use dino.Prelude.Result.{ok, err}
use dino.Generic.{isdigit, is_digit}
use dino.Generic.Decimal.{show, isdigit-show}
use dino.Generic.Parse.{parse_int-show, parse_int-no_minus}
use dino.Duration.{
  is_valid_end, drop_plus, check_duration, validate_duration, unit_seconds, offset,
  ban_duration_to_datetime, datetime_at, last_second, overflow_error,
}

is_digit-isdigit : (s : Text) → isdigit s ≡ true → is_digit s ≡ true
unfolding is_digit isdigit
is_digit-isdigit [] h = cc
is_digit-isdigit (c ∷ s) h = ground arith

isdigit-ne-nil : isdigit [] ≡ true → ⊥
unfolding isdigit
isdigit-ne-nil h = cc

module _ (u : ℕ) (unit : is_valid_end u ≡ true) where
  no_sign :
      (s : Text)
      → isdigit s ≡ true
      → (starts_with (str "-") (s ++ u ∷ []) ≡ false) × (drop_plus (s ++ u ∷ []) ≡ s ++ u ∷ [])
  unfolding isdigit
  no_sign [] h = cc
  no_sign (c ∷ s) h = ground arith

  validate_duration-digits :
      (s : Text) → isdigit s ≡ true → validate_duration (some (s ++ u ∷ [])) ≡ ok tt
  unfolding validate_duration
  validate_duration-digits [] h = absurd (isdigit-ne-nil h)
  validate_duration-digits (c ∷ s) h =
      let (no_minus, no_plus) = no_sign (c ∷ s) h in
      rw (
        last_or-snoc c u s,
        unit,
        no_minus,
        no_plus,
        init-snoc u (c ∷ s),
        is_digit-isdigit (c ∷ s) h,
      )

  -- A plus and another sign in front of the digits: the validator strips the plus and accepts.
  validate_duration-two_signs :
      (s : Text) → isdigit s ≡ true → validate_duration (some (b'+' ∷ b'-' ∷ (s ++ u ∷ []))) ≡ ok tt
  unfolding validate_duration is_digit
  validate_duration-two_signs [] h = absurd (isdigit-ne-nil h)
  validate_duration-two_signs (c ∷ s) h = rw (last_or-snoc c u s, unit, init-snoc u (c ∷ s), h)

-- A number of units, as an operator writes it, ends so many seconds from now, for each of the
-- units d, h, m and s, up to the end of the year 9999, and raises an OverflowError beyond.
pub ban_duration_to_datetime-show :
    (now n u : ℕ)
    → is_valid_end u ≡ true
    → ban_duration_to_datetime now (some (show n ++ u ∷ [])) ≡ (
        if leb (now + unit_seconds u * n) last_second
        then ok (now + unit_seconds u * n)
        else err overflow_error)
unfolding ban_duration_to_datetime
ban_duration_to_datetime-show now n u unit = rw (
  validate_duration-digits u unit (show n) (isdigit-show n),
  last_or-snoc 0 u (show n),
  init-snoc u (show n),
  unit,
  is_digit-isdigit (show n) (isdigit-show n),
  parse_int-show n,
)

-- The guards of a validated duration.
check_duration-eq-ok :
    (d : Text)
    → check_duration d ≡ ok tt
    → (is_valid_end (last_or 0 d) ≡ true) × (starts_with (str "-") d ≡ false)
unfolding check_duration
check_duration-eq-ok d h = ground arith

init-no_minus :
    (d : Text) → starts_with (str "-") d ≡ false → starts_with (str "-") (init d) ≡ false
init-no_minus [] h = refl
init-no_minus (c ∷ []) h = refl
init-no_minus (c ∷ e ∷ d) h = h

offset_nonneg :
    (u : ℕ) (s : Text) → starts_with (str "-") s ≡ false → (m : ℕ) × (offset u s ≡ ok (pos m))
unfolding offset
offset_nonneg u s h = elim (Bool-cases (is_valid_end u && is_digit s)) [
  | inl taken ↦
      let (m, e) = parse_int-no_minus s (ground arith) h in (unit_seconds u * m, rw (taken, e))
  | inr left ↦ (0, rw left)
]

-- A duration that the validator accepts gives a date that is not in the past, or one after the year
-- 9999, for which an OverflowError is raised: `int` raises nothing behind it.
pub ban_duration_to_datetime_total :
    (now : ℕ) (d : Text)
    → validate_duration (some d) ≡ ok tt
    → (end : ℕ) × (ban_duration_to_datetime now (some d) ≡ datetime_at end) × (now ≤ end)
unfolding ban_duration_to_datetime
ban_duration_to_datetime_total now [] h = cc
ban_duration_to_datetime_total now (c ∷ d) h =
    let (m, e) =
      offset_nonneg (last_or 0 (c ∷ d)) (init (c ∷ d))
        (init-no_minus (c ∷ d) (check_duration-eq-ok (c ∷ d) h).1) in
    (now + m, rw (h, e), omega arith)

-- The hole in the guard: behind a plus a second sign is accepted, and the ban then lasts no time,
-- whatever its digits say, if there is a datetime for now.
pub ban_duration_to_datetime-two_signs :
    (now u : ℕ) (s : Text)
    → is_valid_end u ≡ true
    → isdigit s ≡ true
    → (validate_duration (some (b'+' ∷ b'-' ∷ (s ++ u ∷ []))) ≡ ok tt)
      × (ban_duration_to_datetime now (some (b'+' ∷ b'-' ∷ (s ++ u ∷ []))) ≡ datetime_at now)
unfolding ban_duration_to_datetime
ban_duration_to_datetime-two_signs now u [] unit h = absurd (isdigit-ne-nil h)
ban_duration_to_datetime-two_signs now u (c ∷ s) unit h =
    let accepted = validate_duration-two_signs u unit (c ∷ s) h in
    (
      accepted,
      rw (accepted, last_or-snoc c u s, unit, init-snoc u (c ∷ s))
          (unfold is_digit isdigit in ground arith),
    )
