-- ===== src/Acl/Range.antt =====
-- What AclRangeValidator of dino/validation/acl.py decides, and that it can decide every range that
-- its `validate_new_acl` accepts.
use dino.Prelude.{
  Bool, true, false, Option, none, some, [], ◌∷◌, ◌≡◌, ◌≢◌, ◌↔◌, refl, ap, arith, Option-cases, inl,
  inr, ◌⊎◌,
}
use dino.Prelude.Text.{Text, is_blank}
use dino.Prelude.Dict.{lookup}
use dino.Prelude.Int.{ℤ, ◌≤ℤ◌}
use dino.Prelude.Result.{ok}
use dino.Generic.{parse_int}
use dino.Generic.Parse.{parse_int-is_digit}
use dino.Acl.{Verdict, granted, Env}
use dino.Acl.Validators.{
  split_once, range_end, check_range, check_session_value, call_range, is_end, new_range,
}

-- The end that a text names: none for the empty text.
abbrev pub ReadsEnd : Text → Option ℤ → Type 0
ReadsEnd s e = range_end s ≡ ok e

-- `range` is the text of the two ends around its first colon.
pub record ReadsAs (range : Text) (lo hi : Option ℤ) : Type 0 where
  pub left : Text
  pub right : Text
  pub parts : split_once b':' range ≡ some (left, right)
  pub reads_left : ReadsEnd left lo
  pub reads_right : ReadsEnd right hi

abbrev pub AtLeast : Option ℤ → ℤ → Type 0
AtLeast none v = Unit
AtLeast (some lo) v = lo ≤ℤ v

abbrev pub AtMost : Option ℤ → ℤ → Type 0
AtMost none v = Unit
AtMost (some hi) v = v ≤ℤ hi

-- The value lies between the ends that are given.
abbrev pub InRange : Option ℤ → Option ℤ → ℤ → Type 0
InRange lo hi v = AtLeast lo v × AtMost hi v

check_range_iff :
    (lo hi : Option ℤ) (v : ℤ) → (check_range lo hi v false ≡ granted) ↔ InRange lo hi v
unfolding check_range
check_range_iff none none v = ((λ _. (tt, tt)), λ _. refl)
check_range_iff none (some hi) v = ((λ h. (tt, ground arith)), λ h. ground arith)
check_range_iff (some lo) none v = ((λ h. (ground arith, tt)), λ h. ground arith)
check_range_iff (some lo) (some hi) v = ((λ h. (ground arith, ground arith)), λ h. ground arith)

check_range_negated :
    (lo hi : Option ℤ) (v : ℤ)
    → (lo ≢ none) ⊎ (hi ≢ none)
    → (check_range lo hi v true ≡ granted) ↔ (¬ (check_range lo hi v false ≡ granted))
unfolding check_range
check_range_negated none none v (inl h) = absurd (h refl)
check_range_negated none none v (inr h) = absurd (h refl)
check_range_negated none (some hi) v h = ground arith
check_range_negated (some lo) none v h = ground arith
check_range_negated (some lo) (some hi) v h = ground arith

end_reads : (s : Text) → is_end s ≡ true → (e : Option ℤ) × ReadsEnd s e
unfolding range_end
end_reads [] h = (none, refl)
end_reads (c ∷ s) h =
    let (z, read) = parse_int-is_digit (c ∷ s) (ground arith) in (some z, rw (read, range_end))

-- An accepted range is not blank, and both its ends can be read.
pub new_range-ReadsAs :
    (r : Text) → new_range r ≡ ok tt → (lo hi : Option ℤ) × ReadsAs r lo hi × (is_blank r ≡ false)
unfolding new_range
new_range-ReadsAs r h = elim (Option-cases (split_once b':' r)) [
  | inl missing ↦ absurd (ground arith)
  | inr ((l, u), found) ↦
      let (lo, reads_l) = end_reads l (ground arith) in
      let (hi, reads_u) = end_reads u (ground arith) in
      (
        lo,
        hi,
        record { left = l; right = u; parts = found; reads_left = reads_l; reads_right = reads_u },
        ground arith,
      )
]

module _ (env : Env) (acl_type r : Text) (full : is_blank r ≡ false) where
  call_range-ReadsAs :
      (lo hi : Option ℤ) (negated : Bool)
      → ReadsAs r lo hi
      → call_range env acl_type r negated
        ≡ ok (check_session_value lo hi (lookup acl_type env.session) negated)
  unfolding call_range
  call_range-ReadsAs lo hi negated w = rw (full, w.parts, w.reads_left, w.reads_right)

  module _ (lo hi : Option ℤ) (w : ReadsAs r lo hi) (s : Text) (v : ℤ)
      (held : lookup acl_type env.session ≡ some s) (given : is_blank s ≡ false)
      (number : parse_int s ≡ some v) where
    call_range-number :
        (negated : Bool) → call_range env acl_type r negated ≡ ok (check_range lo hi v negated)
    unfolding check_session_value
    call_range-number negated = rw (call_range-ReadsAs lo hi negated w, held, given, number)

-- A range that `validate_new_acl` accepted always gives a verdict afterwards, whatever the session
-- holds: the check raises nothing.
pub call_range_total :
    (env : Env) (acl_type r : Text) (negated : Bool)
    → new_range r ≡ ok tt
    → (v : Verdict) × (call_range env acl_type r negated ≡ ok v)
call_range_total env acl_type r negated h =
    let (lo, hi, w, full) = new_range-ReadsAs r h in
    (
      check_session_value lo hi (lookup acl_type env.session) negated,
      call_range-ReadsAs env acl_type r full lo hi negated w,
    )

-- A session with a number is granted exactly when the number lies between the ends that the range
-- names; an end that is left out bounds nothing.
pub call_range_iff :
    (env : Env) (acl_type r : Text) (lo hi : Option ℤ) (s : Text) (v : ℤ)
    → is_blank r ≡ false
    → ReadsAs r lo hi
    → lookup acl_type env.session ≡ some s
    → is_blank s ≡ false
    → parse_int s ≡ some v
    → (call_range env acl_type r false ≡ ok granted) ↔ InRange lo hi v
call_range_iff env acl_type r lo hi s v full w held given number =
    rw (call_range-number env acl_type r full lo hi w s v held given number false)
      ((λ h. (check_range_iff lo hi v).0 (cc)), λ h. ap ok ((check_range_iff lo hi v).1 h))

-- If the range names an end at least, its negation grants exactly the numbers that it does not.
pub call_range_negated :
    (env : Env) (acl_type r : Text) (lo hi : Option ℤ) (s : Text) (v : ℤ)
    → (lo ≢ none) ⊎ (hi ≢ none)
    → is_blank r ≡ false
    → ReadsAs r lo hi
    → lookup acl_type env.session ≡ some s
    → is_blank s ≡ false
    → parse_int s ≡ some v
    → (call_range env acl_type r true ≡ ok granted)
      ↔ (¬ (call_range env acl_type r false ≡ ok granted))
call_range_negated env acl_type r lo hi s v bounded full w held given number =
    rw
      (
        call_range-number env acl_type r full lo hi w s v held given number true,
        call_range-number env acl_type r full lo hi w s v held given number false,
      )
      (ground (arith, check_range_negated lo hi v bounded))
