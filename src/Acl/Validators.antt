-- ===== src/Acl/Validators.antt =====
-- The validator classes of dino/validation/acl.py, but for the custom pattern: `__call__`, which
-- checks an activity, and `validate_new_acl`, which checks a value that someone sets.
use dino.Prelude.{
  ℕ, Bool, true, false, not, ◌&&◌, ◌||◌, Option, none, some, List, [], ◌∷◌, eqb, if◌then◌else◌, any,
  all,
}
use dino.Prelude.Text.{Text, ◌==◌, contains, is_blank, split, has_char, lower}
use dino.Prelude.Dict.{Dict, lookup}
use dino.Prelude.Int.{ℤ, leb_ℤ}
use dino.Prelude.Result.{Result, ok, err, ◌>>=◌, ◌>>◌, guard}
use dino.Generic.{is_digit, parse_int}
use dino.Acl.{
  Reason, is_admin_negated, not_admin, is_owner_negated, not_owner, is_super_user_negated,
  not_super_user, no_origin_channel, no_target_channel, same_channels, other_channel,
  no_origin_room, no_target_room, not_in_room, same_rooms, other_room, no_session_value,
  in_negated_values, not_in_values, blank_range, blank_value, not_a_valid_number, within_range,
  too_high, too_low, no_colon, first_not_a_number, last_not_a_number, not_configured, Exception,
  validation_exception, value_error, Verdict, granted, denied, Check, Activity, Env,
}

-- Most validators test a condition and, if the value is negated, want it to fail.
abbrev pub expect : Bool → Bool → Reason → Reason → Verdict
expect negated holds if_negated if_not =
    if negated
    then (if not holds then granted else denied if_negated)
    else (if holds then granted else denied if_not)

abbrev pub is_blank_or_none : Option Text → Bool
is_blank_or_none none = true
is_blank_or_none (some s) = is_blank s

abbrev pub same_text : Option Text → Option Text → Bool
same_text (some s) (some t) = s == t
same_text none none = true
same_text _ _ = false

-- AclIsAdminValidator.__call__
unfoldable pub call_admin : Env → Activity → Bool → Check
call_admin env act negated =
    ok (expect negated (env.roles.admin act.object_url act.actor_id) is_admin_negated not_admin)

-- AclIsRoomOwnerValidator.__call__
unfoldable pub call_room_owner : Env → Activity → Bool → Check
call_room_owner env act negated =
    ok (expect negated (env.roles.owner act.target_id act.actor_id) is_owner_negated not_owner)

-- AclIsSuperUserValidator.__call__
unfoldable pub call_super_user : Env → Activity → Bool → Check
call_super_user env act negated =
    ok (expect negated (env.roles.super_user act.actor_id) is_super_user_negated not_super_user)

-- AclSameChannelValidator.__call__
unfoldable pub call_same_channel : Activity → Bool → Check
call_same_channel act negated =
    if is_blank_or_none act.provider_url
    then ok (denied no_origin_channel)
    else if is_blank_or_none act.object_url
    then ok (denied no_target_channel)
    else ok (expect negated (same_text act.provider_url act.object_url) same_channels other_channel)

-- `utils.is_user_in_room`, behind its test of a blank room
abbrev pub in_target_room : Env → Activity → Result Exception Bool
in_target_room env act = elim act.target_id [
  | none ↦ ok false
  | some room ↦ if is_blank room then ok false else env.roles.room_contains room act.actor_id
]

-- AclSameRoomValidator.__call__
unfoldable pub call_same_room : Env → Activity → Bool → Check
call_same_room env act negated =
    if is_blank_or_none act.actor_url
    then ok (denied no_origin_room)
    else if is_blank_or_none act.target_id
    then ok (denied no_target_room)
    else do
      inside ← in_target_room env act
      if not inside
          then ok (denied not_in_room)
          else ok (expect negated (same_text act.actor_url act.target_id) same_rooms other_room)

-- AclStrInCsvValidator.__call__
unfoldable pub call_str_in_csv : Dict Text → Text → Text → Bool → Check
call_str_in_csv session acl_type acl_values negated =
    if is_blank acl_values then ok granted else elim (lookup acl_type session) [
      | none ↦ ok (denied no_session_value)
      | some value ↦
          if negated
          then (if contains (split b',' acl_values) value
              then ok (denied in_negated_values)
              else ok granted)
          else if not (contains (split b',' acl_values) value)
          then ok (denied not_in_values)
          else ok granted
    ]

-- AclCsvInCsvValidator.__call__: its two loops return at the first value that is not blank and is
-- listed, as it stands if negated and in lower case if not.
unfoldable pub call_csv_in_csv : Dict Text → Text → Text → Bool → Check
call_csv_in_csv session acl_type acl_values negated =
    if is_blank acl_values then ok granted else elim (lookup acl_type session) [
      | none ↦ ok (denied no_session_value)
      | some given ↦
          if negated
          then (if any (λ v. not (is_blank v) && contains (split b',' acl_values) v)
                (split b',' given)
              then ok (denied in_negated_values)
              else ok granted)
          else if any (λ v. not (is_blank v) && contains (split b',' acl_values) (lower v))
              (split b',' given)
          then ok granted
          else ok (denied not_in_values)
    ]

-- `s.split(sep, 1)` into two; `none` is the failure to unpack.
unfoldable pub split_once : ℕ → Text → Option (Text × Text)
split_once sep [] = none
split_once sep (c ∷ s) =
    let rest = split_once sep s in
    if eqb sep c then some ([], s) else elim rest [ none ↦ none | some (a, b) ↦ some (c ∷ a, b) ]

-- One end of a range: none if it is left out, else `int`.
unfoldable pub range_end : Text → Result Exception (Option ℤ)
range_end [] = ok none
range_end (c ∷ s) = elim (parse_int (c ∷ s)) [ none ↦ err value_error | some z ↦ ok (some z) ]

abbrev pub lower_ok : Option ℤ → ℤ → Bool
lower_ok none v = true
lower_ok (some lo) v = leb_ℤ lo v

abbrev pub upper_ok : Option ℤ → ℤ → Bool
upper_ok none v = true
upper_ok (some hi) v = leb_ℤ v hi

-- The tests of AclRangeValidator.__call__ on numbers.
unfoldable pub check_range : Option ℤ → Option ℤ → ℤ → Bool → Verdict
check_range lo hi v false =
    if not (lower_ok lo v)
    then denied too_low
    else if not (upper_ok hi v)
    then denied too_high
    else granted
check_range (some lo) (some hi) v true =
    if leb_ℤ lo v && leb_ℤ v hi then denied within_range else granted
check_range (some lo) none v true = if leb_ℤ lo v then denied too_high else granted
check_range none (some hi) v true = if leb_ℤ v hi then denied too_low else granted
check_range none none v true = granted

abbrev pub or_value_error : Option (Text × Text) → Result Exception (Text × Text)
or_value_error none = err value_error
or_value_error (some p) = ok p

-- What is left to do when the range has been read: read the session's value, and test it.
unfoldable pub check_session_value : Option ℤ → Option ℤ → Option Text → Bool → Verdict
unfolding check_range
check_session_value lo hi none negated = denied blank_value
check_session_value lo hi (some s) negated =
    if is_blank s then denied blank_value else elim (parse_int s) [
      | none ↦ denied not_a_valid_number
      | some v ↦ check_range lo hi v negated
    ]

-- AclRangeValidator.__call__; it reads the session of the environment, never the one it is given.
unfoldable pub call_range : Env → Text → Text → Bool → Check
unfolding split_once range_end
call_range env acl_type acl_range negated =
    if is_blank acl_range then ok (denied blank_range) else do
      ends ← or_value_error (split_once b':' acl_range)
      lo ← range_end ends.0
      hi ← range_end ends.1
      ok (check_session_value lo hi (lookup acl_type env.session) negated)

-- BaseInCsvAclValidator.validate_new_acl
unfoldable pub new_csv : Option (List Text) → Text → Result Exception (Unit {0})
new_csv none values = ok tt
new_csv (some valid_csvs) values =
    if is_blank values
    then ok tt
    else guard (all (contains valid_csvs) (split b',' values)) (validation_exception not_configured)

abbrev pub is_end : Text → Bool
is_end s = s == [] || is_digit s

-- AclRangeValidator.validate_new_acl
unfoldable pub new_range : Text → Result Exception (Unit {0})
unfolding split_once
new_range values = do
  guard (not (is_blank values)) (validation_exception blank_range)
  guard (has_char b':' values) (validation_exception no_colon)
  ends ← or_value_error (split_once b':' values)
  guard (is_end ends.0) (validation_exception first_not_a_number)
  guard (is_end ends.1) (validation_exception last_not_a_number)
