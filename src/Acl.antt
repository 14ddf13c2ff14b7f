-- ===== src/Acl.antt =====
-- dino/validation/acl.py: the access control lists. This module has what all of it shares: the
-- verdicts, the exceptions, the validator classes, the activity and the environment that they read.
--
-- A `(bool, str)` is a `Verdict`; a message is its reason without the values put into it. An
-- attribute that is missing on an activity and one that is None are both `none`.
pub mod Validators
pub mod Range
pub mod Csv
pub mod Pattern
pub mod Call
pub mod Action
use dino.Prelude.{ℕ, Bool, Option, List}
use dino.Prelude.Text.{Text}
use dino.Prelude.Dict.{Dict}
use dino.Prelude.Result.{Result}

pub data Reason : Type 0 where
  is_admin_negated not_admin is_owner_negated not_owner is_super_user_negated not_super_user :
      Reason
  not_allowed no_origin_channel no_target_channel same_channels other_channel : Reason
  no_origin_room no_target_room not_in_room same_rooms other_room : Reason
  no_session_value in_negated_values not_in_values : Reason
  blank_range blank_value not_a_valid_number within_range too_high too_low : Reason
  blank_pattern pattern_mismatch parenthesis_mismatch nested_parenthesis : Reason
  no_equal_sign equal_sign_mismatch invalid_acl nested_custom mismatched_at_signs : Reason
  no_or_clause no_and_clause : Reason
  no_colon first_not_a_number last_not_a_number not_configured : Reason
  no_validator no_object_type : Reason
  -- 'acl "%s" did not validate': the acl and why
  acl_failed : Text → Reason → Reason

pub data Exception : Type 0 where
  validation_exception : Reason → Exception
  value_error index_error key_error recursion_error : Exception
  -- a loop of the source went on for longer than the model's fuel
  diverged : Exception
  no_such_room no_such_channel no_channel_found : Exception

pub data Verdict : Type 0 where
  granted : Verdict
  denied : Reason → Verdict

abbrev pub Check : Type 0
Check = Result Exception Verdict

-- The subclasses of `BaseAclValidator`. Those of a csv hold `valid_csvs`.
pub data Validator : Type 0 where
  is_admin is_room_owner is_super_user : Validator
  pattern disallow same_channel same_room range : Validator
  str_in_csv csv_in_csv : Option (List Text) → Validator

pub record Activity : Type 0 where
  pub actor_id : Text
  pub actor_url : Option Text
  pub provider_url : Option Text
  pub object_url : Option Text
  pub target_id : Option Text
  pub target_object_type : Option Text

-- The queries of `env.db` that decisions rest on; dino.Db implements them. A query about a channel
-- or a room may be made at None.
pub record Roles : Type 0 where
  pub admin : Option Text → Text → Bool
  pub owner_channel : Option Text → Text → Bool
  pub owner : Option Text → Text → Bool
  pub moderator : Option Text → Text → Bool
  pub super_user : Text → Bool
  pub global_moderator : Text → Bool
  pub channel_for_room : Option Text → Result Exception Text
  pub room_contains : Text → Text → Result Exception Bool

-- `all_acls[target][action]`: the names under its rule 'acls', if it has that rule, and the number
-- of its rules.
pub record ActionRules : Type 0 where
  pub acls : List Text
  pub n_rules : ℕ

-- `environ.env`: the session, the roles, and the acl configuration.
pub record Env : Type 0 where
  pub session : Dict Text
  pub roles : Roles
  -- all_acls['validation'][acl_type]['value']
  pub validators : Dict Validator
  -- all_acls[target][action]
  pub actions : Text → Text → Option ActionRules
