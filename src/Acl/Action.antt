-- ===== src/Acl/Action.antt =====
-- AclValidator of dino/validation/acl.py: whether an acl may be set, and whether a user may do an
-- action to a room or a channel.
pub mod Laws
use dino.Prelude.{
  ℕ, Bool, true, false, ◌&&◌, ◌||◌, Option, none, some, List, [], ◌∷◌, eqb, if◌then◌else◌,
}
use dino.Prelude.Text.{Text, ◌==◌, str, is_blank}
use dino.Prelude.Dict.{Dict, lookup}
use dino.Prelude.Result.{Result, ok, err, ◌>>=◌}
use dino.Acl.{
  Reason, no_validator, no_object_type, acl_failed, Exception, validation_exception, key_error,
  Verdict, granted, denied, Check, Activity, ActionRules, Env,
}
use dino.Acl.Validators.{is_blank_or_none}
use dino.Acl.Pattern.{or_raise}
use dino.Acl.Call.{call, new_acl}

abbrev pub accepted : Result Exception (Unit {0}) → Check
accepted (ok _) = ok granted
accepted (err (validation_exception r)) = ok (denied r)
accepted (err e) = err e

-- AclValidator.is_acl_valid; a blank value removes the acl.
unfoldable pub is_acl_valid : ℕ → Env → Text → Option Text → Check
is_acl_valid depth env acl_type acl_value = elim (lookup acl_type env.validators) [
  | none ↦ ok (denied no_validator)
  | some v ↦ elim acl_value [
    | none ↦ ok granted
    | some value ↦ if is_blank value then ok granted else accepted (new_acl depth env v value)
  ]
]

-- `target_id` and `channel_id` of the call, or those of the activity.
abbrev pub or_else : Option Text → Option Text → Option Text
or_else none other = other
or_else (some t) other = some t

-- no acls for this target (room/channel) and action (join/kick/etc)
abbrev pub has_rules : Option ActionRules → Bool
has_rules none = false
has_rules (some r) = if eqb r.n_rules 0 then false else true

abbrev pub rule_acls : Option ActionRules → List Text
rule_acls none = []
rule_acls (some r) = r.acls

abbrev pub or_empty : Option (Dict Text) → Dict Text
or_empty none = []
or_empty (some d) = d

abbrev pub is_empty : Dict Text → Bool
is_empty [] = true
is_empty (_ ∷ _) = false

module _ (depth : ℕ) (env : Env) (act : Activity) (session : Dict Text) where
  -- The loop over the acls of the rule: those that are set on the target have to be valid.
  unfoldable pub check_acls : Dict Text → List Text → Check
  check_acls target_acls [] = ok granted
  check_acls target_acls (acl ∷ acls) = elim (lookup acl target_acls) [
    | none ↦ check_acls target_acls acls
    | some value ↦ do
      v ← or_raise key_error (lookup acl env.validators)
      verdict ← call depth env act v acl value false session
      elim verdict [
        | granted ↦ check_acls target_acls acls
        | denied r ↦ ok (denied (acl_failed acl r))
      ]
  ]

  -- The channel of the roles that are asked for.
  unfoldable pub channel_of : Text → Option Text → Option Text → Result Exception (Option Text)
  channel_of target target_id channel_id =
      if target == str "room"
      then (env.roles.channel_for_room target_id >>= λ c. ok (some c))
      else ok (or_else channel_id act.object_url)

  -- What follows when the channel is known.
  unfoldable pub decide_action :
      Text → Text → Option (Dict Text) → Option Text → Option Text → Check
  decide_action target action target_acls target_id channel =
      if env.roles.admin channel act.actor_id
      then ok granted
      else if env.roles.super_user act.actor_id
      then ok granted
      else if env.roles.global_moderator act.actor_id
      then ok granted
      else if has_rules (env.actions target action)
      then (if env.roles.owner_channel channel act.actor_id
          then ok granted
          else if target == str "room" && env.roles.owner target_id act.actor_id
          then ok granted
          else if is_empty (or_empty target_acls)
          then ok granted
          else check_acls (or_empty target_acls) (rule_acls (env.actions target action)))
      else ok granted

  -- AclValidator.validate_acl_for_action
  unfoldable pub validate_acl_for_action :
      Text → Text → Option (Dict Text) → Option Text → Option Text → Check
  validate_acl_for_action target action target_acls target_id channel_id =
      if is_blank_or_none act.target_object_type then ok (denied no_object_type) else do
        channel ← channel_of target (or_else target_id act.target_id) channel_id
        decide_action target action target_acls (or_else target_id act.target_id) channel
