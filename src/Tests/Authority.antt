-- ===== src/Tests/Authority.antt =====
-- A user who was given a role in the small database, before the acls.
use dino.Prelude.{true, none, some, [], ◌∷◌, ◌≡◌, refl}
use dino.Prelude.Text.{str, text_dec}
use dino.Prelude.Dict.{lookup}
use dino.Prelude.Result.{ok}
use dino.Redis.Model.{model}
use dino.Acl.{granted}
use dino.Acl.Action.{or_else, channel_of, validate_acl_for_action}
use dino.Db.Roles.{
  channel_exists, channel_for_room, get_room_name, add_channel_role, get_channel_name,
}
use dino.Db.Roles.Calls.{set_admin, need_channel, is_global_moderator}
use dino.Db.Roles.Grants.{succeeded}
use dino.Db.Roles.Refines.{admin, global_moderator, give}
use dino.Db.Authority.{env_in, roles_in, give-granted, give-is_global_moderator}
use dino.Tests.Roles.{small}
use dino.Tests.Acls.{env, ann_joins}

ann_becomes_admin : succeeded (give admin (str "c") (str "ann") small) ≡ true
unfolding set_admin need_channel add_channel_role get_channel_name channel_exists lookup text_dec
ann_becomes_admin = refl

channel_is_found :
    channel_of 5
      (env_in env (give admin (str "c") (str "ann") small).1)
      ann_joins
      env.session
      (str "room")
      (or_else none ann_joins.target_id)
      none
    ≡ ok (some (str "c"))
unfolding channel_of roles_in channel_for_room get_room_name set_admin need_channel add_channel_role
    get_channel_name channel_exists lookup text_dec
channel_is_found = refl

give-granted_example :
    validate_acl_for_action 5
      (env_in env (give admin (str "c") (str "ann") small).1)
      ann_joins
      env.session
      (str "room")
      (str "join")
      (some ((str "age", str "99:") ∷ []))
      none
      none
    ≡ ok granted
give-granted_example =
    give-granted admin (str "c") small 5 env ann_joins env.session (str "room") (str "join")
      (some ((str "age", str "99:") ∷ [])) none none refl ann_becomes_admin refl channel_is_found

give-is_global_moderator_example :
    is_global_moderator (some (str "ann")) (give global_moderator (str "r") (str "ann") small).1
    ≡ is_global_moderator (some (str "ann")) small
unfolding text_dec
give-is_global_moderator_example =
    give-is_global_moderator global_moderator (str "r") (str "ann") (str "ann") small refl (λ e. cc)
