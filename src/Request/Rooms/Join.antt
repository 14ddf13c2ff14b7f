-- ===== src/Request/Rooms/Join.antt =====
-- Who may join a room, by RequestValidator.on_join of dino/validation/request.py.
use dino.Prelude.{
  ℕ, Bool, true, false, not, ◌&&◌, ◌||◌, Option, none, some, if◌then◌else◌, ◌≡◌, ◌↔◌, arith, any,
}
use dino.Prelude.Text.{Text, str, text_dec}
use dino.Prelude.Dict.{Dict, lookup}
use dino.Prelude.Result.{ok, err}
use dino.Acl.{Exception, granted, denied, Check, Activity, Env}
use dino.Acl.Action.{validate_acl_for_action, channel_of}
use dino.Request.{ErrorCode, valid, invalid}
use dino.Request.Rooms.{
  Lookups, Answered, should_exclude_room, joining, find_room, permitted, allows, check_join,
  in_room, join_in_channel, join_room, on_join,
}

abbrev pub admits : Check → Bool
admits (ok granted) = true
admits (ok (denied r)) = false
admits (err e) = false

pub permitted_iff :
    (check : Check) (rest : Answered)
    → (permitted check rest ≡ ok valid) ↔ ((admits check ≡ true) × (rest ≡ ok valid))
permitted_iff (ok granted) rest = ground arith
permitted_iff (ok (denied r)) rest = ground arith
permitted_iff (err e) rest = ground arith

module _ (depth : ℕ) (env : Env) (u : Lookups) (act : Activity) where
  -- The acls of the room for joining are found and let the activity in.
  abbrev pub acls_admit : Text → Option (Dict Text) → Bool
  acls_admit channel_id none = false
  acls_admit channel_id (some acls) =
      admits
        (allows depth env u (in_room depth env u act channel_id) (str "room") (str "join") acls)

  check_join_iff :
      (user_id room_id channel_id : Text) (acls : Option (Dict Text))
      → (check_join depth env u (in_room depth env u act channel_id) user_id room_id acls
          ≡ ok valid)
        ↔ ((acls_admit channel_id acls && not (u.is_banned user_id room_id)) ≡ true)
  check_join_iff user_id room_id channel_id none = ground arith
  check_join_iff user_id room_id channel_id (some acls) = ground (
    arith,
    permitted_iff
        (allows depth env u (in_room depth env u act channel_id) (str "room") (str "join") acls)
        (if u.is_banned user_id room_id then ok (invalid ErrorCode.user_is_banned) else ok valid),
  )

  -- Somebody without a role above the acls
  abbrev pub ordinary_joins : Text → Text → Text → Bool
  ordinary_joins user_id room_id channel_id =
      not (any (should_exclude_room (u.excluded_users user_id)) (u.owners_for_room room_id))
      && (acls_admit channel_id (u.room_acls room_id (str "join"))
          && not (u.is_banned user_id room_id))

  join_in_channel_iff :
      (user_id room_id channel_id : Text)
      → u.has_channel_name channel_id ≡ true
      → (join_in_channel depth env u act user_id room_id channel_id ≡ ok valid) ↔ (
          (env.roles.owner_channel (some channel_id) user_id
            || ordinary_joins user_id room_id channel_id)
          ≡ true)
  join_in_channel_iff user_id room_id channel_id named =
      ground
        (arith, named, check_join_iff user_id room_id channel_id (u.room_acls room_id (str "join")))

  join_room_iff :
      (user_id room_id channel_id : Text)
      → env.roles.channel_for_room (some room_id) ≡ ok channel_id
      → u.has_channel_name channel_id ≡ true
      → (join_room depth env u act user_id room_id ≡ ok valid) ↔ (
          (u.user_is_online user_id
            && (env.roles.super_user user_id
                || env.roles.global_moderator user_id
                || env.roles.owner (some room_id) user_id
                || env.roles.owner_channel (some channel_id) user_id
                || ordinary_joins user_id room_id channel_id))
          ≡ true)
  unfolding join_room
  join_room_iff user_id room_id channel_id found named =
      ground (arith, found, join_in_channel_iff user_id room_id channel_id named)

  -- Joining a room that is found, in a channel that is found, is accepted exactly from a user who is
  -- online and either is a super user, a global moderator, an owner of the room or of its channel,
  -- or is not on the ignore list of an owner's, is let in by the acls of the room and not banned.
  pub on_join_iff :
      (display_name : Option Text) (room_id channel_id user_id : Text)
      → joining (lookup (str "user_id") env.session) act.actor_id ≡ user_id
      → find_room u act.target_id display_name ≡ ok room_id
      → env.roles.channel_for_room (some room_id) ≡ ok channel_id
      → u.has_channel_name channel_id ≡ true
      → (on_join depth env u act display_name ≡ ok valid) ↔ (
          (u.user_is_online user_id
            && (env.roles.super_user user_id
                || env.roles.global_moderator user_id
                || env.roles.owner (some room_id) user_id
                || env.roles.owner_channel (some channel_id) user_id
                || ordinary_joins user_id room_id channel_id))
          ≡ true)
  unfolding on_join
  on_join_iff display_name room_id channel_id user_id is_user here found named =
      rw (on_join, here, is_user) (join_room_iff user_id room_id channel_id found named)

  -- The check of the acls of a room needs the room's id in the activity.
  allows-no_id :
      (e : Exception) (channel_id : Text) (acls : Dict Text)
      → act.target_id ≡ none
      → env.roles.channel_for_room none ≡ err e
      → allows depth env u (in_room depth env u act channel_id) (str "room") (str "join") acls
        ≡ err e
  unfolding validate_acl_for_action channel_of text_dec
  allows-no_id e channel_id acls unnamed raises = ground (arith, unnamed, raises)

  -- Joining a room by its name alone, without an id, raises an exception for a user without a role
  -- who is online and on no owner's ignore list, though the room is found: its id is not put into the
  -- activity, and the check of the acls asks for the channel of the room None, which raises.
  pub on_join-by_name :
      (e : Exception) (display_name : Option Text) (room_id channel_id user_id : Text)
      (acls : Dict Text)
      → joining (lookup (str "user_id") env.session) act.actor_id ≡ user_id
      → act.target_id ≡ none
      → env.roles.channel_for_room none ≡ err e
      → find_room u none display_name ≡ ok room_id
      → env.roles.channel_for_room (some room_id) ≡ ok channel_id
      → u.has_channel_name channel_id ≡ true
      → u.room_acls room_id (str "join") ≡ some acls
      → u.user_is_online user_id ≡ true
      → (env.roles.super_user user_id
          || env.roles.global_moderator user_id
          || env.roles.owner (some room_id) user_id
          || env.roles.owner_channel (some channel_id) user_id)
        ≡ false
      → any (should_exclude_room (u.excluded_users user_id)) (u.owners_for_room room_id) ≡ false
      → on_join depth env u act display_name ≡ err e
  unfolding on_join join_room
  on_join-by_name e display_name room_id channel_id user_id acls is_user unnamed raises here found
        named set_acls online no_role welcome =
      ground (
        arith,
        is_user,
        unnamed,
        here,
        found,
        named,
        set_acls,
        online,
        no_role,
        welcome,
        allows-no_id e channel_id acls unnamed raises,
      )
