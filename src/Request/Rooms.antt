-- ===== src/Request/Rooms.antt =====
-- RequestValidator of dino/validation/request.py: the requests that join, create, list and read
-- rooms, invite and whisper. What is sent to a banned user beside the answer is left out.
pub mod Join
pub mod Guards
use dino.Prelude.{
  ℕ, Bool, true, false, not, ◌&&◌, ◌||◌, Option, none, some, List, if◌then◌else◌, any,
}
use dino.Prelude.Text.{Text, ◌==◌, str, is_blank, contains}
use dino.Prelude.Dict.{Dict, lookup}
use dino.Prelude.Result.{Result, ok, err, ◌>>=◌, ◌>>◌}
use dino.Acl.{Exception, granted, denied, Check, Activity, Env}
use dino.Acl.Validators.{is_blank_or_none}
use dino.Acl.Action.{validate_acl_for_action}
use dino.Request.{ErrorCode, Answer, valid, invalid, nonblank}

-- The queries of `utils`, beside those of the roles. The acls of a room are `none` where
-- NoSuchRoomException is raised, and an answer is `none` where its query finds nothing.
pub record Lookups : Type 0 where
  pub has_room_name : Text → Bool
  pub room_id_of : Text → Result ErrorCode Text
  pub has_channel_name : Text → Bool
  pub has_user_name : Text → Bool
  pub channel_exists : Text → Bool
  pub room_exists : Text → Text → Bool
  pub room_name_exists : Text → Text → Bool
  pub room_name_restricted : Text → Bool
  pub user_is_online : Text → Bool
  pub excluded_users : Text → List Text
  pub owners_for_room : Text → List Text
  pub room_acls : Text → Text → Option (Dict Text)
  pub channel_acls : Text → Text → Dict Text
  pub is_banned : Text → Text → Bool
  pub is_banned_globally : Text → Bool
  pub is_base64 : Text → Bool
  pub b64d : Text → Text

abbrev pub Answered : Type 0
Answered = Result Exception Answer

abbrev pub no : ErrorCode → Answered
no code = ok (invalid code)

-- get_channel_name, for what it raises
abbrev pub need_channel_name : Lookups → Text → Result Exception (Unit {0})
need_channel_name u channel_id =
    if u.has_channel_name channel_id then ok tt else err Exception.no_such_channel

-- owner id 0 is the default "admin" owner of static rooms
abbrev pub should_exclude_room : List Text → Text → Bool
should_exclude_room excluded owner =
    if is_blank owner || owner == str "0" then false else contains excluded owner

-- The user that joins: that of the session, or of the activity.
abbrev pub joining : Option Text → Text → Text
joining none actor_id = actor_id
joining (some user_id) actor_id = if is_blank user_id then actor_id else user_id

-- The room by its name
abbrev pub room_by_name : Lookups → Option Text → Result ErrorCode Text
room_by_name u none = err ErrorCode.missing_target_display_name
room_by_name u (some name) =
    if is_blank name then err ErrorCode.missing_target_display_name else u.room_id_of name

-- The room that is joined: by its id, or else by its name.
unfoldable pub find_room : Lookups → Option Text → Option Text → Result ErrorCode Text
find_room u none name = room_by_name u name
find_room u (some room_id) name =
    if is_blank room_id
    then room_by_name u name
    else if u.has_room_name room_id
    then ok room_id
    else err ErrorCode.no_such_room

-- `if not is_valid: return False, NOT_ALLOWED, msg`, then the rest
abbrev pub permitted : Check → Answered → Answered
permitted (err e) rest = err e
permitted (ok granted) rest = rest
permitted (ok (denied r)) rest = no ErrorCode.not_allowed

module _ (depth : ℕ) (env : Env) (u : Lookups) where
  -- validation.acl.validate_acl_for_action with the acls of the target
  abbrev pub allows : Activity → Text → Text → Dict Text → Check
  allows act target action acls =
      validate_acl_for_action depth env act env.session target action (some acls) none none

  -- on_join from the acls on
  abbrev pub check_join : Activity → Text → Text → Option (Dict Text) → Answered
  check_join act user_id room_id none = no ErrorCode.no_such_room
  check_join act user_id room_id (some acls) =
      permitted (allows act (str "room") (str "join") acls)
        (if u.is_banned user_id room_id then no ErrorCode.user_is_banned else ok valid)

  -- What on_join puts into the activity
  abbrev pub in_room : Activity → Text → Activity
  in_room act channel_id = record act {
    object_url = some channel_id;
    target_object_type = some (str "room");
  }

  -- on_join once the channel is found
  abbrev pub join_in_channel : Activity → Text → Text → Text → Answered
  join_in_channel act user_id room_id channel_id =
      if env.roles.owner_channel (some channel_id) user_id
      then ok valid
      else if any (should_exclude_room (u.excluded_users user_id)) (u.owners_for_room room_id)
      then no ErrorCode.not_allowed
      else (need_channel_name u channel_id
          >> check_join (in_room act channel_id) user_id room_id (u.room_acls room_id (str "join")))

  -- on_join once the room is found
  unfoldable pub join_room : Activity → Text → Text → Answered
  join_room act user_id room_id =
      if not (u.user_is_online user_id)
      then no ErrorCode.not_online
      else if env.roles.super_user user_id || env.roles.global_moderator user_id
      then ok valid
      else if env.roles.owner (some room_id) user_id
      then ok valid
      else (env.roles.channel_for_room (some room_id) >>= join_in_channel act user_id room_id)

  -- on_join
  unfoldable pub on_join : Activity → Option Text → Answered
  on_join act display_name = elim (find_room u act.target_id display_name) [
    | err code ↦ no code
    | ok room_id ↦ join_room act (joining (lookup (str "user_id") env.session) act.actor_id) room_id
  ]

  -- on_leave
  unfoldable pub on_leave : Activity → Answer
  on_leave act = elim act.target_id [ none ↦ invalid ErrorCode.missing_target_id | some _ ↦ valid ]

  -- on_list_rooms
  unfoldable pub on_list_rooms : Activity → Answered
  on_list_rooms act = elim act.object_url [
    | none ↦ no ErrorCode.missing_object_url
    | some channel_id ↦
        if channel_id == str ""
        then no ErrorCode.missing_object_url
        else if u.is_banned_globally act.actor_id
        then no ErrorCode.user_is_banned
        else permitted
            (allows (record act { target_id = none; target_object_type = some (str "channel") })
              (str "channel") (str "list") (u.channel_acls channel_id (str "list")))
            (ok valid)
  ]

  -- on_users_in_room
  unfoldable pub on_users_in_room : Activity → Answered
  on_users_in_room act = nonblank act.target_id (invalid ErrorCode.missing_target_id) λ _. ok valid

  -- on_history
  unfoldable pub on_history : Activity → Answered
  on_history act = nonblank act.target_id (invalid ErrorCode.missing_target_id) λ room_id.
      elim (u.room_acls room_id (str "history")) [
        | none ↦ no ErrorCode.no_such_room
        | some acls ↦ permitted (allows act (str "room") (str "history") acls) (ok valid)
      ]

  -- For the acls to know that a room is created
  abbrev pub as_room : Activity → Activity
  as_room act =
      if is_blank_or_none act.target_object_type
      then record act { target_object_type = some (str "room") }
      else act

  -- on_create once the name is decoded
  abbrev pub create_named : Activity → Text → Text → Answered
  create_named act channel_id room_name =
      if not (u.channel_exists channel_id)
      then no ErrorCode.no_such_channel
      else if u.room_name_restricted room_name
      then no ErrorCode.room_name_restricted
      else if u.room_name_exists channel_id room_name
      then no ErrorCode.room_already_exists
      else permitted
          (allows (as_room act) (str "channel") (str "create")
            (u.channel_acls channel_id (str "create")))
          (ok valid)

  -- on_create, of an activity with an actor; `display_name` is missing or there.
  unfoldable pub on_create : Activity → Option Text → Answered
  on_create act display_name = elim act.object_url [
    | none ↦ no ErrorCode.missing_object_url
    | some channel_id ↦ elim display_name [
      | none ↦ no ErrorCode.missing_target_display_name
      | some room_name ↦
          if not (u.has_channel_name channel_id)
          then no ErrorCode.no_such_channel
          else if is_blank room_name
          then no ErrorCode.missing_target_display_name
          else if not (u.is_base64 room_name)
          then no ErrorCode.not_base64
          else create_named act channel_id (u.b64d room_name)
    ]
  ]
