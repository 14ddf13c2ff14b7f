-- ===== src/Request.antt =====
-- RequestValidator of dino/validation/request.py, the requests that need privileges, and
-- user_is_allowed_to_delete_message of dino/utils/__init__.py. An attribute that is missing and one
-- that is None are both `none`. What `utils` passes on to the database are queries.
pub mod Privileges
pub mod Rooms
pub mod Messages
pub mod Session
pub mod Acks
pub mod SetAcl
pub mod Invites
use dino.Prelude.{Bool, true, false, not, ◌&&◌, ◌||◌, Option, none, some, [], if◌then◌else◌}
use dino.Prelude.Text.{Text, ◌==◌, str, is_blank}
use dino.Prelude.Result.{Result, ok, err, ◌>>=◌}
use dino.Acl.{Exception, Roles}
use dino.Acl.Validators.{is_blank_or_none}
use dino.Duration.{validate_duration}

-- ErrorCodes of dino/config.py; `ok_code` is its OK.
pub data ErrorCode : Type 0 where
  ok_code unknown_error missing_actor_id missing_object_id missing_target_id missing_object_url :
      ErrorCode
  missing_target_display_name missing_actor_url missing_object_content missing_object : ErrorCode
  missing_object_attachments missing_attachment_type missing_attachment_content missing_verb :
      ErrorCode
  invalid_target_type invalid_acl_type invalid_acl_action invalid_acl_value invalid_status :
      ErrorCode
  invalid_object_type invalid_ban_duration invalid_verb empty_message not_base64 : ErrorCode
  user_not_in_room user_is_banned room_already_exists not_allowed validation_error room_full :
      ErrorCode
  not_online too_many_private_rooms room_name_too_long room_name_too_short invalid_token : ErrorCode
  invalid_login msg_too_long multiple_rooms_with_name too_many_attachments not_enabled : ErrorCode
  room_name_restricted user_muted not_allowed_to_whisper_channel : ErrorCode
  not_allowed_to_whisper_not_a_contact not_allowed_to_whisper_turned_off : ErrorCode
  not_allowed_to_whisper_self not_allowed_to_whisper_generic_error remote_error no_such_user :
      ErrorCode
  no_such_channel no_such_room no_admin_room_found no_user_in_session no_admin_online : ErrorCode

pub data Answer : Type 0 where
  valid : Answer
  invalid : ErrorCode → Answer

-- The queries of `utils`: the roles, what is known of rooms, and who sent a message.
pub record Queries : Type 0 where
  pub roles : Roles
  pub has_room_name : Text → Bool
  pub room_exists : Option Text → Text → Bool
  pub is_room_ephemeral : Text → Bool
  -- the setting that a sender may delete their messages, and the sender of a message
  pub sender_can_delete : Bool
  pub sender_of : Text → Option Text

-- A super user or a global moderator.
abbrev pub is_operator : Queries → Text → Bool
is_operator q user_id = q.roles.super_user user_id || q.roles.global_moderator user_id

-- `x is None or x.strip() == ''`, then what follows for the text.
abbrev pub nonblank :
    Option Text → Answer → (Text → Result Exception Answer) → Result Exception Answer
nonblank none otherwise next = ok otherwise
nonblank (some t) otherwise next = if is_blank t then ok otherwise else next t

-- RequestValidator.on_kick
unfoldable pub on_kick : Queries → Text → Option Text → Option Text → Result Exception Answer
on_kick q kicker_id target_id object_id = nonblank target_id (invalid missing_target_id) λ room_id.
    if not (q.has_room_name room_id)
    then ok (invalid no_such_room)
    else nonblank object_id (invalid missing_target_display_name) λ user_id_to_kick.
      if is_operator q user_id_to_kick
      then ok (invalid not_allowed)
      else (q.roles.channel_for_room (some room_id) >>= λ channel_id.
          if q.roles.owner (some room_id) kicker_id
            || q.roles.super_user kicker_id
            || q.roles.global_moderator kicker_id
            || q.roles.admin (some channel_id) kicker_id
          then ok valid
          else ok (invalid not_allowed))

-- `target_type == 'global' or room_id is None or room_id == ''`
abbrev pub is_global : Text → Option Text → Bool
is_global target_type none = true
is_global target_type (some room_id) = target_type == str "global" || room_id == []

-- The channel of a ban: `activity.object.url`, or that of the room.
abbrev pub ban_channel : Queries → Bool → Option Text → Option Text → Result Exception (Option Text)
ban_channel q true url room_id = ok none
ban_channel q false url room_id =
    if is_blank_or_none url then (q.roles.channel_for_room room_id >>= λ c. ok (some c)) else ok url

abbrev pub duration_ok : Option Text → Bool
duration_ok d = elim (validate_duration d) [ ok _ ↦ true | err _ ↦ false ]

abbrev pub names_room : Queries → Option Text → Bool
names_room q none = true
names_room q (some room_id) = is_blank room_id || q.has_room_name room_id

abbrev pub in_channel : Queries → Option Text → Option Text → Bool
in_channel q channel_id none = false
in_channel q channel_id (some room_id) = q.room_exists channel_id room_id

-- The end of `on_ban`, for whom the roles decide.
abbrev pub decide_ban : Queries → Bool → Text → Text → Option Text → Option Text → Answer
decide_ban q global user_id kicked_id channel_id room_id =
    if is_operator q user_id
    then valid
    else if is_operator q kicked_id
    then invalid no_such_room
    else if not global && not (q.roles.owner room_id user_id)
    then invalid not_allowed
    else if global && not (q.roles.admin channel_id user_id)
    then invalid not_allowed
    else valid

-- RequestValidator.on_ban
unfoldable pub on_ban :
    Queries
    → Text
    → Text
    → Option Text
    → Option Text
    → Option Text
    → Option Text
    → Result Exception Answer
on_ban q user_id target_type target_id object_id object_url ban_duration =
    let global = is_global target_type target_id in
    ban_channel q global object_url target_id >>= λ channel_id.
    if not (duration_ok ban_duration)
    then ok (invalid invalid_ban_duration)
    else if not global && not (names_room q target_id)
    then ok (invalid no_such_room)
    else nonblank object_id (invalid missing_object_id) λ kicked_id.
      if not global && not (in_channel q channel_id target_id)
      then ok (invalid no_such_room)
      else ok (decide_ban q global user_id kicked_id channel_id target_id)

-- user_is_allowed_to_delete_message
unfoldable pub user_is_allowed_to_delete_message : Queries → Text → Text → Result Exception Bool
user_is_allowed_to_delete_message q room_id user_id =
    q.roles.channel_for_room (some room_id) >>= λ channel_id.
    if q.roles.owner (some room_id) user_id
    then ok true
    else if q.roles.moderator (some room_id) user_id
    then ok true
    else if q.roles.owner_channel (some channel_id) user_id
    then ok true
    else if q.roles.admin (some channel_id) user_id
    then ok true
    else if q.roles.super_user user_id
    then ok true
    else if q.roles.global_moderator user_id
    then ok true
    else ok false

abbrev pub is_sender : Queries → Text → Text → Bool
is_sender q message_id user_id = elim (q.sender_of message_id) [
  | none ↦ false
  | some sender ↦ sender == user_id
]

-- RequestValidator.on_delete
unfoldable pub on_delete : Queries → Text → Text → Option Text → Result Exception Answer
on_delete q user_id room_id object_id = nonblank object_id (invalid missing_object_id) λ message_id.
    if q.sender_can_delete && is_sender q message_id user_id
    then ok valid
    else (user_is_allowed_to_delete_message q room_id user_id >>= λ allowed.
        if not allowed then ok (invalid not_allowed) else ok valid)

-- RequestValidator._remove_or_rename_room
unfoldable pub remove_or_rename_room : Queries → Text → Text → Result Exception Answer
remove_or_rename_room q user_id room_id =
    if q.roles.owner (some room_id) user_id
    then ok valid
    else if q.roles.super_user user_id
    then ok valid
    else if q.roles.global_moderator user_id && q.is_room_ephemeral room_id
    then ok valid
    else if q.roles.moderator (some room_id) user_id && q.is_room_ephemeral room_id
    then ok valid
    else (q.roles.channel_for_room (some room_id) >>= λ channel_id.
        if q.roles.admin (some channel_id) user_id
        then ok valid
        else if q.roles.owner_channel (some channel_id) user_id
        then ok valid
        else ok (invalid not_allowed))

-- The channel whose owner may edit the acls of a room: that of `activity.object.url`, if it is
-- given.
abbrev pub acl_channel : Queries → Option Text → Text → Result Exception Text
acl_channel q none room_id = q.roles.channel_for_room (some room_id)
acl_channel q (some url) room_id =
    if is_blank url then q.roles.channel_for_room (some room_id) else ok url

-- _can_edit_acl of RequestValidator.on_set_acl
unfoldable pub can_edit_acl : Queries → Text → Option Text → Text → Text → Result Exception Bool
can_edit_acl q object_type object_url target_id user_id =
    if object_type == str "channel"
    then (if q.roles.owner_channel (some target_id) user_id
        then ok true
        else if q.roles.admin (some target_id) user_id
        then ok true
        else ok (is_operator q user_id))
    else if q.roles.owner (some target_id) user_id
    then ok true
    else (acl_channel q object_url target_id >>= λ channel_id.
        if q.roles.owner_channel (some channel_id) user_id
        then ok true
        else ok (is_operator q user_id))
