-- ===== src/Request/Messages.antt =====
-- RequestValidator of dino/validation/request.py: messages, whether they are read, and reports; and
-- can_send_cross_room and can_send_whisper_to_user of dino/utils/__init__.py. An attribute that is
-- tested for with hasattr is `none` where it is missing.
pub mod Guards
use dino.Prelude.{
  ℕ, Bool, true, false, not, ◌&&◌, ◌||◌, Option, none, some, List, [], ◌∷◌, length, ltb, eqb,
  if◌then◌else◌,
}
use dino.Prelude.Text.{Text, ◌==◌, str, is_blank, contains, strip}
use dino.Prelude.Dict.{Dict}
use dino.Prelude.Result.{Result, ok, err, ◌>>=◌, ◌>>◌}
use dino.Acl.{Exception, Verdict, granted, denied, Activity, Env}
use dino.Acl.Validators.{is_blank_or_none}
use dino.Request.{ErrorCode, Answer, valid, invalid}
use dino.Request.Rooms.{Lookups, Answered, no, need_channel_name, allows}

-- What decides on whispers and mutes: the settings, whether a user is muted in a room, the users
-- that a message whispers to, if it is a whisper, the users' names, and the remote service, which
-- answers `none` or the reason why not.
pub record Talk : Type 0 where
  pub validates_mutes : Bool
  pub is_muted : Text → Text → Bool
  pub validates_whispers : Bool
  pub whispers_to : Text → Option (List Text)
  pub user_name_exists : Text → Bool
  pub can_send_whisper_to : Text → Text → Option ErrorCode

-- is_a_user_name, where the query of the database does not raise
unfoldable pub is_a_user_name : Talk → Text → Bool
is_a_user_name t user_name =
    if ltb (length user_name) 3 || ltb 20 (length user_name)
    then false
    else t.user_name_exists user_name

-- can_send_whisper_to_user_single
unfoldable pub can_send_whisper_to_user_single : Talk → Text → Text → Option ErrorCode
can_send_whisper_to_user_single t sender_id target_user_name =
    if not (is_a_user_name t target_user_name)
    then none
    else t.can_send_whisper_to sender_id target_user_name

-- can_send_whisper_to_user: the first reason why not, if there is one.
unfoldable pub can_send_whisper_to_user : Talk → Text → List Text → Option ErrorCode
can_send_whisper_to_user t sender_id [] = none
can_send_whisper_to_user t sender_id (user ∷ users) =
    let rest = can_send_whisper_to_user t sender_id users in
    elim (can_send_whisper_to_user_single t sender_id user) [
      | none ↦ rest
      | some reason ↦ some reason
    ]

-- is_user_in_room
unfoldable pub is_user_in_room : Env → Text → Text → Result Exception Bool
is_user_in_room env user_id room_id =
    if is_blank room_id then ok false else env.roles.room_contains room_id user_id

-- The channel of `activity.object.url`, or that of the room
abbrev pub message_channel : Env → Option Text → Text → Result Exception Text
message_channel env none room_id = env.roles.channel_for_room (some room_id)
message_channel env (some url) room_id =
    if is_blank url then env.roles.channel_for_room (some room_id) else ok url

abbrev pub is_granted : Verdict → Bool
is_granted granted = true
is_granted (denied r) = false

module _ (depth : ℕ) (env : Env) (u : Lookups) where
  -- The acls of the room for messages from elsewhere
  abbrev pub room_lets_in : Activity → Option (Dict Text) → Result Exception Bool
  room_lets_in act none = ok false
  room_lets_in act (some acls) =
      allows depth env u act (str "room") (str "crossroom") acls >>= λ v. ok (is_granted v)

  -- can_send_cross_room from the acls on
  abbrev pub cross_acls : Activity → Text → Text → Result Exception Bool
  cross_acls act channel_id to_room =
      allows depth env u act (str "channel") (str "crossroom")
        (u.channel_acls channel_id (str "crossroom"))
      >>= λ v.
          if not (is_granted v)
          then ok false
          else room_lets_in act (u.room_acls to_room (str "crossroom"))

  -- The channel that a message comes from; the test is on `provider.url`, the value `object.url`.
  abbrev pub from_channel : Activity → Option Text
  from_channel act = elim act.provider_url [ none ↦ none | some _ ↦ act.object_url ]

  -- can_send_cross_room
  unfoldable pub can_send_cross_room : Activity → Text → Text → Result Exception Bool
  can_send_cross_room act from_room to_room =
      if from_room == to_room
      then ok true
      else (message_channel env (from_channel act) from_room >>= λ from_channel_id.
          message_channel env act.object_url to_room >>= λ to_channel_id.
          if not (from_channel_id == to_channel_id)
          then ok false
          else cross_acls act to_channel_id to_room)

module _ (depth : ℕ) (env : Env) (u : Lookups) (t : Talk) where
  -- The end of on_message for a room: whispers
  abbrev pub check_whispers : Activity → Text → Option (List Text) → Answered
  check_whispers act channel_id none = ok valid
  check_whispers act channel_id (some []) = no ErrorCode.no_such_user
  check_whispers act channel_id (some (user ∷ users)) =
      allows depth env u act (str "channel") (str "whisper")
        (u.channel_acls channel_id (str "whisper"))
      >>= λ v.
          if not (is_granted v)
          then no ErrorCode.not_allowed_to_whisper_channel
          else elim (can_send_whisper_to_user t act.actor_id (user ∷ users)) [
            | none ↦ ok valid
            | some reason ↦ no reason
          ]

  -- Mutes, then whispers
  abbrev pub check_talk : Activity → Text → Text → Text → Answered
  check_talk act channel_id room_id message =
      if t.validates_mutes && t.is_muted act.actor_id room_id
      then no ErrorCode.user_is_banned
      else if t.validates_whispers
      then check_whispers act channel_id (t.whispers_to message)
      else ok valid

  -- A sender who is not in the room
  abbrev pub check_outside : Activity → Option Text → Text → Answered → Answered
  check_outside act none room_id rest = no ErrorCode.user_not_in_room
  check_outside act (some from_room) room_id rest =
      is_user_in_room env act.actor_id from_room >>= λ inside.
      if not inside
      then no ErrorCode.user_not_in_room
      else (can_send_cross_room depth env u act from_room room_id >>= λ can_send.
          if not can_send then no ErrorCode.not_allowed else rest)

  -- The origin of the message exists, unless it is the target.
  abbrev pub origin_exists : Text → Text → Option Text → Bool
  origin_exists channel_id room_id none = true
  origin_exists channel_id room_id (some from_room) =
      from_room == room_id || u.room_exists channel_id from_room

  -- on_message for a room once the channel is known, which is put into the activity
  abbrev pub message_to_room : Activity → Text → Text → Text → Answered
  message_to_room act channel_id room_id message =
      if not (u.channel_exists channel_id)
      then no ErrorCode.no_such_channel
      else if not (u.room_exists channel_id room_id)
      then no ErrorCode.no_such_room
      else if not (origin_exists channel_id room_id act.actor_url)
      then no ErrorCode.no_such_room
      else (is_user_in_room env act.actor_id room_id >>= λ inside.
          if inside
          then check_talk act channel_id room_id message
          else check_outside act act.actor_url room_id (check_talk act channel_id room_id message))

  abbrev pub room_message : Activity → Text → Text → Answered
  room_message act room_id message = message_channel env act.object_url room_id >>= λ channel_id.
      if channel_id == str ""
      then no ErrorCode.missing_object_url
      else (need_channel_name u channel_id
          >> message_to_room (record act { object_url = some channel_id }) channel_id room_id
              message)

  -- on_message for a user: where the room is not found, the message is let through.
  abbrev pub known_private : Text → Text → Answered
  known_private room_id channel_id =
      if not (u.channel_exists channel_id)
      then no ErrorCode.no_such_channel
      else if not (u.room_exists channel_id room_id)
      then no ErrorCode.no_such_room
      else ok valid

  abbrev pub private_message : Text → Result Exception Text → Answered
  private_message room_id (ok channel_id) = known_private room_id channel_id
  private_message room_id (err Exception.no_such_room) = ok valid
  private_message room_id (err e) = err e

  -- on_message for the two types of its target
  abbrev pub typed_message : Activity → Text → Text → Text → Answered
  typed_message act object_type room_id message =
      if object_type == str "room"
      then room_message act room_id message
      else if object_type == str "private"
      then private_message room_id (message_channel env act.object_url room_id)
      else no ErrorCode.invalid_target_type

  -- on_message; a blank room id is accepted where it is not ''.
  unfoldable pub on_message : Activity → Option Text → Answered
  on_message act none = no ErrorCode.empty_message
  on_message act (some message) =
      if is_blank message
      then no ErrorCode.empty_message
      else if not (u.is_base64 message)
      then no ErrorCode.not_base64
      else elim act.target_id [
        | none ↦ no ErrorCode.missing_target_id
        | some room_id ↦
            if room_id == str ""
            then no ErrorCode.missing_target_id
            else elim act.target_object_type [
              | none ↦ no ErrorCode.invalid_target_type
              | some object_type ↦ typed_message act object_type room_id message
            ]
      ]
