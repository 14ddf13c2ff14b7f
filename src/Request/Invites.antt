-- ===== src/Request/Invites.antt =====
-- RequestValidator of dino/validation/request.py: invitations, whispers, reports, changed user
-- information and requests for an admin. An attribute that is tested for with hasattr is `none`
-- where it is missing.
use dino.Prelude.{ℕ, true, not, Option, none, some, List, [], ◌∷◌, if◌then◌else◌, ◌≡◌, arith}
use dino.Prelude.Text.{Text, str, is_blank}
use dino.Prelude.Result.{Result, ok, err, ◌>>=◌, ◌>>◌}
use dino.Acl.{Exception, Activity, Env}
use dino.Acl.Validators.{is_blank_or_none}
use dino.Request.{ErrorCode, Answer, valid, invalid}
use dino.Request.Rooms.{Lookups, Answered, no, need_channel_name, permitted, allows}

-- An attachment with a new value
pub record Attachment : Type 0 where
  pub object_type : Option Text
  pub content : Option Text

module _ (u : Lookups) where
  -- on_report, of a message without a summary; with one it raises an AttributeError.
  unfoldable pub on_report : Option Text → Option Text → Option Text → Answer
  on_report none id target_id = invalid ErrorCode.missing_object_content
  on_report (some content) none target_id = invalid ErrorCode.missing_object_id
  on_report (some content) (some id) none = invalid ErrorCode.missing_target_id
  on_report (some content) (some id) (some target_id) =
      if not (u.has_user_name target_id)
      then invalid ErrorCode.no_such_user
      else if not (u.is_base64 content)
      then invalid ErrorCode.not_base64
      else valid

  abbrev pub check_content : Option Text → Answer → Answer
  check_content none rest = invalid ErrorCode.missing_attachment_content
  check_content (some content) rest =
      if is_blank content
      then invalid ErrorCode.missing_attachment_content
      else if not (u.is_base64 content)
      then invalid ErrorCode.not_base64
      else rest

  -- The loop over the attachments
  unfoldable pub check_attachments : List Attachment → Answer
  check_attachments [] = valid
  check_attachments (attachment ∷ rest) =
      let checked = check_attachments rest in
      if is_blank_or_none attachment.object_type
      then invalid ErrorCode.missing_attachment_type
      else check_content attachment.content checked

  -- on_update_user_info, of an activity with an object
  unfoldable pub on_update_user_info : Option (List Attachment) → Answer
  on_update_user_info none = invalid ErrorCode.missing_object_attachments
  on_update_user_info (some []) = invalid ErrorCode.missing_object_attachments
  on_update_user_info (some (attachment ∷ rest)) = check_attachments (attachment ∷ rest)

-- on_request_admin: the admin room there is
unfoldable pub on_request_admin : Env → Option Text → Option Text → Answered
on_request_admin env room_id admin_room_id = env.roles.channel_for_room room_id >>= λ channel_id.
    if is_blank_or_none admin_room_id then no ErrorCode.no_admin_room_found else ok valid

module _ (depth : ℕ) (env : Env) (u : Lookups) where
  -- What on_invite catches
  abbrev pub catch_invite : Result Exception Text → (Text → Answered) → Answered
  catch_invite (ok channel_id) next = next channel_id
  catch_invite (err Exception.no_such_room) next = no ErrorCode.no_such_room
  catch_invite (err Exception.no_channel_found) next = no ErrorCode.no_such_room
  catch_invite (err e) next = err e

  -- What on_whisper catches
  abbrev pub catch_whisper : Result Exception Text → (Text → Answered) → Answered
  catch_whisper (ok channel_id) next = next channel_id
  catch_whisper (err Exception.no_such_channel) next = no ErrorCode.no_such_room
  catch_whisper (err Exception.no_channel_found) next = no ErrorCode.no_such_room
  catch_whisper (err e) next = err e

  -- on_invite
  unfoldable pub on_invite : Activity → Answered
  on_invite act = elim act.actor_url [
    | none ↦ no ErrorCode.missing_actor_url
    | some invite_room ↦ elim act.target_id [
      | none ↦ no ErrorCode.missing_target_id
      | some user_id ↦
          if not (u.has_user_name user_id)
          then no ErrorCode.no_such_user
          else catch_invite (env.roles.channel_for_room (some invite_room)) λ channel_id.
            if not (u.room_exists channel_id invite_room)
            then no ErrorCode.no_such_room
            else (need_channel_name u channel_id >> ok valid)
    ]
  ]

  -- on_whisper once the channel is found, which is put into the activity
  abbrev pub whisper_in_channel : Activity → Text → Answered
  whisper_in_channel act channel_id =
      if not (u.has_channel_name channel_id)
      then no ErrorCode.no_such_channel
      else permitted
          (allows depth env u (record act { object_url = some channel_id }) (str "channel")
            (str "whisper") (u.channel_acls channel_id (str "whisper")))
          (ok valid)

  -- on_whisper, of an activity whose actor has an id
  unfoldable pub on_whisper : Activity → Option Text → Answered
  on_whisper act content = elim act.target_id [
    | none ↦ no ErrorCode.missing_target_id
    | some user_id ↦ elim act.actor_url [
      | none ↦ no ErrorCode.missing_actor_url
      | some room_id ↦ elim content [
        | none ↦ no ErrorCode.missing_object_content
        | some message ↦
            if not (u.is_base64 message)
            then no ErrorCode.not_base64
            else catch_whisper (env.roles.channel_for_room (some room_id)) (whisper_in_channel act)
      ]
    ]
  ]

  -- In a room that does not exist, an invitation by its origin is answered with the code for that,
  -- and a whisper raises the exception: on_whisper catches that there is no such channel, not that
  -- there is no such room.
  pub no_such_room-answers :
      (act : Activity) (room_id user_id message : Text)
      → act.actor_url ≡ some room_id
      → act.target_id ≡ some user_id
      → u.has_user_name user_id ≡ true
      → u.is_base64 message ≡ true
      → env.roles.channel_for_room (some room_id) ≡ err Exception.no_such_room
      → (on_invite act ≡ no ErrorCode.no_such_room)
        × (on_whisper act (some message) ≡ err Exception.no_such_room)
  unfolding on_invite on_whisper
  no_such_room-answers act room_id user_id message origin target named encoded missing =
      ground (arith, origin, target, named, encoded, missing)
