-- ===== src/Request/Messages/Guards.antt =====
-- Which messages RequestValidator.on_message of dino/validation/request.py lets through, and what
-- can_send_cross_room of dino/utils/__init__.py compares.
use dino.Prelude.{
  ℕ, Bool, true, false, not, ◌&&◌, ◌||◌, Option, none, some, if◌then◌else◌, ◌≡◌, ◌↔◌, refl, arith,
  List, [], ◌∷◌,
}
use dino.Prelude.Text.{Text, ◌==◌, str, is_blank, text_dec}
use dino.Prelude.Result.{ok}
use dino.Acl.{Activity, Env}
use dino.Request.{valid}
use dino.Request.Rooms.{Lookups, Answered, allows}
use dino.Request.Rooms.Join.{admits}
use dino.Request.Messages.{
  Talk, is_user_in_room, message_channel, cross_acls, can_send_cross_room, can_send_whisper_to_user,
  check_whispers, check_talk, check_outside, origin_exists, message_to_room, room_message,
  on_message,
}

module _ (depth : ℕ) (env : Env) (u : Lookups) where
  -- A message from one room to another is allowed without any look at the channel of the room that
  -- it comes from, if the activity has a provider and the channel of the target: the test whether the two
  -- channels are the same compares the latter with itself.
  pub can_send_cross_room-one_channel :
      (act : Activity) (from_room to_room provider channel_id : Text)
      → act.provider_url ≡ some provider
      → act.object_url ≡ some channel_id
      → is_blank channel_id ≡ false
      → can_send_cross_room depth env u act from_room to_room
        ≡ (if from_room == to_room then ok true else cross_acls depth env u act channel_id to_room)
  unfolding can_send_cross_room
  can_send_cross_room-one_channel act from_room to_room provider channel_id provided url given =
      ground (arith, provided, url, given)

module _ (depth : ℕ) (env : Env) (u : Lookups) (t : Talk) where
  -- Whispers are off, the message is none, or it names users, may be whispered in the channel and
  -- to each of them.
  abbrev pub whispers_fine : Activity → Text → Option (List Text) → Bool
  whispers_fine act channel_id none = true
  whispers_fine act channel_id (some []) = false
  whispers_fine act channel_id (some (user ∷ users)) =
      admits (
        allows depth env u act (str "channel") (str "whisper")
          (u.channel_acls channel_id (str "whisper")))
      && elim (can_send_whisper_to_user t act.actor_id (user ∷ users)) [
        | none ↦ true
        | some _ ↦ false
      ]

  check_whispers_iff :
      (act : Activity) (channel_id : Text) (whispered : Option (List Text))
      → (check_whispers depth env u t act channel_id whispered ≡ ok valid)
        ↔ (whispers_fine act channel_id whispered ≡ true)
  check_whispers_iff act channel_id none = ground arith
  check_whispers_iff act channel_id (some []) = ground arith
  check_whispers_iff act channel_id (some (user ∷ users)) = ground arith

  abbrev pub talk_fine : Activity → Text → Text → Text → Bool
  talk_fine act channel_id room_id message =
      not (t.validates_mutes && t.is_muted act.actor_id room_id)
      && (not t.validates_whispers || whispers_fine act channel_id (t.whispers_to message))

  check_talk_iff :
      (act : Activity) (channel_id room_id message : Text)
      → (check_talk depth env u t act channel_id room_id message ≡ ok valid)
        ↔ (talk_fine act channel_id room_id message ≡ true)
  check_talk_iff act channel_id room_id message =
      ground (arith, check_whispers_iff act channel_id (t.whispers_to message))

  -- The message and its target, up to who sends it
  abbrev pub message_fine : Activity → Text → Text → Text → Bool
  message_fine act channel_id room_id message =
      not (is_blank message)
      && u.is_base64 message
      && not (room_id == str "")
      && not (channel_id == str "")
      && u.has_channel_name channel_id
      && u.channel_exists channel_id
      && u.room_exists channel_id room_id
      && origin_exists depth env u t channel_id room_id act.actor_url

  -- What the sender has to be: in the room, or in another one from which messages may be sent.
  abbrev pub check_sender : Activity → Text → Text → Bool → Answered → Answered
  check_sender act channel_id room_id inside rest =
      if inside
      then rest
      else check_outside depth env u t (record act { object_url = some channel_id }) act.actor_url
          room_id rest

  -- What is left once the message itself is fine
  abbrev pub sent_by : Activity → Text → Text → Text → Bool → Answered
  sent_by act channel_id room_id message inside = check_sender act channel_id room_id inside (
      check_talk depth env u t (record act { object_url = some channel_id }) channel_id room_id
        message)

  message_to_room_iff :
      (act : Activity) (message room_id channel_id : Text) (inside : Bool)
      → is_user_in_room env act.actor_id room_id ≡ ok inside
      → (message_to_room depth env u t
            (record act { object_url = some channel_id })
            channel_id
            room_id
            message
          ≡ ok valid)
        ↔ (((u.channel_exists channel_id
                && u.room_exists channel_id room_id
                && origin_exists depth env u t channel_id room_id act.actor_url)
              ≡ true)
            × (sent_by act channel_id room_id message inside ≡ ok valid))
  message_to_room_iff act message room_id channel_id inside known = ground (arith, known)

  room_message_iff :
      (act : Activity) (message room_id channel_id : Text) (inside : Bool)
      → message_channel env act.object_url room_id ≡ ok channel_id
      → is_user_in_room env act.actor_id room_id ≡ ok inside
      → (room_message depth env u t act room_id message ≡ ok valid) ↔ (
          ((not (channel_id == str "")
              && u.has_channel_name channel_id
              && u.channel_exists channel_id
              && u.room_exists channel_id room_id
              && origin_exists depth env u t channel_id room_id act.actor_url)
            ≡ true)
          × (sent_by act channel_id room_id message inside ≡ ok valid))
  room_message_iff act message room_id channel_id inside channel known =
      ground (arith, channel, message_to_room_iff act message room_id channel_id inside known)

  on_message_iff :
      (act : Activity) (message room_id channel_id : Text) (inside : Bool)
      → act.target_id ≡ some room_id
      → act.target_object_type ≡ some (str "room")
      → message_channel env act.object_url room_id ≡ ok channel_id
      → is_user_in_room env act.actor_id room_id ≡ ok inside
      → (on_message depth env u t act (some message) ≡ ok valid) ↔ (
          (message_fine act channel_id room_id message ≡ true)
          × (sent_by act channel_id room_id message inside ≡ ok valid))
  unfolding on_message text_dec
  on_message_iff act message room_id channel_id inside target typed channel known =
      ground
        (arith, target, typed, room_message_iff act message room_id channel_id inside channel known)

  -- A message to a room by a member of it is accepted exactly if it is not blank and in base64, the
  -- room and its channel are given and exist, and so does the room it comes from, if it says so, the
  -- sender is not muted there, while mutes are validated, and, while whispers are validated and
  -- it is one, it names users, whispering is allowed in the channel and to each of them.
  pub on_message-from_member :
      (act : Activity) (message room_id channel_id : Text)
      → act.target_id ≡ some room_id
      → act.target_object_type ≡ some (str "room")
      → message_channel env act.object_url room_id ≡ ok channel_id
      → is_user_in_room env act.actor_id room_id ≡ ok true
      → (on_message depth env u t act (some message) ≡ ok valid) ↔ (
          (message_fine act channel_id room_id message
            && talk_fine (record act { object_url = some channel_id }) channel_id room_id message)
          ≡ true)
  on_message-from_member act message room_id channel_id target typed channel known = ground (
    arith,
    on_message_iff act message room_id channel_id true target typed channel known,
    check_talk_iff (record act { object_url = some channel_id }) channel_id room_id message,
  )

  check_outside_sound :
      (act : Activity) (from : Option Text) (room_id : Text) (rest : Answered)
      → check_outside depth env u t act from room_id rest ≡ ok valid
      → (from_room : Text) × (from ≡ some from_room)
        × (is_user_in_room env act.actor_id from_room ≡ ok true)
        × (can_send_cross_room depth env u act from_room room_id ≡ ok true)
        × (rest ≡ ok valid)
  check_outside_sound act none room_id rest h = absurd (ground (arith, h))
  check_outside_sound act (some from_room) room_id rest h =
      (from_room, refl, ground (arith, h), ground (arith, h), ground (arith, h))

  -- A message to a room by a user who is not in it is accepted only if it says which other room, one
  -- that exists in the channel, it comes from, the sender is in that one, messages may be sent from there to the
  -- target, and the message and its whispers are fine as those of a member.
  pub on_message-from_outside :
      (act : Activity) (message room_id channel_id : Text)
      → act.target_id ≡ some room_id
      → act.target_object_type ≡ some (str "room")
      → message_channel env act.object_url room_id ≡ ok channel_id
      → is_user_in_room env act.actor_id room_id ≡ ok false
      → on_message depth env u t act (some message) ≡ ok valid
      → (from_room : Text) × (act.actor_url ≡ some from_room)
        × (is_user_in_room env act.actor_id from_room ≡ ok true)
        × (can_send_cross_room depth env u
              (record act { object_url = some channel_id })
              from_room
              room_id
            ≡ ok true)
        × ((message_fine act channel_id room_id message
              && talk_fine (record act { object_url = some channel_id }) channel_id room_id message)
            ≡ true)
  on_message-from_outside act message room_id channel_id target typed channel known accepted =
      let (fine, sent) =
        (on_message_iff act message room_id channel_id false target typed channel known).0
          accepted in
      let (from_room, from, inside, can_send, talk) =
        check_outside_sound (record act { object_url = some channel_id }) act.actor_url room_id
          (check_talk depth env u t (record act { object_url = some channel_id }) channel_id room_id
            message)
          sent in
      (
        from_room,
        from,
        inside,
        can_send,
        ground (
          arith,
          fine,
          (check_talk_iff (record act { object_url = some channel_id }) channel_id room_id
                message).0
              talk,
        ),
      )
