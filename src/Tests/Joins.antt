-- ===== src/Tests/Joins.antt =====
-- Requests to join rooms and to send messages, at a small configuration.
use dino.Prelude.{true, false, ◌&&◌, ◌||◌, none, some, [], ◌∷◌, ◌≡◌, ◌↔◌, refl}
use dino.Prelude.Text.{Text, ◌==◌, text_dec, str}
use dino.Prelude.Dict.{lookup}
use dino.Prelude.Result.{ok, err}
use dino.Acl.{Exception, Activity, Env}
use dino.Acl.Action.{validate_acl_for_action, channel_of, decide_action}
use dino.Request.{valid}
use dino.Request.Rooms.{Lookups, find_room, on_join}
use dino.Request.Rooms.Join.{ordinary_joins, on_join_iff, on_join-by_name}
use dino.Request.Messages.{Talk, is_user_in_room, message_channel, can_send_cross_room, on_message}
use dino.Request.Messages.Guards.{
  message_fine, talk_fine, on_message-from_member, on_message-from_outside,
}
use dino.Tests.Acls.{env, ann_joins}

abbrev pub lookups : Lookups
lookups = record {
  has_room_name = λ r. true;
  room_id_of = λ n. ok (str "r");
  has_channel_name = λ c. true;
  has_user_name = λ u. true;
  channel_exists = λ c. true;
  room_exists = λ c r. true;
  room_name_exists = λ c n. false;
  room_name_restricted = λ n. false;
  user_is_online = λ u. true;
  excluded_users = λ u. [];
  owners_for_room = λ r. [];
  room_acls = λ r a. some ((str "age", str "18:") ∷ []);
  channel_acls = λ c a. [];
  is_banned = λ u r. false;
  is_banned_globally = λ u. false;
  is_base64 = λ s. true;
  b64d = λ s. s;
}

found_r : find_room lookups (some (str "r")) none ≡ ok (str "r")
unfolding find_room
found_r = refl

on_join_iff_example : (on_join 5 env lookups ann_joins none ≡ ok valid) ↔ (
    (true
      && (false
          || false
          || false
          || false
          || ordinary_joins 5 env lookups ann_joins (str "ann") (str "r") (str "c")))
    ≡ true)
unfolding lookup text_dec
on_join_iff_example =
    on_join_iff 5 env lookups ann_joins none (str "r") (str "c") (str "ann") refl found_r refl refl

-- There is no channel for the room None.
abbrev strict_env : Env
strict_env = record env {
  roles = record (env.roles) {
    channel_for_room = λ r. elim r [ none ↦ err Exception.no_such_room | some _ ↦ ok (str "c") ];
  };
}

found_by_name : find_room lookups none (some (str "Room")) ≡ ok (str "r")
unfolding find_room
found_by_name = refl

on_join-by_name_example :
    on_join 5 strict_env lookups (record ann_joins { target_id = none }) (some (str "Room"))
    ≡ err Exception.no_such_room
unfolding lookup text_dec
on_join-by_name_example =
    on_join-by_name 5 strict_env lookups (record ann_joins { target_id = none })
      Exception.no_such_room (some (str "Room")) (str "r") (str "c") (str "ann")
      ((str "age", str "18:") ∷ []) refl refl refl found_by_name refl refl refl refl refl refl

abbrev talk : Talk
talk = record {
  validates_mutes = true;
  is_muted = λ u r. false;
  validates_whispers = false;
  whispers_to = λ m. none;
  user_name_exists = λ n. true;
  can_send_whisper_to = λ s u. none;
}

channel_given : message_channel env (some (str "c")) (str "r") ≡ ok (str "c")
channel_given = refl

member : is_user_in_room env (str "ann") (str "r") ≡ ok true
unfolding is_user_in_room
member = refl

on_message-from_member_example :
    (on_message 5 env lookups talk ann_joins (some (str "aGk=")) ≡ ok valid) ↔ (
      (message_fine 5 env lookups talk ann_joins (str "c") (str "r") (str "aGk=")
        && talk_fine 5 env lookups talk
            (record ann_joins { object_url = some (str "c") })
            (str "c")
            (str "r")
            (str "aGk="))
      ≡ true)
on_message-from_member_example =
    on_message-from_member 5 env lookups talk ann_joins (str "aGk=") (str "r") (str "c") refl refl
      channel_given member

-- 'ann' is in the room 'home' only, and sends from there; no rules are configured.
abbrev outside_env : Env
outside_env = record env {
  actions = λ t a. none;
  roles = record (env.roles) { room_contains = λ r u. ok (r == str "home") };
}

abbrev from_home : Activity
from_home = record ann_joins { actor_url = some (str "home"); provider_url = some (str "c") }

not_member : is_user_in_room outside_env (str "ann") (str "r") ≡ ok false
unfolding is_user_in_room text_dec
not_member = refl

from_home_sent : on_message 5 outside_env lookups talk from_home (some (str "aGk=")) ≡ ok valid
unfolding on_message is_user_in_room can_send_cross_room validate_acl_for_action channel_of
    decide_action text_dec
from_home_sent = refl

on_message-from_outside_example :
    (from_room : Text) × (from_home.actor_url ≡ some from_room)
    × (is_user_in_room outside_env (str "ann") from_room ≡ ok true)
    × (can_send_cross_room 5 outside_env lookups
          (record from_home { object_url = some (str "c") })
          from_room
          (str "r")
        ≡ ok true)
    × ((message_fine 5 outside_env lookups talk from_home (str "c") (str "r") (str "aGk=")
          && talk_fine 5 outside_env lookups talk
              (record from_home { object_url = some (str "c") })
              (str "c")
              (str "r")
              (str "aGk="))
        ≡ true)
on_message-from_outside_example =
    on_message-from_outside 5 outside_env lookups talk from_home (str "aGk=") (str "r") (str "c")
      refl refl refl not_member from_home_sent
