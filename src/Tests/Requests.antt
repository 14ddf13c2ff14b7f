-- ===== src/Tests/Requests.antt =====
-- Requests that need privileges, at one set of answers.
use dino.Prelude.{true, false, none, some, ◌≡◌, refl}
use dino.Prelude.Text.{◌==◌, text_dec, str}
use dino.Prelude.Result.{ok}
use dino.Generic.{is_digit, isdigit}
use dino.Duration.{validate_duration}
use dino.Acl.{Roles}
use dino.Request.{Queries, valid, on_kick, on_ban}

-- 'o' owns every room and every channel; nobody has another role.
abbrev owner_roles : Roles
owner_roles = record {
  admin = λ c u. false;
  owner_channel = λ c u. u == str "o";
  owner = λ r u. u == str "o";
  moderator = λ r u. false;
  super_user = λ u. false;
  global_moderator = λ u. false;
  channel_for_room = λ r. ok (str "c");
  room_contains = λ r u. ok true;
}

abbrev pub answers : Queries
answers = record {
  roles = owner_roles;
  has_room_name = λ r. true;
  room_exists = λ c r. true;
  is_room_ephemeral = λ r. false;
  sender_can_delete = true;
  sender_of = λ m. some (str "bob");
}

o_kicks : on_kick answers (str "o") (some (str "r")) (some (str "bob")) ≡ ok valid
unfolding on_kick text_dec
o_kicks = refl

o_bans :
    on_ban answers (str "o") (str "room") (some (str "r")) (some (str "bob")) none (some (str "5m"))
    ≡ ok valid
unfolding on_ban validate_duration is_digit isdigit text_dec
o_bans = refl
