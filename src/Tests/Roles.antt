-- ===== src/Tests/Roles.antt =====
-- The roles of dino/db/redis.py at a small database.
use dino.Prelude.{none, true, false, if◌then◌else◌, not, ◌&&◌, ◌||◌, [], ◌∷◌, ◌≡◌, refl}
use dino.Prelude.Text.{Text, ◌==◌, text_dec, split, str}
use dino.Prelude.Dict.{Dict, lookup}
use dino.Redis.{Key}
use dino.Redis.Model.{Server, model}
use dino.Db.{Database}
use dino.Db.RoleKeys
use dino.Db.Roles.{has_role, has_role_in_room}
use dino.Db.Roles.Grants.{in_room, same_grant, holds, succeeded}
use dino.Db.Roles.Refines.{admin, owner, moderator, grant_of, give, take, give-Adds, take-Removes}

-- A channel 'c' with a room 'r', whose owner and moderator is 'ann'; 'bob' is in it.
abbrev hashes : Key → Dict Text
hashes Key.global_roles = (str "root", str "superuser") ∷ []
hashes (Key.channel_roles c) = if c == str "c" then (str "ann", str "owner") ∷ [] else []
hashes (Key.room_roles r) = if r == str "r" then (str "ann", str "owner,moderator") ∷ [] else []
hashes Key.channels = (str "c", str "Chat") ∷ []
hashes (Key.rooms c) = if c == str "c" then (str "r", str "Room") ∷ [] else []
hashes Key.room_name_for_id = (str "r", str "Room") ∷ []
hashes Key.channel_for_rooms = (str "r", str "c") ∷ []
hashes Key.user_names = (str "ann", str "Ann") ∷ (str "bob", str "Bob") ∷ []
hashes (Key.users_in_room r) = if r == str "r" then (str "bob", str "Bob") ∷ [] else []
hashes (Key.rooms_for_user u) = if u == str "bob" then (str "r", str "Room") ∷ [] else []
hashes Key.banned_users_global = (str "eve", str "5m|300|Eve") ∷ []
hashes (Key.banned_users_channel c) = if c == str "c" then (str "eve", str "1m|60|Eve") ∷ [] else []
hashes (Key.banned_users_room r) = if r == str "r" then (str "eve", str "1m|60|Eve") ∷ [] else []
hashes (Key.channel_acl c) = if c == str "c" then (str "join|age", str "18:") ∷ [] else []
hashes _ = []

abbrev pub small : Database Server
small = record {
  redis = record {
    hashes = hashes;
    sets = λ _. [];
    texts = λ k. none;
    bits = λ n. false;
    scores = [];
    ttls = λ k. none;
  };
  cached_channel_name = [];
  cached_channel_for_room = [];
  cached_channel_exists = [];
}

test_holds : holds small (in_room RoleKeys.moderator (str "r") (str "ann")) ≡ true
unfolding has_role_in_room has_role split lookup text_dec
test_holds = refl

give-Adds_example :
    holds (give admin (str "c") (str "bob") small).1 (grant_of admin (str "c") (str "bob")) ≡ (
      (succeeded (give admin (str "c") (str "bob") small)
        && same_grant (grant_of admin (str "c") (str "bob")) (grant_of admin (str "c") (str "bob")))
      || holds small (grant_of admin (str "c") (str "bob")))
give-Adds_example =
    give-Adds admin (str "c") (str "bob") small (grant_of admin (str "c") (str "bob")) (λ h. cc)

take-Removes_example :
    holds (take moderator (str "r") (str "ann") small).1 (grant_of owner (str "r") (str "ann")) ≡ (
      not (
        succeeded (take moderator (str "r") (str "ann") small)
        && same_grant
            (grant_of owner (str "r") (str "ann"))
            (grant_of moderator (str "r") (str "ann")))
      && holds small (grant_of owner (str "r") (str "ann")))
take-Removes_example =
    take-Removes moderator (str "r") (str "ann") small (grant_of owner (str "r") (str "ann"))
      (λ h. cc)
