-- ===== src/Db/Roles/Refines.antt =====
-- The twelve calls that give and take a role, of dino/db/redis.py, against the set of grants.
use dino.Prelude.{true, not, ◌&&◌, ◌||◌, [], ◌∷◌, ◌≡◌, refl, arith}
use dino.Prelude.Text.{Text}
use dino.Prelude.Dict.{has}
use dino.Prelude.Result.{Result, ok, err}
use dino.Redis.{Key, Client, hexists}
use dino.Db.{Database, Action, Error, no_channel_found, no_such_room, ◌>>=◌, ◌>>◌}
use dino.Db.RoleKeys
use dino.Db.Roles.{
  has_role_in_room, has_role_in_channel, has_global_role, get_channel_name, get_room_name,
  channel_for_room, channel_exists, add_room_role, add_channel_role, add_global_role,
  remove_room_role, remove_channel_role,
}
use dino.Db.Roles.Calls.{
  set_admin, set_moderator, set_super_user, set_global_moderator, set_owner, set_owner_channel,
  remove_admin, remove_owner_channel, remove_moderator, remove_owner, remove_super_user,
  remove_global_moderator, need_channel, need_channel_of, need_text,
}
use dino.Db.Roles.Grants.{
  Grant, globally, in_channel, in_room, same_grant, holds, succeeded, Adds, Removes,
  add_room_role-Adds, add_channel_role-Adds, add_global_role-Adds, remove_room_role-Removes,
  remove_channel_role-Removes, remove_global_role-Removes,
}

-- The roles that are given and taken.
pub data Kind : Type 0 where
  admin owner_channel moderator owner super_user global_moderator : Kind

-- The grant of a role in a place, a channel or a room, to a user. A global role has no place.
abbrev pub grant_of : Kind → Text → Text → Grant
grant_of admin place user = in_channel RoleKeys.admin place user
grant_of owner_channel place user = in_channel RoleKeys.owner place user
grant_of moderator place user = in_room RoleKeys.moderator place user
grant_of owner place user = in_room RoleKeys.owner place user
grant_of super_user place user = globally RoleKeys.super_user user
grant_of global_moderator place user = globally RoleKeys.global_moderator user

module _ {S : Type 0} ⦃R : Client S⦄ where
  -- set_admin, and so on
  abbrev pub give : Kind → Text → Text → Action S (Unit {0})
  give admin place user = set_admin place user
  give owner_channel place user = set_owner_channel place user
  give moderator place user = set_moderator place user
  give owner place user = set_owner place user
  give super_user place user = set_super_user user
  give global_moderator place user = set_global_moderator place user

  -- remove_admin, and so on
  abbrev pub take : Kind → Text → Text → Action S (Unit {0})
  take admin place user = remove_admin place user
  take owner_channel place user = remove_owner_channel place user
  take moderator place user = remove_moderator place user
  take owner place user = remove_owner place user
  take super_user place user = remove_super_user user
  take global_moderator place user = remove_global_moderator user

  -- What comes before a role is given or taken leaves every grant as it was.
  abbrev Keeps {ℓ} : {A : Type ℓ} → Action S A → Type 0
  Keeps m = (db : Database S) (h : Grant) → holds (m db).1 h ≡ holds db h

  module _ {ℓ} {A : Type ℓ} (m : Action S A) (keeps : Keeps m) (g : Grant)
      (k : Action S (Unit {0})) where
    >>-Adds : ((db : Database S) → Adds g db (k db)) → (db : Database S) → Adds g db ((m >> k) db)
    >>-Adds adds db h n = go (m db) (keeps db h)
      where
        go :
            (out : Result Error A × Database S)
            → holds out.1 h ≡ holds db h
            → holds (((λ (_ : Database S). out) >> k) db).1 h
              ≡ ((succeeded (((λ (_ : Database S). out) >> k) db) && same_grant h g) || holds db h)
        go (ok a, db') kept = ground (arith, adds db' h n, kept)
        go (err e, db') kept = kept

    >>-Removes :
        ((db : Database S) → Removes g db (k db)) → (db : Database S) → Removes g db ((m >> k) db)
    >>-Removes removes db h n = go (m db) (keeps db h)
      where
        go :
            (out : Result Error A × Database S)
            → holds out.1 h ≡ holds db h
            → holds (((λ (_ : Database S). out) >> k) db).1 h ≡ (
                not (succeeded (((λ (_ : Database S). out) >> k) db) && same_grant h g)
                && holds db h)
        go (ok a, db') kept = ground (arith, removes db' h n, kept)
        go (err e, db') kept = ground (arith, kept)

  need_channel-Keeps : (channel_id : Text) → Keeps (need_channel channel_id)
  unfolding need_channel
  need_channel-Keeps channel_id db h = refl

  get_room_name-Keeps : (room_id : Text) → Keeps (get_room_name room_id)
  unfolding get_room_name
  get_room_name-Keeps room_id db h = ground arith

  channel_for_room-Keeps : (room_id : Text) → Keeps (channel_for_room room_id)
  unfolding channel_for_room get_room_name has_role_in_room has_role_in_channel has_global_role
  channel_for_room-Keeps room_id db (globally r u) = ground arith
  channel_for_room-Keeps room_id db (in_channel r k u) = ground arith
  channel_for_room-Keeps room_id db (in_room r k u) = ground arith

  -- Each of the six calls that give a role adds its grant if it succeeds, in a channel, a room or
  -- globally, and changes no other grant, of any user or place; if it raises, no grant changes.
  pub give-Adds :
      (kind : Kind) (place user : Text) (db : Database S)
      → Adds (grant_of kind place user) db (give kind place user db)
  unfolding set_admin set_moderator set_super_user set_global_moderator set_owner set_owner_channel
  give-Adds admin place user db =
      >>-Adds (need_channel place) (need_channel-Keeps place) (grant_of admin place user)
        (add_channel_role RoleKeys.admin place user)
        (λ db. add_channel_role-Adds RoleKeys.admin user place db refl) db
  give-Adds owner_channel place user db = add_channel_role-Adds RoleKeys.owner user place db refl
  give-Adds moderator place user db = add_room_role-Adds RoleKeys.moderator user place db refl
  give-Adds owner place user db = add_room_role-Adds RoleKeys.owner user place db refl
  give-Adds super_user place user db = add_global_role-Adds RoleKeys.super_user user db refl
  give-Adds global_moderator place user db =
      add_global_role-Adds RoleKeys.global_moderator user db refl

  need_channel_of-Keeps : (room_id : Text) (e : Error) → Keeps (need_channel_of room_id e)
  need_channel_of-Keeps room_id e db h =
      go (channel_for_room room_id db) (channel_for_room-Keeps room_id db h)
    where
      go :
          (out : Result Error Text × Database S)
          → holds out.1 h ≡ holds db h
          → holds (((λ (_ : Database S). out) >>= need_text e) db).1 h ≡ holds db h
      go (ok [], db') kept = kept
      go (ok (_ ∷ _), db') kept = kept
      go (err _, db') kept = kept

  -- Each of the six calls that take a role away removes its grant if it succeeds, and changes no
  -- other grant, of any user or place; if it raises, no grant changes.
  pub take-Removes :
      (kind : Kind) (place user : Text) (db : Database S)
      → Removes (grant_of kind place user) db (take kind place user db)
  unfolding remove_admin remove_owner_channel remove_moderator remove_owner remove_super_user
      remove_global_moderator
  take-Removes admin place user =
      >>-Removes (need_channel place) (need_channel-Keeps place) (grant_of admin place user)
        (remove_channel_role RoleKeys.admin place user)
        (remove_channel_role-Removes RoleKeys.admin user place)
  take-Removes owner_channel place user =
      >>-Removes (need_channel place) (need_channel-Keeps place) (grant_of owner_channel place user)
        (remove_channel_role RoleKeys.owner place user)
        (remove_channel_role-Removes RoleKeys.owner user place)
  take-Removes moderator place user =
      >>-Removes (get_room_name place) (get_room_name-Keeps place) (grant_of moderator place user)
        (need_channel_of place no_channel_found >> remove_room_role RoleKeys.moderator place user)
        (>>-Removes (need_channel_of place no_channel_found)
          (need_channel_of-Keeps place no_channel_found) (grant_of moderator place user)
          (remove_room_role RoleKeys.moderator place user)
          (remove_room_role-Removes RoleKeys.moderator user place))
  take-Removes owner place user =
      >>-Removes (need_channel_of place no_such_room) (need_channel_of-Keeps place no_such_room)
        (grant_of owner place user) (remove_room_role RoleKeys.owner place user)
        (remove_room_role-Removes RoleKeys.owner user place)
  take-Removes super_user place user = remove_global_role-Removes RoleKeys.super_user user
  take-Removes global_moderator place user =
      remove_global_role-Removes RoleKeys.global_moderator user

  -- When giving a role raises: an admin is made in a channel that exists, the owner of a channel in
  -- one whose name is stored or cached, a moderator or an owner of a room in one that has a name;
  -- global roles can always be given.
  pub give_succeeds_iff :
      (kind : Kind) (place user : Text) (db : Database S)
      → succeeded (give kind place user db) ≡ elim kind [
        | admin ↦ channel_exists place db
        | owner_channel ↦ has place db.cached_channel_name || hexists Key.channels place db.redis
        | moderator ↦ hexists Key.room_name_for_id place db.redis
        | owner ↦ hexists Key.room_name_for_id place db.redis
        | super_user ↦ true
        | global_moderator ↦ true
      ]
  unfolding set_admin set_moderator set_super_user set_global_moderator set_owner set_owner_channel
      add_channel_role add_room_role add_global_role need_channel get_channel_name get_room_name
      channel_exists
  give_succeeds_iff admin place user db = ground arith
  give_succeeds_iff owner_channel place user db = ground arith
  give_succeeds_iff moderator place user db = ground arith
  give_succeeds_iff owner place user db = ground arith
  give_succeeds_iff super_user place user db = refl
  give_succeeds_iff global_moderator place user db = refl
