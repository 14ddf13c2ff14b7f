-- ===== src/Db/Roles/Grants.antt =====
-- What the calls on roles of dino/db/redis.py promise: a set of grants.
use dino.Prelude.{
  Bool, true, false, not, ◌&&◌, ◌||◌, Option, none, some, [], if◌then◌else◌, ◌≡◌, ◌≢◌, arith,
}
use dino.Prelude.Text.{Text, ◌==◌}
use dino.Prelude.Result.{Result, ok, err}
use dino.Prelude.Split.{Lacks}
use dino.Redis.{Key, Client, hget}
use dino.Db.{Database, Error}
use dino.Db.Roles.{
  without_role, has_role_in_room, has_role_in_channel, has_global_role, add_channel_role,
  add_room_role, add_global_role, remove_channel_role, remove_room_role, remove_global_role,
  store_room_role, store_channel_role, store_global_role, get_channel_name, get_room_name,
}
use dino.Db.Roles.Laws.{has_role-with_role, has_role-without_role, left_of}

-- A role that a user has.
pub data Grant : Type 0 where
  globally : Text → Text → Grant
  in_channel in_room : Text → Text → Text → Grant

abbrev pub role_of : Grant → Text
role_of (globally role _) = role
role_of (in_channel role _ _) = role
role_of (in_room role _ _) = role

abbrev pub same_grant : Grant → Grant → Bool
same_grant (globally r u) (globally role user) = u == user && r == role
same_grant (in_channel r c u) (in_channel role channel user) =
    (c == channel && u == user) && r == role
same_grant (in_room r k u) (in_room role room user) = (k == room && u == user) && r == role
same_grant _ _ = false

module _ {S : Type 0} ⦃R : Client S⦄ where
  -- Redis has the grant.
  abbrev pub holds : Database S → Grant → Bool
  holds db (globally role user) = has_global_role (some user) role db
  holds db (in_channel role channel user) = has_role_in_channel role channel (some user) db
  holds db (in_room role room user) = has_role_in_room role room (some user) db

  abbrev pub succeeded {ℓ} : {A : Type ℓ} → Result Error A × Database S → Bool
  succeeded (ok _, _) = true
  succeeded (err _, _) = false

  -- What a call leaves of every grant if it adds one.
  abbrev pub Adds : Grant → Database S → Result Error (Unit {0}) × Database S → Type 0
  Adds g db out =
      (h : Grant)
      → role_of h ≢ []
      → holds out.1 h ≡ ((succeeded out && same_grant h g) || holds db h)

  -- What it leaves if it removes one.
  abbrev pub Removes : Grant → Database S → Result Error (Unit {0}) × Database S → Type 0
  Removes g db out =
      (h : Grant)
      → role_of h ≢ []
      → holds out.1 h ≡ (not (succeeded out && same_grant h g) && holds db h)

  module _ (role : Text) (user_id : Text) where
    pub add_room_role-Adds :
        (room_id : Text) (db : Database S)
        → Lacks b',' role
        → Adds (in_room role room_id user_id) db (add_room_role role room_id user_id db)
    unfolding add_room_role get_room_name has_role_in_room has_role_in_channel has_global_role
    add_room_role-Adds room_id db c (globally r u) n = grind arith
    add_room_role-Adds room_id db c (in_channel r k u) n = grind arith
    add_room_role-Adds room_id db c (in_room r k u) n =
        grind
          (arith, has_role-with_role r role (hget (Key.room_roles room_id) user_id db.redis) n c)

    pub add_channel_role-Adds :
        (channel_id : Text) (db : Database S)
        → Lacks b',' role
        → Adds (in_channel role channel_id user_id) db (add_channel_role role channel_id user_id db)
    unfolding add_channel_role get_channel_name has_role_in_room has_role_in_channel has_global_role
    add_channel_role-Adds channel_id db c (globally r u) n = grind arith
    add_channel_role-Adds channel_id db c (in_room r k u) n = grind arith
    add_channel_role-Adds channel_id db c (in_channel r k u) n = grind (
      arith,
      has_role-with_role r role (hget (Key.channel_roles channel_id) user_id db.redis) n c,
    )

    pub add_global_role-Adds :
        (db : Database S)
        → Lacks b',' role
        → Adds (globally role user_id) db (add_global_role user_id role db)
    unfolding add_global_role has_role_in_room has_role_in_channel has_global_role
    add_global_role-Adds db c (in_room r k u) n = grind arith
    add_global_role-Adds db c (in_channel r k u) n = grind arith
    add_global_role-Adds db c (globally r u) n =
        grind (arith, has_role-with_role r role (hget Key.global_roles user_id db.redis) n c)

    stored_room :
        (k u room_id : Text) (o : Option Text) (db : Database S)
        → hget (Key.room_roles k) u (store_room_role room_id user_id o db).redis ≡ (
            if k == room_id && u == user_id
            then left_of (hget (Key.room_roles room_id) user_id db.redis) o
            else hget (Key.room_roles k) u db.redis)
    stored_room k u room_id none db = grind arith
    stored_room k u room_id (some roles) db = grind arith

    stored_channel :
        (k u channel_id : Text) (o : Option Text) (db : Database S)
        → hget (Key.channel_roles k) u (store_channel_role channel_id user_id o db).redis ≡ (
            if k == channel_id && u == user_id
            then left_of (hget (Key.channel_roles channel_id) user_id db.redis) o
            else hget (Key.channel_roles k) u db.redis)
    stored_channel k u channel_id none db = grind arith
    stored_channel k u channel_id (some roles) db = grind arith

    stored_global :
        (u : Text) (o : Option Text) (db : Database S)
        → hget Key.global_roles u (store_global_role user_id o db).redis ≡ (
            if u == user_id
            then left_of (hget Key.global_roles user_id db.redis) o
            else hget Key.global_roles u db.redis)
    stored_global u none db = grind arith
    stored_global u (some roles) db = grind arith

    pub remove_room_role-Removes :
        (room_id : Text) (db : Database S)
        → Removes (in_room role room_id user_id) db (remove_room_role role room_id user_id db)
    unfolding remove_room_role has_role_in_room has_role_in_channel has_global_role
    remove_room_role-Removes room_id db (globally r u) n = grind arith
    remove_room_role-Removes room_id db (in_channel r k u) n = grind arith
    remove_room_role-Removes room_id db (in_room r k u) n =
        rw
          (stored_room k u room_id
            (without_role role (hget (Key.room_roles room_id) user_id db.redis)) db)
          (grind (
            arith,
            has_role-without_role r role (hget (Key.room_roles room_id) user_id db.redis) n,
          ))

    pub remove_channel_role-Removes :
        (channel_id : Text) (db : Database S)
        → Removes
            (in_channel role channel_id user_id)
            db
            (remove_channel_role role channel_id user_id db)
    unfolding remove_channel_role has_role_in_room has_role_in_channel has_global_role
    remove_channel_role-Removes channel_id db (globally r u) n = grind arith
    remove_channel_role-Removes channel_id db (in_room r k u) n = grind arith
    remove_channel_role-Removes channel_id db (in_channel r k u) n =
        rw
          (stored_channel k u channel_id
            (without_role role (hget (Key.channel_roles channel_id) user_id db.redis)) db)
          (grind (
            arith,
            has_role-without_role r role (hget (Key.channel_roles channel_id) user_id db.redis) n,
          ))

    pub remove_global_role-Removes :
        (db : Database S) → Removes (globally role user_id) db (remove_global_role user_id role db)
    unfolding remove_global_role has_role_in_room has_role_in_channel has_global_role
    remove_global_role-Removes db (in_room r k u) n = grind arith
    remove_global_role-Removes db (in_channel r k u) n = grind arith
    remove_global_role-Removes db (globally r u) n =
        rw (stored_global u (without_role role (hget Key.global_roles user_id db.redis)) db)
          (grind (arith, has_role-without_role r role (hget Key.global_roles user_id db.redis) n))
