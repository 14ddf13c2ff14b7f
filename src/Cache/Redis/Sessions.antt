-- ===== src/Cache/Redis/Sessions.antt =====
-- The session ids of users: CacheRedis of dino/cache/redis.py. They are kept in Redis alone, as one
-- text for each user, separated by commas, and the user of each.
pub mod Filed
use dino.Prelude.{Option, none, some, List, [], ◌∷◌, ◌++◌, if◌then◌else◌}
use dino.Prelude.Text.{Text, split, join, contains}
use dino.Redis.{Key, Client, hget, hset, hdel}
use dino.Db.Roles.{set_of, with_role, without_role}

-- `set(str(all_sids, 'utf-8').split(','))`, or set()
abbrev pub sids_of : Option Text → List Text
sids_of none = []
sids_of (some sids) = set_of (split b',' sids)

-- `all_sids.add(sid)`
abbrev pub add_to : Text → List Text → List Text
add_to sid sids = if contains sids sid then sids else sids ++ sid ∷ []

module _ {S : Type 0} ⦃R : Client S⦄ where
  -- get_user_for_sid
  unfoldable pub get_user_for_sid : Text → S → Option Text
  get_user_for_sid sid s = hget Key.user_id_for_sid sid s

  -- get_sids_for_user
  unfoldable pub get_sids_for_user : Text → S → Option (List Text)
  get_sids_for_user user_id s = elim (hget Key.sid_for_user_id user_id s) [
    | none ↦ none
    | some sids ↦ some (sids_of (some sids))
  ]

  -- The loop of `set_sids_for_user` and `add_sid_for_user`.
  unfoldable pub assign_sids : Text → List Text → S → S
  assign_sids user_id [] s = s
  assign_sids user_id (sid ∷ sids) s =
      assign_sids user_id sids (hset Key.user_id_for_sid sid user_id s)

  -- set_sids_for_user
  unfoldable pub set_sids_for_user : Text → List Text → S → S
  set_sids_for_user user_id all_sids s =
      let sids = set_of all_sids in
      hset Key.sid_for_user_id user_id (join b',' sids) (assign_sids user_id sids s)

  -- add_sid_for_user
  unfoldable pub add_sid_for_user : Text → Text → S → S
  add_sid_for_user user_id sid s =
      let stored = hget Key.sid_for_user_id user_id s in
      hset Key.sid_for_user_id user_id (with_role sid stored)
        (assign_sids user_id (add_to sid (sids_of stored)) s)

  -- reset_sids_for_user
  unfoldable pub reset_sids_for_user : Text → S → S
  reset_sids_for_user user_id s = hdel Key.sid_for_user_id user_id s

  abbrev pub store_sids : Text → Option Text → S → S
  store_sids user_id none s = s
  store_sids user_id (some sids) s = hset Key.sid_for_user_id user_id sids s

  -- remove_sid_for_user; nothing in it raises a RuntimeError.
  unfoldable pub remove_sid_for_user : Option Text → Text → S → S
  remove_sid_for_user none sid s = hdel Key.user_id_for_sid sid s
  remove_sid_for_user (some user_id) sid s =
      let s' = hdel Key.user_id_for_sid sid s in
      store_sids user_id (without_role sid (hget Key.sid_for_user_id user_id s')) s'
