-- ===== src/Heartbeat.antt =====
-- HeartbeatManager of dino/heartbeat/manager.py. Each method runs under its lock, so the calls come
-- one after the other. Times are seconds; what the cache answers is an argument.
pub mod Laws
use dino.Prelude.{
  ℕ, ◌-◌, Bool, true, false, not, ◌&&◌, Option, none, some, List, [], ◌∷◌, ◌++◌, ltb, if◌then◌else◌,
}
use dino.Prelude.Text.{Text, ◌==◌, str}
use dino.Prelude.Dict.{Dict, lookup, insert, erase, keys, has}

pub record Manager : Type 0 where
  pub to_check : Dict ℕ
  -- env.connected_user_ids
  pub connected_user_ids : Dict Text
  -- the users for whom 'on_heartbeat_disconnect' was emitted, in order
  pub disconnected : List Text

pub record Config : Type 0 where
  pub expire_second : ℕ
  pub testing : Bool

-- has_heartbeat
unfoldable pub has_heartbeat : Text → Manager → Bool
has_heartbeat user m = has user m.to_check

-- add_heartbeat
unfoldable pub add_heartbeat : ℕ → Text → Manager → Manager
add_heartbeat now user m = record m { to_check = insert user now m.to_check }

abbrev pub is_expired : ℕ → Option ℕ → Bool
is_expired limit none = false
is_expired limit (some add_time) = ltb add_time limit

-- The loop of `get_all_expired_user_ids`: the list `expired`.
unfoldable pub expired_of : ℕ → Dict ℕ → List Text → List Text
expired_of limit d [] = []
expired_of limit d (user ∷ users) =
    let rest = expired_of limit d users in
    if is_expired limit (lookup user d) then user ∷ rest else rest

abbrev pub insert_if : Text → Option ℕ → Dict ℕ → Dict ℕ
insert_if user none d = d
insert_if user (some t) d = insert user t d

-- The loop of `get_all_expired_user_ids`: the dict `not_yet_expired`.
unfoldable pub pending_of : ℕ → Dict ℕ → List Text → Dict ℕ → Dict ℕ
pending_of limit d [] out = out
pending_of limit d (user ∷ users) out =
    pending_of limit d users
      (if is_expired limit (lookup user d) then out else insert_if user (lookup user d) out)

-- get_all_expired_user_ids
unfoldable pub get_all_expired_user_ids : Config → ℕ → Manager → List Text × Manager
unfolding expired_of pending_of
get_all_expired_user_ids c now m =
    let limit = now - c.expire_second in
    (
      expired_of limit m.to_check (keys m.to_check),
      record m { to_check = pending_of limit m.to_check (keys m.to_check) [] },
    )

-- 'hb-{}'.format(user_id)
abbrev pub hb_sid : Text → Text
hb_sid user = str "hb-" ++ user

abbrev pub is_sid : Text → Option Text → Bool
is_sid sid none = false
is_sid sid (some s) = s == sid

-- The end of the loop of `check_heartbeats` up to `emit`: the user is no longer online.
unfoldable pub forget_sid : Config → Text → Manager → Manager
forget_sid c user m = record m {
  connected_user_ids =
      if not c.testing && is_sid (hb_sid user) (lookup user m.connected_user_ids)
      then erase user m.connected_user_ids
      else m.connected_user_ids;
}

-- `emit`
unfoldable pub disconnect : Text → Manager → Manager
disconnect user m = record m { disconnected = m.disconnected ++ user ∷ [] }

-- check_heartbeats, and whether it returned without an exception. `still_online` is what
-- `env.cache.check_heartbeat` answers, where it does not raise, and `emits` whether `emit` does not.
unfoldable pub check_heartbeats :
    Config → ℕ → (Text → Option Bool) → (Text → Bool) → List Text → Manager → Bool × Manager
unfolding add_heartbeat disconnect forget_sid
check_heartbeats c now still_online emits [] m = (true, m)
check_heartbeats c now still_online emits (user ∷ users) m = elim (still_online user) [
  | none ↦ (false, m)
  | some true ↦ check_heartbeats c now still_online emits users (add_heartbeat now user m)
  | some false ↦ elim (emits user) [
    | false ↦ (false, forget_sid c user m)
    | true ↦ check_heartbeats c now still_online emits users (disconnect user (forget_sid c user m))
  ]
]

-- One round of `loop`, which catches what check_heartbeats raises and goes on with the next.
unfoldable pub round : Config → ℕ → (Text → Option Bool) → (Text → Bool) → Manager → Manager
unfolding get_all_expired_user_ids check_heartbeats
round c now still_online emits m =
    let (expired, m') = get_all_expired_user_ids c now m in
    (check_heartbeats c now still_online emits expired m').1
