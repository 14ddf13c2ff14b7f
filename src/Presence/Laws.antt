-- ===== src/Presence/Laws.antt =====
-- What is read back and published after a change of status: dino/cache/redis.py and
-- dino/db/rdbms/handler.py.
use dino.Prelude.{
  ◌&&◌, Bool, true, false, Option, none, some, List, [], ◌∷◌, ◌≡◌, refl, arith, ap, ◌∙◌,
}
use dino.Prelude.Text.{Text, ◌==◌, text_dec, str, strip}
use dino.Prelude.Result.{err}
use dino.Generic.Decimal.{show}
use dino.Redis.{Client}
use dino.Prelude.Int.{ℤ, pos}
use dino.Redis.Commands.{is_offset, Commands}
use dino.Cache.Memory.{Vals, get, set}
use dino.Cache.Memory.Laws.{get-set}
use dino.Cache.Redis.{Value, text}
use dino.Cache.Redis.Status.{status_unavailable, status_key}
use dino.Presence.{
  Event, Node, Env, on_redis, publish_status, last_online_key, get_last_online, cached_last_online,
  put_last_online, status_from_row,
}
use dino.Presence.Changes as Changes
use dino.Presence.Changes.{
  Raised, value_error, response_error, trim_user_changed_at, offline_unless, unless_raised,
}

-- The last event for others than the status topic
abbrev pub announced : List Event → Option (Option ℤ)
announced [] = none
announced (e ∷ l) = some (e.updated)

keys-differ : (a b : Text) → (last_online_key a == status_key b) ≡ false
unfolding text_dec
keys-differ a b = refl

-- The memory after the first event: the time, and the status above it
memory-offline :
    (env : Env) (user_id : Text) (vals : Vals Value)
    → (get env.now (last_online_key user_id) (
        set env.now
          (status_key user_id)
          (text status_unavailable)
          30
          (set env.now (last_online_key user_id) (text (show env.now)) 3600 vals))).0
      ≡ some (text (show env.now))
memory-offline env user_id vals =
    get-set env.now env.now 30 (last_online_key user_id) (status_key user_id)
      (text status_unavailable)
      (set env.now (last_online_key user_id) (text (show env.now)) 3600 vals)
    ∙ ground (
      arith,
      keys-differ user_id user_id,
      get-set env.now env.now 3600 (last_online_key user_id) (last_online_key user_id)
          (text (show env.now)) vals,
    )

module _ {S : Type 0} ⦃R : Client S⦄ ⦃C : Commands S R⦄ (env : Env) where
  -- Without a number for an id, setting a user online or invisible is without any effect and raises
  -- nothing, and setting one offline changes nothing and raises.
  pub no_number-unchanged :
      (user_id : Text) (update_last_online : Bool) (node : Node S)
      → env.int_float user_id ≡ none
      → (Changes.set_user_online env user_id node ≡ node)
        × (Changes.set_user_invisible env user_id update_last_online node ≡ node)
        × (Changes.set_user_offline env user_id node ≡ (err value_error, node))
  unfolding Changes.set_user_online Changes.set_user_invisible Changes.set_user_offline
  no_number-unchanged user_id update_last_online node no_number = (
    ap (λ o. unless_raised o (Changes.go_online env user_id) node) no_number,
    ap
        (λ o.
          unless_raised o
            (λ n m.
              Changes.update_if env (update_last_online && is_offset n) user_id
                (Changes.go_invisible env user_id n m))
            node)
        no_number,
    ap (λ o. offline_unless env o user_id node) no_number,
  )

  store-publish_status :
      (user_id verb : Text) (node : Node S)
      → (publish_status env user_id verb node).store ≡ node.store
  store-publish_status user_id verb node = ground arith

  get_last_online-memory :
      (user_id at : Text) (node : Node S)
      → (get env.now (last_online_key (strip user_id)) node.store.cache).0 ≡ some (text at)
      → (get_last_online env user_id node).0 ≡ env.int_float at
  unfolding get_last_online cached_last_online
  get_last_online-memory user_id at node h = ground (arith, h)

  memory-put_last_online :
      (user_id : Text) (node : Node S)
      → (put_last_online env user_id node).store.cache
        ≡ set env.now (last_online_key user_id) (text (show env.now)) 3600 node.store.cache
  unfolding put_last_online
  memory-put_last_online user_id node =
      ap (λ st. st.cache) (store-publish_status user_id (str "lastonline") _)

  -- What set_user_offline put into the memory is read back.
  told-last_online :
      (user_id : Text) (n : ℤ) (node : Node S)
      → env.int_float (show env.now) ≡ some (pos env.now)
      → (get_last_online env user_id (Changes.offline_told env user_id n node)).0
        ≡ some (pos env.now)
  told-last_online user_id n node clock =
      let id = strip user_id in
      let put = put_last_online env id node in
      let written =
        on_redis (Changes.offline_commands env id n)
          (Changes.remember_status env id status_unavailable put) in
      get_last_online-memory user_id (show env.now) (Changes.offline_told env user_id n node) (
        ap (λ st. (get env.now (last_online_key id) st.cache).0)
          (store-publish_status user_id (str "offline") written)
        ∙ ap
            (λ c.
              (get env.now (last_online_key id)
                (set env.now (status_key id) (text status_unavailable) 30 c)).0)
            (memory-put_last_online id node)
        ∙ memory-offline env id node.store.cache)
      ∙ clock

  announced-trim :
      (node : Node S)
      → announced (trim_user_changed_at env node).published ≡ announced node.published
  unfolding trim_user_changed_at
  announced-trim node = ground arith

  last_online_at-now :
      (visible : Bool) (user_id : Text) (n : ℤ) (node : Node S)
      → env.int_float (show env.now) ≡ some (pos env.now)
      → (Changes.last_online_at env visible user_id (Changes.offline_told env user_id n node)).0
        ≡ some (pos env.now)
  last_online_at-now true user_id n node clock = refl
  last_online_at-now false user_id n node clock = told-last_online user_id n node clock

  -- A user that goes offline is announced with the current time as the time they were last online,
  -- also after having been invisible: the time known before is overwritten before it is read. The
  -- id of the user is a number below 2^32, as the offset of a bit.
  pub offline-announces_now :
      (user_id : Text) (n : ℤ) (node : Node S)
      → env.int_float user_id ≡ some n
      → is_offset n ≡ true
      → env.int_float (show env.now) ≡ some (pos env.now)
      → announced (Changes.set_user_offline env user_id node).1.published
        ≡ some (some (pos env.now))
  unfolding Changes.set_user_offline
  offline-announces_now user_id n node numbered taken clock =
      ap (λ o. announced (offline_unless env o user_id node).1.published) numbered
      ∙ ap
          (λ t.
            announced
              (Changes.offline_executed env user_id n (status_from_row env user_id node).0
                (status_from_row env user_id node).1 t).1.published)
          taken
      ∙ (let visible = Changes.was_visible (status_from_row env user_id node).0 in
          let from_row = (status_from_row env user_id node).1 in
          announced-trim (
            Changes.publish_offline env user_id (
              Changes.last_online_at env visible user_id
                (Changes.offline_told env user_id n from_row)))
          ∙ ap some (last_online_at-now visible user_id n from_row clock))
