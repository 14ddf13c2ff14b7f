-- ===== src/Presence/Away.antt =====
-- Going away and coming back, by dino/hooks/status.py.
use dino.Prelude.{ℕ, true, false, some, ◌≡◌, arith, eqb, ◌∙◌, ap}
use dino.Prelude.Text.{Text, ◌==◌, strip, text_dec}
use dino.Prelude.Result.{ok}
use dino.Redis.{Client}
use dino.Prelude.Int.{pos}
use dino.Redis.Commands.{is_offset, Commands}
use dino.Cache.Redis.{text, CacheRedis}
use dino.Cache.Redis.Status.{
  status_available, get_user_status, set_user_status, get_user_status-set,
}
use dino.Presence.{Node, Env, status_of_user, answer_status}
use dino.Presence.Changes as Changes
use dino.Presence.Changes.{status_away}
use dino.Presence.Users.{Commits}
use dino.Presence.Seen.{seen}
use dino.Presence.Standing.{Change, standing, standing-set_user_online}
use dino.Presence.Effects.{changed}
use dino.Presence.Hooks.{set_away, set_back}

module _ {S : Type 0} ⦃R : Client S⦄ ⦃C : Commands S R⦄ where
  store-set_user_away :
      (env : Env) (v : Text) (node : Node S)
      → (Changes.set_user_away env v node).store ≡ set_user_status env.now v status_away node.store
  unfolding Changes.set_user_away set_user_status
  store-set_user_away env v node = ground arith

  status-hit :
      (env : Env) (v t : Text) (node : Node S)
      → (get_user_status env.now v node.store).0 ≡ some (text t)
      → (status_of_user env v node).0 ≡ text t
  unfolding status_of_user
  status-hit env v t node h =
      ap (λ o. (answer_status env v node (o, (get_user_status env.now v node.store).1)).0) h

  -- Who went away is away, at any later time.
  memory-away :
      (env later : Env) (v : Text) (node : Node S)
      → (get_user_status later.now v (Changes.set_user_away env v node).store).0
        ≡ some (text status_away)
  memory-away env later v node =
      ap (λ st. (get_user_status later.now v st).0) (store-set_user_away env v node)
      ∙ get_user_status-set env.now later.now v v status_away node.store
      ∙ ground arith

  redis-get_user_status :
      (now : ℕ) (v : Text) (st : CacheRedis S) → (get_user_status now v st).1.redis ≡ st.redis
  unfolding get_user_status
  redis-get_user_status now v st = grind arith

  seen-hit :
      (env : Env) (v t : Text) (node : Node S)
      → (get_user_status env.now v node.store).0 ≡ some (text t)
      → seen (status_of_user env v node).1 ≡ seen node
  unfolding status_of_user
  seen-hit env v t node h =
      ap (λ o. seen (answer_status env v node (o, (get_user_status env.now v node.store).1)).1) h
      ∙ ap C.see (redis-get_user_status env.now v node.store)

  set_away-gone :
      (env : Env) (commits : Commits) (v : Text) (node gone : Node S)
      → (status_of_user env v node).0 ≡ text status_available
      → set_away env commits v node ≡ (ok true, gone)
      → gone ≡ Changes.set_user_away env v (status_of_user env v node).1
  unfolding set_away text_dec
  set_away-gone env commits v node gone available went = ground (arith, available, went)

  module _ (env : Env) (commits : Commits) (v : Text) (node : Node S)
      (status : (status_of_user env v node).0 ≡ text status_away) where
    again-away : (set_away env commits v node).0 ≡ ok false
    unfolding set_away text_dec
    again-away = ground (arith, status)

    set_back-away :
        set_back env commits v node
        ≡ (ok true, Changes.set_user_online env v (status_of_user env v node).1)
    unfolding set_back text_dec
    set_back-away = ground (arith, status)

  -- Somebody whose status is that of the available goes away; from then on going away again changes
  -- nothing that is to be told, and coming back does: it makes the user online, in the bit, both
  -- sets and the status, and changes what Redis says of nobody else. The id of the user is a number
  -- below 2^32 without spaces around it, and no other user's number is the same.
  pub away-back :
      (env later : Env) (commits : Commits) (n m : ℕ) (u v : Text) (node gone : Node S)
      → eqb n m ≡ (u == v)
      → later.int_float v ≡ some (pos m)
      → is_offset (pos m) ≡ true
      → strip v ≡ v
      → (status_of_user env v node).0 ≡ text status_available
      → set_away env commits v node ≡ (ok true, gone)
      → ((set_away later commits v gone).0 ≡ ok false)
        × ((set_back later commits v gone).0 ≡ ok true)
        × (standing n u (seen (set_back later commits v gone).1)
            ≡ changed Change.to_online v u (standing n u (seen gone)))
  away-back env later commits n m u v node gone same numbered taken stripped available went =
      let away =
        ap (λ x. (get_user_status later.now v x.store).0)
          (set_away-gone env commits v node gone available went)
        ∙ memory-away env later v (status_of_user env v node).1 in
      let status = status-hit later v status_away gone away in
      let back = set_back-away later commits v gone status in
      (
        again-away later commits v gone status,
        ap (λ x. x.0) back,
        ap (λ x. standing n u (seen x.1)) back
            ∙ standing-set_user_online later n u m v same numbered taken stripped
                (status_of_user later v gone).1
            ∙ ap (λ w. changed Change.to_online v u (standing n u w))
                (seen-hit later v status_away gone away),
      )
