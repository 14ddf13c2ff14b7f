-- ===== src/Presence/Refused.antt =====
-- The changes of status of dino/cache/redis.py for a user whose id is no offset of a bit.
use dino.Prelude.{ℕ, true, false, some, ◌≡◌, refl, ◌∙◌, ap, arith, if◌then◌else◌}
use dino.Prelude.Int.{ℤ}
use dino.Prelude.Text.{Text, str, strip}
use dino.Prelude.Result.{err}
use dino.Redis.{Client, SetKey, TextKey}
use dino.Redis.Commands.{is_offset, Commands, View, see, with_member, with_text}
use dino.Cache.Redis.Status.{status_available}
use dino.Presence.{Node, Env, on_redis, publish_status, status_from_row}
use dino.Presence.Changes as Changes
use dino.Presence.Changes.{
  unless_raised, response_error, offline_unless, offline_executed, online_commands, go_online,
  trim_user_changed_at, remember_status,
}
use dino.Presence.Seen.{seen, see-write_status}
use dino.Presence.Standing.{Change, after, standing}

abbrev view_refused : Text → View → View
view_refused u w =
    with_text (TextKey.user_status u) status_available
      (with_member SetKey.users_multi_cast u (with_member SetKey.online_set u w))

standing-view_refused :
    (n : ℕ) (u : Text) (w : View)
    → standing n u (view_refused u w)
      ≡ record (after Change.to_online (standing n u w)) { bit = w.bits n }
standing-view_refused n u w = ground arith

module _ {S : Type 0} ⦃R : Client S⦄ ⦃C : Commands S R⦄ (env : Env) (u : Text) (i : ℤ)
    (refused : is_offset i ≡ false) where
  see-online_refused : (s : S) → see (online_commands env u i s) ≡ view_refused u (see s)
  see-online_refused s =
      rw
        (
          see-write_status _ _ _ _,
          C.see-sadd _ _ _,
          C.see-sadd _ _ _,
          ap see (C.setbit-refused i true s refused),
        )
        refl

  online_written : Node S → Node S
  online_written node =
      on_redis (online_commands env (strip u) i)
        (remember_status env (strip u) status_available node)

  set_user_online-written :
      (node : Node S)
      → env.int_float u ≡ some i
      → Changes.set_user_online env u node ≡ online_written node
  unfolding Changes.set_user_online online_written
  set_user_online-written node numbered =
      ap (λ o. unless_raised o (go_online env u) node) numbered
      ∙ ap
          (λ t.
            if t
            then trim_user_changed_at env
                (publish_status env u (str "online") (online_written node))
            else online_written node)
          refused

  -- A user whose id, without spaces around it, is a number that is no offset of a bit, because it
  -- is negative or at least 2^32: setting them online puts them into both sets and makes them
  -- available, but sets no bit, and nothing is published; setting them offline raises.
  pub refused-keeps_bit :
      (n : ℕ) (node : Node S)
      → env.int_float u ≡ some i
      → strip u ≡ u
      → (standing n u (seen (Changes.set_user_online env u node))
          ≡ record (after Change.to_online (standing n u (seen node))) { bit = (seen node).bits n })
        × ((Changes.set_user_online env u node).published ≡ node.published)
        × ((Changes.set_user_offline env u node).0 ≡ err response_error)
  unfolding online_written Changes.set_user_offline
  refused-keeps_bit n node numbered stripped = (
    ap (λ m. standing n u (seen m)) (set_user_online-written node numbered)
        ∙ ap (λ v. standing n u (see (online_commands env v i node.store.redis))) stripped
        ∙ ap (standing n u) (see-online_refused node.store.redis)
        ∙ standing-view_refused n u (seen node),
    ap (λ m. m.published) (set_user_online-written node numbered),
    ap (λ o. (offline_unless env o u node).0) numbered
        ∙ ap
            (λ t.
              (offline_executed env u i (status_from_row env u node).0
                (status_from_row env u node).1 t).0)
            refused,
  )
