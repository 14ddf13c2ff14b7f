-- ===== src/Presence/Effects.antt =====
-- What each change of status of DatabaseRdbms of dino/db/rdbms/handler.py, and those of CacheRedis of
-- dino/cache/redis.py that are called directly, make of the standing of every user.
use dino.Prelude.{ℕ, Bool, true, some, if◌then◌else◌, ◌≡◌, refl, arith, eqb, ◌∙◌, ap}
use dino.Prelude.Text.{Text, ◌==◌, strip}
use dino.Prelude.Result.{Result, ok, err}
use dino.Redis.{Client}
use dino.Prelude.Int.{pos}
use dino.Redis.Commands.{is_offset, Commands}
use dino.Cache.Redis.Status.{status_available, status_invisible}
use dino.Presence.{Node, Env, remove_from_multicast_on_disconnect}
use dino.Presence.Changes as Changes
use dino.Presence.Changes.{Raised, status_away}
use dino.Presence.Seen.{
  seen, seen-set_user_status_invisible, seen-set_user_away, seen-remove_from_multicast,
}
use dino.Presence.Standing.{
  Standing, Change, after, standing, standing-set_user_online, standing-set_user_offline,
  standing-set_user_invisible,
}
use dino.Presence.Rows.{attempt-keeps, last_online-keeps, standing-online_since}
use dino.Presence.Users.{
  Commits, Commit, write_row, drop_row, delete_row, second_attempt, offline_rows, online_since,
  write_last_online, set_user_online, set_user_offline, set_user_invisible,
}

-- A change of the standing of the user `v`, seen by `u`
abbrev pub changed : Change → Text → Text → Standing → Standing
changed c v u st = if u == v then after c st else st

module _ {S : Type 0} ⦃R : Client S⦄ ⦃C : Commands S R⦄ (env : Env) (commits : Commits) (n : ℕ)
    (u v : Text) where
  standing-drop_row :
      (first second : Commit) (node : Node S)
      → standing n u (seen (drop_row v first second node).1) ≡ standing n u (seen node)
  standing-drop_row first second node =
      ground
        (arith, attempt-keeps (delete_row v) (λ x. standing n u (seen x)) first second node refl)

  standing-offline_rows :
      (call : Result Raised (Unit {0}) × Node S)
      → standing n u (seen (offline_rows env commits v call).1) ≡ standing n u (seen call.1)
  standing-offline_rows (err e, node) = refl
  standing-offline_rows (ok t, node) =
      standing-drop_row commits.first commits.second
        (second_attempt (write_last_online env v) commits.of_last_online node)
      ∙ last_online-keeps env (λ x. standing n u (seen x)) v commits.of_last_online node refl

  module _ (m : ℕ) (same : eqb n m ≡ (u == v)) (numbered : env.int_float v ≡ some (pos m))
      (taken : is_offset (pos m) ≡ true) (stripped : strip v ≡ v) (node : Node S) where
    pub standing-online :
        (b : Bool)
        → standing n u (seen (set_user_online env commits v b node).1)
          ≡ changed Change.to_online v u (standing n u (seen node))
    unfolding set_user_online
    standing-online b =
        let online = Changes.set_user_online env v node in
        let since = if b then online_since env v commits.of_last_online online else online in
        attempt-keeps (write_row v status_available) (λ x. standing n u (seen x)) commits.first
          commits.second since refl
        ∙ ground (arith, standing-online_since env n u v commits.of_last_online online)
        ∙ standing-set_user_online env n u m v same numbered taken stripped node

    pub standing-offline :
        standing n u (seen (set_user_offline env commits v node).1)
        ≡ changed Change.to_offline v u (standing n u (seen node))
    unfolding set_user_offline
    standing-offline =
        standing-offline_rows (Changes.set_user_offline env v node)
        ∙ standing-set_user_offline env n u m v same numbered taken stripped node

    pub standing-invisible :
        (b : Bool)
        → standing n u (seen (set_user_invisible env commits v b node).1)
          ≡ changed
              (if b then Change.to_hidden_offline else Change.to_hidden)
              v
              u
              (standing n u (seen node))
    unfolding set_user_invisible
    standing-invisible b =
        let hidden =
          if b
          then Changes.set_user_status_invisible env v node
          else Changes.set_user_invisible env v true node in
        attempt-keeps (write_row v status_invisible) (λ x. standing n u (seen x)) commits.first
          commits.second hidden refl
        ∙ ground (
          arith,
          standing-set_user_invisible env n u m v same numbered taken stripped node true,
          ap (standing n u) (seen-set_user_status_invisible env v node stripped),
        )

    standing-away :
        standing n u (seen (Changes.set_user_away env v node))
        ≡ changed Change.to_away v u (standing n u (seen node))
    standing-away = ground (arith, ap (standing n u) (seen-set_user_away env v node))

    standing-out_of_multicast :
        standing n u (seen (remove_from_multicast_on_disconnect env v node))
        ≡ changed Change.out_of_multicast v u (standing n u (seen node))
    standing-out_of_multicast =
        ground (arith, ap (standing n u) (seen-remove_from_multicast env v node stripped))

    -- Each change of the status of one user is a change of what Redis says of that user alone, a fixed
    -- one, whatever the commits of the relational database do: online sets the bit, both sets and the
    -- status; offline clears them; going invisible leaves the multicast set only; going invisible
    -- while offline, and away, change the status alone; and leaving the multicast set changes it
    -- alone. The user's id is a number below 2^32 without spaces around it, and no other user's
    -- number is the same.
    pub changes-refine :
        (update_last_online is_offline : Bool)
        → (standing n u (seen (set_user_online env commits v update_last_online node).1)
            ≡ changed Change.to_online v u (standing n u (seen node)))
          × (standing n u (seen (set_user_offline env commits v node).1)
              ≡ changed Change.to_offline v u (standing n u (seen node)))
          × (standing n u (seen (set_user_invisible env commits v is_offline node).1) ≡ (
              changed
                (if is_offline then Change.to_hidden_offline else Change.to_hidden)
                v
                u
                (standing n u (seen node))))
          × (standing n u (seen (Changes.set_user_away env v node))
              ≡ changed Change.to_away v u (standing n u (seen node)))
          × (standing n u (seen (remove_from_multicast_on_disconnect env v node))
              ≡ changed Change.out_of_multicast v u (standing n u (seen node)))
    changes-refine update_last_online is_offline = (
      standing-online update_last_online,
      standing-offline,
      standing-invisible is_offline,
      standing-away,
      standing-out_of_multicast,
    )
