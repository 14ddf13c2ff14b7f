-- ===== src/Presence/Rows.antt =====
-- What the changes of status of DatabaseRdbms of dino/db/rdbms/handler.py leave of the standings and
-- of the rows of UserStatus.
use dino.Prelude.{ℕ, Bool, true, false, if◌then◌else◌, ◌≡◌, refl, arith, ◌∙◌, ap, [], ◌∷◌}
use dino.Prelude.Text.{Text, ◌==◌}
use dino.Prelude.Dict.{has, lookup-insert, lookup-erase}
use dino.Redis.{Client}
use dino.Redis.Commands.{Commands}
use dino.Presence.{Node, Env, get_last_online, cached_last_online, status_from_row}
use dino.Presence.{put_last_online}
use dino.Presence.Seen.{seen}
use dino.Presence.Standing.{standing, standing-set_last_online}
use dino.Presence.Changes as Changes
use dino.Presence.Changes.{offline_unless, unless_raised, trim_user_changed_at}
use dino.Prelude.Result.{Result, ok, err}
use dino.Cache.Redis.Status.{status_available, status_invisible}
use dino.Presence.Changes.{Raised}
use dino.Presence.Users.{
  write_last_online, offline_rows, Commit, done, conflict, failure, Commits, attempt,
  second_attempt, write_row, delete_row, drop_row, online_since, set_user_online, set_user_offline,
  set_user_invisible,
}

module _ {S : Type 0} where
  abbrev pub has_row : Text → Node S → Bool
  has_row u node = has u (node.status_rows)

  has_row-write_row :
      (u v status : Text) (node : Node S)
      → (u == v) ≡ false
      → has_row u (write_row v status node) ≡ has_row u node
  has_row-write_row u v status node other =
      ground (arith, other, lookup-insert u v status (node.status_rows))

  has_row-delete_row :
      (u v : Text) (node : Node S)
      → (u == v) ≡ false
      → has_row u (delete_row v node) ≡ has_row u node
  has_row-delete_row u v node other = ground (arith, other, lookup-erase u v (node.status_rows))

  module _ (change : Node S → Node S) where
    -- Whatever the commits do, the node is as it was, or changed.
    pub attempt-keeps {ℓ} :
        {A : Type ℓ} (f : Node S → A) (first second : Commit) (node : Node S)
        → f (change node) ≡ f node
        → f (attempt change first second node).1 ≡ f node
    attempt-keeps f done second node kept = kept
    attempt-keeps f conflict done node kept = kept
    attempt-keeps f conflict conflict node kept = refl
    attempt-keeps f conflict failure node kept = refl
    attempt-keeps f failure second node kept = refl

module _ {S : Type 0} ⦃R : Client S⦄ ⦃C : Commands S R⦄ (env : Env) where
  rows-set_user_online :
      (v : Text) (node : Node S)
      → (Changes.set_user_online env v node).status_rows ≡ node.status_rows
  unfolding Changes.set_user_online trim_user_changed_at
  rows-set_user_online v node = grind arith

  rows-set_user_offline :
      (v : Text) (node : Node S)
      → (Changes.set_user_offline env v node).1.status_rows ≡ node.status_rows
  unfolding Changes.set_user_offline trim_user_changed_at get_last_online cached_last_online
      put_last_online status_from_row
  rows-set_user_offline v node = grind arith

  rows-set_user_invisible :
      (v : Text) (b : Bool) (node : Node S)
      → (Changes.set_user_invisible env v b node).status_rows ≡ node.status_rows
  unfolding Changes.set_user_invisible trim_user_changed_at put_last_online
  rows-set_user_invisible v b node = grind arith

  rows-set_user_status_invisible :
      (v : Text) (node : Node S)
      → (Changes.set_user_status_invisible env v node).status_rows ≡ node.status_rows
  unfolding Changes.set_user_status_invisible trim_user_changed_at
  rows-set_user_status_invisible v node = grind arith

  online_since-keeps :
      (v : Text) (commit : Commit) (node : Node S)
      → (online_since env v commit node).status_rows ≡ node.status_rows
  online_since-keeps v done node = refl
  online_since-keeps v conflict node = refl
  online_since-keeps v failure node = refl

  pub standing-online_since :
      (n : ℕ) (u v : Text) (commit : Commit) (node : Node S)
      → standing n u (seen (online_since env v commit node)) ≡ standing n u (seen node)
  standing-online_since n u v done node =
      standing-set_last_online env n u ((v, env.now) ∷ []) (node.store.redis)
  standing-online_since n u v conflict node = refl
  standing-online_since n u v failure node = refl

  -- What follows a call of the cache only writes last times online.
  pub last_online-keeps {ℓ} :
      {A : Type ℓ} (f : Node S → A) (v : Text) (commit : Commit) (node : Node S)
      → f (write_last_online env v node) ≡ f node
      → f (second_attempt (write_last_online env v) commit node) ≡ f node
  last_online-keeps f v done node kept = kept
  last_online-keeps f v conflict node kept = refl
  last_online-keeps f v failure node kept = refl

  module _ (commits : Commits) (u v : Text) (other : (u == v) ≡ false) (node : Node S) where
    -- The rows of other users stay.
    pub has_row-set_user_online :
        (b : Bool) → has_row u (set_user_online env commits v b node).1 ≡ has_row u node
    unfolding set_user_online
    has_row-set_user_online b =
        let online = Changes.set_user_online env v node in
        let since = if b then online_since env v commits.of_last_online online else online in
        attempt-keeps (write_row v status_available) (has_row u) commits.first commits.second since
          (has_row-write_row u v status_available since other)
        ∙ ground (arith, ap (has u) (online_since-keeps v commits.of_last_online online))
        ∙ ap (has u) (rows-set_user_online v node)

    has_row-drop_row :
        (first second : Commit) (m : Node S) → has_row u (drop_row v first second m).1 ≡ has_row u m
    has_row-drop_row first second m = ground (
      arith,
      attempt-keeps (delete_row v) (has_row u) first second m (has_row-delete_row u v m other),
    )

    has_row-offline_rows :
        (call : Result Raised (Unit {0}) × Node S)
        → has_row u (offline_rows env commits v call).1 ≡ has_row u call.1
    has_row-offline_rows (err e, m) = refl
    has_row-offline_rows (ok t, m) =
        has_row-drop_row commits.first commits.second
          (second_attempt (write_last_online env v) commits.of_last_online m)
        ∙ last_online-keeps (has_row u) v commits.of_last_online m refl

    pub has_row-set_user_offline :
        has_row u (set_user_offline env commits v node).1 ≡ has_row u node
    unfolding set_user_offline
    has_row-set_user_offline =
        has_row-offline_rows (Changes.set_user_offline env v node)
        ∙ ap (has u) (rows-set_user_offline v node)

    pub has_row-set_user_invisible :
        (b : Bool) → has_row u (set_user_invisible env commits v b node).1 ≡ has_row u node
    unfolding set_user_invisible
    has_row-set_user_invisible b =
        let hidden =
          if b
          then Changes.set_user_status_invisible env v node
          else Changes.set_user_invisible env v true node in
        attempt-keeps (write_row v status_invisible) (has_row u) commits.first commits.second hidden
          (has_row-write_row u v status_invisible hidden other)
        ∙ ground (
          arith,
          ap (has u) (rows-set_user_invisible v true node),
          ap (has u) (rows-set_user_status_invisible v node),
        )
