-- ===== src/Presence/Users.antt =====
-- The changes of status of DatabaseRdbms of dino/db/rdbms/handler.py: those of the cache, then of
-- the tables. What a commit of the relational database does is an argument.
use dino.Prelude.{Bool, true, if◌then◌else◌, [], ◌∷◌}
use dino.Prelude.Text.{Text}
use dino.Prelude.Dict.{has, insert, erase}
use dino.Prelude.Result.{Result, ok, err}
use dino.Redis.{Client}
use dino.Redis.Commands.{Commands}
use dino.Cache.Redis.Status.{status_available, status_invisible}
use dino.Presence.{Node, Env, on_redis, set_last_online}
use dino.Presence.Changes as Changes
use dino.Presence.Changes.{Raised, database_error}

-- A commit: done, an IntegrityError or StaleDataError, or another exception. After an exception
-- with_session rolls back.
pub data Commit : Type 0 where
  done conflict failure : Commit

-- The commits of a call: that of the row of LastOnline, and the two attempts at that of UserStatus.
pub record Commits : Type 0 where
  pub of_last_online : Commit
  pub first : Commit
  pub second : Commit

module _ {S : Type 0} where
  -- The second attempt, whose exceptions are swallowed
  abbrev pub second_attempt : (Node S → Node S) → Commit → Node S → Node S
  second_attempt change done node = change node
  second_attempt change conflict node = node
  second_attempt change failure node = node

  -- A change of a table that is tried again after a conflict
  abbrev pub attempt :
      (Node S → Node S) → Commit → Commit → Node S → Result Raised (Unit {0}) × Node S
  attempt change done second node = (ok tt, change node)
  attempt change conflict second node = (ok tt, second_attempt change second node)
  attempt change failure second node = (err database_error, node)

  -- The row of UserStatus
  abbrev pub write_row : Text → Text → Node S → Node S
  write_row user_id status node = record node {
    status_rows = insert user_id status (node.status_rows);
  }

  abbrev pub delete_row : Text → Node S → Node S
  delete_row user_id node = record node { status_rows = erase user_id (node.status_rows) }

  -- _set_user_offline, which commits only where there is a row, tried again after a conflict
  abbrev pub drop_row : Text → Commit → Commit → Node S → Result Raised (Unit {0}) × Node S
  drop_row user_id first second node =
      if has user_id (node.status_rows)
      then attempt (delete_row user_id) first second node
      else (ok tt, node)

  -- DatabaseRdbms._set_last_online
  abbrev pub write_last_online : Env → Text → Node S → Node S
  write_last_online env user_id node = record node {
    last_online_rows = insert user_id (env.now) (node.last_online_rows);
  }

module _ {S : Type 0} ⦃R : Client S⦄ where
  -- The part of set_user_online on LastOnline
  abbrev pub online_since : Env → Text → Commit → Node S → Node S
  online_since env user_id done node =
      on_redis (set_last_online env ((user_id, env.now) ∷ [])) (write_last_online env user_id node)
  online_since env user_id conflict node = node
  online_since env user_id failure node = node

module _ {S : Type 0} ⦃R : Client S⦄ ⦃C : Commands S R⦄ (env : Env) (commits : Commits) where
  -- What follows the call of the cache, unless that raised.
  abbrev pub offline_rows :
      Text → Result Raised (Unit {0}) × Node S → Result Raised (Unit {0}) × Node S
  offline_rows user_id (err e, node) = (err e, node)
  offline_rows user_id (ok u, node) =
      drop_row user_id (commits.first) (commits.second)
        (second_attempt (write_last_online env user_id) (commits.of_last_online) node)

  -- set_user_offline
  unfoldable pub set_user_offline : Text → Node S → Result Raised (Unit {0}) × Node S
  set_user_offline user_id node = offline_rows user_id (Changes.set_user_offline env user_id node)

  -- set_user_online
  unfoldable pub set_user_online : Text → Bool → Node S → Result Raised (Unit {0}) × Node S
  set_user_online user_id update_last_online node =
      let online = Changes.set_user_online env user_id node in
      attempt (write_row user_id status_available) (commits.first) (commits.second) (
        if update_last_online
        then online_since env user_id (commits.of_last_online) online
        else online)

  -- set_user_invisible, with DatabaseRdbms.set_user_status_invisible
  unfoldable pub set_user_invisible : Text → Bool → Node S → Result Raised (Unit {0}) × Node S
  set_user_invisible user_id is_offline node =
      attempt (write_row user_id status_invisible) (commits.first) (commits.second) (
        if is_offline
        then Changes.set_user_status_invisible env user_id node
        else Changes.set_user_invisible env user_id true node)
