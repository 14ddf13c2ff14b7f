-- ===== src/Presence/Standing.antt =====
-- What Redis says of a user: the bit of their number, the two sets and the status; and how each
-- change of status of CacheRedis of dino/cache/redis.py changes it.
use dino.Prelude.{
  ℕ, Bool, true, false, Option, some, if◌then◌else◌, ◌≡◌, refl, arith, eqb, ◌∙◌, ap, [], ◌∷◌,
}
use dino.Prelude.Text.{Text, ◌==◌, str, strip}
use dino.Prelude.Dict.{Dict}
use dino.Redis.{Client, SetKey, TextKey}
use dino.Prelude.Int.{pos}
use dino.Redis.Commands.{is_offset, Commands, View, see, with_text}
use dino.Cache.Memory.{get}
use dino.Cache.Redis.Status.{
  status_available, status_invisible, status_unavailable, set_user_status,
}
use dino.Presence.{
  Node, Env, put_last_online, on_redis, get_last_online, status_from_row, set_last_online,
  cached_last_online, row_status,
}
use dino.Presence.Seen.{
  seen, seen-set_user_online, seen-set_user_invisible, view_online, view_offline, view_invisible,
  see-offline, seen-put_last_online, seen-trim, seen-publish_status,
}
use dino.Presence.Changes.{
  offline_executed, was_visible, offline_told, publish_offline, remember_status, status_away,
  set_user_online, offline_unless, last_online_at, set_user_offline, set_user_invisible,
  offline_commands,
}

pub record Standing : Type 0 where
  pub bit : Bool
  pub online : Bool
  pub multicast : Bool
  pub status : Option Text

abbrev pub standing : ℕ → Text → View → Standing
standing n u w = record {
  bit = w.bits n;
  online = w.sets SetKey.online_set u;
  multicast = w.sets SetKey.users_multi_cast u;
  status = w.texts (TextKey.user_status u);
}

-- The changes, and what each makes of the standing of its user.
pub data Change : Type 0 where
  to_online to_offline to_hidden to_hidden_offline to_away out_of_multicast : Change

abbrev pub after : Change → Standing → Standing
after Change.to_online st = record {
  bit = true;
  online = true;
  multicast = true;
  status = some status_available;
}
after Change.to_offline st = record {
  bit = false;
  online = false;
  multicast = false;
  status = some status_unavailable;
}
after Change.to_hidden st = record {
  bit = false;
  online = false;
  multicast = true;
  status = some status_invisible;
}
after Change.to_hidden_offline st = record st { status = some status_invisible }
after Change.to_away st = record st { status = some status_away }
after Change.out_of_multicast st = record st { multicast = false }

module _ (n m : ℕ) (u v : Text) (same : eqb n m ≡ (u == v)) (w : View) where
  standing-view_online :
      standing n u (view_online v m w)
      ≡ (if u == v then after Change.to_online (standing n u w) else standing n u w)
  standing-view_online = ground (arith, same)

  standing-view_offline :
      standing n u (view_offline v m w)
      ≡ (if u == v then after Change.to_offline (standing n u w) else standing n u w)
  standing-view_offline = ground (arith, same)

  standing-view_invisible :
      standing n u (view_invisible v m w)
      ≡ (if u == v then after Change.to_hidden (standing n u w) else standing n u w)
  standing-view_invisible = ground (arith, same)

module _ {S : Type 0} ⦃R : Client S⦄ ⦃C : Commands S R⦄ where
  pub seen-status_from_row :
      (env : Env) (v : Text) (node : Node S)
      → seen (status_from_row env v node).1
        ≡ with_text (TextKey.user_status v) (row_status env v node) (seen node)
  unfolding status_from_row set_user_status
  seen-status_from_row env v node = C.see-set _ _ _

module _ {S : Type 0} ⦃R : Client S⦄ ⦃C : Commands S R⦄ (env : Env) (n : ℕ) (u : Text) where
  -- The last time online is no part of the standing.
  pub standing-set_last_online :
      (times : Dict ℕ) (s : S)
      → standing n u (see (set_last_online env times s)) ≡ standing n u (see s)
  unfolding set_last_online
  standing-set_last_online [] s = refl
  standing-set_last_online ((v, at) ∷ times) s =
      standing-set_last_online times _ ∙ ap (standing n u) (C.see-set _ _ _)

  standing-get_last_online :
      (v : Text) (node : Node S)
      → standing n u (seen (get_last_online env v node).1) ≡ standing n u (seen node)
  unfolding get_last_online cached_last_online get
  standing-get_last_online v node = grind (arith, standing-set_last_online)

  standing-last_online_at :
      (now : Bool) (v : Text) (node : Node S)
      → standing n u (seen (last_online_at env now v node).1) ≡ standing n u (seen node)
  standing-last_online_at true v node = refl
  standing-last_online_at false v node = standing-get_last_online v node

  -- What is filled in from the row, and the last time online, before a user is set offline
  filled_in : Text → Node S → Node S
  filled_in v node = put_last_online env (strip v) (status_from_row env v node).1

  standing-filled_in :
      (v : Text) (node : Node S)
      → strip v ≡ v
      → standing n u (seen (filled_in v node)) ≡ (
          if u == v
          then record (standing n u (seen node)) { status = some (row_status env v node) }
          else standing n u (seen node))
  unfolding filled_in
  standing-filled_in v node stripped =
      ap (standing n u) (seen-put_last_online env (strip v) (status_from_row env v node).1)
      ∙ ap (standing n u) (seen-status_from_row env v node)
      ∙ ground arith

  module _ (m : ℕ) (v : Text) (same : eqb n m ≡ (u == v))
      (numbered : env.int_float v ≡ some (pos m)) (taken : is_offset (pos m) ≡ true)
      (stripped : strip v ≡ v) (node : Node S) where
    pub standing-set_user_offline : standing n u (seen (set_user_offline env v node).1) ≡ (
        if u == v
        then after Change.to_offline (standing n u (seen node))
        else standing n u (seen node))
    unfolding set_user_offline filled_in
    standing-set_user_offline =
        let told = offline_told env v (pos m) (status_from_row env v node).1 in
        let last = last_online_at env (was_visible (status_from_row env v node).0) v told in
        let written =
          on_redis (offline_commands env (strip v) (pos m))
            (remember_status env (strip v) status_unavailable (filled_in v node)) in
        ap (λ o. standing n u (seen (offline_unless env o v node).1)) numbered
        ∙ ap
            (λ t. standing n u (
              seen
                (offline_executed env v (pos m) (status_from_row env v node).0
                  (status_from_row env v node).1 t).1))
            taken
        ∙ ap (standing n u) (seen-trim env (publish_offline env v last))
        ∙ standing-last_online_at (was_visible (status_from_row env v node).0) v told
        ∙ ap (standing n u) (
            seen-publish_status env v (str "offline") written
            ∙ see-offline env (strip v) m (filled_in v node).store.redis taken
            ∙ ap (λ x. view_offline x m (seen (filled_in v node))) stripped)
        ∙ standing-view_offline n m u v same (seen (filled_in v node))
        ∙ ground (arith, standing-filled_in v node stripped)

    pub standing-set_user_online : standing n u (seen (set_user_online env v node)) ≡ (
        if u == v
        then after Change.to_online (standing n u (seen node))
        else standing n u (seen node))
    standing-set_user_online =
        ap (standing n u) (seen-set_user_online env v m node numbered taken stripped)
        ∙ standing-view_online n m u v same (seen node)

    pub standing-set_user_invisible :
        (b : Bool)
        → standing n u (seen (set_user_invisible env v b node)) ≡ (
            if u == v
            then after Change.to_hidden (standing n u (seen node))
            else standing n u (seen node))
    standing-set_user_invisible b =
        ap (standing n u) (seen-set_user_invisible env v m b node numbered taken stripped)
        ∙ ground arith
        ∙ standing-view_invisible n m u v same (seen node)
