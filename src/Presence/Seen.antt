-- ===== src/Presence/Seen.antt =====
-- What the changes of status of CacheRedis leave to be read in Redis.
use dino.Prelude.{◌&&◌, ℕ, Bool, true, false, some, if◌then◌else◌, ◌≡◌, refl, arith, ◌∙◌, ap}
use dino.Prelude.Text.{Text, str, strip}
use dino.Prelude.Int.{ℤ, pos}
use dino.Redis.{Client, SetKey, TextKey}
use dino.Redis.Commands.{
  is_offset, Commands, View, see, with_bit, with_member, without_member, with_text,
}
use dino.Cache.Redis.Status.{status_available, status_invisible, status_unavailable}
use dino.Presence.{Node, Env, publish_status, remove_from_multicast_on_disconnect, put_last_online}
use dino.Generic.Decimal.{show}
use dino.Presence.Changes.{
  told_unless_refused, update_if, status_away, unless_raised, go_online, go_invisible,
  trim_user_changed_at, set_user_online, set_user_invisible, set_user_status_invisible,
  set_user_away, online_commands, write_status, offline_commands, invisible_commands,
}

abbrev pub view_online : Text → ℕ → View → View
view_online u n w =
    with_text (TextKey.user_status u) status_available
      (with_member SetKey.users_multi_cast u (with_member SetKey.online_set u (with_bit n true w)))

abbrev pub view_offline : Text → ℕ → View → View
view_offline u n w = with_text (TextKey.user_status u) status_unavailable (
    without_member SetKey.users_multi_cast u
      (without_member SetKey.online_set u (with_bit n false w)))

abbrev pub view_invisible : Text → ℕ → View → View
view_invisible u n w = with_text (TextKey.user_status u) status_invisible (
    with_member SetKey.users_multi_cast u (without_member SetKey.online_set u (with_bit n false w)))

and_true : (b : Bool) → (b && true) ≡ b
and_true b = ground arith

module _ {S : Type 0} ⦃R : Client S⦄ ⦃C : Commands S R⦄ where
  abbrev pub seen : Node S → View
  seen node = see (node.store.redis)

  pub see-write_status :
      (env : Env) (u status : Text) (s : S)
      → see (write_status env u status s) ≡ with_text (TextKey.user_status u) status (see s)
  see-write_status env u status s = rw (C.see-zadd _ _ _, C.see-set _ _ _) refl

  see-online :
      (env : Env) (u : Text) (n : ℕ) (s : S)
      → is_offset (pos n) ≡ true
      → see (online_commands env u (pos n) s) ≡ view_online u n (see s)
  see-online env u n s taken =
      rw (see-write_status _ _ _ _, C.see-sadd _ _ _, C.see-sadd _ _ _, C.see-setbit _ _ _ taken)
        refl

  pub see-offline :
      (env : Env) (u : Text) (n : ℕ) (s : S)
      → is_offset (pos n) ≡ true
      → see (offline_commands env u (pos n) s) ≡ view_offline u n (see s)
  see-offline env u n s taken =
      rw (see-write_status _ _ _ _, C.see-srem _ _ _, C.see-srem _ _ _, C.see-setbit _ _ _ taken)
        refl

  see-invisible :
      (env : Env) (u : Text) (n : ℕ) (s : S)
      → is_offset (pos n) ≡ true
      → see (invisible_commands env u (pos n) s) ≡ view_invisible u n (see s)
  see-invisible env u n s taken =
      rw (see-write_status _ _ _ _, C.see-sadd _ _ _, C.see-srem _ _ _, C.see-setbit _ _ _ taken)
        refl

  pub seen-trim : (env : Env) (node : Node S) → seen (trim_user_changed_at env node) ≡ seen node
  unfolding trim_user_changed_at
  seen-trim env node = grind arith

  pub seen-publish_status :
      (env : Env) (user_id verb : Text) (node : Node S)
      → seen (publish_status env user_id verb node) ≡ seen node
  seen-publish_status env user_id verb node = ground arith

  -- What a change of status ends with leaves what is read.
  pub seen-told :
      (env : Env) (user_id verb : Text) (node : Node S)
      → seen (trim_user_changed_at env (publish_status env user_id verb node)) ≡ seen node
  seen-told env user_id verb node =
      seen-trim env (publish_status env user_id verb node)
      ∙ seen-publish_status env user_id verb node

  -- Where the server takes the bit, and where not, what follows leaves what is read.
  pub seen-told_unless_refused :
      (env : Env) (i : ℤ) (user_id verb : Text) (node : Node S)
      → seen (told_unless_refused env i user_id verb node) ≡ seen node
  seen-told_unless_refused env i user_id verb node = grind (arith, seen-told env user_id verb node)

  pub seen-set_user_online :
      (env : Env) (u : Text) (n : ℕ) (node : Node S)
      → env.int_float u ≡ some (pos n)
      → is_offset (pos n) ≡ true
      → strip u ≡ u
      → seen (set_user_online env u node) ≡ view_online u n (seen node)
  unfolding set_user_online
  seen-set_user_online env u n node numbered taken stripped =
      ap (λ o. seen (unless_raised o (go_online env u) node)) numbered
      ∙ seen-told_unless_refused env (pos n) u (str "online") _
      ∙ see-online env (strip u) n _ taken
      ∙ ap (λ v. view_online v n (seen node)) stripped

  pub seen-put_last_online :
      (env : Env) (u : Text) (node : Node S)
      → seen (put_last_online env u node)
        ≡ with_text (TextKey.user_last_online u) (show env.now) (seen node)
  unfolding put_last_online
  seen-put_last_online env u node =
      seen-publish_status env u (str "lastonline") _ ∙ C.see-expire _ _ _ ∙ C.see-set _ _ _

  seen-go_invisible :
      (env : Env) (u : Text) (n : ℕ) (node : Node S)
      → is_offset (pos n) ≡ true
      → strip u ≡ u
      → seen (go_invisible env u (pos n) node) ≡ view_invisible u n (seen node)
  seen-go_invisible env u n node taken stripped =
      seen-told_unless_refused env (pos n) u (str "invisible") _
      ∙ see-invisible env (strip u) n _ taken
      ∙ ap (λ v. view_invisible v n (seen node)) stripped

  seen-update_if :
      (env : Env) (b : Bool) (u : Text) (node : Node S)
      → strip u ≡ u
      → seen (update_if env b u node) ≡ (
          if b
          then with_text (TextKey.user_last_online u) (show env.now) (seen node)
          else seen node)
  seen-update_if env false u node stripped = refl
  seen-update_if env true u node stripped =
      seen-put_last_online env (strip u) node
      ∙ ap (λ v. with_text (TextKey.user_last_online v) (show env.now) (seen node)) stripped

  pub seen-set_user_invisible :
      (env : Env) (u : Text) (n : ℕ) (b : Bool) (node : Node S)
      → env.int_float u ≡ some (pos n)
      → is_offset (pos n) ≡ true
      → strip u ≡ u
      → seen (set_user_invisible env u b node) ≡ (
          if b
          then with_text
              (TextKey.user_last_online u)
              (show env.now)
              (view_invisible u n (seen node))
          else view_invisible u n (seen node))
  unfolding set_user_invisible
  seen-set_user_invisible env u n b node numbered taken stripped =
      let gone = go_invisible env u (pos n) node in
      ap
        (λ o. seen (
          unless_raised o (λ i m. update_if env (b && is_offset i) u (go_invisible env u i m))
            node))
        numbered
      ∙ ap (λ t. seen (update_if env (b && t) u gone)) taken
      ∙ ap (λ t. seen (update_if env t u gone)) (and_true b)
      ∙ seen-update_if env b u gone stripped
      ∙ ap (λ w. if b then with_text (TextKey.user_last_online u) (show env.now) w else w)
          (seen-go_invisible env u n node taken stripped)

  pub seen-set_user_status_invisible :
      (env : Env) (u : Text) (node : Node S)
      → strip u ≡ u
      → seen (set_user_status_invisible env u node)
        ≡ with_text (TextKey.user_status u) status_invisible (seen node)
  unfolding set_user_status_invisible
  seen-set_user_status_invisible env u node stripped =
      seen-told env u (str "invisible") _
      ∙ see-write_status env (strip u) status_invisible _
      ∙ ap (λ v. with_text (TextKey.user_status v) status_invisible (seen node)) stripped

  pub seen-set_user_away :
      (env : Env) (u : Text) (node : Node S)
      → seen (set_user_away env u node) ≡ with_text (TextKey.user_status u) status_away (seen node)
  unfolding set_user_away
  seen-set_user_away env u node = seen-publish_status env u (str "away") _ ∙ C.see-set _ _ _

  pub seen-remove_from_multicast :
      (env : Env) (u : Text) (node : Node S)
      → strip u ≡ u
      → seen (remove_from_multicast_on_disconnect env u node)
        ≡ without_member SetKey.users_multi_cast u (seen node)
  unfolding remove_from_multicast_on_disconnect
  seen-remove_from_multicast env u node stripped =
      C.see-srem _ _ _ ∙ ap (λ v. without_member SetKey.users_multi_cast v (seen node)) stripped
