-- ===== src/Cache/Redis/Sessions/Filed.antt =====
-- The two tables of session ids of dino/cache/redis.py agree: an id that is listed for a user is
-- that user's.
use dino.Prelude.{
  Bool, true, false, not, ◌&&◌, ◌||◌, Option, none, some, List, [], ◌∷◌, if◌then◌else◌, ◌≡◌, ◌≢◌,
  refl, arith,
}
use dino.Prelude.Text.{Text, ◌==◌, split, contains, contains-append}
use dino.Prelude.Split.{Lacks}
use dino.Redis.{Key, Client, hget, hset, hdel}
use dino.Db.Roles.{has_role, with_role, without_role}
use dino.Db.Roles.Laws.{contains-set_of, has_role-with_role, has_role-without_role, left_of}
use dino.Cache.Redis.Sessions.{
  sids_of, add_to, get_user_for_sid, get_sids_for_user, assign_sids, add_sid_for_user,
  remove_sid_for_user, store_sids,
}

abbrev pub has_sid : Text → Option (List Text) → Bool
has_sid sid none = false
has_sid sid (some sids) = contains sids sid

contains-sids_of :
    (sid : Text) (stored : Option Text) → contains (sids_of stored) sid ≡ has_role sid stored
unfolding has_role
contains-sids_of sid none = refl
contains-sids_of sid (some sids) = contains-set_of (split b',' sids) sid

contains-add_to :
    (s sid : Text) (sids : List Text) → contains (add_to sid sids) s ≡ (s == sid || contains sids s)
contains-add_to s sid sids = ground (arith, contains-append sids (sid ∷ []) s)

module _ {S : Type 0} ⦃R : Client S⦄ where
  has_sid-get_sids_for_user :
      (sid user_id : Text) (s : S)
      → has_sid sid (get_sids_for_user user_id s)
        ≡ has_role sid (hget Key.sid_for_user_id user_id s)
  unfolding get_sids_for_user has_role
  has_sid-get_sids_for_user sid user_id s = grind (arith, contains-sids_of)

  hget-assign_sids :
      (user_id sid : Text) (sids : List Text) (s : S)
      → hget Key.user_id_for_sid sid (assign_sids user_id sids s)
        ≡ (if contains sids sid then some user_id else hget Key.user_id_for_sid sid s)
  unfolding assign_sids
  hget-assign_sids user_id sid [] s = refl
  hget-assign_sids user_id sid (x ∷ sids) s = ground (
    arith,
    hget-assign_sids user_id sid sids (hset Key.user_id_for_sid x user_id s),
    R.hset_law Key.user_id_for_sid Key.user_id_for_sid sid x user_id s,
  )

  kept-assign_sids :
      (user_id f : Text) (sids : List Text) (s : S)
      → hget Key.sid_for_user_id f (assign_sids user_id sids s) ≡ hget Key.sid_for_user_id f s
  unfolding assign_sids
  kept-assign_sids user_id f [] s = refl
  kept-assign_sids user_id f (x ∷ sids) s = ground (
    arith,
    kept-assign_sids user_id f sids (hset Key.user_id_for_sid x user_id s),
    R.hset_law Key.sid_for_user_id Key.user_id_for_sid f x user_id s,
  )

  hget-store_sids :
      (user_id u : Text) (sids : Option Text) (s : S)
      → hget Key.sid_for_user_id u (store_sids user_id sids s) ≡ (
          if u == user_id
          then left_of (hget Key.sid_for_user_id user_id s) sids
          else hget Key.sid_for_user_id u s)
  hget-store_sids user_id u none s = ground arith
  hget-store_sids user_id u (some sids) s = grind arith

  kept-store_sids :
      (user_id x : Text) (sids : Option Text) (s : S)
      → hget Key.user_id_for_sid x (store_sids user_id sids s) ≡ hget Key.user_id_for_sid x s
  kept-store_sids user_id x none s = refl
  kept-store_sids user_id x (some sids) s = grind arith

  -- What the two calls leave of the lists and of the users.
  has_sid-add_sid_for_user :
      (user_id sid : Text) (s : S) (u x : Text)
      → Lacks b',' sid
      → x ≢ []
      → has_sid x (get_sids_for_user u (add_sid_for_user user_id sid s))
        ≡ ((u == user_id && x == sid) || has_sid x (get_sids_for_user u s))
  unfolding add_sid_for_user
  has_sid-add_sid_for_user user_id sid s u x plain named =
      let stored = hget Key.sid_for_user_id user_id s in
      let assigned = assign_sids user_id (add_to sid (sids_of stored)) s in
      ground (
        arith,
        has_sid-get_sids_for_user x u
            (hset Key.sid_for_user_id user_id (with_role sid stored) assigned),
        has_sid-get_sids_for_user x u s,
        R.hset_law Key.sid_for_user_id Key.sid_for_user_id u user_id (with_role sid stored)
            assigned,
        kept-assign_sids user_id u (add_to sid (sids_of stored)) s,
        has_role-with_role x sid stored named plain,
      )

  get_user_for_sid-add_sid_for_user :
      (user_id sid : Text) (s : S) (x : Text)
      → get_user_for_sid x (add_sid_for_user user_id sid s) ≡ (
          if x == sid || has_sid x (get_sids_for_user user_id s)
          then some user_id
          else get_user_for_sid x s)
  unfolding add_sid_for_user get_user_for_sid
  get_user_for_sid-add_sid_for_user user_id sid s x =
      let stored = hget Key.sid_for_user_id user_id s in
      let all = add_to sid (sids_of stored) in
      let assigned = assign_sids user_id all s in
      ground (
        arith,
        R.hset_law Key.user_id_for_sid Key.sid_for_user_id x user_id (with_role sid stored)
            assigned,
        hget-assign_sids user_id x all s,
        contains-add_to x sid (sids_of stored),
        contains-sids_of x stored,
        has_sid-get_sids_for_user x user_id s,
      )

  has_sid-remove_sid_for_user :
      (user_id sid : Text) (s : S) (u x : Text)
      → x ≢ []
      → has_sid x (get_sids_for_user u (remove_sid_for_user (some user_id) sid s))
        ≡ (not (u == user_id && x == sid) && has_sid x (get_sids_for_user u s))
  unfolding remove_sid_for_user
  has_sid-remove_sid_for_user user_id sid s u x named =
      let s' = hdel Key.user_id_for_sid sid s in
      let stored = hget Key.sid_for_user_id user_id s' in
      ground (
        arith,
        has_sid-get_sids_for_user x u (store_sids user_id (without_role sid stored) s'),
        has_sid-get_sids_for_user x u s,
        hget-store_sids user_id u (without_role sid stored) s',
        R.hdel_law Key.sid_for_user_id Key.user_id_for_sid u sid s,
        R.hdel_law Key.sid_for_user_id Key.user_id_for_sid user_id sid s,
        has_role-without_role x sid stored named,
      )

  get_user_for_sid-remove_sid_for_user :
      (user_id sid : Text) (s : S) (x : Text)
      → get_user_for_sid x (remove_sid_for_user (some user_id) sid s)
        ≡ (if x == sid then none else get_user_for_sid x s)
  unfolding remove_sid_for_user get_user_for_sid
  get_user_for_sid-remove_sid_for_user user_id sid s x =
      let s' = hdel Key.user_id_for_sid sid s in
      let stored = hget Key.sid_for_user_id user_id s' in
      ground (
        arith,
        kept-store_sids user_id x (without_role sid stored) s',
        R.hdel_law Key.user_id_for_sid Key.user_id_for_sid x sid s,
      )

  -- A session id that is listed for a user is that user's.
  abbrev pub SidsFiled : S → Type 0
  SidsFiled s =
      (user_id sid : Text)
      → sid ≢ []
      → has_sid sid (get_sids_for_user user_id s) ≡ true
      → get_user_for_sid sid s ≡ some user_id

  -- If every session id that is listed for a user is filed under that user, this stays so when an
  -- id without a comma is added for a user and when one is removed, unless the id is listed for
  -- somebody else.
  pub sids-SidsFiled :
      (user_id sid : Text) (s : S)
      → Lacks b',' sid
      → ((u : Text) → has_sid sid (get_sids_for_user u s) ≡ true → u ≡ user_id)
      → SidsFiled s
      → SidsFiled (add_sid_for_user user_id sid s)
        × SidsFiled (remove_sid_for_user (some user_id) sid s)
  sids-SidsFiled user_id sid s plain own filed = (
    (λ u x named h. ground (
      arith,
      h,
      named,
      has_sid-add_sid_for_user user_id sid s u x plain named,
      get_user_for_sid-add_sid_for_user user_id sid s x,
      own u,
      filed u x named,
      filed user_id x named,
    )),
    (λ u x named h. ground (
      arith,
      h,
      named,
      has_sid-remove_sid_for_user user_id sid s u x named,
      get_user_for_sid-remove_sid_for_user user_id sid s x,
      own u,
      filed u x named,
    )),
  )
