-- ===== src/Db/Bans/Expiry.antt =====
-- How long a ban of dino/db/redis.py lasts, and what its end does.
use dino.Prelude.{
  ℕ, suc, Bool, true, false, ◌&&◌, Option, none, some, [], ◌∷◌, ◌++◌, if◌then◌else◌, eqb, ltb, ◌<◌,
  ◌≤◌, all, ◌≡◌, refl, ap, ◌∙◌, arith,
}
use dino.Prelude.Text.{Text, ◌==◌, is_digit_char}
use dino.Prelude.Split.{Lacks}
use dino.Prelude.Result.{ok, err}
use dino.Generic.Decimal.{show, all-show}
use dino.Generic.Parse.{parse_int-show}
use dino.Redis.{Key, Client, hget, hdel}
use dino.Db.{Database, Action, value_error}
use dino.Db.Bans.{
  last_time, split_max, ban_info, is_banned, check_ban, is_banned_globally, is_banned_from_channel,
  is_banned_from_room, ban_user_global, ban_user_channel, name_or_blank, get_ban_timestamp,
}

pub split_max-append :
    (sep n : ℕ) (s t : Text)
    → Lacks sep s
    → split_max sep (suc n) (s ++ sep ∷ t) ≡ s ∷ split_max sep n t
unfolding split_max
split_max-append sep n [] t h = ground arith
split_max-append sep n (c ∷ s) t h =
    let differs : eqb sep c ≡ false = ground arith in
    rw (differs, split_max-append sep n s t (ground arith)) refl

digits-Lacks : (s : Text) → all is_digit_char s ≡ true → Lacks b'|' s
digits-Lacks [] h = refl
digits-Lacks (c ∷ s) h = ground (arith, h, digits-Lacks s (ground (arith, h)))

pub split_max-ban_info :
    (d name : Text) (t : ℕ)
    → Lacks b'|' d
    → split_max b'|' 2 (ban_info d (show t) name) ≡ d ∷ show t ∷ name ∷ []
unfolding split_max
split_max-ban_info d name t h =
    split_max-append b'|' 1 d (show t ++ b'|' ∷ name) h
    ∙ ap (λ l. d ∷ l) (split_max-append b'|' 0 (show t) name (digits-Lacks (show t) (all-show t)))

-- What a user is banned from
pub data Place : Type 0 where
  a_channel a_room : Text → Place

-- The bans from a channel and from a room
abbrev pub place_key : Place → Key
place_key (a_channel channel_id) = Key.banned_users_channel channel_id
place_key (a_room room_id) = Key.banned_users_room room_id

module _ {S : Type 0} ⦃R : Client S⦄ where
  -- A ban that ends at `t`, when it is read; beyond the year 9999 that raises.
  pub check_ban-ban_info :
      (now : ℕ) (user_id d name : Text) (t : ℕ) (db : Database S)
      → Lacks b'|' d
      → check_ban now user_id (some (ban_info d (show t) name)) db ≡ (
          if ltb last_time t
          then (err value_error, db)
          else if ltb t now
          then (ok none, record db { redis = hdel Key.banned_users_global user_id db.redis })
          else (ok (some (show t)), db))
  unfolding check_ban is_banned
  check_ban-ban_info now user_id d name t db h =
      rw (split_max-ban_info d name t h, parse_int-show t) (ground arith)

  -- The answer rests on the ban alone.
  check_ban_lem :
      (now : ℕ) (user : Text) (ban : Option Text) (db db' : Database S)
      → (check_ban now user ban db).0 ≡ (check_ban now user ban db').0
  unfolding check_ban is_banned
  check_ban_lem now user none db db' = refl
  check_ban_lem now user (some ban) db db' = ground arith

  module _ (user_id d : Text) (t : ℕ) (plain : Lacks b'|' d) where
    after_ban :
        (now : ℕ) (user name : Text) (b : Bool) (old : Option Text) (db db' : Database S)
        → (check_ban now user (if b then some (ban_info d (show t) name) else old) db').0 ≡ (
            if b
            then (if ltb last_time t
                then err value_error
                else if ltb t now
                then ok none
                else ok (some (show t)))
            else (check_ban now user old db).0)
    after_ban now user name true old db db' =
        rw (check_ban-ban_info now user d name t db' plain) (ground arith)
    after_ban now user name false old db db' = check_ban_lem now user old db' db

    -- A user who is banned globally until `t`, for a duration whose text has no '|', counts as banned
    -- as long as the clock is at most `t`, with that time, and as free from then on, however the
    -- user had been banned before; asking for a time beyond the year 9999 raises. What is answered about
    -- other users stays the same. The stored ban reads back as its duration, its time and the name of
    -- the user.
    pub is_banned_globally-ban_user_global :
        (now : ℕ) (user : Text) (db : Database S)
        → ((is_banned_globally now user (ban_user_global user_id (show t) d db).1).0 ≡ (
            if user == user_id
            then (if ltb last_time t
                then err value_error
                else if ltb t now
                then ok none
                else ok (some (show t)))
            else (is_banned_globally now user db).0))
          × (get_ban_timestamp (
                hget Key.banned_users_global user_id
                  (ban_user_global user_id (show t) d db).1.redis)
              ≡ d ∷ show t ∷ name_or_blank (hget Key.user_names user_id db.redis) ∷ [])
    unfolding is_banned_globally ban_user_global get_ban_timestamp
    is_banned_globally-ban_user_global now user db =
        let name = name_or_blank (hget Key.user_names user_id db.redis) in
        let info = ban_info d (show t) name in
        let db' = (ban_user_global user_id (show t) d db).1 in
        (
          rw (R.hset_law Key.banned_users_global Key.banned_users_global user user_id info db.redis)
              (after_ban now user name (user == user_id)
                (hget Key.banned_users_global user db.redis) db db'),
          rw
              (R.hset_law Key.banned_users_global Key.banned_users_global user_id user_id info
                db.redis)
              (ground (arith, split_max-ban_info d name t plain)),
        )

    -- A user who is banned from a channel until `t`, for a duration whose text has no '|', counts as
    -- banned from it as long as the clock is at most `t`, with that time, and as free from then on;
    -- asking for a time beyond the year 9999 raises. What is answered about other users and channels
    -- stays the same.
    pub is_banned_from_channel-ban_user_channel :
        (now : ℕ) (channel_id channel user : Text) (db : Database S)
        → (is_banned_from_channel now channel user
            (ban_user_channel user_id (show t) d channel_id db).1).0
          ≡ (if channel == channel_id && user == user_id
              then (if ltb last_time t
                  then err value_error
                  else if ltb t now
                  then ok none
                  else ok (some (show t)))
              else (is_banned_from_channel now channel user db).0)
    unfolding is_banned_from_channel ban_user_channel
    is_banned_from_channel-ban_user_channel now channel_id channel user db =
        let name = name_or_blank (hget Key.user_names user_id db.redis) in
        let info = ban_info d (show t) name in
        let db' = (ban_user_channel user_id (show t) d channel_id db).1 in
        rw
          (R.hset_law (Key.banned_users_channel channel) (Key.banned_users_channel channel_id) user
            user_id info db.redis)
          (after_ban now user name (channel == channel_id && user == user_id)
            (hget (Key.banned_users_channel channel) user db.redis) db db')

  abbrev pub is_banned_from : ℕ → Place → Text → Action S (Option Text)
  is_banned_from now (a_channel channel_id) = is_banned_from_channel now channel_id
  is_banned_from now (a_room room_id) = is_banned_from_room now room_id

  -- When the ban of a user from a channel or from a room is over, asking whether the user is banned
  -- there answers that the user is free, but deletes the global ban of the user, if there is one,
  -- and leaves all else, also the ban from that place. The text of the duration has no '|',
  -- and the clock reads a time before the year 10000.
  pub expired-drops_global :
      (now t : ℕ) (place : Place) (user_id d name : Text) (db : Database S)
      → Lacks b'|' d
      → t < now
      → now ≤ last_time
      → hget (place_key place) user_id db.redis ≡ some (ban_info d (show t) name)
      → (is_banned_from now place user_id db
          ≡ (ok none, record db { redis = hdel Key.banned_users_global user_id db.redis }))
        × (hget (place_key place) user_id (is_banned_from now place user_id db).1.redis
            ≡ some (ban_info d (show t) name))
  unfolding is_banned_from_channel is_banned_from_room
  expired-drops_global now t (a_channel channel_id) user_id d name db plain over clock stored =
      rw (stored, check_ban-ban_info now user_id d name t db plain)
        (
          ground (arith, over, clock),
          ground (
            arith,
            over,
            stored,
            R.hdel_law (Key.banned_users_channel channel_id) Key.banned_users_global user_id user_id
                db.redis,
          ),
        )
  expired-drops_global now t (a_room room_id) user_id d name db plain over clock stored =
      rw (stored, check_ban-ban_info now user_id d name t db plain)
        (
          ground (arith, over, clock),
          ground (
            arith,
            over,
            stored,
            R.hdel_law (Key.banned_users_room room_id) Key.banned_users_global user_id user_id
                db.redis,
          ),
        )
