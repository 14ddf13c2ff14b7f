-- ===== src/Db/Bans.antt =====
-- Bans of DatabaseRedis, dino/db/redis.py. The clock and the times of bans count whole seconds, in
-- the same time zone; a time is the text of an integer. `b64e` and `strftime` are arguments.
pub mod Expiry
use dino.Prelude.{
  ℕ, zero, suc, Bool, true, false, not, ◌&&◌, Option, none, some, List, [], ◌∷◌, ◌++◌,
  if◌then◌else◌, eqb, get_elem?,
}
use dino.Prelude.Text.{Text, str, cons_head}
use dino.Prelude.Dict.{Dict, lookup, insert, erase}
use dino.Prelude.Int.{ℤ, pos, negsuc, leb_ℤ}
use dino.Prelude.Result.{Result, ok, err}
use dino.Generic.{parse_int}
use dino.Redis.{
  Key, SetKey, Client, hget, hgetall, hset, hmset, hdel, delete, sismember, sadd, srem, hexists,
  hvals,
}
use dino.Db.{
  Database, reads, writes, Action, pure, raise, gets, or_raise, ◌>>=◌, ◌>>◌, raise_if, modify,
  Error, no_such_room, no_channel_found, no_such_user, value_error, index_error,
}
use dino.Db.Roles.{get_user_name, channel_for_room, get_channel_name, get_room_name}

-- `s.split(sep, n)`
unfoldable pub split_max : ℕ → ℕ → Text → List Text
split_max sep zero s = s ∷ []
split_max sep (suc n) [] = [] ∷ []
split_max sep (suc n) (c ∷ s) =
    let here = split_max sep n s in
    let later = split_max sep (suc n) s in if eqb sep c then [] ∷ here else cons_head c later

-- '%s|%s|%s' % (ban_duration, ban_timestamp, user_name)
abbrev pub ban_info : Text → Text → Text → Text
ban_info duration timestamp user_name = duration ++ (b'|' ∷ (timestamp ++ (b'|' ∷ user_name)))

-- The name of a user, or '' for one without.
abbrev pub name_or_blank : Option Text → Text
name_or_blank none = []
name_or_blank (some name) = name

abbrev pub as_no_such_room : Error → Error
as_no_such_room no_channel_found = no_such_room
as_no_such_room e = e

-- _get_ban_timestamp: the parts of a ban, [] for (None, None, None)
unfoldable pub get_ban_timestamp : Option Text → List Text
get_ban_timestamp none = []
get_ban_timestamp (some ban) = split_max b'|' 2 ban

pub record BanStatus : Type 0 where
  pub global_timestamp : Text
  pub channel_timestamp : Text
  pub room_timestamp : Text

-- The last second of the year 9999, and the times for which there is a datetime: from the year 1 on
abbrev pub last_time : ℕ
last_time = 253402300799

abbrev pub is_datetime : ℤ → Bool
is_datetime z = leb_ℤ (negsuc 62135596799) z && leb_ℤ z (pos last_time)

module _ {S : Type 0} ⦃R : Client S⦄ where
  -- _is_banned: the time of the ban, if there is one.
  unfoldable pub is_banned : Option Text → Action S (Option Text)
  is_banned none = pure none
  is_banned (some ban) =
      or_raise (get_elem? (split_max b'|' 2 ban) 1) index_error >>= λ t. pure (some t)

  -- `now > end`; a text that is no number, or a time without a datetime, is an error.
  abbrev pub is_over : ℕ → Text → Action S Bool
  is_over now time = or_raise (parse_int time) value_error >>= λ z.
      raise_if (not (is_datetime z)) value_error >> pure (not (leb_ℤ (pos now) z))

  -- The end of the three `is_banned_...`: a ban that is over is deleted from the global ones.
  unfoldable pub check_ban : ℕ → Text → Option Text → Action S (Option Text)
  check_ban now user_id ban = is_banned ban >>= λ time. elim time [
    | none ↦ pure none
    | some t ↦
        (is_over now t >>= λ over.
        if over
        then (writes (hdel Key.banned_users_global user_id) >> pure none)
        else pure (some t))
  ]

  -- is_banned_globally; `none` is (False, None)
  unfoldable pub is_banned_globally : ℕ → Text → Action S (Option Text)
  is_banned_globally now user_id db =
      check_ban now user_id (hget Key.banned_users_global user_id db.redis) db

  -- is_banned_from_channel
  unfoldable pub is_banned_from_channel : ℕ → Text → Text → Action S (Option Text)
  is_banned_from_channel now channel_id user_id db =
      check_ban now user_id (hget (Key.banned_users_channel channel_id) user_id db.redis) db

  -- is_banned_from_room
  unfoldable pub is_banned_from_room : ℕ → Text → Text → Action S (Option Text)
  is_banned_from_room now room_id user_id db =
      check_ban now user_id (hget (Key.banned_users_room room_id) user_id db.redis) db

  -- remove_global_ban
  unfoldable pub remove_global_ban : Text → Action S (Unit {0})
  remove_global_ban user_id = writes (hdel Key.banned_users_global user_id)

  -- remove_channel_ban
  unfoldable pub remove_channel_ban : Text → Text → Action S (Unit {0})
  remove_channel_ban channel_id user_id =
      writes (hdel (Key.banned_users_channel channel_id) user_id)

  -- remove_room_ban
  unfoldable pub remove_room_ban : Text → Text → Action S (Unit {0})
  remove_room_ban room_id user_id = writes (hdel (Key.banned_users_room room_id) user_id)

  -- ban_user_global
  unfoldable pub ban_user_global : Text → Text → Text → Action S (Unit {0})
  ban_user_global user_id ban_timestamp ban_duration = modify (λ db. record db {
    redis =
        hset Key.banned_users_global user_id
          (ban_info ban_duration ban_timestamp
            (name_or_blank (hget Key.user_names user_id db.redis)))
          db.redis;
  })

  -- `channel_for_room`, with its NoChannelFoundException turned into NoSuchRoomException
  abbrev pub need_room : Text → Action S (Unit {0})
  need_room room_id db =
      let (r, db') = channel_for_room room_id db in
      elim r [ ok _ ↦ (ok tt, db') | err e ↦ (err (as_no_such_room e), db') ]

  -- ban_user_room
  unfoldable pub ban_user_room : Text → Text → Text → Text → Action S (Unit {0})
  ban_user_room user_id ban_timestamp ban_duration room_id =
      need_room room_id
      >> modify (λ db. record db {
        redis =
            hset (Key.banned_users_room room_id) user_id
              (ban_info ban_duration ban_timestamp
                (name_or_blank (hget Key.user_names user_id db.redis)))
              db.redis;
      })

  -- ban_user_channel
  unfoldable pub ban_user_channel : Text → Text → Text → Text → Action S (Unit {0})
  ban_user_channel user_id ban_timestamp ban_duration channel_id = modify (λ db. record db {
    redis =
        hset (Key.banned_users_channel channel_id) user_id
          (ban_info ban_duration ban_timestamp
            (name_or_blank (hget Key.user_names user_id db.redis)))
          db.redis;
  })

  -- `ban.split('|', 2)[1]`, or ''
  abbrev pub timestamp_of : Option Text → Action S Text
  timestamp_of none = pure []
  timestamp_of (some ban) = or_raise (get_elem? (split_max b'|' 2 ban) 1) index_error

  -- get_user_ban_status
  unfoldable pub get_user_ban_status : Text → Text → Action S BanStatus
  get_user_ban_status room_id user_id = do
    channel_id ← channel_for_room room_id
    global_ban ← reads (hget Key.banned_users_global user_id)
    channel_ban ← reads (hget (Key.banned_users_channel channel_id) user_id)
    room_ban ← reads (hget (Key.banned_users_room room_id) user_id)
    g ← timestamp_of global_ban
    c ← timestamp_of channel_ban
    r ← timestamp_of room_ban
    pure (record { global_timestamp = g; channel_timestamp = c; room_timestamp = r })
