-- ===== src/Tests/Rooms.antt =====
-- Rooms, members and bans of dino/db/redis.py at a small database.
use dino.Prelude.{true, none, some, [], ◌∷◌, ◌≡◌, refl, arith, ltb, if◌then◌else◌}
use dino.Prelude.Text.{◌==◌, text_dec, str}
use dino.Prelude.Dict.{lookup}
use dino.Prelude.Result.{ok, err}
use dino.Db.{value_error}
use dino.Db.Bans.{last_time}
use dino.Generic.Decimal.{show}
use dino.Redis.{Key, hget, hdel}
use dino.Redis.Model.{model}
use dino.Db.Rooms.{create_room, rename_room, remove_room, join_room, leave_room}
use dino.Db.Rooms.Members.{MembersAgree, join_leave-MembersAgree}
use dino.Db.Rooms.Names.{NamesDiffer, rooms-NamesDiffer}
use dino.Db.Rooms.Tables.{RoomsFiled, rooms-RoomsFiled}
use dino.Db.Bans.{ban_user_global, is_banned_globally, get_ban_timestamp, name_or_blank, ban_info}
use dino.Db.Bans.Expiry.{
  a_channel, place_key, is_banned_from, is_banned_globally-ban_user_global, expired-drops_global,
}
use dino.Tests.Roles.{small}

small-MembersAgree : MembersAgree small
unfolding lookup
small-MembersAgree u r = ground arith

small-NamesDiffer : NamesDiffer small
unfolding lookup
small-NamesDiffer c r s m n p q same = ground (arith, p, q)

small-RoomsFiled : RoomsFiled small
unfolding lookup
small-RoomsFiled = record {
  channel = λ c r n h. ground (arith, h);
  name = λ c r n h. ground (arith, h);
}

join_leave-MembersAgree_example :
    MembersAgree (join_room (str "ann") (str "Ann") (str "r") (str "Room") small).1
    × MembersAgree (leave_room (str "ann") (str "r") small).1
join_leave-MembersAgree_example =
    join_leave-MembersAgree (str "ann") (str "r") (str "Ann") (str "Room") small small-MembersAgree

rooms-NamesDiffer_example :
    NamesDiffer (create_room (str "New") (str "n") (str "c") (str "bob") (str "Bob") true small).1
    × NamesDiffer (rename_room (str "c") (str "n") (str "New") small).1
    × NamesDiffer (remove_room (str "c") (str "n") small).1
rooms-NamesDiffer_example =
    rooms-NamesDiffer (str "c") (str "n") (str "New") (str "bob") (str "Bob") true small
      small-NamesDiffer

n_is_new : hget Key.channel_for_rooms (str "n") small.redis ≡ none
unfolding lookup text_dec
n_is_new = refl

rooms-RoomsFiled_example :
    RoomsFiled (create_room (str "New") (str "n") (str "c") (str "bob") (str "Bob") true small).1
    × RoomsFiled (rename_room (str "c") (str "r") (str "New") small).1
    × RoomsFiled (remove_room (str "c") (str "r") small).1
rooms-RoomsFiled_example =
    rooms-RoomsFiled (str "New") (str "n") (str "r") (str "c") (str "bob") (str "Bob") true small
      small-RoomsFiled n_is_new

is_banned_globally-ban_user_global_example :
    ((is_banned_globally 300
        (str "bob")
        (ban_user_global (str "bob") (show 300) (str "5m") small).1).0
      ≡ (if str "bob" == str "bob"
          then (if ltb last_time 300
              then err value_error
              else if ltb 300 300
              then ok none
              else ok (some (show 300)))
          else (is_banned_globally 300 (str "bob") small).0))
    × (get_ban_timestamp (
          hget Key.banned_users_global
            (str "bob")
            (ban_user_global (str "bob") (show 300) (str "5m") small).1.redis)
        ≡ str "5m" ∷ show 300 ∷ name_or_blank (hget Key.user_names (str "bob") small.redis) ∷ [])
is_banned_globally-ban_user_global_example =
    is_banned_globally-ban_user_global (str "bob") (str "5m") 300 refl 300 (str "bob") small

eve_in_channel :
    hget (Key.banned_users_channel (str "c")) (str "eve") small.redis
    ≡ some (ban_info (str "1m") (show 60) (str "Eve"))
unfolding lookup text_dec show
eve_in_channel = refl

expired-drops_global_example :
    (is_banned_from 100 (a_channel (str "c")) (str "eve") small
      ≡ (ok none, record small { redis = hdel Key.banned_users_global (str "eve") small.redis }))
    × (hget
          (place_key (a_channel (str "c")))
          (str "eve")
          (is_banned_from 100 (a_channel (str "c")) (str "eve") small).1.redis
        ≡ some (ban_info (str "1m") (show 60) (str "Eve")))
expired-drops_global_example =
    expired-drops_global 100 60 (a_channel (str "c")) (str "eve") (str "1m") (str "Eve") small refl
      (omega arith) (omega arith) eve_in_channel
