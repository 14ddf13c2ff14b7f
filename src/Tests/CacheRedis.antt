-- ===== src/Tests/CacheRedis.antt =====
-- The cache of dino/cache/redis.py at a small server.
use dino.Prelude.{
  ◌+◌, not, ltb, ◌&&◌, true, false, none, some, [], ◌∷◌, ◌≡◌, ◌≢◌, refl, arith, if◌then◌else◌,
}
use dino.Prelude.Text.{Text, text_dec, ◌==◌, split, contains, str}
use dino.Prelude.Dict.{Dict, lookup}
use dino.Generic.Decimal.{show}
use dino.Redis.{Key, SetKey, hget, sismember}
use dino.Redis.Model.{Server, model}
use dino.Cache.Redis.BlackList.{
  has_value, get_black_list, set_black_list, add_to_black_list, get_black_list-set_black_list,
}
use dino.Cache.Redis.{text, words, CacheRedis, cache_key, get_room_id_for_name}
use dino.Cache.Redis.Exists.{remove_room_exists}
use dino.Cache.Redis.Bans.{
  set_global_ban_timestamp, set_channel_ban_timestamp, set_room_ban_timestamp,
  set_room_mute_timestamp, get_global_ban_timestamp, get_channel_ban_timestamp,
  get_room_ban_timestamp, get_room_mute_timestamp,
}
use dino.Cache.Redis.Reads.{channel_names, same_table, read, write}
use dino.Redis.Lapse.{lapse}
use dino.Cache.Redis.Lapses.{after, read-write}
use dino.Cache.Redis.Forgets.{remove_room_exists-keeps_id}
use dino.Cache.Redis.Sessions.{
  get_user_for_sid, get_sids_for_user, add_sid_for_user, remove_sid_for_user,
}
use dino.Cache.Redis.Sessions.Filed.{has_sid, SidsFiled, sids-SidsFiled}
use dino.Cache.Redis.Timestamps.{timestamps-set}

abbrev hashes : Key → Dict Text
hashes Key.channels = (str "c", str "Chat") ∷ []
hashes (Key.room_id_for_name c) = (str "Room", str "r") ∷ []
hashes Key.sid_for_user_id = (str "ann", str "s1") ∷ []
hashes Key.user_id_for_sid = (str "s1", str "ann") ∷ []
hashes _ = []

-- The memory is empty.
abbrev cold : CacheRedis Server
cold = record {
  redis = record {
    hashes = hashes;
    sets = λ k. [];
    texts = λ k. none;
    bits = λ n. false;
    scores = [];
    ttls = λ k. none;
  };
  cache = [];
}

read-write_example :
    (read
      (5 + 500)
      channel_names
      (str "c")
      (after 500 (write 5 0 channel_names (str "c") (str "Talk") cold))).0
    ≡ (if same_table channel_names channel_names && str "c" == str "c"
        then some (text (str "Talk"))
        else (read (5 + 500) channel_names (str "c") (after 500 cold)).0)
read-write_example =
    read-write 5 500 0 channel_names channel_names (str "c") (str "c") (str "Talk") cold refl refl

room_is_stored : hget (Key.room_id_for_name (str "c")) (str "Room") cold.redis ≡ some (str "r")
unfolding lookup text_dec
room_is_stored = refl

nothing_is_cached :
    lookup (cache_key (Key.room_id_for_name (str "c")) (str "Room")) cold.cache ≡ none
unfolding lookup
nothing_is_cached = refl

name_is_no_id : str "Room" ≢ str "r"
name_is_no_id h = cc

remove_room_exists-keeps_id_example :
    (get_room_id_for_name 100
      (str "c")
      (str "Room")
      (remove_room_exists 5 (str "c") (str "r") cold)).0
    ≡ some (text (str "r"))
remove_room_exists-keeps_id_example =
    remove_room_exists-keeps_id 5 100 (str "c") (str "r") (str "Room") cold name_is_no_id
      room_is_stored nothing_is_cached

timestamps-set_example :
    ((get_global_ban_timestamp 100
        (str "eve")
        (set_global_ban_timestamp 5 (str "eve") (str "5m") (show 300) (str "Eve") cold)).0
      ≡ str "5m" ∷ show 300 ∷ str "Eve" ∷ [])
    × ((get_channel_ban_timestamp 100 (str "c") (str "eve") (
          set_channel_ban_timestamp 5
            (str "c")
            (str "eve")
            (str "5m")
            (show 300)
            (str "Eve")
            cold)).0
        ≡ str "5m" ∷ show 300 ∷ str "Eve" ∷ [])
    × ((get_room_ban_timestamp 100
          (str "c")
          (str "eve")
          (set_room_ban_timestamp 5 (str "c") (str "eve") (str "5m") (show 300) (str "Eve") cold)).0
        ≡ str "5m" ∷ show 300 ∷ str "Eve" ∷ [])
    × ((get_room_mute_timestamp 100
          (str "c")
          (str "eve")
          (set_room_mute_timestamp 5 (str "c") (str "eve") (str "5m") (show 300) cold)).0
        ≡ str "5m" ∷ show 300 ∷ [])
timestamps-set_example =
    timestamps-set 5 100 300 (str "c") (str "eve") (str "5m") (str "Eve") cold refl

nobody_has_it :
    (u : Text) → has_sid (str "s2") (get_sids_for_user u cold.redis) ≡ true → u ≡ str "ann"
unfolding get_sids_for_user lookup text_dec
nobody_has_it u h = grind (arith, h)

one_sid : split b',' (str "s1") ≡ str "s1" ∷ []
unfolding split
one_sid = refl

cold-SidsFiled : SidsFiled cold.redis
unfolding get_sids_for_user get_user_for_sid lookup
cold-SidsFiled u s named h = ground (arith, h, one_sid)

sids-SidsFiled_example :
    SidsFiled (add_sid_for_user (str "ann") (str "s2") cold.redis)
    × SidsFiled (remove_sid_for_user (some (str "ann")) (str "s2") cold.redis)
sids-SidsFiled_example =
    sids-SidsFiled (str "ann") (str "s2") cold.redis refl nobody_has_it cold-SidsFiled

get_black_list-set_black_list_example :
    ((get_black_list 700 (set_black_list 5 (str "spam" ∷ []) cold)).0
      ≡ (if ltb (5 + 600) 700 then none else some (words (str "spam" ∷ []))))
    × (has_value (add_to_black_list 700 (str "ham") (set_black_list 5 (str "spam" ∷ []) cold))
        ≡ not (ltb (5 + 600) 700))
    × (sismember SetKey.black_list (str "ham") (set_black_list 5 (str "spam" ∷ []) cold).redis
        ≡ contains (str "spam" ∷ []) (str "ham"))
get_black_list-set_black_list_example =
    get_black_list-set_black_list 5 700 (str "spam" ∷ []) (str "ham") cold
