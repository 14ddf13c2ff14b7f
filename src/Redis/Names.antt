-- ===== src/Redis/Names.antt =====
-- The names of the keys in Redis: RedisKeys of dino/config.py.
use dino.Prelude.{◌∷◌, ◌++◌}
use dino.Prelude.Text.{Text, str}
use dino.Redis.{Key}

unfoldable pub key_name : Key → Text
key_name Key.global_roles = str "global:roles"
key_name Key.user_names = str "user:names"
key_name Key.room_name_for_id = str "room:names"
key_name Key.channels = str "channels"
key_name Key.channel_for_rooms = str "room:channel"
key_name Key.sid_for_user_id = str "user:sid:map"
key_name Key.user_id_for_sid = str "sid:user:map"
key_name Key.banned_users_global = str "users:banned:global"
key_name Key.channel_exists = str "channel:exists"
key_name Key.user_ids = str "user:ids"
key_name (Key.channel_roles c) = str "channel:roles:" ++ c
key_name (Key.room_roles r) = str "room:roles:" ++ r
key_name (Key.rooms c) = str "rooms:" ++ c
key_name (Key.auth u) = str "user:auth:" ++ u
key_name (Key.users_in_room r) = str "room:" ++ r
key_name (Key.rooms_for_user u) = str "user:rooms:" ++ u
key_name (Key.banned_users_channel c) = str "users:banned:channel:" ++ c
key_name (Key.banned_users_room r) = str "users:banned:room:" ++ r
key_name (Key.channel_acl c) = str "channel:acl:" ++ c
key_name (Key.room_acl r) = str "room:acl:" ++ r
key_name (Key.last_read r) = str "room:read:" ++ r
key_name (Key.room_id_for_name c) = str "room:id:" ++ c
key_name (Key.ack_for_user u) = str "acks:user:" ++ u
key_name (Key.muted_users r) = str "users:muted:room:" ++ r
key_name (Key.users_in_room_for_role r role) = str "room:role:" ++ r ++ b':' ∷ role
