-- ===== src/Db/Rooms/Listing.antt =====
-- The listings of channels and of rooms, which rooms last, and the removal of a channel:
-- DatabaseRedis of dino/db/redis.py.
use dino.Prelude.{ℕ, Bool, not, [], ◌∷◌}
use dino.Prelude.Lists.{length}
use dino.Prelude.Text.{Text, str}
use dino.Prelude.Dict.{Dict}
use dino.Redis.{Key, SetKey, Client, hgetall, hdel, sismember, sadd, srem}
use dino.Db.{Action, pure, raise, reads, writes, ◌>>=◌, response_error}
use dino.Db.Rooms.{users_in_room}

-- What is told of a room
pub record RoomInfo : Type 0 where
  pub name : Text
  pub sort_order : ℕ
  pub ephemeral : Bool
  pub users : ℕ

-- What is told of a room without its users
pub record RoomName : Type 0 where
  pub name : Text
  pub ephemeral : Bool

-- The loop of get_channels: a name, a sort order and the tag
unfoldable pub clean_channels : Dict Text → Dict (Text × ℕ × Text)
clean_channels [] = []
clean_channels ((channel_id, channel_name) ∷ channels) =
    (channel_id, (channel_name, 1, str "normal")) ∷ clean_channels channels

-- The dict of rooms_for_channel_without_info
unfoldable pub without_info : Dict RoomInfo → Dict RoomName
without_info [] = []
without_info ((room_id, room) ∷ rooms) =
    (room_id, record { name = room.name; ephemeral = room.ephemeral }) ∷ without_info rooms

module _ {S : Type 0} ⦃R : Client S⦄ where
  -- get_channels
  unfoldable pub get_channels : Action S (Dict (Text × ℕ × Text))
  get_channels = reads (λ s. clean_channels (hgetall Key.channels s))

  -- set_ephemeral_room
  unfoldable pub set_ephemeral_room : Text → Action S (Unit {0})
  set_ephemeral_room room_id = writes (srem SetKey.non_ephemeral_rooms room_id)

  -- unset_ephemeral_room
  unfoldable pub unset_ephemeral_room : Text → Action S (Unit {0})
  unset_ephemeral_room room_id = writes (sadd SetKey.non_ephemeral_rooms room_id)

  -- is_room_ephemeral
  unfoldable pub is_room_ephemeral : Text → Action S Bool
  is_room_ephemeral room_id = reads (λ s. not (sismember SetKey.non_ephemeral_rooms room_id s))

  -- The loop of rooms_for_channel
  unfoldable pub clean_rooms : Dict Text → Action S (Dict RoomInfo)
  clean_rooms [] = pure []
  clean_rooms ((room_id, room_name) ∷ rooms) = do
    ephemeral ← is_room_ephemeral room_id
    users ← users_in_room room_id
    clean ← clean_rooms rooms
    pure (
        (
          room_id,
          record { name = room_name; sort_order = 1; ephemeral = ephemeral; users = length users },
        )
        ∷ clean)

  -- rooms_for_channel; the values of a hash are never None
  unfoldable pub rooms_for_channel : Text → Action S (Dict RoomInfo)
  rooms_for_channel channel_id = do
    all_rooms ← reads (hgetall (Key.rooms channel_id))
    clean_rooms all_rooms

  -- rooms_for_channel_without_info
  unfoldable pub rooms_for_channel_without_info : Text → Action S (Dict RoomName)
  rooms_for_channel_without_info channel_id = do
    rooms ← rooms_for_channel channel_id
    pure (without_info rooms)

  -- remove_channel: the server refuses an HDEL without a field
  unfoldable pub remove_channel : Text → Action S (Unit {0})
  remove_channel channel_id = do _ ← writes (hdel Key.channels channel_id); raise response_error
