-- ===== src/Storage.antt =====
-- StorageRedis of dino/storage/redis.py: the history of a room as a list in Redis, the latest
-- message first, and the acknowledgements of messages.
pub mod Bounds
pub mod History
pub mod Acks
use dino.Prelude.{
  ℕ, suc, Bool, true, false, not, Option, none, some, List, [], ◌∷◌, ◌++◌, take, eqb, if◌then◌else◌,
  ◌≡◌,
}
use dino.Prelude.Text.{Text, ◌==◌, str, join, starts_with}
use dino.Prelude.Result.{Result, ok, err, ◌>>=◌, ◌>>◌}
use dino.Generic.Decimal.{show}
use dino.Redis.{Key, SetKey, Client, hget, hset, sadd}
use dino.Db.Bans.{split_max}

pub data StorageError : Type 0 where
  runtime_error value_error data_error type_error : StorageError

-- `lrem(key, 1, x)`
abbrev pub remove_first : Text → List Text → List Text
remove_first x [] = []
remove_first x (y ∷ l) = let rest = remove_first x l in if x == y then l else y ∷ rest

-- The commands of Redis on the lists under RedisKeys.room_history, with their documented
-- behaviour; the last element of a range is part of it.
pub record Lists (S : Type 0) : Type 0 where
  pub lrange_all : Text → S → List Text
  pub run_lpush : Text → Text → S → S
  pub run_ltrim : Text → ℕ → S → S
  pub run_lrem : Text → Text → S → S
  pub lpush_law :
      (j k x : Text) (s : S)
      → lrange_all j (run_lpush k x s) ≡ (if j == k then x ∷ lrange_all j s else lrange_all j s)
  pub ltrim_law :
      (j k : Text) (n : ℕ) (s : S)
      → lrange_all j (run_ltrim k n s)
        ≡ (if j == k then take (suc n) (lrange_all j s) else lrange_all j s)
  pub lrem_law :
      (j k x : Text) (s : S)
      → lrange_all j (run_lrem k x s)
        ≡ (if j == k then remove_first x (lrange_all j s) else lrange_all j s)

-- The base64 functions of dino/utils/__init__.py and the setting of the length of the history, 0 if
-- there is none.
pub record Settings : Type 0 where
  pub b64e : Text → Text
  pub b64d : Text → Text
  pub is_base64 : Text → Bool
  pub max_history : ℕ

-- What store_message reads of the activity and the session
pub record Message : Type 0 where
  pub id : Text
  pub published : Text
  pub user_id : Text
  pub user_name : Text
  pub target_id : Text
  pub target_name : Text
  pub channel_id : Text
  pub channel_name : Text
  pub content : Text

-- An entry of what get_history returns; its domain is always 'room', and 'deleted' False.
pub record Shown : Type 0 where
  pub message_id : Text
  pub from_user_id : Text
  pub from_user_name : Text
  pub target_id : Text
  pub target_name : Text
  pub body : Text
  pub channel_id : Text
  pub channel_name : Text
  pub timestamp : Text

abbrev pub entry : Settings → Message → Text
entry c m = join b',' (
    m.id
    ∷ m.published
    ∷ m.user_id
    ∷ c.b64e m.user_name
    ∷ c.b64e m.target_name
    ∷ m.channel_id
    ∷ c.b64e m.channel_name
    ∷ m.content
    ∷ [])

-- The eight parts of an entry; other numbers of parts cannot be unpacked.
abbrev pub show_parts : Settings → Text → List Text → Result StorageError Shown
show_parts c room_id (i ∷ at ∷ u ∷ n ∷ t ∷ k ∷ h ∷ msg ∷ []) = ok (record {
  message_id = i;
  from_user_id = u;
  from_user_name = c.b64d n;
  target_id = room_id;
  target_name = c.b64d t;
  body = c.b64d msg;
  channel_id = k;
  channel_name = c.b64d h;
  timestamp = at;
})
show_parts c room_id _ = err value_error

-- The loop over the entries
unfoldable pub clean : Settings → Text → List Text → Result StorageError (List Shown)
clean c room_id [] = ok []
clean c room_id (e ∷ l) =
    let rest = clean c room_id l in
    show_parts c room_id (split_max b',' 7 e) >>= λ m. rest >>= λ ms. ok (m ∷ ms)

-- `lrange(key, 0, limit)`, where None is -1
abbrev pub up_to {ℓ} : {A : Type ℓ} → Option ℕ → List A → List A
up_to none l = l
up_to (some limit) l = take (suc limit) l

-- The first entry of the message
abbrev pub find_entry : Text → List Text → Option Text
find_entry message_id [] = none
find_entry message_id (e ∷ l) =
    let rest = find_entry message_id l in
    if starts_with (message_id ++ b',' ∷ []) e then some e else rest

module _ {S : Type 0} ⦃L : Lists S⦄ (c : Settings) where
  -- The history is kept to its length, if there is one.
  abbrev pub trim : Text → S → S
  trim room_id s = if eqb c.max_history 0 then s else L.run_ltrim room_id c.max_history s

  -- store_message
  unfoldable pub store_message : Message → S → Result StorageError S
  store_message m s =
      if not (c.is_base64 m.content)
      then err runtime_error
      else ok (trim m.target_id (L.run_lpush m.target_id (entry c m) s))

  -- get_history
  unfoldable pub get_history : Text → Option ℕ → S → Result StorageError (List Shown)
  get_history room_id limit s = clean c room_id (up_to limit (L.lrange_all room_id s))

module _ {S : Type 0} ⦃L : Lists S⦄ where
  -- `lrem(key, 1, None)` raises a DataError.
  abbrev pub lrem_found : Text → Option Text → S → Result StorageError S
  lrem_found room_id none s = err data_error
  lrem_found room_id (some e) s = ok (L.run_lrem room_id e s)

  -- delete_message
  unfoldable pub delete_message : Text → Option Text → S → Result StorageError S
  delete_message message_id none s = err runtime_error
  delete_message message_id (some room_id) s =
      if message_id == str ""
      then ok s
      else lrem_found room_id (find_entry message_id (L.lrange_all room_id s)) s

  -- delete_messages
  unfoldable pub delete_messages : List Text → Option Text → S → Result StorageError S
  delete_messages [] room_id s = ok s
  delete_messages (message_id ∷ ids) room_id s =
      delete_message message_id room_id s >>= delete_messages ids room_id

module _ {S : Type 0} ⦃R : Client S⦄ where
  -- _get_acks_for; an acknowledgement that is found is put under the set of the ids, which raises.
  unfoldable pub get_acks_for : Text → List Text → S → Result StorageError (Unit {0})
  get_acks_for receiver_id [] s = ok tt
  get_acks_for receiver_id (message_id ∷ ids) s =
      elim (hget (Key.ack_for_user receiver_id) message_id s) [
        | none ↦ get_acks_for receiver_id ids s
        | some ack ↦ err type_error
      ]

  -- _update_acks_with_status
  unfoldable pub update_acks_with_status : Text → Text → ℕ → List Text → S → S
  update_acks_with_status receiver_id target_id status [] s = s
  update_acks_with_status receiver_id target_id status (message_id ∷ ids) s =
      update_acks_with_status receiver_id target_id status ids (
        sadd (SetKey.ack_for_room target_id) message_id
          (hset (Key.ack_for_user receiver_id) message_id (show status) s))

  -- _mark_as_status: without an exception there are no current acks, and all is to be added.
  unfoldable pub mark_as_status : ℕ → List Text → Text → Text → S → Result StorageError S
  mark_as_status status message_ids receiver_id target_id s =
      get_acks_for receiver_id message_ids s
      >> ok (update_acks_with_status receiver_id target_id status message_ids s)

  -- mark_as_received
  unfoldable pub mark_as_received : List Text → Text → Text → S → Result StorageError S
  mark_as_received = mark_as_status 1

  -- mark_as_read
  unfoldable pub mark_as_read : List Text → Text → Text → S → Result StorageError S
  mark_as_read = mark_as_status 2

  -- mark_as_unacked
  unfoldable pub mark_as_unacked : Text → Text → Text → S → Result StorageError S
  mark_as_unacked message_id = mark_as_status 0 (message_id ∷ [])
