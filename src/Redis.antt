-- ===== src/Redis.antt =====
-- The Redis server that dino/db/redis.py and dino/cache/redis.py talk to is not part of the
-- program: `Client` is what they call of it, with its documented behaviour as laws. A key is a
-- method of RedisKeys of dino/config.py at its arguments.
pub mod Model
pub mod Names
pub mod Commands
pub mod Lapse
use dino.Prelude.{
  ℕ, suc, Bool, true, false, ◌&&◌, not, ◌||◌, Option, none, some, List, if◌then◌else◌, ◌≡◌,
}
use dino.Prelude.Text.{Text, ◌==◌, contains}
use dino.Prelude.Dict.{Dict, lookup, values}

-- The keys of hashes.
pub data Key : Type 0 where
  global_roles user_names room_name_for_id channels channel_for_rooms sid_for_user_id : Key
  banned_users_global channel_exists user_ids user_id_for_sid : Key
  channel_roles room_roles rooms auth users_in_room rooms_for_user : Text → Key
  banned_users_channel banned_users_room channel_acl room_acl last_read : Text → Key
  room_id_for_name muted_users ack_for_user : Text → Key
  users_in_room_for_role : Text → Text → Key

-- The keys of sets.
pub data SetKey : Type 0 where
  non_ephemeral_rooms default_rooms black_list online_set users_multi_cast : SetKey
  ack_for_room : Text → SetKey

-- The keys of texts.
pub data TextKey : Type 0 where
  user_status user_last_online : Text → TextKey

abbrev pub same_text_key : TextKey → TextKey → Bool
same_text_key (TextKey.user_status a) (TextKey.user_status b) = a == b
same_text_key (TextKey.user_last_online a) (TextKey.user_last_online b) = a == b
same_text_key _ _ = false

abbrev pub same_key : Key → Key → Bool
same_key Key.global_roles Key.global_roles = true
same_key Key.user_names Key.user_names = true
same_key Key.room_name_for_id Key.room_name_for_id = true
same_key Key.channels Key.channels = true
same_key Key.channel_for_rooms Key.channel_for_rooms = true
same_key Key.sid_for_user_id Key.sid_for_user_id = true
same_key Key.banned_users_global Key.banned_users_global = true
same_key Key.channel_exists Key.channel_exists = true
same_key Key.user_ids Key.user_ids = true
same_key Key.user_id_for_sid Key.user_id_for_sid = true
same_key (Key.channel_roles a) (Key.channel_roles b) = a == b
same_key (Key.room_roles a) (Key.room_roles b) = a == b
same_key (Key.rooms a) (Key.rooms b) = a == b
same_key (Key.auth a) (Key.auth b) = a == b
same_key (Key.users_in_room a) (Key.users_in_room b) = a == b
same_key (Key.rooms_for_user a) (Key.rooms_for_user b) = a == b
same_key (Key.banned_users_channel a) (Key.banned_users_channel b) = a == b
same_key (Key.banned_users_room a) (Key.banned_users_room b) = a == b
same_key (Key.channel_acl a) (Key.channel_acl b) = a == b
same_key (Key.room_acl a) (Key.room_acl b) = a == b
same_key (Key.last_read a) (Key.last_read b) = a == b
same_key (Key.room_id_for_name a) (Key.room_id_for_name b) = a == b
same_key (Key.muted_users a) (Key.muted_users b) = a == b
same_key (Key.ack_for_user a) (Key.ack_for_user b) = a == b
same_key (Key.users_in_room_for_role a r) (Key.users_in_room_for_role b q) = a == b && r == q
same_key _ _ = false

abbrev pub same_set : SetKey → SetKey → Bool
same_set SetKey.non_ephemeral_rooms SetKey.non_ephemeral_rooms = true
same_set SetKey.default_rooms SetKey.default_rooms = true
same_set SetKey.black_list SetKey.black_list = true
same_set SetKey.online_set SetKey.online_set = true
same_set SetKey.users_multi_cast SetKey.users_multi_cast = true
same_set (SetKey.ack_for_room a) (SetKey.ack_for_room b) = a == b
same_set _ _ = false

-- A client whose server is in a state `S`. Values are what they decode to.
pub record Client (S : Type 0) : Type 0 where
  pub run_hget : Key → Text → S → Option Text
  pub run_hgetall : Key → S → Dict Text
  pub run_hset : Key → Text → Text → S → S
  pub run_hmset : Key → Dict Text → S → S
  pub run_hdel : Key → Text → S → S
  pub run_delete : Key → S → S
  pub run_expire : Key → ℕ → S → S
  pub run_sismember : SetKey → Text → S → Bool
  pub run_smembers : SetKey → S → List Text
  pub run_delete_set : SetKey → S → S
  pub run_sadd : SetKey → Text → S → S
  pub run_srem : SetKey → Text → S → S
  pub run_get : TextKey → S → Option Text
  pub run_set : TextKey → Text → S → S
  pub set_law :
      (j k : TextKey) (v : Text) (s : S)
      → run_get j (run_set k v s) ≡ (if same_text_key j k then some v else run_get j s)
  pub hgetall_law : (k : Key) (f : Text) (s : S) → lookup f (run_hgetall k s) ≡ run_hget k f s
  pub hset_law :
      (j k : Key) (f g v : Text) (s : S)
      → run_hget j f (run_hset k g v s)
        ≡ (if same_key j k && f == g then some v else run_hget j f s)
  pub hmset_law :
      (j k : Key) (f : Text) (d : Dict Text) (s : S)
      → run_hget j f (run_hmset k d s) ≡ (
          if same_key j k
          then elim (lookup f d) [ none ↦ run_hget j f s | some v ↦ some v ]
          else run_hget j f s)
  pub hdel_law :
      (j k : Key) (f g : Text) (s : S)
      → run_hget j f (run_hdel k g s) ≡ (if same_key j k && f == g then none else run_hget j f s)
  pub delete_law :
      (j k : Key) (f : Text) (s : S)
      → run_hget j f (run_delete k s) ≡ (if same_key j k then none else run_hget j f s)
  -- A time to live changes nothing before it has passed.
  pub hget-expire :
      (j k : Key) (f : Text) (n : ℕ) (s : S)
      → run_hget j f (run_expire k (suc n) s) ≡ run_hget j f s
  pub hget-sadd :
      (j : Key) (k : SetKey) (f x : Text) (s : S) → run_hget j f (run_sadd k x s) ≡ run_hget j f s
  pub hget-srem :
      (j : Key) (k : SetKey) (f x : Text) (s : S) → run_hget j f (run_srem k x s) ≡ run_hget j f s
  pub smembers_law :
      (k : SetKey) (x : Text) (s : S) → contains (run_smembers k s) x ≡ run_sismember k x s
  pub delete_set_law :
      (j k : SetKey) (x : Text) (s : S)
      → run_sismember j x (run_delete_set k s)
        ≡ (if same_set j k then false else run_sismember j x s)
  pub srem_law :
      (j k : SetKey) (x y : Text) (s : S)
      → run_sismember j x (run_srem k y s) ≡ (not (same_set j k && x == y) && run_sismember j x s)
  pub sadd_law :
      (j k : SetKey) (x y : Text) (s : S)
      → run_sismember j x (run_sadd k y s) ≡ ((same_set j k && x == y) || run_sismember j x s)

module _ {S : Type 0} ⦃R : Client S⦄ where
  abbrev pub hget : Key → Text → S → Option Text
  hget = R.run_hget

  abbrev pub hgetall : Key → S → Dict Text
  hgetall = R.run_hgetall

  abbrev pub hset : Key → Text → Text → S → S
  hset = R.run_hset

  abbrev pub hmset : Key → Dict Text → S → S
  hmset = R.run_hmset

  abbrev pub hdel : Key → Text → S → S
  hdel = R.run_hdel

  abbrev pub delete : Key → S → S
  delete = R.run_delete

  abbrev pub expire : Key → ℕ → S → S
  expire = R.run_expire

  abbrev pub sismember : SetKey → Text → S → Bool
  sismember = R.run_sismember

  abbrev pub get_text : TextKey → S → Option Text
  get_text = R.run_get

  abbrev pub set_text : TextKey → Text → S → S
  set_text = R.run_set

  abbrev pub smembers : SetKey → S → List Text
  smembers = R.run_smembers

  abbrev pub delete_set : SetKey → S → S
  delete_set = R.run_delete_set

  abbrev pub sadd : SetKey → Text → S → S
  sadd = R.run_sadd

  abbrev pub srem : SetKey → Text → S → S
  srem = R.run_srem

  abbrev pub hexists : Key → Text → S → Bool
  hexists k f s = elim (R.run_hget k f s) [ none ↦ false | some _ ↦ true ]

  abbrev pub hvals : Key → S → List Text
  hvals k s = values (R.run_hgetall k s)
