-- ===== src/Db/Roles/Calls.antt =====
-- The calls on roles of DatabaseRedis, dino/db/redis.py, and the queries of dino.Acl that it
-- answers.
use dino.Prelude.{Bool, not, Option, none, some, [], ◌∷◌, if◌then◌else◌}
use dino.Prelude.Text.{Text, contains, split}
use dino.Prelude.Dict.{Dict}
use dino.Redis.{Key, Client, hget, hgetall}
use dino.Db.{
  Database, reads, Action, pure, raise, gets, ◌>>=◌, ◌>>◌, raise_if, Error, no_such_channel,
  no_such_room, no_channel_found,
}
use dino.Db.RoleKeys
use dino.Db.Roles.{
  with_user, get_user_name, get_room_name, get_channel_name, channel_for_room, channel_exists,
  has_role_in_room, has_role_in_channel, has_global_role, add_channel_role, add_room_role,
  add_global_role, remove_channel_role, remove_room_role, remove_global_role,
}

abbrev pub cons_named : Text → Option Text → Dict Text → Dict Text
cons_named user_id none cleaned = cleaned
cons_named user_id (some name) cleaned = (user_id, name) ∷ cleaned

module _ {S : Type 0} ⦃R : Client S⦄ where
  -- is_super_user
  unfoldable pub is_super_user : Option Text → Database S → Bool
  is_super_user user_id db = has_global_role user_id RoleKeys.super_user db

  -- is_global_moderator, which passes the role as the user and the user as the role
  unfoldable pub is_global_moderator : Option Text → Database S → Bool
  is_global_moderator user_id db =
      with_user (λ u. has_global_role (some RoleKeys.global_moderator) u db) user_id

  -- is_admin
  unfoldable pub is_admin : Text → Option Text → Database S → Bool
  is_admin channel_id user_id db = has_role_in_channel RoleKeys.admin channel_id user_id db

  -- is_moderator
  unfoldable pub is_moderator : Text → Option Text → Database S → Bool
  is_moderator room_id user_id db = has_role_in_room RoleKeys.moderator room_id user_id db

  -- is_owner
  unfoldable pub is_owner : Text → Option Text → Database S → Bool
  is_owner room_id user_id db = has_role_in_room RoleKeys.owner room_id user_id db

  -- is_owner_channel
  unfoldable pub is_owner_channel : Text → Option Text → Database S → Bool
  is_owner_channel channel_id user_id db = has_role_in_channel RoleKeys.owner channel_id user_id db

  -- raise NoSuchChannelException if not self.channel_exists(channel_id)
  unfoldable pub need_channel : Text → Action S (Unit {0})
  need_channel channel_id db = raise_if (not (channel_exists channel_id db)) no_such_channel db

  -- set_admin
  unfoldable pub set_admin : Text → Text → Action S (Unit {0})
  set_admin channel_id user_id =
      need_channel channel_id >> add_channel_role RoleKeys.admin channel_id user_id

  -- set_moderator
  unfoldable pub set_moderator : Text → Text → Action S (Unit {0})
  set_moderator room_id user_id = add_room_role RoleKeys.moderator room_id user_id

  -- set_super_user
  unfoldable pub set_super_user : Text → Action S (Unit {0})
  set_super_user user_id = add_global_role user_id RoleKeys.super_user

  -- set_global_moderator; the room is not read
  unfoldable pub set_global_moderator : Text → Text → Action S (Unit {0})
  set_global_moderator room_id user_id = add_global_role user_id RoleKeys.global_moderator

  -- set_owner
  unfoldable pub set_owner : Text → Text → Action S (Unit {0})
  set_owner room_id user_id = add_room_role RoleKeys.owner room_id user_id

  -- set_owner_channel
  unfoldable pub set_owner_channel : Text → Text → Action S (Unit {0})
  set_owner_channel channel_id user_id = add_channel_role RoleKeys.owner channel_id user_id

  -- remove_admin
  unfoldable pub remove_admin : Text → Text → Action S (Unit {0})
  remove_admin channel_id user_id =
      need_channel channel_id >> remove_channel_role RoleKeys.admin channel_id user_id

  -- remove_owner_channel
  unfoldable pub remove_owner_channel : Text → Text → Action S (Unit {0})
  remove_owner_channel channel_id user_id =
      need_channel channel_id >> remove_channel_role RoleKeys.owner channel_id user_id

  -- `if not channel_id: raise`
  abbrev pub need_text : Error → Text → Action S (Unit {0})
  need_text e [] = raise e
  need_text e (_ ∷ _) = pure tt

  -- That, of the channel of a room.
  abbrev pub need_channel_of : Text → Error → Action S (Unit {0})
  need_channel_of room_id e = channel_for_room room_id >>= need_text e

  -- remove_moderator
  unfoldable pub remove_moderator : Text → Text → Action S (Unit {0})
  remove_moderator room_id user_id = do
    _ ← get_room_name room_id
    _ ← need_channel_of room_id no_channel_found
    remove_room_role RoleKeys.moderator room_id user_id

  -- remove_owner
  unfoldable pub remove_owner : Text → Text → Action S (Unit {0})
  remove_owner room_id user_id = do
    _ ← need_channel_of room_id no_such_room
    remove_room_role RoleKeys.owner room_id user_id

  -- remove_super_user
  unfoldable pub remove_super_user : Text → Action S (Unit {0})
  remove_super_user user_id = remove_global_role user_id RoleKeys.super_user

  -- remove_global_moderator
  unfoldable pub remove_global_moderator : Text → Action S (Unit {0})
  remove_global_moderator user_id = remove_global_role user_id RoleKeys.global_moderator

  -- _get_users_with_role: a user without a name is left out.
  unfoldable pub get_users_with_role : Dict Text → Text → Database S → Dict Text
  get_users_with_role [] role_key db = []
  get_users_with_role ((user_id, user_roles) ∷ roles) role_key db =
      let rest = get_users_with_role roles role_key db in
      if contains (split b',' user_roles) role_key
      then cons_named user_id (hget Key.user_names user_id db.redis) rest
      else rest

  -- get_admins_channel
  unfoldable pub get_admins_channel : Text → Action S (Dict Text)
  get_admins_channel channel_id = do
    _ ← get_channel_name channel_id
    gets (λ db.
        get_users_with_role (hgetall (Key.channel_roles channel_id) db.redis) RoleKeys.admin db)

  -- get_owners_channel
  unfoldable pub get_owners_channel : Text → Action S (Dict Text)
  get_owners_channel channel_id = do
    _ ← get_channel_name channel_id
    gets (λ db.
        get_users_with_role (hgetall (Key.channel_roles channel_id) db.redis) RoleKeys.owner db)

  -- get_owners_room
  unfoldable pub get_owners_room : Text → Action S (Dict Text)
  get_owners_room room_id = do
    _ ← get_room_name room_id
    gets (λ db. get_users_with_role (hgetall (Key.room_roles room_id) db.redis) RoleKeys.owner db)

  -- get_moderators_room
  unfoldable pub get_moderators_room : Text → Action S (Dict Text)
  get_moderators_room room_id = do
    _ ← get_room_name room_id
    gets (λ db.
        get_users_with_role (hgetall (Key.room_roles room_id) db.redis) RoleKeys.moderator db)

  -- The loop of `get_super_users`.
  unfoldable pub name_all : Dict Text → Action S (Dict Text)
  name_all [] = pure []
  name_all ((user_id, _) ∷ users) = do
    name ← get_user_name user_id
    rest ← name_all users
    pure ((user_id, name) ∷ rest)

  -- get_super_users: all users that have global roles
  unfoldable pub get_super_users : Action S (Dict Text)
  get_super_users = do users ← reads (hgetall Key.global_roles); name_all users
