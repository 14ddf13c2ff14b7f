-- ===== src/Request/Privileges.antt =====
-- Who can kick, ban, delete, rename and set acls, by dino/validation/request.py.
use dino.Prelude.{true, false, not, ◌&&◌, ◌||◌, Option, none, some, if◌then◌else◌, ◌≡◌, ◌↔◌, arith}
use dino.Prelude.Text.{Text, is_blank}
use dino.Prelude.Result.{ok}
use dino.Request.{
  Queries, not_allowed, valid, invalid, is_operator, is_global, is_sender, on_kick, on_ban,
  on_delete, remove_or_rename_room, user_is_allowed_to_delete_message,
}

-- A kick from a room whose channel is found is accepted only from the owner of the room, an
-- operator, or an admin of that channel, and only of a user who is no operator.
pub on_kick_privileged :
    (q : Queries) (kicker room_id kicked : Text) (channel_id : Text)
    → q.roles.channel_for_room (some room_id) ≡ ok channel_id
    → on_kick q kicker (some room_id) (some kicked) ≡ ok valid
    → ((q.roles.owner (some room_id) kicker
          || is_operator q kicker
          || q.roles.admin (some channel_id) kicker)
        ≡ true)
      × (is_operator q kicked ≡ false)
unfolding on_kick
on_kick_privileged q kicker room_id kicked channel_id found accepted =
    ground (arith, found, accepted)

-- A ban is accepted only from an operator, or, if the banned user is not one, from the owner of the
-- room, or, if it is global, from somebody who is an admin at the channel None.
pub on_ban_privileged :
    (q : Queries) (user target_type banned : Text) (target_id url duration : Option Text)
    → on_ban q user target_type target_id (some banned) url duration ≡ ok valid
    → (is_operator q user
        || (not (is_operator q banned)
            && (if is_global target_type target_id
                then q.roles.admin none user
                else q.roles.owner target_id user)))
      ≡ true
unfolding on_ban
on_ban_privileged q user target_type banned none url duration accepted = ground (arith, accepted)
on_ban_privileged q user target_type banned (some room_id) url duration accepted =
    ground (arith, accepted)

-- Deleting a message, by an id that is not blank, in a room whose channel is found is answered,
-- never with an exception, and is accepted exactly from the sender, if the setting lets senders delete, and from those who have a
-- role in the room, in its channel or globally.
pub on_delete_lem :
    (q : Queries) (user room_id message_id channel_id : Text)
    → is_blank message_id ≡ false
    → q.roles.channel_for_room (some room_id) ≡ ok channel_id
    → on_delete q user room_id (some message_id)
      ≡ ok (
          if (q.sender_can_delete && is_sender q message_id user)
            || q.roles.owner (some room_id) user
            || q.roles.moderator (some room_id) user
            || q.roles.owner_channel (some channel_id) user
            || q.roles.admin (some channel_id) user
            || is_operator q user
          then valid
          else invalid not_allowed)
unfolding on_delete user_is_allowed_to_delete_message
on_delete_lem q user room_id message_id channel_id named found = ground (arith, named, found)

-- Removing or renaming a room that is not ephemeral, and whose channel is found, is accepted
-- exactly from its owner, a super user, or an admin or an owner of its channel; to be a moderator
-- of the room or a global moderator is not enough.
pub remove_or_rename_room_permanent :
    (q : Queries) (user room_id channel_id : Text)
    → q.is_room_ephemeral room_id ≡ false
    → q.roles.channel_for_room (some room_id) ≡ ok channel_id
    → (remove_or_rename_room q user room_id ≡ ok valid) ↔ (
        (q.roles.owner (some room_id) user
          || q.roles.super_user user
          || q.roles.admin (some channel_id) user
          || q.roles.owner_channel (some channel_id) user)
        ≡ true)
unfolding remove_or_rename_room
remove_or_rename_room_permanent q user room_id channel_id permanent found =
    ground (arith, permanent, found)
