-- ===== src/Lib.antt =====
-- dino is a chat server: users join rooms inside channels, and send messages over websockets. What a
-- user may do is decided by roles, by access control lists (acls) and by bans; all of it is kept in
-- Redis, or in a relational database behind the same interface, with a cache in front. Events go to
-- other servers over a message queue, and a heartbeat manager disconnects users who went silent.
--
-- The parts that are modelled, and where:
-- - dino/validation/acl.py: Acl (the data), Acl/Validators (the validators of single acls),
--   Acl/Pattern (AclPatternValidator: _split_and_test_clause, _test_a_clause, validate_new_acl),
--   Acl/Call (which validator a name stands for), Acl/Action (AclValidator: is_acl_valid,
--   validate_acl_for_action). Below them, Range, Csv, Pattern/Extract, Pattern/Clauses,
--   Pattern/Accepts and Action/Laws hold the proofs.
-- - dino/validation/duration.py, dino/validation/generic.py and ban_duration_to_datetime of
--   dino/utils/__init__.py: Generic and Duration.
-- - dino/cache/redis.py: MemoryCache is Cache/Memory, and CacheRedis, which puts it in front of Redis,
--   is Cache/Redis (names and ids), Cache/Redis/Exists, Cache/Redis/Sessions,
--   Cache/Redis/BlackList, Cache/Redis/Status and Cache/Redis/Bans. Redis/Names has the names of the
--   keys. Below Cache/Redis, Reads, Lapses, Forgets, Sessions/Filed and Timestamps hold the proofs.
-- - HeartbeatManager of dino/heartbeat/manager.py: Heartbeat.
-- - BasePublisher of dino/endpoint/base.py: Publisher, with the window of ids in Publisher/Window.
-- - The Redis server is not part of the program: Redis (`Client`) is what the code calls of a client,
--   as a record of the commands over a state of the server, with their documented behaviour as laws;
--   the definitions of the database take it as an instance. A key (`Key`) is a method of RedisKeys of
--   dino/config.py at its arguments. Redis/Model is a server that keeps the laws, for the tests.
-- - DatabaseRedis of dino/db/redis.py: Db (the calls as actions on the server's state and on what the
--   cache answers, which may raise), Db/Roles and Db/Roles/Calls, Db/Rooms (the listings in
--   Db/Rooms/Listing), Db/Bans, Db/Acls (the acls of every action at once in Db/Acls/All), Db/Users.
--   The names of the functions are those of the methods, without a leading underscore.
--   Db/Roles/Grants has the specification of the roles, a set of grants, and Db/Roles/Refines that
--   the calls implement it.
-- - RequestValidator of dino/validation/request.py (on_kick, on_ban, on_delete,
--   _remove_or_rename_room, _can_edit_acl) and user_is_allowed_to_delete_message of
--   dino/utils/__init__.py: Request, over the queries that the utilities pass on to the database.
--   Below it: Request/Rooms (joining, creating and listing rooms, histories), Request/Messages
--   (on_message, with can_send_cross_room and can_send_whisper_to_user of dino/utils/__init__.py),
--   Request/Acks (on_read, on_received), Request/SetAcl (on_set_acl, on_get_acl), Request/Invites
--   (on_invite, on_whisper, on_report, on_update_user_info, on_request_admin) and Request/Session
--   (on_login, on_disconnect, on_status, and BaseValidator of dino/validation/base.py). They check
--   acls by Acl/Action, and take the other utilities as a record of queries. The modules Privileges,
--   Join, Guards and Login hold the proofs.
-- - AuthRedis of dino/auth/redis.py: Auth, which Request/Session/Login puts under the login.
-- - The status of users: Presence has the state of a node (the cache, the tables UserStatus and
--   LastOnline, the events published) and the queries; Presence/Changes the changes of CacheRedis
--   (set_user_online, set_user_offline, set_user_invisible and their kind), Presence/Users those of
--   DatabaseRdbms of dino/db/rdbms/handler.py, which call them. What a client can read of the server is
--   a View of Redis/Commands. Presence/Standing has what is said of one user, the specification, and
--   Presence/Effects that the changes implement it; Presence/Reach is the relation of the steps.
--   Presence/Refused has what becomes of ids that are no offset of a bit.
--   Presence/Hooks has OnStatusHooks of dino/hooks/status.py, which call both.
-- - StorageRedis of dino/storage/redis.py: Storage, with Storage/History, Storage/Bounds and
--   Storage/Acks for the proofs. Its lists in Redis are a record of commands with laws (`Lists`).
-- - Prelude has what all of them share: texts, dicts, lists, results. Tests holds runs at concrete
--   inputs.
-- The access control lists ask the database for roles, by the record Acl.Roles, which Db/Authority
-- fills with the database's own calls; the acls that Db/Acls stores are checked by Acl/Call before.
--
-- How it is modelled:
-- - A Python str is the list of its code points (Text); the tests of character classes are those of
--   ASCII. A dict and a hash of Redis are association lists in insertion order, and a set is the list
--   of its elements. Times count whole seconds.
-- - An exception is an error value. In the database what was written before it stays written.
-- - A time to live of a key in Redis changes nothing in a call. What it does later is modelled for the
--   hashes of names and ids that CacheRedis reads through (Redis/Lapse, Cache/Redis/Lapses); elsewhere
--   a reading at a later time is one while Redis still has the key.
-- - The laws of a Redis client are those of one client: calls come one after the other, and two
--   methods of RedisKeys never give the same key. What the cache answers is part of the state, at one
--   moment.
-- - A pipeline is the sequence of its commands, and a commit of the relational database is done, is a
--   conflict or fails, which is an argument. Redis takes bits at offsets below 2^32 only: at another
--   one the other commands of the pipeline are done, and it raises. int(float(user_id)) is a partial
--   function that is a parameter; a theorem on the bitmap asks that the ids of the users are numbers
--   below 2^32, each its own, and Presence/Refused has the other numbers.
-- - What the heartbeat manager asks the cache and emits may raise, which ends the round.
-- - There is no datetime after the year 9999: adding a duration, and reading the time of a ban, raise
--   there.
-- - What is emitted to a banned user beside the answer to a request is left out.
-- - int() is modelled on texts of ASCII digits with underscores and signs; float() of a stored time
--   is taken on texts of integers.
--
-- Bounds and fuel: AclPatternValidator calls itself on the groups in parentheses; its recursion is on
-- a depth, which stands for the interpreter's limit, and running out of it is the RecursionError. The
-- loop that takes groups out of a pattern has as many rounds as the pattern has characters and one
-- more, which is enough for every pattern whose parentheses were accepted. Numbers are unbounded, as
-- in Python.
--
-- What is not modelled: the web and REST handlers, the other hooks, the rest of the relational database (its
-- queries are those of SQLAlchemy) and the Cassandra one, the rest of CacheRedis (lists that are stored
-- as JSON, the default rooms), the adapters of message queues, remote calls, statistics and the spam
-- classifier, and reading the configuration. Calls that overlap in time are not modelled either.
pub mod Acl
pub mod Auth
pub mod Cache
pub mod Db
pub mod Duration
pub mod Generic
pub mod Heartbeat
pub mod Prelude
pub mod Presence
pub mod Publisher
pub mod Redis
pub mod Request
pub mod Storage
pub mod Tests
