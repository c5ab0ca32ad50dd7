-- ===== src/Lib.antt =====
-- Verification library for the euphoria API: a backend that keeps its durable work in PostgreSQL
-- tables, which several workers and requests use at once.
--
-- The parts, and the files that model them:
--
-- * Delivery jobs (src/services/delivery-job-service.ts, with the three job tables of
--   src/db/durable-schema.ts) are a queue. A worker claims jobs under a lease with a random
--   fencing token, and each claim opens an attempt row. The worker then completes the job, asks for
--   a retry, or dead-letters it, before the lease runs out; if it does not, another worker may
--   claim the job, or the job is dead-lettered when its attempts are used up. Jobs/Schema holds the
--   rows; Jobs/Enqueue models enqueueDeliveryJob, Jobs/Claim claimDeliveryJobs with
--   deadLetterExpiredFinalAttemptLeasesInTransaction, Jobs/Finish completeDeliveryJob,
--   retryDeliveryJob and deadLetterDeliveryJob, and Jobs/Maintenance manuallyRequeueDeliveryJob,
--   listDeliveryJobDeadLetters and cleanupTerminalDeliveryJobs. Jobs/Checks has the check
--   constraints, Jobs/Sound the invariant of the tables, and Jobs/Leases, Jobs/Transitions,
--   Jobs/Claims, Jobs/Upkeep and Jobs/Lifecycle what the operations do to it.
-- * Command idempotency (src/services/command-idempotency-service.ts) runs a command once for each
--   key of an actor and replays its stored outcome. Commands/Json models canonicalizeJsonValue,
--   Commands/Run createCommandRequestFingerprint and runIdempotentCommand, and Commands/Cleanup the
--   cleanup and the diagnostics; Commands/Settled, Replay, Once, Retention and Canonical hold what
--   is proved.
-- * Durable events (src/services/durable-event-service.ts, with the triggers
--   durable_event_insert_guard and durable_event_after_delete of the migration
--   drizzle/20260723170425_f3_durable_substrate/migration.sql) are numbered within their scope. A
--   scope keeps a high-water mark and a retention floor, and a client resumes from a checkpoint.
--   Events/Schema holds the rows, Events/Append models assertScope, assertEventInput,
--   ensureDurableEventScopeInTransaction, appendDurableEvents and validateDurableEventCheckpoint,
--   Events/Prune pruneExpiredDurableEvents; Events/Contiguous has the invariant, and
--   Events/Appending, Events/Pruning and Events/Lifecycle what the operations do to it.
--   Events/Authorize has authorizeDurableEventScope and getAuthorizedDurableEventScopeMetadata; it
--   keeps of the profile, membership and conversation tables the columns that they join.
-- * Notification sockets (src/services/notification-sockets.ts) are kept for each user in maps, which
--   Maps models as lists of entries. Sockets/Notification has add, remove and sendToUser of
--   NotificationSocketHub; Sockets/Delivery and Sockets/Lifecycle what they do. Whether the `send` of
--   a socket throws is an argument, and `send` does not call the hub again.
-- * Chat sockets (src/services/chat-sockets.ts) are kept by id and by profile, with their
--   subscriptions to conversations kept from both sides. Maps/Nested models the maps of maps,
--   Sockets/Chat every method of ChatSocketHub; Sockets/ChatState has the sessions that the maps stand
--   for, and its children what the methods do to them. As with the notification sockets, whether a
--   `send` throws is an argument.
-- * Profile membership (src/services/profile-membership-service.ts, with the triggers of
--   drizzle/20260723162013_f2_profile_ownership_invariant/migration.sql) gives users their one active
--   profile and profiles their owners. Membership/Schema has the rows, Membership/Failures
--   getConstraintName and profileInvariantFailureForDatabaseError, Membership/Triggers
--   profile_membership_before_write and profile_membership_after_write, which run at the statement and
--   at the commit, and Membership/Service createProfileForUser, addProfileMember, removeProfileMember
--   and setProfileMemberRole. Membership/Guarded, Kept, Changes, Creating and Lifecycle are about what
--   they keep.
--   The error that reaches the service when the database names a constraint is an argument.
-- * Cursors (src/lib/cursor.ts) are the signed positions in paged lists. Cursor/Base64 has the
--   base64url code of Buffer, Cursor/Payload models CursorSortTupleByResource, canonicalize,
--   parseSortTuple and the checks of parsePayload, Cursor/Codec normalizeSigningSecrets,
--   loadDefaultSigningSecrets and encode and decode of createCursorCodec, and Cursor/Parse the
--   JSON.parse that they call; Cursor/Reading, RoundTrip, Refusals, Printed and Complete are about what
--   is decoded. HMAC-SHA-256, UTF-8 and the value that a number literal denotes are arguments. A number
--   in JSON stands by its text, and a distance of minus zero, which is printed as zero, is not read
--   back as it was. JSON.parse makes at most two calls for each unit, which is the bound it has.
-- * Push tokens (src/services/push-token-registration.ts, and their table in
--   src/db/notification-schema.ts) are the devices that a user registers for push notifications.
--   Push/Tokens models normalizePushTokenRegistration, registerPushTokenWithRepository with the
--   repository, and listPushTokens and disablePushToken of src/services/notification-service.ts;
--   Push/Normalizing and Push/Registering are about registering.
-- * Sql is what the services use of drizzle-orm and PostgreSQL: a table is a list of rows, a `where`
--   clause a Boolean test, and a statement a function on lists. Sql/Keys is about primary keys.
--   Validate has the argument checks that the services repeat, and Base the shared helpers.
--
-- How the code is read:
--
-- * A transaction is a function from the tables to a result and the tables after it. One that throws
--   returns a fault and no tables, since it is rolled back. Transactions run one after another; what
--   runs beside one shows in the rows that others have locked, which `skipLocked` passes over: these
--   are the argument `locked`.
-- * clock_timestamp() has one reading for each statement, which the operation takes as an argument,
--   and two readings of one operation need not agree. A moment is a number of microseconds.
--   now() is the start of the transaction, an argument too.
-- * Random UUIDs are numbers drawn from an argument; where a statement needs it, it says that they
--   were not in use (FreshTokens). The unique index on the lease tokens of the jobs is not tested
--   apart: the primary key of the attempts excludes the same rows.
-- * A number argument may be negative or no safe integer, as at run time. `integer` columns refuse
--   numbers above 2 ^ 31 - 1, and that is a fault of the model as well; the columns that count (the
--   attempts of a job) stay below their maximum.
-- * Sequences are numbers up to 2 ^ 63 - 1, which raising a high-water mark refuses to pass. The
--   trigger durable_event_after_delete throws when a pruning would leave a gap.
-- * The payloads of jobs and events are kept as text, and an SQL check constraint is read
--   strictly: a comparison with NULL does not pass. The invariant on job kinds asks that they are
--   not blank for String.trim, which implies the constraint on btrim.
-- * SHA-256 is an argument, and so are the command that runIdempotentCommand executes and its
--   callback; they may change every table but command_idempotency. The recursion of the JSON
--   printer is on the value; a decimal of a safe integer has at most 16 digits, which is the bound
--   its loop has.
--
-- Not modelled: the chat and feed services, the rest of the notification service, the push
-- providers and the routes. The routes are glue, and the providers mostly I/O; the others have
-- logic of their own that no file is about yet.
pub mod Base
pub mod Sql
pub mod Validate
pub mod Commands
pub mod Cursor
pub mod Events
pub mod Jobs
pub mod Maps
pub mod Membership
pub mod Push
pub mod Sockets
