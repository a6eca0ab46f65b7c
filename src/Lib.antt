-- ===== src/Lib.antt =====
-- The core logic of the go-mutuals backend: the pagination of the public API (how a list of edges is cut
-- into a page, and how the position of a client is packed into a cursor string and read back), the
-- batcher that gathers concurrent requests, the loop that retries calls, the addresses of wallets, the
-- ids and keys of tokens, the way from an event to the notifications of an owner, and the sessions and
-- logins of users.
--
-- Parts, and the files that model them:
--
--   publicapi/pagination.go
--     Paging.antt         packNode, applyCursors, pageEdgesFrom, pageInfoFrom, pageFrom and
--                         keysetPaginator.paginate
--     Paging/Limits       validatePaginationParams, with ValidateFields and
--                         ConnectionPaginationParamsValidator of validate/validate.go
--     Paging/Window       what applyCursors keeps
--     Paging/Keyset       one page of a paginator, forward and backward
--     Paging/Returns      pages of valid limits do not panic
--     Paging/Walk         a client that follows the end cursors
--     Cursor/Encoder.antt cursorEncoder and cursorDecoder
--     Cursor/Pack.antt    baseCursor: packVal, packSlice, unpackVal, unpackSliceTo, Pack and Unpack
--     Cursor/Pack/...     what Pack writes and what Unpack reads of it
--     Cursor/Kinds.antt   timeIDCursor, boolBoolIntIDCursor, boolTimeIDCursor, stringIDCursor,
--                         intTimeIDCursor, positionCursor, boolIDFloatIDCursor and their constructors
--     Paginators/Bounds   the default values, and the two cursors of a request
--     Paginators/TimeId, Paginators/Compound
--                         the paginators of each kind of cursor, and the parameters of their queries
--     Paginators/Queries  the parameters that reach a query
--
--   util/batch/batch.go
--     Batching.antt       Batcher and batch: addParamToBatch, closeAfterTimeout and submitBatch as the
--                         atomic steps of goroutines, and the thunk of DoThunk
--     Batching/Params     indexOf and publishToSubscribers
--     Batching/Invariant, Batching/Steps
--                         what holds of the batches, and each step
--     Batching/Answers    all the steps in any order, and what callers get
--   service/persist/wallet.go, and the chains of service/persist/token.go
--     Wallets.antt        ChainAddress, L1ChainAddress and ChainPubKey: their constructors, setters,
--                         updateCasing and conversions; L1Chains and Chain.L1Chain
--     Wallets/Formats     MarshalJSON, UnmarshalJSON, MarshalGQL, UnmarshalGQL, NormalizeAddress, and
--                         ChainValidator and ChainAddressValidator of validate/validate.go
--     Wallets/Setting     values set in parts, made at once, or converted
--     Wallets/Chains      the chains that addresses are made for, and what the formats keep
--   util/retry/retry.go
--     Retry.antt          WaitTime and RetryFunc
--     Retry/Waits         the tries and the waits of RetryFunc
--   util/helpers.go
--     Slices.antt         Contains, Map, Filter, Dedupe, Difference, GroupBy, Chunk and others
--     Slices/Compact, Slices/Unique, Slices/Chunks
--                         filtering in place; what is kept; pieces of a slice
--   service/persist/token.go and util/numbers.go
--     Numerals.antt       numbers as text, to the bases 10 and 16
--     Tokens.antt         HexString, HexTokenID, DecimalTokenID and TokenChainAddress
--     Tokens/Hex, Tokens/Ids, Tokens/Keys
--                         quantities, ids in GraphQL, and keys
--   service/notifications/notifications.go
--     Notifications/Data  NotificationData of service/persist/notification.go
--     Notifications/Store the table, and the statements of db/queries/core/query.sql
--     Notifications/Push  sendPushNotifications and createPushMessage
--     Notifications/Handlers
--                         the dispatcher and the handlers
--     Notifications/Counts, Rows, Tables, Bounds, Viewers, Recorded
--                         who is among the viewers of a week's notifications
--     Notifications/Amounts, Weeks
--                         the amount of a notification; beginningOfWeek
--   event/event.go
--     Events.antt         eventSender, eventDispatcher, dispatchDelayed, and EventRepository.Add of
--                         service/persist/postgres/event.go
--     Events/Handling     notificationHandler and AddTo
--     Events/Weeks        events down to the table of notifications
--   service/throttle/throttle.go
--     Throttle.antt       Locker, over the Cache of service/redis/redis.go
--     Throttle/Exclusion  whom a lock keeps out
--   service/auth
--     Auth.antt           failures, settings, and what is read of users and wallets
--     Auth/Context, Auth/Cookies
--                         the state of a session in gin's context, with getAuthenticatedUserID of
--                         publicapi/publicapi.go; the cookies
--     Auth/Claims         the tokens of service/auth/jwt.go
--     Auth/Tables         nonces, sessions and roles: db/queries/core/nonce.sql and query.sql
--     Auth/Refresh        ForceAuthTokenRefresh, over SetTime and GetTime of service/redis/redis.go
--     Auth/Issuing        issueSessionTokens and setSessionStateForCtx
--     Auth/Sessions       StartSession, ContinueSession and EndSession, and ContinueSession of
--                         middleware/middleware.go
--     Auth/Signatures     VerifySignature of service/multichain/multichain.go and service/eth/eth.go
--     Auth/Directory      the users and wallets that a login looks up
--     Auth/NonceLogin     NonceAuthenticator and GenerateAuthNonce
--     Auth/Login          the other authenticators, Login and Logout
--     Auth/Returns, States
--                         calls that do not panic; what a call leaves in the context
--     Auth/Ended, Forced, Refused, Logout
--                         sessions that were ended; which tokens must be refreshed; tokens that are
--                         refused; after a logout
--     Auth/Resume         a session that goes on
--     Auth/Spent, Once, Nonces, LoginTokens
--                         nonces that were consumed, or given out; one-time tokens
--     Auth/Bypass, LogsIn chains without a verifier; whom Login logs in
--
--   Go's standard library, as far as the code above uses it
--     Cursor/Bytes.antt, Cursor/Base64.antt, Cursor/Varint.antt, Cursor/Times.antt
--                         byte strings and errors, encoding/base64 (StdEncoding), the varints of
--                         encoding/binary, and MarshalBinary and UnmarshalBinary of time.Time
--
-- A paginator calls its query function with the parameters that it makes of the cursor strings, cuts
-- the rows that come back with applyCursors and pageEdgesFrom, and packs the cursors of the page's two
-- ends. The query functions, the count functions and the functions that give a node's cursor are
-- parameters, which may fail; their errors are a type E, or the errors of the cursors.
--
-- A call gives Outcome E A: a value, an error, or a panic of the Go runtime (a slice bound out of
-- range, a nil pointer, make with a length that is negative or too large, "don't know how to unpack").
-- The cursor structs are records; a pointer to a field is a way to read and a way to write the field.
-- Bytes are naturals, with IsByte where it matters; an int is an integer of the mathematics, int32(x)
-- is written out, and 64-bit words are bounded by hypotheses (IsInt64). A float64 is its bit pattern.
-- make is taken to panic above 2^48 bytes, which is what Go does on 64-bit machines.
--
-- Fuel: Cursor.Varint.put_loop has one step for each byte, and ten hold every
-- number of 64 bits; the client of Paging.Walk has one step for each page.
--
-- Not modelled: generated code, the GraphQL resolvers, the repositories over Postgres, emails, servers and
-- command line tools, which are glue and I/O; announcements and the subscribers of notifications; rate
-- limits, users and splits, and the debug authenticator.
--
-- A goroutine of the batcher is a Thread, which says where it stands; run is its next atomic step, play
-- a sequence of moves in any order. A locked region is one step, since nothing else touches the batch
-- while it lasts; the batch function and close(done) are one step as well. Ids and the count of callers
-- are 32-bit words. The result cache, Prime and keys by JSON are not modelled.
--
-- Addresses are taken to be ASCII: to_lower maps A to Z and leaves all else. A value of type any is Any,
-- and through_json is what becomes of one that encoding/json writes and reads again.
--
-- A retried function is its answers by the number of the try, and the random numbers are given so too;
-- times are whole seconds, and sleeping is a list of waits.
--
-- The table of notifications is a list of rows, and a statement a function on it; ids are its keys. A
-- handler takes the time, the id that it will generate and which calls of other services fail as an Env,
-- and gives back the World with its result, on an error too. The handlers of one owner and action run one
-- at a time, which the lock of the dispatcher is for; the dispatcher goes on without the lock where it
-- cannot have it. The World also lists what is published and what is pushed to phones. Of an event, its
-- data and its times are left out.
--
-- The Redis client is a parameter, Throttle.Client, with what Redis documents as Throttle.ClientLaws.
--
-- A request of the authentication is a Call: what it brings, its time, which is one time throughout, the
-- ids that it will generate, and which statements fail. The AuthWorld is the context, the cookies that
-- were set, the table of sessions and the cache. The context of gin, the signing of tokens, the check of a
-- signature and the calls of Redis are parameters, with what is documented of them as GinLaws, SignerLaws,
-- ScriptLaws and NxLaws. Times to live are not negative. The errors of the four tries of GenerateAuthNonce
-- are one, and what Authenticate returns beside an error, which Login does not read, is left out.
--
-- chunk_loop has one step more than the slice has items; write_digits has one more than the number.
pub mod Prelude
pub mod Cursor
pub mod Paging
pub mod Paginators
pub mod Batching
pub mod Wallets
pub mod Retry
pub mod Slices
pub mod Numerals
pub mod Tokens
pub mod Notifications
pub mod Events
pub mod Throttle
pub mod Auth
mod Tests
