-- ===== src/Lib.antt =====
-- A verification library for apipro: the parts of the program that decide something by themselves,
-- each as a module of its own. Paths are from the root of the repository.
--
-- The parts and their files:
--   Codec: pkg/codec/codec.go. PKCS7 padding, AES-128 in ECB mode and the frame of two magic bytes
--     and a length. `encode_frame` is EncodeFrame, `decode_frame` DecodeFrame, and so on by name.
--     Codec.Transport is the middleware of pkg/codec/middleware.go, Codec.Exchange what its clients get.
--   Semaphore: common/db/semaphore.go. The gate above the database pool. Acquire is cut into the
--     moments that another goroutine can see (`enter`, `take_token`, `count_acquired`, `give_up`, `leave`),
--     of which TryAcquire has two, and Semaphore.Interleaving runs the moments of many calls in any order.
--   Degrade: common/degrade/degrade.go. The mode of the service, who may change it, and the
--     watchers' channels. Degrade.Race cuts a change into the store and the sends that follow it.
--   RateLimit: common/ratelimit/multi.go, with RateLimit.Limiter and RateLimit.ClientIp for
--     common/ratelimit/ratelimit.go.
--   Session: common/auth/session.go. The opaque tokens and their rotation.
--   Password: common/auth/pwd.go, on the hexadecimal text of Session.Hex.
--   Chat: pkg/wschat/hub.go and util.go. The two sides of room membership, of which each call is one
--     step under the hub's lock; Chat.Rate for the send rate and Chat.Frame for the socket's frames,
--     which are encrypted by Codec. Chat.Server has the hub with its clients and their channels,
--     Chat.Content sanitize and the block words, Chat.History what Redis and the table keep,
--     Chat.Wire the opcodes and bodies, Chat.Steps the chain of a handler's steps. The handlers stand in
--     Chat.Binding (login, resume, logout), Chat.Entering (enter, leave), Chat.Speaking and Chat.Comments
--     (comment, like); Chat.Dispatch is dispatch, and Chat.Serve has the frames, the two pumps and a run
--     over events. For proofs: Chat.Rules, Chat.Sound, Chat.Guarding, Chat.Routing and Chat.Safety for the
--     invariant, Chat.Endings and Chat.Refusals for comments, Chat.Replay for the history, Chat.Escaping
--     for sanitize, Chat.Slow for clients that do not read.
--   Sms: cmd/rpc/internal/svc/sms_store.go. The one-time codes.
--   Models: common/model/user_model.go. The user table over the statements of the driver;
--     Models.Search for the search in error texts.
--   Cache: common/cache/manager.go, with the key and the counters of cache.go. Cache.Reads for what a read
--     answers, Cache.Lifetimes for the time to live in process.
--   Catalog: cmd/rpc/internal/svc/builders.go, the builders of matches, with the row and the times of
--     common/model/match_model.go; Catalog.Grouping describes them match by match. Catalog.Shapes and
--     Catalog.Rooms have the builders of rooms, live types and gift ranks, Catalog.Groups the page of all
--     rooms. Catalog.Merged is BuildMatchCatalog, in any order of Go's maps, Catalog.Merging its proofs.
--   Rpc: cmd/rpc/internal/logic/call.go, with BuildUserInfo of cmd/rpc/internal/svc/builders.go and
--     AllocUID of serviceContext.go. Rpc.Wire has the requests and replies, Rpc.Node what a call works on
--     and the chain of its steps, Rpc.Auth the login, Rpc.Register the registration, Rpc.Account guests,
--     refresh, logout and details, Rpc.Codes the SMS codes, Rpc.Phone the numbers, Rpc.Call the dispatch.
--     Rpc.Pages has the pages and the loaders behind them, Rpc.Show the handlers that show them through the
--     cache manager, Rpc.Shut what they do where their level is not served. Rpc.Whole is Call, on a node with the
--     state of the cache manager, and Rpc.Served what every call keeps; Rpc.Closed has what closes registration.
--     Rpc.Keeps and Rpc.Paths carry the proofs: what a chain of steps keeps, and what it has passed.
--   Api: cmd/api/internal/handler/encrypted.go, with the routes that are encrypted; Api.Kaptcha has the picture with
--     a code. Api.Lost shows what becomes of the session id of an envelope.
--   Fallback: common/cache/fallback.go. The manager of the chain of fallback sources, for any sources.
--   Redis: the client of go-zero that limiters, sessions and codes call, as a record of commands
--     and of the laws relied on. Redis.Memory is one that meets them.
--   Base: lists, texts, Booleans, signed numbers and results over the native naturals.
--
-- How they meet: the handlers put the rate limiters in front of a call, the call reads and writes
-- sessions, both keep what they know in Redis, and every query goes through the semaphore. The
-- degrade manager is asked before a call is served. A call of Rpc is a chain of steps on a node: the
-- environment behind Redis and the driver, the degrade manager and the semaphore. A step goes on with a
-- value or ends the call with its reply; a call that finds no token stays parked. Session.Refresh calls
-- back into the node for the status of a user, so that it runs in the world whose state is the node.
--
-- Parameters, for code that is not in the repository: AES (a permutation of blocks of 16 bytes for a
-- key), MD5 and base64, trimming, lower case and the other helpers on strings, the SQL driver, sorting and the
-- reading of dates, the in-process cache, the circuit breaker and the merging
-- of calls in flight, the order of Go's maps, the queries behind the pages, Redis with its lists and sets, the
-- clock, the random source and the JSON codecs. Where a theorem relies on one, what it relies on is a named law, and an instance that meets
-- the laws stands in the library. A Redis command may fail at any time; the laws speak of a command's
-- own key only where it reports success. A time to live is not counted down: no theorem is about a
-- key that has expired. The clock is read from the state that Redis is in.
--
-- Bounds: int64 counters of the semaphore wrap at 2 ^ 64 and the length field of a frame at 2 ^ 32.
-- Session and limiter times are natural numbers, since they follow 1970; the clock is taken to be
-- past the first minute, below which Go's cut of the window is negative and here 0. The rules of
-- one request are a list, and every loop goes down a list or a text, so that no fuel is needed.
--
-- Not modelled: the legacy cache and the fallback sources themselves (common/cache), InvalidateFamily and
-- the self-test of the cache manager; the upgrade and the deadlines of the chat's sockets;
-- the JSONP endpoints of cmd/api; the statements of the other tables
-- of common/model, metrics and start-up, which are input and output. Log lines are only counted, where a failed command
-- leaves no other trace. The RPC handlers are modelled with Redis connected, as login needs it.
pub mod Api
pub mod Base
pub mod Degrade
pub mod Rpc
pub mod Semaphore
pub mod Chat
pub mod Codec
pub mod Fallback
pub mod Models
pub mod Catalog
pub mod Cache
pub mod Password
pub mod Redis
pub mod RateLimit
pub mod Session
pub mod Sms
