-- ===== src/Lib.antt =====
-- A verification library for github.com/ixugo/goddd, a Go library and service template.
--
-- The program: generic containers (pkg/queue, pkg/conc), the error value of every handler
-- (pkg/reason), helpers for HTTP handlers (pkg/web), small helpers (pkg/hook), and the domains that
-- are built of them: domain/version decides whether tables are migrated when the program starts,
-- domain/uniqueid makes the keys of new rows, and domain/token keeps the sessions. TTLMap is two of
-- the generic maps of pkg/conc, TTLCache is a TTLMap, and domain/token reads through a TTLCache.
--
-- The files, and the code that each models:
--   Common         names shared by all: lists and tests on native numbers, Go's int as an integer with
--                  the 64-bit wrap-around, maps as association lists, text as lists of bytes
--   Queue          pkg/queue/cir_queue.go: CirQueue.Push is push, Range is range, NewCirQueue is new
--   Conc/SyncMap   pkg/conc/sync_map.go: each method of Map is a function of the same name
--   Conc/TtlMap    pkg/conc/ttl_map.go: the methods of TTLMap, with the clock's reading as an argument;
--                  a round of tickerCleanup is tick, of fixedTimeCleanup fixed_time_round
--   Conc/Group     pkg/conc/conc.go: the tasks of G and its waiter as actions; Timer is timer
--   Conc/TtlMap/Race   the same cleaner beside a Store, one operation of sync.Map a step
--   Conc/Cacher    the interface Cacher of pkg/conc/ttl_cache.go, as operations and laws
--   Conc/TtlCache  TTLCache of the same file, which fills the interface
--   Token          domain/token: the record Token and the interface TokenStorer as a record with laws
--   Token/Cached   domain/token/store/tokencache: the storage with a cache before it
--   Token/Sessions domain/token/bz.go: Valid, DelayToken and the deletions
--   Token/Db       domain/token/store/tokendb, and the calls of domain/token/token.go on it
--   Token/OneRow   a storage that keeps the laws, for the tests
--   Hook/Array     pkg/hook/array.go;  Hook/Caching, Hook/Expiring  pkg/hook/cache.go;
--                  Hook/Timer  pkg/hook/timer.go
--   Reason         pkg/reason/model.go and err.go
--   Web/Response   pkg/web/response.go: the answers of Fail, AbortWithStatusJSON and Success, and what
--                  HandlerResponseMsg, HanddleJSONErr and CustomMethods give; WrapH is Web/Response/Wrap
--   Web/Auth       pkg/web/jwt.go: the claims and options of NewToken, ParseToken, AuthMiddleware,
--                  AuthLevel and the getters of a request
--   Web/Sse        pkg/web/sse.go: the goroutines around SSE as actions, one function each; its child
--                  Chunks has SendChunk, SendChunkPro and SendSSE
--   Orm/Map        pkg/orm/map.go: Map and StructMap;  Orm/Time  pkg/orm/time.go, whose laws on package
--                  time and strconv are in Orm/Time/DateTime
--   Orm/Gorm       what pkg/orm calls of gorm, as operations and laws; Orm/OneRow  a table that keeps
--                  them, for the tests;  Orm/Update  pkg/orm/update.go, and Session of the storages
--   Orm/Logger     pkg/orm/log.go;  Logs  pkg/logger/config.go and the setup in logger.go
--   System/Backup  pkg/system/bakup.go, whose goroutine and callers are actions
--   System/Dir     pkg/system/dir.go: GetDirSize, GlobFiles and CleanOldFiles;  System/EmptyDirs  its
--                  RemoveEmptyDirs; Empty and its children follow its counts
--   Web/EntityTag  EtagHandler and CacheControlMaxAge of pkg/web/cache.go
--   Web/Logging    BufferWriter and the ignore options of pkg/web/log.go; its child Handlers has Logger,
--                  LoggerWithBody and LoggerWithUseTime
--   Web/Validator  pkg/web/vaild.go
--   Conf/Watcher   internal/conf/watcher.go: WatchConfig is watch_config, a turn of its loop watch_round
--   Web/Limiter/Buckets   IDRateLimiter and IPRateLimiterForGin of pkg/web/limiter.go
--   Web/Limiter    the gates of pkg/web/limiter.go, RateLimiter and LimitContentLength
--   Web/Address    GetHost, GetScheme and GetBaseURL of pkg/web/web.go
--   Web/Pager      the pages, the sort keys and the dates of pkg/web/web.go
--   Version        domain/version/core.go and the comparison of pkg/system/ver.go
--   UniqueId       domain/uniqueid/bz.go and core.go
--
-- How the code is read. Stateful methods take the state and return the next one; a panic or an error
-- is none. The standard library's sync.Map is an association list, and each of its calls is atomic.
-- Go's any holds a value or nil, which the record Boxing states for a type. Numbers of the machine
-- wrap where the code computes with them: modulo 2 ^ 8 in the queue, at 64 bits in the pages. The
-- random numbers of crypto/rand are any sequence, and the database of domain/uniqueid is the record
-- Storer, whose laws say that a call that fails changes nothing and that only a new key is created.
-- The table of domain/token is the record TokenStorer, seen as the row under each hash: its laws say
-- which rows a call changes, for new hashes and for changes that keep the hash. crypto/sha256 is any
-- function, and the conversions of reflect and encoding/json are any functions. Of golang-jwt the
-- record Jwt says that what is signed is read back under the same secret, and how it judges times; of
-- gin the model has the values of a request and the answers. The events of pkg/web/sse.go are a list
-- of actions in any order: one that has to wait for the mutex, for room or for an event leaves the
-- state as it is, so every order of the goroutines is a run, and the theorems hold for all runs. A
-- publisher that waits for room keeps the mutex, as the code does. Texts are lists of bytes.
-- Loops run as often as the source says: 36 attempts in each of 10 rounds for an id, one round a
-- stored entry in the queue. The loop of Reverse has the length of the slice as its fuel: each round
-- brings its two indices closer by two.
--
-- Of gorm the record Gorm says that a statement that fails changes nothing, and that a transaction
-- either does what its function did, which returned no error, or nothing. A model is passed by a
-- pointer there, and is returned here as it is afterwards. The tasks of a G, and the calls around a
-- FileBackup, are lists of actions like the events of pkg/web/sse.go. A handler behind the middleware
-- of pkg/web/log.go is a function on a state of its own, which writes its answer with Write.
--
-- Left out of what is modelled: a handler behind WrapH has its input and no context of gin, and the tests
-- of AuthMiddleware on a request do not change it; a bucket of the rate limiter answers by itself, not
-- by the clock; a path is removed once in CleanOldFiles; lengths given to crypto/rand are not negative;
-- the nil receiver of SendChunkPro, the text null for a Map and a nil in a TTLCache do not occur.
--
-- Not modelled: the transport of HTTP and the routes (gin), the mapping to tables and its SQL (gorm, the
-- options of pkg/orm/db.go), the encoders and writers of logs (zap), processes, addresses
-- and the server (pkg/system, pkg/cmd, pkg/server), the reading of the configuration and the wiring
-- under internal: they call libraries, or are planned.
pub mod Common
pub mod Conc
pub mod Conf
pub mod Hook
pub mod Logs
pub mod Orm
pub mod Queue
pub mod Reason
pub mod System
pub mod Token
pub mod UniqueId
pub mod Version
pub mod Web
