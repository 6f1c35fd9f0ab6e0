-- ===== src/Lib.antt =====
-- identity-mservice: the identity service. It registers the users whom Clerk reports, trades Clerk
-- tokens for identity headers, serves and updates profiles, and completes a KYC check through a
-- Singpass login.
--
-- How the parts interact. A request reaches a handler of server/http/api behind a guard of
-- common/auth, or server/grpc; the handler calls a service of server/service; a service calls the
-- data access objects of server/repository/dao, Redis, the producers of server/kafka and the
-- Singpass proxy of server/proxy. A service call is an Action: a function of the World to a result
-- and the World that it left, so that what was written before an error stays written.
--
--   Base                  shared names; Go strings as lists of bytes (Base/Tests), package strings
--                         (Base/Text, Base/Split), maps (Base/Assoc), sets (Base/Members), strconv
--                         (Base/Decimal), Unix times (Base/Clock)
--   Model                 server/repository/model, the events, the sentinel errors, errors.Is
--   Backend               what is not the program's own: gorm, Redis, Kafka, the clock, the random
--                         source, environment and encoding/json, each a parameter
--   Action                the World and the monad of service calls
--   Mask                  server/util/mask.go
--   Dao                   server/repository/dao: Users (user_dao.go), Mappings
--                         (user_auth_mapping_dao.go), MappingCache (user_auth_mapping_cache.go)
--   Events                server/kafka: Topic (topic.go), Producer (producer/), Trace (trace/, and
--                         Publish with its span and its lines)
--   Proxy                 server/proxy: Oauth (the interface, BuildAuthorizeURL, RandomOAuthParam),
--                         Keys (singpass_signing.go), Exchange (newSingpassProxy, GetAccessToken,
--                         GetUserInfo), Userinfo (singpass_userinfo.go, resolveAssertionAud,
--                         resolveJWKSURI); a call is a Remote (Proxy/Remote), which reaches the
--                         network, the clock and the random source only
--   Profile               server/service/user_profile_service.go: Options (server/http/data/const.go),
--                         Update (buildProfileUpdate and its parts), Cache, Service; calls for one
--                         profile that overlap (Service/Interleaved)
--   Kyc                   Store (server/service/kyc_state_store.go), Email and Service
--                         (server/service/kyc_service.go), Prefix (trimStatePrefix); Trusted puts
--                         Proxy/Exchange behind it
--   Access                common/auth: Http (requests and responses), Roles and Internal
--                         (middleware.go), Guards
--   Auth                  server/auth: Jwks (jwks.go), Token (authenticator.go); Forward
--                         (server/http/api/auth_forward.go)
--   Api                   server/http/api: UserProfile, KycLogin, Common (auth_helpers.go), Respond
--                         (common.go); Login and Outage are about the routes
--   Registration          ClerkData (server/http/data/clerk_callback_data.go), Service
--                         (server/service/user_mapping_service.go), Webhook (clerk_callback.go)
--   Grpc                  server/grpc/grpc_service.go, Logging (init.go)
--   Setup                 Log (server/log/logger.go, common/auth/audit.go), Redis
--                         (server/repository/redis/init.go), Telemetry, Sampler and
--                         Providers (server/telemetry/init.go), Cors (router.go), Start
--                         (server/main.go, config.Init, repository.Init, the start of the two
--                         servers)
--   Router                server/http/router/router.go; Observed (the three middlewares of
--                         server/log/logger.go around a route that answers or panics)
--   Server                one request from the router through its handler to the answer, on the
--                         World; Quiet, Writes, Authorized and Refused are about all routes, and
--                         Unique, Rows, Market and Status about sequences of requests
--   Tests                 outside systems in memory, and runs of the program on them
--
-- Bounds and fuel. A string is the list of its bytes, an int64 an integer, a time.Time a number of
-- nanoseconds since the zero time. The decimal print of n runs on fuel n + 1, more than its digits;
-- every other loop is structural. The exponent of an RSA key wraps at 64 bits; seconds that
-- time.Unix cannot represent, and a clock before 1970 or past 2262 where a name is made of it, are
-- left out.
-- The lock of the session store makes its calls a sequence, and a call is atomic, but for the
-- lookups and updates of one profile in Profile/Service/Interleaved, where the reads and the writes
-- of several calls follow each other in any order.
--
-- Not modelled: the lines of the log that a service or a handler writes on its way, the JSON encoder
-- of zap and the options of the gRPC server; OpenTelemetry, which Setup/Providers only asks for its
-- parts; package cors, which is a parameter and gets the configuration of Setup/Cors; connections
-- and files, which Setup/Start only asks for; generated code and mocks; contexts with their
-- deadlines, the closing of response bodies, and the nil configuration on which the proxy would
-- panic. A handler of Server does not panic: what a panic does is in Router/Observed, for one before
-- anything is written; a panic after that is left out. A cache's time to live is handed to Redis,
-- and Redis decides when a key is gone.
pub mod Base
pub mod Model
pub mod Backend
pub mod Action
pub mod Mask
pub mod Dao
pub mod Events
pub mod Proxy
pub mod Profile
pub mod Kyc
pub mod Access
pub mod Auth
pub mod Api
pub mod Registration
pub mod Grpc
pub mod Setup
pub mod Router
pub mod Server
pub mod Tests
