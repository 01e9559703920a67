-- ===== src/Lib.antt =====
-- HumanGuard: the bot detection behind a reverse proxy, its backend in Go (backend/).
--
-- A visitor's request is checked (`CheckRequest`): the site and the blacklist are looked up, the
-- visitor's session is found or made, and its risk score gives the action. The visitor's browser sends
-- behaviour metrics (`SubmitBehavior`), and each batch starts an analysis by the detector, which
-- stores a new risk score and, from 80 on, blocks the session and puts its address on the
-- blacklist. A sweep drops dead sessions. Users reach the management API through authentication by a
-- key or a token and through the CSRF middleware: they register, log in with a password and a one-time
-- code or through a provider, and manage users, sites, blacklists and keys. A login opens a session
-- that the middleware looks up again for each token.
--
-- Which file models what:
--   Session        backend/storage/session.go; the map of sessions is a dictionary, a list of
--                  pairs, and each method of MemorySessionStore is a function on it with its error
--   Settings       backend/storage/settings.go and the settings types of storage.go
--   Sites          backend/storage/site.go, settings.go and blacklist.go; the tables are lists of rows
--   Detector       backend/detector/detector.go; Scores and Deep are its scoring functions
--   Http           what the handlers read of requests and write of responses, and `getRealIP`
--   Visitor        backend/handlers/visitor_session.go, `CheckRequest`, its steps in order
--   Behavior       backend/handlers/behaviour.go; the analysis thread is a job, run as a step
--   Service        all of the above as one machine of events in any order
--   Reaction       backend/reaction/reaction.go, over a store that is a parameter
--   UserSessions   backend/auth/session_manager.go; Admin is backend/handlers/user_session.go
--   ApiKeys        backend/storage/api_keys.go
--   Auth           backend/auth/middleware.go and role.go
--   RateLimiter    backend/middleware/ratelimit.go, over buckets that are a parameter
--   Users          backend/storage/user.go; Links is the table that links users to providers
--   Totp, Jwt      backend/auth/auth.go: the one-time codes and the signed tokens
--   Accounts       backend/handlers/user.go, and backend/auth/oauth.go as far as it reads the answers of
--                  GitHub; Register, Login, Profile and Oauth hold the handlers by what they do
--   SiteApi        backend/handlers/site.go; Lists has the handlers of the blacklist
--   KeyApi         backend/handlers/api_keys.go
--   Files          backend/storage/file.go and share.go, and backend/handlers/file.go: Uploads has Upload,
--                  Access the other handlers; the object store is a parameter
--   Csrf           backend/middleware/csrf.go, with the exempt paths of backend/cmd/server/main.go
--   Errors, Value, Clock, World, Reply
--                  backend/storage/errors.go, decoded JSON, instants, the state that the handlers
--                  share with what a run takes from outside, and the answers of the management API
--   Base, Samples  shared helpers, and the data of the tests
--
-- Numbers are natural: risk scores and limits are never negative in this program, and the scores
-- stay far below 2 ^ 63. Instants and durations count nanoseconds. The durations that are
-- multiplied out of a number of days or minutes, in Reaction, SiteApi, KeyApi and Files, are
-- reduced modulo 2 ^ 64. The bytes of an upload are counted without a bound, since a body has at
-- most 5 GiB. Loops are recursions on the lists they run over, so no fuel is needed.
--
-- Parameters: the arithmetic of float64, the Unicode table of lower case beyond ASCII, decimal
-- printing, SHA-256, bcrypt, base32, HMAC-SHA-1, the signing of a token and its check, token
-- buckets, regular expressions, the parsing of URLs and of IPv4 addresses, the answers of an
-- identity provider, the object store, file name extensions and dates in paths, the identifiers
-- and tokens that are drawn, the clock, and which statements the database refuses. The order of
-- Go's map iteration is the order of the list.
--
-- A handler runs alone on the state: the interleavings that Service has are those of whole
-- requests, analyses and sweeps. The thread that feeds an upload to the object store runs to its
-- end before the upload goes on, since the store reads the pipe until it is closed. Log lines are
-- left out, except where one panics.
--
-- Not modelled: the WebSocket that sends the progress of an upload, CORS for the API, metrics and
-- the assembly in main, which are left for a later extension; the object stores; the set-up of the
-- OAuth clients and their requests over HTTP, which are calls of libraries; and everything that is
-- not Go.
pub mod Base
pub mod Samples
pub mod Errors
pub mod Value
pub mod Clock
pub mod Session
pub mod Reaction
pub mod Users
pub mod Totp
pub mod Reply
pub mod SiteApi
pub mod KeyApi
pub mod Accounts
pub mod Jwt
pub mod UserSessions
pub mod ApiKeys
pub mod Auth
pub mod Csrf
pub mod RateLimiter
pub mod Settings
pub mod Sites
pub mod World
pub mod Detector
pub mod Http
pub mod Visitor
pub mod Behavior
pub mod Service
pub mod Files
