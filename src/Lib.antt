-- ===== src/Lib.antt =====
-- A model of TknGate, the Go sidecar that meters and routes the LLM requests of an agent, with
-- the theorems that make its core correct. Paths below are those of the repository.
--
-- The parts and how they interact. The director (internal/proxy/director.go) finds the provider
-- of a request and its backend. The middleware (internal/proxy/middleware.go) admits the request
-- by its virtual key or session, asks the rate limiter (internal/limiter/limiter.go), screens
-- the body with the firewall (internal/waf/scanner.go), lowers the model in the amber zone,
-- looks into the cache, and sends the request with retries and a failover; of the response it
-- counts the tokens and their price (internal/tokenizer/counter.go). To be admitted a request
-- passes the guard (internal/budget/guard.go), which reads the ledger
-- (internal/budget/ledger.go); the pool (internal/pool/drr.go) picks a donated key by the
-- requester's trust (internal/mesh/reputation.go) and takes the estimated tokens from the key's
-- quota in the ledger; after the response the ledger records the cost, and the requester's trust
-- changes. The nodes of the mesh tell each other of changes of trust (internal/p2p/gossip.go). A
-- response may be served from the cache (internal/cache/semantic.go) instead. A streamed
-- response (internal/proxy/streaming.go) asks the guard at every chunk and ends when the budget
-- is spent.
--
-- Files. Base and its children hold the shared names, Go's `int`, `string` and `map`. Float64 is
-- Go's float64 as an interface, with a fixed-point instance in Float64/Scaled. Sql is the SQL
-- that the packages send. Budget/Models, Budget/Ledger (with its Accounts and Reports) and
-- Budget/Guard model internal/budget; Mesh/Reputation models internal/mesh (reputation.go,
-- fraud.go), and Mesh/Moderation its moderation.go; Pool/Drr and Pool/Drr/Proofs model
-- internal/pool/drr.go; P2p/Gossip models internal/p2p/gossip.go; Cache/Semantic models
-- internal/cache/semantic.go; Proxy/Streaming and Proxy/Streaming/Budgets model
-- internal/proxy/streaming.go; Proxy/Director models internal/proxy/director.go;
-- Proxy/Admission, Proxy/Capture, Proxy/Payload, Proxy/Retry and Proxy/Account, over Proxy/Json,
-- are the parts of internal/proxy/middleware.go, and Proxy/RoundTrip puts them together; Waf
-- models internal/waf/scanner.go; Tokenizer models internal/tokenizer/counter.go; Limiter models
-- internal/limiter/limiter.go; Cluster/Leader models internal/cluster/leader.go; Proxy/Cloud
-- models internal/cloud/client.go; Proxy/Keys models the draw of a key in internal/auth/keys.go,
-- and Proxy/Shadow the copy of a request that middleware.go sends to a second provider. A Go
-- method of a struct is a function from the struct's record to the new record, with the name in
-- snake case (`RecordTransaction` is `record_transaction`); the modules below each file prove
-- its properties, and Tests runs the code and applies the theorems to data.
--
-- Conventions. A method that holds its lock throughout is one step. The clock is an argument
-- `now`, in seconds. A Boolean argument `run` says whether the SQL driver executes a statement;
-- a failed statement changes nothing. What SUM rounds to is not assumed. Redis holds numbers
-- under keys. httputil.ReverseProxy between the director and the middleware is a function on the
-- headers in Proxy/Director/Provider. Loops over slices and maps are structural recursions on
-- the list, so no fuel is needed; the loop of GetNextKey counts its rounds, which are as many as
-- the pool has nodes, and the theorems show that these are enough. The retry loop of the
-- middleware counts its four rounds, and a theorem shows that it ends within them.
-- A `string` is its list of bytes. An `int` is an integer that does not wrap, but for the age of
-- an update of the mesh, an int64 that does. float64 is any type with the laws of Float64, so no
-- theorem rests on exact arithmetic; NaN does not arise.
--
-- Parameters. decrypt stands for crypto.Decrypt, verify for the Groth16 verifier, Network for
-- libp2p and the signatures, Codec for encoding/json and SHA-256. In the middleware, JsonCodec
-- stands for encoding/json, Verifier for the hashes of keys and the cloud, Network for the peers
-- and the providers (Proxy/RoundTrip gives it the keys of Pool/Drr and the counts of Tokenizer),
-- CloudNetwork for the control plane, KeySource for random bytes and bcrypt, Engine and Unicode
-- for regexp and the tables of Unicode, Usage for the provider's own count of tokens, compress
-- for internal/compressor, and Rate for the bucket of golang.org/x/time/rate.
--
-- Not modelled: logging and metrics, HTTP and terminal plumbing, and the packages listed in the
-- components as such.
pub mod Base
pub mod Float64
pub mod Sql
pub mod Budget
pub mod Mesh
pub mod Pool
pub mod P2p
pub mod Cache
pub mod Proxy
pub mod Cluster
pub mod Limiter
pub mod Tokenizer
pub mod Waf
pub mod Tests
