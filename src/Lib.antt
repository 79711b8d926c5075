-- ===== src/Lib.antt =====
-- OpenCIDN, a mirror of container registries: a queue of synchronisation jobs that a gateway fills
-- and workers empty.
--
-- Base/*, Maps: shared types, tests, lists, integers, texts, and Go's maps as association lists.
-- Messages/*: pkg/queue. Model is model/message.go. Table is the `messages` table and the
--   statements of dao/messgae.go, each with its WHERE and SET clauses; Dao is the methods there,
--   Service those of service/message.go. Watch is the watch channels of controller/message.go,
--   Request its requests and responses, Controller its handlers, Schedule one round of `Schedule`,
--   Calls the routes and the tick. World is what a handler runs in: the table, what other clients
--   do before each of its statements, whether a statement is answered, refused, or carried out
--   with the answer lost, and the channels.
-- Queues/*: internal/queue. Fifo is queue.go and Weighted is weight_queue.go.
-- Gateway/*: pkg/gateway and internal/format/domain.go. Domain is `IsDomainName`, against the rules by
--   labels in Labels. Paths is utils.go, RoundTrip its inverse. Serve is `ServeHTTP` with `forward`,
--   `blob` and `manifest`, as a function from a request to what is done with it; Location is the URL
--   of a redirection as it is written and as its path is read; Guard and Listed are what a request
--   must have to get content.
-- Tokens/*: pkg/token and pkg/auth/auth.go. Token and Registry are the records, Authenticator is
--   authenticator.go, Generator is generator.go with `authFunc` of cmd/auth/auth.go, Manager is
--   `GetTokenWithUser` and what it calls; Cached, Allowed and Issued are about these.
-- Storage/*: pkg/cache over a storage driver (Driver): the paths (Paths), blobs by their digest
--   (Blobs), manifests by link (Manifests), redirects (Links).
-- Manifests/*: pkg/manifests. Cache is manifest_cache.go over the interface of the cache library
--   (Imc), Upstream is `cacheManifest`, Proxy is `Serve` and the worker; Lookup, Served, Brought and
--   Worker are about these.
-- Blobs/*: pkg/blobs. Sizes is utils.go, Cache is blobs_cache.go, Upstream is `cacheBlob` with its
--   continuation and the workers, Workers the queues that `NewBlobs` starts, Proxy is `ServeHTTP`
--   and `Serve`; Delivered and Served are about what is answered, Agent about the URL that the
--   gateway sends a client to.
-- Waiting: `waitingQueue`, which pkg/manifests/manifest.go and pkg/blobs/blobs.go both have.
-- Seeking/*: internal/seeker/seeker.go (Seeker) over the readers that are opened (Source).
-- Runner/*: pkg/runner. Pending is the watch of the queue and the choice of a job, Jobs the content of
--   a job for a manifest, Heartbeat the loop of `heartbeat`, Resume the part of `blob` that continues
--   a large blob; Watched, Ended, Copied and Whole are about these.
-- Accounts/*: the transactions of pkg/auth/service/user.go (Users) with the statements of
--   pkg/auth/dao/user.go and pkg/auth/dao/login.go that they run (Session), and the end of the
--   request that rolls back what is left open.
-- Examples/*: the theorems on concrete data.
--
-- A handler calls a service method, which calls a dao method, which runs one statement. So the
-- interleavings of several servers are sequences of statements, and the theorems about all
-- sequences of calls (WellFormed, History) let the other servers run any statements of the dao
-- between two statements of one request. The theorems about one handler (Leases, Exclusion, Create,
-- Rounds) take a server that is alone with its table and connected.
--
-- A request to the gateway goes from Serve to one of the proxies, which answer from their caches and
-- the storage or wait for a worker or for a job of the queue. What a worker of the proxy does
-- between is one step (`work`); what others do to the caches meanwhile is not modelled. HTTP
-- clients, signatures, hashes, JSON, base64, the matcher of images and the database are parameters;
-- an error is named by its text or its code.
--
-- Times are seconds. The table's collation and the driver's way of counting affected rows are
-- parameters that stand in the table. Integers of Go are unbounded here except where they are
-- parsed. All loops are structural recursion: over lists, and in `step` over the number of turns
-- that the weight gives, or, for a negative weight, over one more than the queue's length, at which
-- the loop of the code has met the empty queue; in the size classes, over the 64 halvings of a
-- uint64.
--
-- Not modelled: the texts of most errors, JSON, HTTP streams beyond the list of what is written, the
-- blocking waits on channels, table creation, the expiry of cache entries, times of modification,
-- the limits on rates; and the other transfers of the runner, the client of the queue, the remaining
-- look-ups and controllers of pkg/auth, and the listing of tags (pkg/runner, pkg/queue/client,
-- pkg/transport), which are mostly HTTP around libraries.
pub mod Base
pub mod Messages
pub mod Maps
pub mod Queues
pub mod Waiting
pub mod Gateway
pub mod Manifests
pub mod Tokens
pub mod Storage
pub mod Blobs
pub mod Seeking
pub mod Accounts
mod Examples
pub mod Runner
