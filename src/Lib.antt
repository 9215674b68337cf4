-- ===== src/Lib.antt =====
-- Verification of updater-service, which updates the configuration file of a service on a worker
-- node, checks the service's health, and rolls the file back when the check fails.
--
-- The entry (internal/entry) accepts a request for an update, receives the file, and sends a command
-- over NATS to the worker of the node (internal/worker). The worker claims the operation in a table
-- that both share, downloads the file, deploys it (internal/fileops), restarts the service and waits
-- for its health (internal/healthcheck), and publishes its progress as results, which the entry
-- applies to the table. A monitor fails operations that take too long, and the entry keeps a registry
-- of nodes with leases (internal/node).
--
-- Where the code is modelled:
--   Operation, Operation.Repository, Operation.Files, Operation.Monitor: internal/operation
--   Node, Node.Repository: internal/node
--   Disk, Fileops: internal/fileops, and the calls of the package os that it makes
--   Config.Settings, Config.Environment, Config.Size, Config.Loading: internal/config
--   Downloader, Downloader.Options, Downloader.Transfer, Downloader.Retrying, Downloader.Pool,
--     Downloader.State, Downloader.Whole, Downloader.Finish: internal/filetransfer, its chunks,
--     requests, workers, saved state, whole course and final check, with
--     internal/hash
--   Retry: internal/retry; Healthcheck: internal/healthcheck
--   Worker, Worker.State, Worker.Running, Worker.Deployer: internal/worker, and the deployer of cmd/worker/main.go
--   Entry, Entry.State, Entry.Nodes, Entry.Ranges, Entry.Serving, Entry.Server: internal/entry
--   Message: internal/message and internal/subjects
--   Services: internal/services and internal/docker
--   Search: internal/search, and the search handler of internal/entry
--   Heartbeat, Heartbeat.Received: internal/heartbeat, and the entry that receives its messages
--   Nats: internal/nats; Database: New of internal/db/mariadb
--   Startup, Startup.Commands: cmd/entry/main.go, cmd/worker/main.go and Migrate of
--     internal/db/mariadb
-- The other modules hold theorems; those under Tests hold runs of the code and the theorems at
-- concrete inputs. Base has what all share.
--
-- How: a method that may fail is an action, a function from a state to a result and a new state
-- (Base.Effects). A table is the list of its rows and a statement is a function on it (Base.Table).
-- Every call that leaves the process has an outcome: it is served, it is refused, or it takes effect
-- and its reply is lost. A context that is cancelled or runs out shows as such an outcome. Before each
-- statement of a worker or of the entry, other processes may change the table in any way that the
-- repositories allow. An instant is a natural number. The loop of Backoff.Delay and the attempts of a
-- health check, of a chunk and of the waits at the start recurse on the number of rounds that are left,
-- and the loops over a body, over ticks and over steps on the list of what happens, so no fuel is
-- chosen.
--
-- The workers of a download share a file, a channel and the saved state: their steps are a list in any
-- order, in which the process may also end and resume. The worker's handler takes the transfer of a file
-- as a parameter, and the downloader stands beside it.
--
-- Parameters: the answers of the file server, Elasticsearch, goose, docker, HTTP, NATS, JSON, SHA-256, functions on paths and texts of
-- the standard library, and the clock. Hypotheses on them stand in the theorems that use them.
--
-- Not modelled: the permission bits of files, the rounding of times to microseconds and the collation
-- of the database, logs, the text that drivers add to errors, ETags, the encoding of the saved state of
-- a download, the closing of the connections, and the documentation of the API that is served. After the process of a download ends, what it wrote to the
-- part file is taken to be there. A worker's commands are handled one at a time.
pub mod Base
pub mod Config
pub mod Operation
pub mod Node
pub mod Disk
pub mod Fileops
pub mod Retry
pub mod Healthcheck
pub mod Message
pub mod Services
pub mod Worker
pub mod Downloader
pub mod Search
pub mod Database
pub mod Nats
pub mod Startup
pub mod Heartbeat
pub mod Entry
mod Tests
