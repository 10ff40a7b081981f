-- ===== src/Lib.antt =====
-- Verification library of the agent, a Go program that runs beside Xray on a node: it takes commands
-- from a server, validates and activates Xray configurations, updates the Xray binary and itself, follows
-- Xray's access log, and queues telemetry events durably until the server acknowledges them.
--
-- Parts, and the code that each models:
-- - Prelude: tests on numbers, lists, and `Outcome`, what a function with an error result returns.
-- - Io: actions on the state of a disk. A schedule says of each system call whether it succeeds, fails
--   or is where the process is killed (Io/Monad); `Triple` says what then holds, and has a rule for
--   each way to build an action (Io/Hoare, Io/Frame). Files has state files and the calls on them, Zoom
--   an action on a part of the state.
-- - Classified, Links, Versions, Retention: what xrayruntime, xrayupdate and update have in common:
--   errors with a class, symbolic links, directories of versions, and which old versions are removed.
-- - Spool: internal/eventspool/store.go. Store has Enqueue and its two variants, Acknowledge and Batch,
--   Records the other operations; Bolt is the interface of the database, a bucket sorted by keys;
--   Invariant is the consistency of the counters with the queue; Refinement is the abstract log.
-- - Xray: internal/xrayconfig/manager.go (Validate) and internal/xrayruntime/manager.go: Target has the
--   names of version files, Disk the state files, Files the checks and writes, Prune, Rollback and
--   Apply the functions of these names, Apply also Recover. Upgrade is about a request for a newer
--   version: its states, the steps between them, and the theorems on Apply and Recover.
-- - Binary: internal/xrayupdate. Manifest has manifest.go, Bundle the bundles on disk and their
--   verification, Files the state files, Prune, Install (installPrepared, rollback, Recover) and Apply
--   the functions of manager.go. Upgrade is about an update from one bundle to another.
-- - Update: internal/update/manager.go: Archive has manifests and archives, Install the installation of
--   a version of the agent, its confirmation and pruning, Apply the download and checks of a release,
--   Safety the way back, Released what a release that is installed has passed.
-- - Agent: internal/agent/client.go: Machine is what the three managers keep, Commands the execution of
--   commands by the managers above, Session a session over what the connection does. Answers is about
--   all commands, Applies about the one that applies a configuration.
-- - Config: internal/config/config.go: defaults and checks; Loading is about what `Load` returns.
-- - Access: internal/telemetry/access.go. Lines has readBoundedAccessLine, Drain the loop over the
--   lines, Collect the handling of truncation and rotation. Drain uses the queue through the interface
--   `Queue`, whose laws say that an event and its checkpoint are stored together or not at all; Spooled
--   fills it with the queue of Spool.
-- - Counters: internal/telemetry/xray.go: Epochs has the order of a user's traffic counters.
-- - Release: internal/release/client.go: URLs and the retries of a download.
-- - Upload: internal/telemetry/uploader.go: one upload of a batch of the queue, and the delays.
-- - Tests: concrete parameters, and the theorems at concrete inputs.
--
-- What stands behind the interfaces: bbolt, JSON, zip, tar, SHA-256, the binaries that are run, the
-- clock, the network and the parser of a line are arguments. Numbers are natural numbers; those of the
-- queue wrap around at 2 ^ 64 where the code's do, and theorems that need it assume that they fit. The
-- drain of the access log runs on a number of rounds, one more than the slices that the reader returns;
-- a download on the three attempts of the code; a session is run for its first rounds, behind which
-- it may go on.
--
-- Not modelled: the loss of power (a kill loses no write that was made, renamed files included), the
-- deletion of files by others, file modes of directories, the texts of errors, characters outside ASCII
-- in digests and names, contexts but for the ones of the drain and the session, the outer loop of the
-- agent and its enrollment, and the other packages: identity, status, xraybinary, the process control
-- of xrayruntime, the other collectors of telemetry, the answers of the Xray command, and cmd.
pub mod Prelude
pub mod Io
pub mod Classified
pub mod Versions
pub mod Links
pub mod Retention
pub mod Spool
pub mod Xray
pub mod Access
pub mod Release
pub mod Binary
pub mod Update
pub mod Agent
pub mod Config
pub mod Counters
pub mod Upload
mod Tests
