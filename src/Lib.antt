-- ===== src/Lib.antt =====
-- chat2work-mcp: workspaces for the users of a chat, behind a server of the Model Context Protocol.
-- This development models the program's decisions and what its tools do to files: who is calling, what
-- the caller may do, which file a path names, how much may be written, what a document may contain,
-- and whether a repeated call runs again. A definition has the name of the Go function it translates, in snake
-- case; the comment above it says more where the two differ.
--
-- A call passes these parts:
-- * Auth (internal/app/auth.go): `requireBearer` tests the token of the chat server, and
--   `ResolveIdentity` takes the user and the request id from a signed header. The Codec record
--   stands for HMAC-SHA256, base64 and JSON.
-- * Access (internal/app/access.go): `NewAccessManager` turns the workspaces of the configuration
--   into a map of grants, which is the state of `List` and `Grant`.
-- * Server (internal/app/server.go): `identity` and `grant`, with which every tool handler starts,
--   compose Auth and Access and test the role.
-- * Idempotency (internal/app/idempotency.go): `call` answers a repeated request from a cache. Its
--   two critical sections are `acquire` and `complete`; Idempotency/System.antt has the state (the
--   map of entries and the executions under way) and the step relation of concurrent calls, where
--   any call can take the next step, at any time; nothing is assumed of the order of the times.
-- * Paths (internal/app/workspace.go): `Root` and `resolve`, with the lexical part of package
--   path/filepath on Unix. The file system is a View: what Lstat, Stat and EvalSymlinks answer, with
--   no assumption on the answers.
-- * Quota (internal/app/files.go): `enforceQuota`, `CheckWriteAllowed` and
--   `CheckOfficeOutputAllowed` over the list of what filepath.WalkDir visits.
-- * Office (internal/app/office.go, internal/app/server.go): the checks of a document before
--   OfficeCLI reads it, over the sizes that its archive declares. The sum is a uint64.
-- * Sheet (internal/app/server.go): `normalizeCellAddress`, `validateSheetName` and
--   `sheetSetCellCommands`, which turn a batch of cells into commands for OfficeCLI.
-- * Download (internal/app/artifact.go): links with a signature and an expiry, and the handler that
--   serves them. It goes through Paths as the tools do, but needs no identity: the signature is the
--   permission. The Crypto and Host records stand for the packages it calls. That `Root` makes the
--   workspace's directory there, and can fail, is left out, which only widens what is served.
-- * Disk (package os): what the program asks of it, as functions on a disk, which are a parameter. A call
--   returns a result and the disk that it leaves, also where it fails. Disk/Lawful.antt states which
--   files each call may change, for paths whose directories are reached without symbolic links, and
--   Disk/Memory.antt has a disk in memory that obeys this (Disk/Memory/Laws.antt).
-- * Files (internal/app/files.go): `Read`, `Write`, `Edit`, `Move`, `Delete`, `List` and `Search` on a
--   disk. filepath.Match is a parameter.
-- * Tools (internal/app/server.go): the handlers of the fs tools, from the grant to the reply; `handle`
--   is a call of one that changes files.
-- * Documents (internal/app/server.go, internal/app/office.go): the handlers of the document tools. The
--   Engine record stands for OfficeCLI, for archive/zip and for encoding/json; the theorems rely on
--   OfficeCLI changing no file but its document, and on its document being a
--   regular file where it ends without an error. What docEdit and sheetSetCells share is
--   `edit_document`.
-- * Audit (internal/app/audit.go): the event that is recorded of a call, `deduplicate` with the key
--   under which a call goes through Idempotency, and the log file with its backups. The LogOs record
--   stands for package os there.
-- * Start (internal/app/server.go): `New`, which puts the parts together from a configuration.
-- * Logging (internal/app/logging.go): the levels, the id of a request, and the status that is logged.
-- Config (internal/app/config.go) is `LoadConfig` behind the reading and the parsing of the file. Its
-- validation is what Access and Paths rely on to keep workspaces apart. Prelude has what all parts
-- share: Go strings as lists of code points, or of bytes where they are contents, int64 with its wrap-around, errors as values, maps, and
-- what the program uses of packages strings and strconv. Each Tests module runs its component on
-- small inputs.
--
-- Locks: a handler holds its workspace's lock while it changes files, so the model takes a call as one
-- step. docCreate, docEdit and sheetSetCells resolve and check before they take it; what another call
-- does in between is outside the model.
--
-- Fuel: only `checkExistingParents` needs it, whose loop over the parent directories has no bound of
-- its own. One unit is one round; the number of components of the path is enough below the root, and
-- no amount is enough at the root itself. `none` says that the loop still runs. The digits of a
-- number are printed with fuel, and a number n has at most n + 1 digits.
--
-- Numbers: sizes and counts are natural numbers where the source only adds file sizes to them, and
-- wrap around at 2^64 where it sums what an archive declares; fields that the configuration may make
-- negative are integers. Times are nanoseconds, or seconds in a token's expiry.
--
-- Not modelled: the process and the semaphore of OfficeCLI in internal/app/office.go; the routes,
-- `readyz` and the JSON of the replies in internal/app/server.go; the closing of the audit log in
-- internal/app/audit.go; the output of internal/app/logging.go; cmd/chat2work-mcp/main.go, which parses
-- flags and starts servers. The wait of a repeated call for the first one's end is outside the model of
-- the cache, and the hash in its key is a parameter.
pub mod Prelude
pub mod Config
pub mod Access
pub mod Paths
pub mod Quota
pub mod Sheet
pub mod Office
pub mod Auth
pub mod Disk
pub mod Files
pub mod Download
pub mod Idempotency
pub mod Server
pub mod Tools
pub mod Documents
pub mod Audit
pub mod Start
pub mod Logging
