-- ===== src/Lib.antt =====
-- Models of the state-keeping core of the daemon that runs game servers: how power actions
-- exclude each other, how disk space is accounted for while files are written, which network
-- policies are accepted and what they enforce, how concurrent edits of one text file are merged,
-- how file operations are cancelled, how the revisions of edited files are kept, when a crashed
-- server restarts, which tokens are revoked and how activity is delivered to the Panel.
--
-- Parts and files. Paths are from the root of the repository.
--   System/Rate      system/rate.go: `NewRate`, `Try` and `Reset`.
--   System/Locker    system/locker.go: the power lock. `TryAcquire` is split where others can run.
--   Disk/Quota       internal/ufs/fs_quota.go: `Add`, `CanFit`, `Remove`, `unlinkat`, `freedBy`.
--   Disk/Space       server/filesystem/disk_space.go: reservations, releases, the walk of the disk and
--                    the cached usage, on the fields of `Filesystem` in filesystem.go.
--   Disk/File        server/filesystem/quota_file.go: a file that reserves space before it grows.
--   Policy           internal/networkpolicy/policy.go: `Validate` (Policy/Assigned), `validateStatic`
--                    (Policy/Static), the selection of allocations by groups (Policy/Select),
--                    `OrderedRules` (Policy/Order), `Effective` and `Required` (Policy/Bandwidth),
--                    `Ports` (Policy/Assigned), addresses (Policy/Net), patterns (Policy/Names).
--   Collab           router/websocket/betterfiles_collaboration_ot.go: texts and UTF-16 offsets
--                    (Collab/Text), edits to operations and back (Collab/Edits), and the document with
--                    its history (Collab/Document); betterfiles_collaboration.go: codes, paths and names
--                    (Collab/Names), a session with its messages (Collab/Session), the registry and the
--                    requests (Collab/Rooms).
--   Server           server/file_operations.go: the registry of running file operations
--                    (Server/Operations); server/crash.go: the automatic restart (Server/Crash);
--                    server/power.go: power actions around the lock of System/Locker (Server/Power).
--   Tokens           router/tokens/websocket.go: the denylist and the permission test.
--   Cron             internal/cron/delivery.go: the delivery of activity to the Panel in halves.
--   History          server/file_history.go: the tables and their statements (History/Table), the coding
--                    of contents and the way back to them (History/Replay), the limits (History/Prune)
--                    and the operations of the store (History/Store).
--   Common           Boolean tests, lists, results and integers over the native numbers.
-- A quota file calls the disk accounting, and this the quota, as in the source. `Validate` calls
-- the static checks, and these the selection. The document calls the conversions of edits, and
-- these the tables of offsets. A session calls the document, and the registry the session and the
-- permission test of the tokens. Under each part, the child modules are named for what they
-- prove, and Examples has runs at concrete inputs.
--
-- State and concurrency. A struct is a record of its fields, an error a value. What runs under a
-- mutex is one step. Where goroutines can meet, a step relation orders them freely: the users of
-- the lock (System/Locker/Exclusion), the callers of `Add` (Disk/Quota/Callers), writers with a
-- walk of the disk (Disk/Space/Writers), and file operations with those who cancel them
-- (Server/Operations/Lifecycle). A message to the file editor is one step, where the source takes
-- the locks several times: what two handlers do to each other within a message is not seen.
-- `TryAcquire` in a power action takes the state of the lock as its wait ends with any of the
-- cases that are ready in it, and after a send the state of the lock as `mu` is taken. A write
-- holds the mutex of its file from its reservation to its release, and that of the filesystem for
-- these two only: `meanwhile` is what others do to the filesystem between. The end of an
-- operation is two steps, the delete and the sending of the result. The calls of `Add` read and
-- swap the usage in any order (Disk/Quota/Callers); a single call takes the list of the values
-- that its swaps meet, and so ends with it. `deliver` takes fuel, of which the number of items is
-- enough, and the loops that prune the file history take one more than the number of rows, each
-- round but the last deleting a row. The way back to a content follows at most 1000 rows, as in
-- the source. Every other loop is structural recursion on a list.
--
-- Numbers. An int64 is an integer of the library's kind over the native numbers, with `Add` and
-- `quotaWriteEnd` compared with the limits of int64 as the source does; the sum of the
-- reservations and a file position taken from an earlier one are not wrapped around. uint16 and
-- uint32 are reduced by `%`. Times and revisions are natural numbers, and a revision is not
-- wrapped around. A text is the list of its code points.
--
-- Parameters. `Netip` is the part of net/netip that the policy uses, of which the proofs assume
-- nothing. `calculated_hash` stands for `CalculatedHash`. `Ot` is the part of the package
-- operational-transformation-go that is used, with two named hypotheses where a theorem needs
-- them: `Builds`, that `Apply` does what the calls of `Retain`, `Insert` and `Delete` that built
-- the operation say, and `Inverts`, that `Invert` undoes. Collab/Ot/Plain meets both. `Strings`
-- is what the file editor uses of strings, path and unicode/utf8, with the hypothesis
-- `LeavesCodes` where a theorem needs it; what a token parses to and the files of the server are
-- functions. `Codec` is zstd and SHA-256 in the file history, with the hypotheses `IsLossless`,
-- that a snapshot decodes to what was encoded, and `Distinguishes`, that no two contents have one
-- hash; its payloads are bytes of which a theorem on the limits takes that there is at least one.
-- SQLite gives a new row the greatest id plus one, deletes the revisions of a deleted file and
-- refuses a path twice. `Machine` is what a power action calls, on a state of its own.
-- `valid_text` stands for `utf8.ValidString`. What the file system and the underlying file return
-- is an argument, and so is the client of the Panel, which acts on a state of its own. Only the
-- holder of the lock calls `Release`, and a context that is done gives an error that `TryAcquire`
-- knows, a deadline or a cancellation, where a theorem needs it (`EndsKnown`); a release gives
-- back no more than was reserved; an identifier that `uuid` gives is new. The time of the boot,
-- the exit state and the clock are arguments.
--
-- Not modelled: the errors of the database and its opening, the canonical JSON of a policy and
-- the checks of its shape, what is done with nftables and traffic shaping, Docker, HTTP, SFTP,
-- backups, transfers, the configuration parser and start-up. `RemoveAll` and `DirectorySize` go
-- through the real tree.
pub mod Common
pub mod System
pub mod Disk
pub mod Policy
pub mod Collab
pub mod Server
pub mod Tokens
pub mod Cron
pub mod History
