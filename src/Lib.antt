-- ===== src/Lib.antt =====
-- ARNO: a server that gives coding agents reads, edits, searches and validation of one repository.
-- This library models the parts of it that keep state or compute an answer, in the terms of the
-- Go sources, and proves what they promise.
--
-- The parts and their files:
--   Base          shared names: Boolean tests, lists, texts as lists of bytes, Go maps, sorting
--                 (`sort.Strings`), paths (`filepath.Clean`). Numbers are natural numbers; an int
--                 that a caller may set below zero is a `GoInt`.
--   Decimal       `itoa` of internal/workspace/manager.go and internal/jobs/runner.go, and
--                 strconv.Atoi. `itoa` has 20 slots as its buffer has bytes, enough for an int64.
--   Events        internal/events/bus.go, which the workspace and the job runner publish to.
--   Disk          internal/writes/writes.go: `write_file`, `remove_file` and `write_files` are
--                 `File`, `Remove` and `Files`. A list says which operations of the disk fail.
--   Workspace     internal/workspace/manager.go: revisions and their ledger (`bump_revision`,
--                 `changed_since`), runs, and in Workspace/Checkpoints `before_write`, `checkpoint`
--                 and `revert_checkpoint`. The manager is the disk's observer: the write path tells
--                 it of a path before the path changes. Reverting uses `write_files`.
--   Clamp         internal/textutil/clamp.go, which bounds a job's output.
--   Jobs          internal/jobs/runner.go, internal/jobs/clamp.go and internal/jobs/outcome.go.
--   Paging        internal/transport/internalapi/continuation.go: the continuation store, `grep`,
--                 `find` and `references`. What a search answers is an argument.
--   Batches       internal/transport/internalapi/batch.go, the batches of finds and greps, and
--                 internal/transport/internalapi/digest.go.
--   TextSearch    internal/code/grep.go: `index_grep` is `Grep`, on the lines of the selected files.
--   Edits         internal/code/insert.go, internal/code/replace_text.go, and of
--                 internal/code/index.go the reads and edits by line: the text that an edit leaves,
--                 and in Edits/Index the operations on the disk (`insert_source`, `delete_file`, …).
--                 Edits/Symbols has the ids of symbols and the edits of a symbol, also of
--                 internal/code/symbol_notfound.go and internal/code/delete_symbol.go.
--   Service       internal/edit: `check_revision`, `line_delta` and the snippets; in
--                 Service/Operations the formatter and the single edits, which use those of Edits on
--                 a disk that the workspace's manager observes and then bump its revision; in
--                 Service/Apply the parts of a batch of edits and in Service/Apply/Run the batch.
--   Commands      internal/commands/registry.go: the declared commands and their file, on the disk.
--   Update        internal/update/update.go: versions and their order, and when the server is asked;
--                 whether the cache could be written is an argument of `refresh`.
--   Worktrees     cmd/arno-mcp/workspace_cache.go: the cache of open workspaces.
--
-- Fuel: `evict_loop` has as many rounds as there are graphs, which is enough, since a round closes a
-- graph. `page_loop` has a round for each item behind the offset. Everything else is by
-- recursion on its data.
--
-- Not modelled: git, language servers, tree-sitter, the commands that jobs run, and the formatting
-- of answers, which are outside programs or text. HEAD, the answers of searches, the resolution of
-- a path, the symbols that a parser finds in a file, a file's formatter, the encoding of the
-- commands' file, the clock, regexp, the files that a search walks and the summary of a command's
-- output are arguments. Of the edit service, Rename, the diagnostics and the checks behind a batch
-- are left out: they ask language servers and run commands. Locks are not modelled: an operation is
-- one step, and where the source locks twice its comment says so. Symbolic links are not followed.
-- Of the Unicode white space that strings.TrimSpace cuts off, `trim_space` cuts off the ASCII one.
-- Where a job is finished when `Wait` runs out of time, Go may choose either answer; `wait` gives the
-- finished job.
pub mod Base
pub mod Batches
pub mod Clamp
pub mod Commands
pub mod Decimal
pub mod Disk
pub mod Edits
pub mod Events
pub mod Jobs
pub mod Paging
pub mod Service
pub mod TextSearch
pub mod Update
pub mod Workspace
pub mod Worktrees
