-- ===== src/Workspace/Unrecorded.antt =====
-- What a revert leaves in the ledger.
use arno.Disk.{Disk}
