-- ===== src/Workspace/History.antt =====
-- What happens to the files between a checkpoint and the revert to it.
use arno.Base.{List, Text}
use arno.Disk.{Disk, write_file, remove_file}
use arno.Workspace.{Manager, bump_revision}
use arno.Workspace.Checkpoints.{before_write, checkpoint}

-- The disk and its manager, some steps behind a checkpoint that was taken of `start`: writes and
-- removals, each done or failed, and bumps of the revision, in any order.
pub data Behind (note head : Text) (start : Disk Manager) : Disk Manager → Type 0 where
  taken : Behind note head start (checkpoint note head start).1
  written :
      (path bytes : Text) (d : Disk Manager)
      → Behind note head start d
      → Behind note head start (write_file before_write path bytes d).1
  removed :
      (path : Text) (d : Disk Manager)
      → Behind note head start d
      → Behind note head start (remove_file before_write path d).1
  bumped_by :
      (paths : List Text) (d : Disk Manager)
      → Behind note head start d
      → Behind note head start (record d { observer = (bump_revision paths d.observer).1 })
