-- ===== src/Service/Apply/AllOrNothing.antt =====
-- A batch that fails leaves the files as they were: the loop over the edits and the roll back.
use arno.Base.{ℕ, ◌≡◌, Bool, true, false, List, Option, Text, Dict}
use arno.Disk.{Node, Disk}
use arno.Disk.Atomic.{data_at}
use arno.Edits.Index.{IndexError}
use arno.Edits.Refused.{Safe}
use arno.Edits.Symbols.{Symbol}
use arno.Service.Apply.{EditOp, ApplyResponse, ApplyEnd, applied_all, rolled_back}
use arno.Service.Apply.Made.{MadeWhole}
use arno.Service.Operations.{Formatter}
use arno.Workspace.{Manager, occurs}

abbrev pub is_success : ApplyEnd → Bool
is_success (applied_all r) = true
is_success _ = false

module _ (resolves : Text → Bool) (symbols_of : Text → Text → List Symbol) where
  module _ (formatter_for : Text → Option Formatter) where
    -- How a batch ends. `made`: every edit was made, each on what the one before it left, and the
    -- answer counts them. The others are no answer of success. `untouched`: no file was changed.
    -- `back`: an edit failed, and every path but those that could not be put back holds what it
    -- held.
    pub data AsUnit (start : Dict Node) (format : Bool) (edits : List EditOp)
        : ApplyEnd × Disk Manager → Type 0 where
      made :
          (r : ApplyResponse) (d : Disk Manager)
          → MadeWhole resolves symbols_of formatter_for start format edits r d
          → AsUnit start format edits (applied_all r, d)
      untouched :
          (r : ApplyEnd) (d : Disk Manager)
          → is_success r ≡ false
          → d.files ≡ start
          → AsUnit start format edits (r, d)
      back :
          (index : ℕ) (e : IndexError) (lost : List Text) (d : Disk Manager)
          → ((p : Text) → occurs p lost ≡ false → data_at p d.files ≡ data_at p start)
          → AsUnit start format edits (rolled_back index e lost, d)
