-- ===== src/Paging/Store.antt =====
-- The continuation store, and the refusals of a handle.
use arno.Base.{
  ℕ, ◌+◌, Bool, false, not, ◌&&◌, List, [], ◌∷◌, ◌++◌, Option, none, some, Text, codes, text_eq,
  ltb, length, if◌then◌else◌, Dict, lookup, insert, remove,
}
use arno.Decimal.{itoa}

pub record GrepMatch : Type 0 where
  pub path : Text
  pub line : ℕ
  pub text : Text
  pub after : List Text

-- What a page's summary line says; `own` is the summary of the search itself. Of an answer's
-- provenance the completeness is modelled, which is what paging changes.
pub data Summary : Type 0 where
  own : Text → Summary
  continued : (from to : ℕ) → (handle : Text) → Summary
  bounded : (from to only : ℕ) → Summary
  last : (from to : ℕ) → Summary

pub data Completeness : Type 0 where
  complete cut : Completeness

pub record GrepResponse : Type 0 where
  pub query : Text
  pub matches : List GrepMatch
  pub total : ℕ
  pub files : ℕ
  pub truncated : Bool
  pub completeness : Completeness
  pub continue : Text
  pub summary : Summary

pub record FindResult : Type 0 where
  pub symbol_id : Text
  pub symbol : Text
  pub kind : Text
  pub path : Text
  pub start_line : ℕ
  pub end_line : ℕ
  pub body : Text
  pub truncated : Bool

pub record FindResponse : Type 0 where
  pub query : Text
  pub results : List FindResult
  pub total : ℕ
  pub completeness : Completeness
  pub continue : Text
  pub summary : Summary

pub record ReferenceLocation : Type 0 where
  pub path : Text
  pub line : ℕ
  pub column : ℕ
  pub symbol : Text
  pub confidence : Text

pub record ReferencesResponse : Type 0 where
  pub query : Text
  pub source : Text
  pub references : List ReferenceLocation
  pub completeness : Completeness
  pub continue : Text
  pub summary : Summary

abbrev pub no_matches : GrepResponse
no_matches = record {
  query = [];
  matches = [];
  total = 0;
  files = 0;
  truncated = false;
  completeness = complete;
  continue = [];
  summary = own [];
}

-- `find` and `refs` are pointers in the source, `grep` is a value.
pub record Continuation : Type 0 where
  pub tool : Text
  pub revision : Text
  pub budget : ℕ
  pub shown : ℕ
  pub grep : GrepResponse
  pub find : Option FindResponse
  pub refs : Option ReferencesResponse
  pub path : Text
  pub through : ℕ
  pub text : List Text
  pub summary : Text

-- The fields that a literal of the source leaves out.
abbrev pub blank : Text → Text → ℕ → ℕ → Continuation
blank tool revision budget shown = record {
  tool = tool;
  revision = revision;
  budget = budget;
  shown = shown;
  grep = no_matches;
  find = none;
  refs = none;
  path = [];
  through = 0;
  text = [];
  summary = [];
}

pub record Store : Type 0 where
  pub next : ℕ
  pub entries : Dict Continuation
  pub order : List Text

abbrev pub empty : Store
empty = record { next = 0; entries = []; order = [] }

abbrev pub max_continuations : ℕ
max_continuations = 64

abbrev pub handle_of : ℕ → Text
handle_of n = b'c' ∷ itoa n

-- `for len(c.order) > maxContinuations`: the oldest handles go first.
unfoldable pub trim : Dict Continuation → List Text → Dict Continuation × List Text
trim entries [] = (entries, [])
trim entries (oldest ∷ order) =
    let rest = trim (remove oldest entries) order in
    if ltb max_continuations (length (oldest ∷ order)) then rest else (entries, oldest ∷ order)

unfoldable pub put : Continuation → Store → Text × Store
put entry c =
    let n = c.next + 1 in
    let (entries, order) =
      trim (insert (handle_of n) entry c.entries) (c.order ++ handle_of n ∷ []) in
    (handle_of n, record { next = n; entries = entries; order = order })

unfoldable pub get : Text → Store → Option Continuation
get handle c = lookup handle c.entries

pub data Error : Type 0 where
  unknown_handle : Text → Error
  other_tool : (handle continues asked : Text) → Error
  stale_handle : (handle cut_at current : Text) → Error
  nil_pointer : Error
  failed : Text → Error

pub data Result {ℓ} (A : Type ℓ) : Type ℓ where
  ok : A → Result A
  err : Error → Result A

-- The refusals, on the entry that was found.
abbrev pub admit : Text → Text → Text → Continuation → Result Continuation
admit handle tool revision entry =
    if not (text_eq entry.tool tool)
    then err (other_tool handle entry.tool tool)
    else if not (text_eq tool (codes "job_output")) && not (text_eq revision entry.revision)
    then err (stale_handle handle entry.revision revision)
    else ok entry

abbrev pub resumed : Text → Text → Text → Option Continuation → Result Continuation
resumed handle tool revision none = err (unknown_handle handle)
resumed handle tool revision (some entry) = admit handle tool revision entry

-- `revision` is the workspace's current one.
unfoldable pub resume : Text → Text → Text → Store → Result Continuation
resume handle tool revision c = resumed handle tool revision (get handle c)
