-- ===== src/Events.antt =====
-- internal/events/bus.go: the stream of events that the services publish, and the reading of it by
-- cursor. A channel is a queue with the capacity it was made with; its reader is not modelled.
pub mod Tests
pub mod Cursor
use arno.Base.{
  ℕ, suc, ◌+◌, ◌≡◌, refl, Bool, false, List, [], ◌∷◌, ◌++◌, map, Text, ltb, leb, length,
  if◌then◌else◌, GoInt, negative, nat, positive_or,
}

pub record Event : Type 0 where
  pub type : Text
  pub entity : Text
  pub payload : List (Text × Text)

pub record Record : Type 0 where
  pub cursor : ℕ
  pub event : Event

pub record Channel : Type 0 where
  pub buffer : ℕ
  pub queue : List Event

pub record Bus : Type 0 where
  pub next_cursor : ℕ
  pub history : List Record
  pub subscribers : List Channel

abbrev pub new_bus : Bus
new_bus = record { next_cursor = 0; history = []; subscribers = [] }

-- `select { case ch <- event: default: }`
unfoldable pub offer : Event → Channel → Channel
offer e ch =
    if ltb (length ch.queue) ch.buffer then record ch { queue = ch.queue ++ e ∷ [] } else ch

unfoldable pub publish : Event → Bus → Bus
unfolding offer
publish e b =
    let cursor = b.next_cursor + 1 in
    record {
      next_cursor = cursor;
      history = b.history ++ record { cursor = cursor; event = e } ∷ [];
      subscribers = map (offer e) b.subscribers;
    }

-- `record.Cursor <= after`
abbrev pub seen_by : GoInt → Record → Bool
seen_by negative r = false
seen_by (nat a) r = leb r.cursor a

-- The loop of `Events`, with what it has collected.
unfoldable pub collect : GoInt → ℕ → List Record → List Record → List Record
collect after limit out [] = out
collect after limit out (r ∷ rs) =
    let skipped = collect after limit out rs in
    let out' = out ++ r ∷ [] in
    let more = collect after limit out' rs in
    if seen_by after r then skipped else if leb limit (length out') then out' else more

unfoldable pub events : Bus → GoInt → GoInt → List Record × ℕ
unfolding collect
events b after limit = (collect after (positive_or 50 limit) [] b.history, b.next_cursor)

unfoldable pub subscribe : GoInt → Bus → Bus
subscribe buffer b = record b {
  subscribers = b.subscribers ++ record { buffer = positive_or 1 buffer; queue = [] } ∷ [];
}
