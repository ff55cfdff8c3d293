-- ===== src/Events/Tests.antt =====
-- The properties of the bus at concrete inputs.
use arno.Base.{◌+◌, ◌≡◌, refl, ◌++◌, [], codes, length, take, drop, nat, positive_or, arith}
use arno.Events.{Event, Bus, new_bus, publish, subscribe, events}
use arno.Events.Cursor.{IsConsistent, publish-IsConsistent, events-eq-page, events_resume}

abbrev started : Event
started = record { type = codes "JOB_STARTED"; entity = codes "job"; payload = [] }

abbrev watched : Bus
watched = subscribe (nat 0) new_bus

watched-IsConsistent : IsConsistent watched
unfolding subscribe
watched-IsConsistent = record { numbered = tt; latest = refl; buffered = (omega arith, tt) }

abbrev busy : Bus
busy = publish started (publish started (publish started watched))

busy-IsConsistent : IsConsistent busy
busy-IsConsistent =
    publish-IsConsistent started _
      (publish-IsConsistent started _ (publish-IsConsistent started _ watched-IsConsistent))

publish-IsConsistent_example : IsConsistent (publish started watched)
publish-IsConsistent_example = publish-IsConsistent started watched watched-IsConsistent

events-eq-page_example :
    events busy (nat 1) (nat 0)
    ≡ (take (positive_or 50 (nat 0)) (drop 1 busy.history), busy.next_cursor)
events-eq-page_example = events-eq-page busy 1 (nat 0) busy-IsConsistent

events_resume_example :
    let page = (events busy (nat 0) (nat 1)).0 in
    page ++ (events busy (nat (0 + length page)) (nat 9)).0
    ≡ take (length page + positive_or 50 (nat 9)) (drop 0 busy.history)
events_resume_example = events_resume busy 0 (nat 1) (nat 9) busy-IsConsistent
