-- ===== src/Tests/Pages.antt =====
-- Two pages for one slot of bell/paging.py.
use school_bells.Prelude.{◌≤◌, ◌<◌, ◌≡◌, ◌↔◌, ◌⊎◌, true, [], length, none, some}
use school_bells.Config.{preempt}
use school_bells.Paging.{Coordinator, PageRequest, ActivePage, waits, acquire, wake, is_set}
use school_bells.Paging.Exclusion.{
  Pages, start, move, call, idle, go, IsExclusive, Reached-IsExclusive,
}
use school_bells.Paging.Preemption.{granted, GivesUp, Stops, acquire_answer, acquire_signals}

abbrev emergency : PageRequest
emergency = record { label = "Emergency"; priority = 100; policy = preempt; deadline = 30 }

abbrev lunch : ActivePage
lunch = record { token = "a"; label = "Lunch"; priority = 40 }

abbrev busy : Coordinator
busy = record { active = some lunch; events = [] }

abbrev after_call : Pages
after_call = go emergency [] idle (acquire emergency 0 "b" idle.coordinator)

Reached-IsExclusive_example : IsExclusive after_call × (length after_call.leases ≤ 1)
Reached-IsExclusive_example = Reached-IsExclusive (move start (call idle emergency 0 "b"))

acquire_answer_example :
    ((granted (acquire emergency 0 "b" busy).1 ≡ true) ↔ (busy.active ≡ none))
    × ((page : ActivePage)
        → busy.active ≡ some page
        → ((acquire emergency 0 "b" busy).1 ≡ waits)
          ↔ ((¬ GivesUp emergency page) × (0 < emergency.deadline)))
acquire_answer_example = acquire_answer emergency 0 "b" busy

acquire_signals_example :
    ((is_set "a" (acquire emergency 0 "b" busy).0 ≡ true)
      ↔ ((is_set "a" busy ≡ true) ⊎ Stops emergency busy.active "a"))
    × (is_set "a" (wake emergency 0 "b" busy).0 ≡ is_set "a" busy)
acquire_signals_example = acquire_signals emergency 0 "b" "a" busy
