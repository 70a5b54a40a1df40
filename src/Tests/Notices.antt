-- ===== src/Tests/Notices.antt =====
-- A notification that is queued, claimed and posted.
use school_bells.Prelude.{arith, true, ◌<◌, ◌≤◌, ◌≡◌, refl, false, [], ◌∷◌, none, some}
use school_bells.Alerts.{
  Notification, NewAlert, enqueue_row, new_row, leased, claim_delivery, trim, pending_count,
  AlertOutcome, finish_delivery,
}
use school_bells.Alerts.Outbox.{Kept, enqueue_row-Kept}
use school_bells.Alerts.Attempts.{System, start, step, queue, post, finish, posts_of}
use school_bells.Alerts.Attempts.Budget.{posts-Run}

abbrev degraded : NewAlert
degraded = record {
  identity = "n1";
  kind = "service_degraded";
  message = "Bell service needs attention";
  payload = "{}";
  force = false;
}

enqueue_row-Kept_example :
    Kept []
      (enqueue_row (some "https://alerts.example") none 900 7 degraded []).0
      "https://alerts.example"
      none
      7
      degraded
      (enqueue_row (some "https://alerts.example") none 900 7 degraded []).1
enqueue_row-Kept_example = enqueue_row-Kept "https://alerts.example" none 900 7 degraded []

abbrev empty_system : System
empty_system = record { table = []; clock = 7; flights = []; posts = [] }

abbrev queued_system : System
queued_system = record empty_system {
  table = (enqueue_row (some "https://alerts.example") none 900 7 degraded []).0;
}

abbrev posted_row : Notification
posted_row = leased 7 (new_row "https://alerts.example" none 7 degraded)

abbrev posted_system : System
posted_system = record {
  table = (claim_delivery "n1" 7 queued_system.table).0;
  clock = 7;
  flights = posted_row ∷ [];
  posts = posted_row.id ∷ [];
}

claim_runs : (claim_delivery "n1" 7 queued_system.table).1 ≡ some posted_row
unfolding claim_delivery enqueue_row pending_count trim
claim_runs = refl

abbrev delivered : AlertOutcome
delivered = record { success = true; detail = "HTTP 204" }

in_time : 7 < posted_row.lease
unfolding leased
in_time = omega arith

posts-Run_example :
    posts_of "n1"
      (record posted_system {
        table = finish_delivery delivered false 7 posted_row posted_system.table;
        flights = [];
      }).posts
    ≤ 5
posts-Run_example =
    posts-Run
      (step
        (step
          (step (start 7)
            (queue empty_system (some "https://alerts.example") none 900 degraded refl refl))
          (post queued_system "n1" posted_row claim_runs))
        (finish posted_system [] [] posted_row delivered false refl))
      (((tt, tt), tt), in_time) "n1"
