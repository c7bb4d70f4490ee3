-- ===== src/Timer/Examples.antt =====
-- The theorems on the timer queue at concrete inputs.
use ntpsec_rs.Prelude.{◌≡◌, List, [], ◌∷◌, All, arith}
use ntpsec_rs.Prelude.Int.{pos, ◌<ℤ◌}
use ntpsec_rs.Timer.{TimerEntry, TimerQueue, poll, reachability, stats_write, pop_due}
use ntpsec_rs.Timer.Due.{IsEntry, due_events, pop_due_lem}

-- A repeating poll that is late, a single event that is due, and one that is not.
abbrev entries : List TimerEntry
entries =
    record { event = poll 3; due = pos 100; interval = 64 }
    ∷ record { event = reachability; due = pos 500; interval = 0 }
    ∷ record { event = stats_write; due = pos 501; interval = 60 }
    ∷ []

abbrev a_queue : TimerQueue
a_queue = record { entries = entries }

entries-IsEntry : All IsEntry entries
entries-IsEntry = (
  record { late = omega arith; early = omega arith; interval = omega arith },
  (
    record { late = omega arith; early = omega arith; interval = omega arith },
    (record { late = omega arith; early = omega arith; interval = omega arith }, _),
  ),
)

pop_due_lem_example :
    ((pop_due (pos 500) a_queue).0 ≡ due_events (pos 500) entries)
    × All (λ e. pos 500 <ℤ e.due) (pop_due (pos 500) a_queue).1.entries
    × ((pop_due (pos 500) (pop_due (pos 500) a_queue).1).0 ≡ [])
pop_due_lem_example = pop_due_lem (pos 500) a_queue (omega arith, omega arith) entries-IsEntry
