-- ===== src/Timer.antt =====
-- The timer queue of crates/ntpsec-rs-core/src/ntp_timer.rs: when entries fire, and which stay.
pub mod Due
mod Examples
use ntpsec_rs.Prelude.{
  ℕ, suc, ◌+◌, ◌-◌, ◌*◌, ◌/◌, ◌==◌, ◌||◌, List, [], ◌∷◌, ◌++◌, ltb, Bool, if◌then◌else◌,
}
use ntpsec_rs.Prelude.Int.{ℤ, pos, pos_part, ltb_ℤ, leb_ℤ, add64, sub64}

pub data TimerEvent : Type 0 where
  poll : ℕ → TimerEvent
  reachability housekeeping leap_file_reload stats_write : TimerEvent

pub record TimerEntry : Type 0 where
  pub event : TimerEvent
  pub due : ℤ
  pub interval : ℕ

-- `((now - due) / interval + 1) as u64`, for a `due` that is not after `now`.
unfoldable pub missed : ℤ → TimerEntry → ℕ
missed now e = pos_part (sub64 now e.due) / e.interval + 1

-- The entry, and the number of missed intervals.
unfoldable pub advance_past : ℤ → TimerEntry → TimerEntry × ℕ
unfolding missed
advance_past now e =
    if (e.interval == 0) || ltb_ℤ now e.due
    then (e, 0)
    else (record e { due = add64 e.due (pos (missed now e * e.interval)) }, missed now e)

pub record TimerQueue : Type 0 where
  pub entries : List TimerEntry

unfoldable pub add : TimerEntry → TimerQueue → TimerQueue
add e q = record { entries = q.entries ++ e ∷ [] }

unfoldable pub schedule_poll : ℕ → ℤ → ℕ → TimerQueue → TimerQueue
unfolding add
schedule_poll peer_id now interval q =
    add (record { event = poll peer_id; due = add64 now (pos interval); interval = interval }) q

unfoldable pub schedule_poll_once : ℕ → ℤ → TimerQueue → TimerQueue
unfolding add
schedule_poll_once peer_id due q = add (record { event = poll peer_id; due = due; interval = 0 }) q

-- `retain`
unfoldable pub retain_not : (TimerEvent → Bool) → List TimerEntry → List TimerEntry
retain_not predicate [] = []
retain_not predicate (e ∷ es) =
    let rest = retain_not predicate es in if predicate e.event then rest else e ∷ rest

unfoldable pub remove : (TimerEvent → Bool) → TimerQueue → TimerQueue
unfolding retain_not
remove predicate q = record { entries = retain_not predicate q.entries }

-- The loop of `pop_due`: `fired` and `keep`.
unfoldable pub pop_loop : ℤ → List TimerEntry → List TimerEvent × List TimerEntry
unfolding advance_past
pop_loop now [] = ([], [])
pop_loop now (e ∷ es) =
    let rest = pop_loop now es in
    if leb_ℤ e.due now
    then (e.event ∷ rest.0, if ltb 0 e.interval then (advance_past now e).0 ∷ rest.1 else rest.1)
    else (rest.0, e ∷ rest.1)

unfoldable pub pop_due : ℤ → TimerQueue → List TimerEvent × TimerQueue
unfolding pop_loop
pop_due now q = ((pop_loop now q.entries).0, record { entries = (pop_loop now q.entries).1 })
