-- ===== src/Timer/Expire.antt =====
-- The times of kznet/timer.c: how long to wait, and the callbacks of timers that are due.
use libakio.Prelude.{
  ℕ, zero, suc, ◌+◌, ◌-◌, ◌^◌, true, false, Option, none, some, ltb, ◌==◌, if◌then◌else◌, Run, ok,
  ◌>>=◌,
}
use libakio.Timer
use libakio.Timer.Memory.{Ptr, Timers, deref, assign}

-- `get_shortest_msec` at a time; -1 is `none`. A time that has passed leaves 0.
unfoldable pub get_shortest_msec : ℕ → Timers → Run (Option ℕ)
get_shortest_msec now_msec st = do
  te ← Timer.heap_top st
  elim te [
    | zero ↦ ok none
    | suc p ↦ do
      timer ← deref st (suc p)
      let msec : ℕ = timer.when_msec - now_msec
      ok (some (if ltb (2 ^ 31 - 1) msec then 2 ^ 31 - 1 else msec))
  ]

-- An event loop, as far as the timers see it: it holds them.
pub record Holds (Loop : Type 0) : Type 0 where
  pub timers : Loop → Timers
  pub with_timers : Loop → Timers → Loop

-- The callback of a timer, on its data and the loop: its result, with 0 for EV_TIMER_END or less.
abbrev pub Callback : Type 0 → Type 0
Callback Loop = (cb : Ptr) (user_data : ℕ) → Loop → Run (ℕ × Loop)

module _ {Loop : Type 0} (holds : Holds Loop) (clock : ℕ → ℕ) (callback : Callback Loop) where
  -- The lines after the callback: a timer ends, or is due again after `retval` milliseconds.
  unfoldable pub rearm : ℕ → ℕ → Timers → Ptr → Run Timers
  rearm zero now_msec st te = Timer.delete_timer st te >>= λ r. ok r.1
  rearm (suc retval) now_msec st te = do
    timer ← deref st te
    Timer.heap_adjust (assign st te (some (record timer { when_msec = now_msec + suc retval }))) te

  -- `process_time_events`: the number of callbacks. `ticks` counts the readings of the clock; out
  -- of fuel the result is `none`.
  unfoldable pub process_time_events : ℕ → ℕ → Loop → ℕ → Run (Option (ℕ × Loop))
  process_time_events zero ticks loop processed = ok none
  process_time_events (suc fuel) ticks loop processed = do
    te ← Timer.heap_top (holds.timers loop)
    elim te [
      | zero ↦ ok (some (processed, loop))
      | suc p ↦ do
        timer ← deref (holds.timers loop) (suc p)
        elim (ltb (clock ticks) timer.when_msec) [
          | true ↦ ok (some (processed, loop))
          | false ↦ do
            (retval, loop1) ← callback timer.cb timer.user_data loop
            st ← rearm retval (clock (ticks + 1)) (holds.timers loop1) (suc p)
            process_time_events fuel (if retval == 0 then ticks + 1 else ticks + 2)
                (holds.with_timers loop1 st) (processed + 1)
        ]
    ]
