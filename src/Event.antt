-- ===== src/Event.antt =====
-- kznet/event.c: the table of events of a loop, and one round of the loop over any poller.
pub mod Poller
pub mod Select
pub mod Epoll
pub mod Bound
pub mod Register
pub mod Unregister
pub mod Create
mod Tests
use libakio.Prelude.{
  ℕ, zero, suc, ◌+◌, ◌-◌, bit_and, bit_or, bit_not, Bool, true, false, ◌||◌, ◌&&◌, Option, none,
  some, List, replicate, ltb, leb, ◌==◌, if◌then◌else◌, Run, ok, fault, ◌>>=◌, read, write, ℤ, pos,
  negsuc,
}
use libakio.Event.Poller.{EvEvent, EvActive, ev_none, ev_rdable, ev_wrable, has, View, PollerOps}
use libakio.Timer
use libakio.Timer.Memory.{Timers}
use libakio.Timer.Expire.{Holds, Callback, get_shortest_msec, process_time_events}

-- `struct event_loop` over a poller's state
pub record Loop (P : Type 0) : Type 0 where
  pub view : View
  pub poller : P
  pub timers : Timers
  pub stop : Bool

-- the test of create_event that a descriptor is above `maxfd`
abbrev pub above : ℕ → Option ℕ → Bool
above fd none = true
above fd (some maxfd) = ltb maxfd fd

-- `fd == loop->maxfd`
abbrev pub is_max : ℕ → Option ℕ → Bool
is_max fd none = false
is_max fd (some maxfd) = fd == maxfd

-- The event entry after create_event.
abbrev pub added : EvEvent → ℕ → ℕ → ℕ → EvEvent
added ev event cb user_data = record {
  event = bit_or ev.event event;
  user_data = user_data;
  on_read = if has event ev_rdable then cb else ev.on_read;
  on_write = if has event ev_wrable then cb else ev.on_write;
}

-- The loop of delete_event from the descriptor `j` - 1 on: the new `maxfd`.
unfoldable pub lower : ℕ → List EvEvent → ℕ → Run ℕ
lower zero events maxfd = ok maxfd
lower (suc j) events maxfd =
    let rest = lower j events j in
    read events j >>= λ ev. if ev.event == ev_none then rest else ok maxfd

-- `if (fd == loop->maxfd && ev->event == EV_NONE)`
abbrev pub update_max : View → ℕ → ℕ → Run View
update_max view fd left =
    if is_max fd view.maxfd && left == ev_none
    then lower fd view.events fd >>= (λ max. ok (record view { maxfd = some max }))
    else ok view

module _ {P : Type 0} (poller : PollerOps P) where
  -- `create_event`: 0 or -1, and the loop; the assert on the callback is a fault
  unfoldable pub create_event : Loop P → ℕ → ℕ → ℕ → ℕ → Run (ℤ × Loop P)
  create_event loop fd event zero user_data = fault
  create_event loop fd event (suc cb) user_data =
      if ltb fd 1 || leb loop.view.setsize fd then ok (negsuc 0, loop) else (do
        (retval, state) ← poller.addevent loop.poller loop.view fd event
        elim retval [
          | pos zero ↦ do
            ev ← read loop.view.events fd
            events ← write loop.view.events fd (added ev event (suc cb) user_data)
            let maxfd = if above fd loop.view.maxfd then some fd else loop.view.maxfd
            ok (
              pos 0,
              record loop {
                poller = state;
                view = record (loop.view) { events = events; maxfd = maxfd };
              },
            )
          | pos (suc n) ↦ ok (negsuc 0, record loop { poller = state })
          | negsuc n ↦ ok (negsuc 0, record loop { poller = state })
        ])

  -- `delete_event`
  unfoldable pub delete_event : Loop P → ℕ → ℕ → Run (ℤ × Loop P)
  delete_event loop fd event = if leb loop.view.setsize fd then ok (negsuc 0, loop) else (do
    ev ← read loop.view.events fd
    if ev.event == ev_none then ok (pos 0, loop) else (do
      (retval, state) ← poller.delevent loop.poller loop.view fd event
      elim retval [
        | pos zero ↦ do
          let left = bit_and ev.event (bit_not 32 event)
          events ← write loop.view.events fd (record ev { event = left })
          view ← update_max (record (loop.view) { events = events }) fd left
          ok (pos 0, record loop { poller = state; view = view })
        | pos (suc n) ↦ ok (negsuc 0, record loop { poller = state })
        | negsuc n ↦ ok (negsuc 0, record loop { poller = state })
      ]))

  -- `query_event`
  unfoldable pub query_event : Loop P → ℕ → Run ℕ
  query_event loop fd =
      if leb loop.view.setsize fd
      then ok ev_none
      else read loop.view.events fd >>= λ ev. ok ev.event

  -- an `event_callback`, by its address, on the loop, the descriptor and the data
  abbrev pub Handler : Type 0
  Handler = (cb fd user_data : ℕ) → Loop P → Run (Loop P)

  -- A callback is called if its event is still wanted and has been reported.
  abbrev pub handle : Handler → (EvEvent → ℕ) → ℕ → EvEvent → EvActive → Loop P → Run (Loop P)
  handle call which mask ev active loop =
      if has (bit_and ev.event active.event) mask
      then call (which ev) active.fd ev.user_data loop
      else ok loop

  -- The rounds of the loop of process_events that are left, from the index `j`. The entry is read
  -- again after the first callback, which may have changed it.
  unfoldable pub dispatch : Handler → ℕ → ℕ → Loop P → Run (Loop P)
  dispatch call zero j loop = ok loop
  dispatch call (suc rounds) j loop = do
    active ← read loop.view.actives j
    ev ← read loop.view.events active.fd
    loop1 ← handle call (λ e. e.on_read) ev_rdable ev active loop
    ev1 ← read loop1.view.events active.fd
    loop2 ← handle call (λ e. e.on_write) ev_wrable ev1 active loop1
    dispatch call rounds (j + 1) loop2

  -- the loop holds the timers
  abbrev pub holds : Holds (Loop P)
  holds = record {
    timers = λ loop. loop.timers;
    with_timers = λ loop st. record loop { timers = st };
  }

  -- `process_events`: the number of callbacks and events; `none` if the timers run out of fuel
  unfoldable pub process_events :
      Handler → Callback (Loop P) → (ℕ → ℕ) → ℕ → Loop P → Run (Option (ℕ × Loop P))
  process_events call callback clock fuel loop = do
    timeout ← get_shortest_msec (clock 0) loop.timers
    (numevents, actives, state) ← poller.poll loop.poller loop.view timeout
    loop' ←
        dispatch call numevents 0
          (record loop { poller = state; view = record (loop.view) { actives = actives } })
    process_time_events holds clock callback fuel 1 loop' numevents
