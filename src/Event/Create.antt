-- ===== src/Event/Create.antt =====
-- event_loop_create of kznet/event.c: a loop without events and timers.
use libakio.Prelude.{
  ℕ, zero, suc, ◌+◌, ◌<◌, ◌≡◌, inl, inr, refl, ap, ◌∙◌, arith, Bool, true, false, Option, none,
  some, List, length, get_or, set, replicate, length-set, get_or-out, ltb, ◌==◌, ==_iff, Bool-cases,
  if◌then◌else◌, Run, ok, ◌>>=◌, read, write, read-in, write-in,
}
use libakio.Event.{Loop}
use libakio.Event.Poller.{EvEvent, EvActive, ev_none, View}
use libakio.Event.Bound.{no_event, event_at, IsView, event_at-set_self, event_at-set_ne}
use libakio.Timer
use libakio.Timer.Memory.{TimerHeap, Cells}
use libakio.Timer.Push.{IsTimers}

-- What `malloc` finds room for; the two arrays hold anything at first.
pub record Malloc : Type 0 where
  pub loop_fits : Bool
  pub heap_fits : Bool
  pub tes_fits : Bool
  pub events : Option (List EvEvent)
  pub actives : Option (List EvActive)

-- `loop->events[i].event = EV_NONE`, for the rounds that are left from the index `i`
unfoldable pub clear_events : ℕ → ℕ → List EvEvent → Run (List EvEvent)
clear_events zero i events = ok events
clear_events (suc rounds) i events = do
  ev ← read events i
  events' ← write events i (record ev { event = ev_none })
  clear_events rounds (i + 1) events'

module _ {P : Type 0} where
  -- The lines after the allocations, with what they returned.
  unfoldable pub set_up :
      (View → Option P)
      → Cells
      → ℕ
      → Option TimerHeap
      → Option (List EvEvent)
      → Option (List EvActive)
      → Run (Option (Loop P))
  set_up poller_create cells maxevents none events actives = ok none
  set_up poller_create cells maxevents (some heap) none actives = ok none
  set_up poller_create cells maxevents (some heap) (some events) none = ok none
  set_up poller_create cells maxevents (some heap) (some events) (some actives) =
      let view : View = record {
        maxfd = none;
        setsize = maxevents;
        events = events;
        actives = actives;
      } in
      elim (poller_create view) [
        | none ↦ ok none
        | some poller ↦ clear_events maxevents 0 events >>= (λ cleared. ok (
            some (record {
              view = record view { events = cleared };
              poller = poller;
              timers = record { heap = heap; cells = cells };
              stop = false;
            })))
      ]

  -- `event_loop_create`; NULL is `none`
  unfoldable pub create :
      Malloc → (View → Option P) → Cells → (maxevents maxtimers : ℕ) → Run (Option (Loop P))
  create m poller_create cells maxevents maxtimers = elim (m.loop_fits) [
    | false ↦ ok none
    | true ↦
        set_up poller_create cells maxevents (Timer.create m.heap_fits m.tes_fits maxtimers)
          m.events m.actives
  ]

clear_events-run :
    (rounds i : ℕ) (events : List EvEvent)
    → length events ≡ i + rounds
    → ((k : ℕ) → k < i → event_at events k ≡ 0)
    → (cleared : List EvEvent) × ((clear_events rounds i events ≡ ok cleared)
        × ((length cleared ≡ length events) × ((k : ℕ) → event_at cleared k ≡ 0)))
unfolding clear_events
clear_events-run zero i events size done = (
  events,
  (
    refl,
    (
      refl,
      λ k. elim (Bool-cases (ltb k i)) [
        | inl below ↦ done k (ground arith)
        | inr over ↦ ap (λ (e : EvEvent). e.event) (get_or-out events k no_event (ground arith))
      ],
    ),
  ),
)
clear_events-run (suc rounds) i events size done =
    let inside : i < length events = omega (arith, size) in
    let ev : EvEvent = record (get_or events i no_event) { event = ev_none } in
    let (cleared, (run, (same, all))) =
      clear_events-run rounds (i + 1) (set events i ev)
        (length-set events i ev ∙ omega (arith, size))
        (λ k lt. elim (Bool-cases (i == k)) [
          | inl e ↦ rw (← (==_iff i k).0 e) (event_at-set_self events i ev inside)
          | inr ne ↦ event_at-set_ne events i k ev (ground arith) ∙ done k (ground arith)
        ]) in
    (
      cleared,
      (
        rw (read-in events i no_event inside, write-in events i ev inside) run,
        (same ∙ length-set events i ev, all),
      ),
    )

-- The heap of a new loop.
abbrev new_heap : ℕ → TimerHeap
new_heap maxsize = record {
  now = 0;
  all = 16;
  tes = replicate 16 0;
  maxsize = if ltb maxsize 16 then 16 else maxsize;
  allocs = 0;
  size = 0;
  head = 0;
  tail = none;
}

new-IsTimers :
    (maxsize : ℕ) (cells : Cells) → IsTimers (record { heap = new_heap maxsize; cells = cells })
new-IsTimers maxsize cells = record {
  size = refl;
  room = omega arith;
  alive = λ i lt. absurd (omega arith);
  order = λ i pos lt. absurd (omega arith);
}

module _ {P : Type 0} where
  -- A loop of `maxevents` descriptors that waits for nothing and has no timers.
  pub record IsIdle (maxevents : ℕ) (poller : P) (loop : Loop P) : Type 0 where
    pub view : IsView loop.view
    pub size : loop.view.setsize ≡ maxevents
    pub unused : (fd : ℕ) → event_at loop.view.events fd ≡ 0
    pub timers : IsTimers loop.timers
    pub no_timers : loop.timers.heap.now ≡ 0
    pub started : loop.poller ≡ poller

  create-run :
      (m : Malloc) (poller_create : View → Option P) (cells : Cells) (maxevents maxtimers : ℕ)
      → (events cleared : List EvEvent) (actives : List EvActive) (poller : P) → m.loop_fits ≡ true
      → m.heap_fits ≡ true
      → m.tes_fits ≡ true
      → m.events ≡ some events
      → m.actives ≡ some actives
      → poller_create
          (record { maxfd = none; setsize = maxevents; events = events; actives = actives })
        ≡ some poller
      → clear_events maxevents 0 events ≡ ok cleared
      → create m poller_create cells maxevents maxtimers
        ≡ ok (
            some (record {
              view = record {
                maxfd = none;
                setsize = maxevents;
                events = cleared;
                actives = actives;
              };
              poller = poller;
              timers = record { heap = new_heap maxtimers; cells = cells };
              stop = false;
            }))
  unfolding create set_up Timer.create
  create-run m poller_create cells maxevents maxtimers events cleared actives poller h1 h2 h3 h4 h5
        h6 h7 =
      rw (create, h1, h2, h3, h4, h5, h6, h7) refl

  -- With every allocation and poller_create granted, event_loop_create makes a loop over that
  -- poller in which no descriptor has events, whatever the memory held before, maxfd is a bound
  -- and the heap of timers is in order and empty.
  pub create-IsIdle :
      (m : Malloc) (poller_create : View → Option P) (cells : Cells) (maxevents maxtimers : ℕ)
      → (events : List EvEvent) (actives : List EvActive) (poller : P) → m.loop_fits ≡ true
      → m.heap_fits ≡ true
      → m.tes_fits ≡ true
      → m.events ≡ some events
      → length events ≡ maxevents
      → m.actives ≡ some actives
      → poller_create
          (record { maxfd = none; setsize = maxevents; events = events; actives = actives })
        ≡ some poller
      → (loop : Loop P) × ((create m poller_create cells maxevents maxtimers ≡ ok (some loop))
          × IsIdle maxevents poller loop)
  create-IsIdle m poller_create cells maxevents maxtimers events actives poller h1 h2 h3 h4 size h5
        h6 =
      let (cleared, (run, (same, all))) =
        clear_events-run maxevents 0 events (size ∙ omega arith) (λ k lt. absurd (omega arith)) in
      (
        record {
          view = record { maxfd = none; setsize = maxevents; events = cleared; actives = actives };
          poller = poller;
          timers = record { heap = new_heap maxtimers; cells = cells };
          stop = false;
        },
        (
          create-run m poller_create cells maxevents maxtimers events cleared actives poller h1 h2
              h3 h4 h5 h6 run,
          record {
            view = record { full = same ∙ size; bound = λ fd used. absurd (used (all fd)) };
            size = refl;
            unused = all;
            timers = new-IsTimers maxtimers cells;
            no_timers = refl;
            started = refl;
          },
        ),
      )
