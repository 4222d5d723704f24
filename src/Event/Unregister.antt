-- ===== src/Event/Unregister.antt =====
-- delete_event of kznet/event.c, and the calls of both operations that are refused.
use libakio.Prelude.{
  ℕ, suc, ◌<◌, ◌≤◌, ◌≡◌, ◌≢◌, ◌⊎◌, inl, inr, refl, ◌∙◌, arith, bit_and, bit_not, true, false, ◌||◌,
  Option, List, length, get_or, set, length-set, ltb, leb, ◌==◌, ==_iff, Bool-cases, ok, read,
  write, read-in, write-in, pos, negsuc, ne→==-false,
}
use libakio.Event.Poller.{EvEvent, ev_none, View, PollerOps}
use libakio.Event.{Loop, update_max, create_event, delete_event}
use libakio.Event.Bound.{
  no_event, event_at, IsBound, IsView, event_at-set_self, event_at-set_ne, update_max-IsView,
}
use libakio.Event.Register.{Registered, registered}

shrunk-IsBound :
    (events : List EvEvent) (fd : ℕ) (ev : EvEvent) (max : Option ℕ)
    → IsBound events max
    → event_at events fd ≢ 0
    → IsBound (set events fd ev) max
shrunk-IsBound events fd ev max bound live i used = elim (Bool-cases (fd == i)) [
  | inl e ↦ bound i (rw (← (==_iff fd i).0 e) live)
  | inr ne ↦ bound i (λ e. used (event_at-set_ne events fd i ev (ground arith) ∙ e))
]

module _ {P : Type 0} (poller : PollerOps P) where
  -- the steps of delete_event, with the result of each named
  delete-run :
      (loop : Loop P) (fd event left : ℕ) (state : P) (ev : EvEvent) (events : List EvEvent)
      (view : View)
      → leb loop.view.setsize fd ≡ false
      → read loop.view.events fd ≡ ok ev
      → (ev.event == ev_none) ≡ false
      → poller.delevent loop.poller loop.view fd event ≡ ok (pos 0, state)
      → left ≡ bit_and ev.event (bit_not 32 event)
      → write loop.view.events fd (record ev { event = left }) ≡ ok events
      → update_max (record (loop.view) { events = events }) fd left ≡ ok view
      → delete_event poller loop fd event ≡ ok (pos 0, record loop { poller = state; view = view })
  unfolding delete_event
  delete-run loop fd event left state ev events view inside here live del is_left wrote bounded =
      rw (inside, here, live, del, ← is_left, wrote, bounded) refl

  -- For any poller: on a loop whose maxfd bounds its events, delete_event of a descriptor with
  -- events that the poller accepts returns 0; query_event then shows the events without the
  -- deleted bits for it and the same as before for every other descriptor, and maxfd is a bound
  -- again.
  pub delete-Registered :
      (loop : Loop P) (fd event : ℕ) (state : P)
      → IsView loop.view
      → fd < loop.view.setsize
      → event_at loop.view.events fd ≢ 0
      → poller.delevent loop.poller loop.view fd event ≡ ok (pos 0, state)
      → (loop' : Loop P) × (delete_event poller loop fd event ≡ ok (pos 0, loop'))
        × Registered poller loop fd
            (bit_and (event_at loop.view.events fd) (bit_not 32 event))
            state
            loop'
  delete-Registered loop fd event state valid inside live del =
      let old : EvEvent = get_or loop.view.events fd no_event in
      let left : ℕ = bit_and old.event (bit_not 32 event) in
      let ev : EvEvent = record old { event = left } in
      let here : fd < length loop.view.events = rw valid.full inside in
      let written : View = record (loop.view) { events = set loop.view.events fd ev } in
      let (max, bounded, valid') =
        update_max-IsView written fd left
          (record {
            full = length-set loop.view.events fd ev ∙ valid.full;
            bound = shrunk-IsBound loop.view.events fd ev loop.view.maxfd valid.bound live;
          })
          inside (event_at-set_self loop.view.events fd ev here) in
      (
        record loop { poller = state; view = record written { maxfd = max } },
        delete-run loop fd event left state old (set loop.view.events fd ev)
            (record written { maxfd = max }) (ground arith)
            (read-in loop.view.events fd no_event here)
            (ne→==-false (event_at loop.view.events fd) 0 live) del refl
            (write-in loop.view.events fd ev here) bounded,
        registered poller loop fd ev max state _ valid inside refl valid',
      )

  create-outside :
      (loop : Loop P) (fd event cb user_data : ℕ)
      → (fd ≡ 0) ⊎ (loop.view.setsize ≤ fd)
      → create_event poller loop fd event (suc cb) user_data ≡ ok (negsuc 0, loop)
  unfolding create_event
  create-outside loop fd event cb user_data out =
      let guard : (ltb fd 1 || leb loop.view.setsize fd) ≡ true = ground arith in rw guard refl

  create-failed :
      (loop : Loop P) (fd event cb user_data code : ℕ) (state : P)
      → 0 < fd
      → fd < loop.view.setsize
      → poller.addevent loop.poller loop.view fd event ≡ ok (negsuc code, state)
      → create_event poller loop fd event (suc cb) user_data
        ≡ ok (negsuc 0, record loop { poller = state })
  unfolding create_event
  create-failed loop fd event cb user_data code state low inside add =
      let guard : (ltb fd 1 || leb loop.view.setsize fd) ≡ false = ground arith in
      rw (guard, add) refl

  -- Why create_event returns -1: a descriptor outside the table, or a poller that refuses it.
  abbrev pub Refuses : Loop P → ℕ → ℕ → Type 0
  Refuses loop fd event =
      ((fd ≡ 0) ⊎ (loop.view.setsize ≤ fd))
      ⊎ ((code : ℕ) × (state : P) × (0 < fd)
          × (fd < loop.view.setsize)
          × (poller.addevent loop.poller loop.view fd event ≡ ok (negsuc code, state)))

  -- Where the descriptor is 0 or outside the table, or the poller returns a negative number,
  -- create_event returns -1 and leaves the table of events, maxfd and the timers as they were.
  pub create-refused :
      (loop : Loop P) (fd event cb user_data : ℕ)
      → Refuses loop fd event
      → (loop' : Loop P) × (create_event poller loop fd event (suc cb) user_data
          ≡ ok (negsuc 0, loop'))
        × (loop'.view ≡ loop.view)
        × (loop'.timers ≡ loop.timers)
  create-refused loop fd event cb user_data (inl out) =
      (loop, create-outside loop fd event cb user_data out, refl, refl)
  create-refused loop fd event cb user_data (inr (code, state, low, inside, add)) = (
    record loop { poller = state },
    create-failed loop fd event cb user_data code state low inside add,
    refl,
    refl,
  )
