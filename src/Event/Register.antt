-- ===== src/Event/Register.antt =====
-- create_event and delete_event of kznet/event.c against the table of events that query_event shows.
use libakio.Prelude.{
  ℕ, ◌<◌, ◌≡◌, ◌≢◌, inl, inr, refl, sym, ap, ◌∙◌, arith, Option, set, get_or-out, leb, Bool-cases,
  ok, read-in,
}
use libakio.Event.Poller.{EvEvent, PollerOps}
use libakio.Event.{Loop, query_event}
use libakio.Event.Bound.{no_event, event_at, IsView, event_at-set_self, event_at-set_ne}

module _ {P : Type 0} (poller : PollerOps P) where
  -- What an operation on a descriptor leaves, where it returned 0 and the poller went to `state`.
  pub record Registered (loop : Loop P) (fd : ℕ) (event : ℕ) (state : P) (loop' : Loop P)
      : Type 0 where
    pub valid : IsView loop'.view
    pub size : loop'.view.setsize ≡ loop.view.setsize
    pub here : query_event poller loop' fd ≡ ok event
    pub others :
        (other : ℕ) → fd ≢ other → query_event poller loop' other ≡ query_event poller loop other
    pub moved : loop'.poller ≡ state

  pub query-event_at :
      (loop : Loop P) (fd : ℕ)
      → IsView loop.view
      → query_event poller loop fd ≡ ok (event_at loop.view.events fd)
  unfolding query_event
  query-event_at loop fd valid = elim (Bool-cases (leb loop.view.setsize fd)) [
    | inl out ↦ rw out (
        ap (λ (e : EvEvent). ok e.event)
          (sym (get_or-out loop.view.events fd no_event (rw valid.full (ground arith)))))
    | inr inside ↦
        rw (inside, read-in loop.view.events fd no_event (rw valid.full (ground arith))) refl
  ]

  -- The table after a write of one entry, with a bound for it.
  pub registered :
      (loop : Loop P) (fd : ℕ) (ev : EvEvent) (max : Option ℕ) (state : P) (loop' : Loop P)
      → IsView loop.view
      → fd < loop.view.setsize
      → loop' ≡ record loop {
        poller = state;
        view = record (loop.view) { events = set loop.view.events fd ev; maxfd = max };
      }
      → IsView loop'.view
      → Registered loop fd ev.event state loop'
  registered loop fd ev max state loop' valid inside eq valid' = record {
    valid = valid';
    size = ap (λ (l : Loop P). l.view.setsize) eq;
    here =
        query-event_at loop' fd valid'
        ∙ ap ok (
            ap (λ (l : Loop P). event_at l.view.events fd) eq
            ∙ event_at-set_self loop.view.events fd ev (rw valid.full inside));
    others = λ other ne.
        query-event_at loop' other valid'
        ∙ ap ok (
            ap (λ (l : Loop P). event_at l.view.events other) eq
            ∙ event_at-set_ne loop.view.events fd other ev ne)
        ∙ sym (query-event_at loop other valid);
    moved = ap (λ (l : Loop P). l.poller) eq;
  }
