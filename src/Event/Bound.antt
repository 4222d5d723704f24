-- ===== src/Event/Bound.antt =====
-- The bound `maxfd` of kznet/event.c, below which all descriptors with events lie.
use libakio.Prelude.{
  ℕ, zero, suc, ◌<◌, ◌≤◌, ◌≡◌, ◌≢◌, inl, inr, refl, ap, ◌∙◌, arith, Bool, true, false, ◌&&◌, Option,
  none, some, List, length, get_or, set, get_or-set_self, get_or-set_ne, ltb, ◌==◌, ==_iff,
  Bool-cases, if◌then◌else◌, ok, read-in,
}
use libakio.Event.Poller.{EvEvent, ev_none, View}
use libakio.Event.{above, is_max, lower, update_max}

abbrev pub no_event : EvEvent
no_event = record { event = 0; user_data = 0; on_read = 0; on_write = 0 }

-- the events that are wanted of a descriptor
abbrev pub event_at : List EvEvent → ℕ → ℕ
event_at events fd = (get_or events fd no_event).event

-- Every descriptor with an event is at most `maxfd`.
abbrev pub IsBound : List EvEvent → Option ℕ → Type 0
IsBound events maxfd = (fd : ℕ) → event_at events fd ≢ 0 → above fd maxfd ≡ false

-- the table has `setsize` entries, and `maxfd` bounds those in use
pub record IsView (view : View) : Type 0 where
  pub full : length view.events ≡ view.setsize
  pub bound : IsBound view.events view.maxfd

pub event_at-set_self :
    (events : List EvEvent) (fd : ℕ) (ev : EvEvent)
    → fd < length events
    → event_at (set events fd ev) fd ≡ ev.event
event_at-set_self events fd ev inside =
    ap (λ (e : EvEvent). e.event) (get_or-set_self events fd ev no_event inside)

pub event_at-set_ne :
    (events : List EvEvent) (fd other : ℕ) (ev : EvEvent)
    → fd ≢ other
    → event_at (set events fd ev) other ≡ event_at events other
event_at-set_ne events fd other ev ne =
    ap (λ (e : EvEvent). e.event) (get_or-set_ne events fd other ev no_event ne)

lower-step :
    (j : ℕ) (events : List EvEvent) (maxfd : ℕ)
    → j < length events
    → lower (suc j) events maxfd ≡ (if event_at events j == 0 then lower j events j else ok maxfd)
unfolding lower
lower-step j events maxfd inside = rw (read-in events j no_event inside) refl

unused-down :
    (j : ℕ) (events : List EvEvent)
    → ((fd : ℕ) → suc j ≤ fd → event_at events fd ≡ 0)
    → event_at events j ≡ 0
    → (fd : ℕ) → j ≤ fd
    → event_at events fd ≡ 0
unused-down j events unused here fd from = elim (Bool-cases (j == fd)) [
  | inl e ↦ rw (← (==_iff j fd).0 e) here
  | inr ne ↦ unused fd (ground arith)
]

-- Where nothing is wanted beyond `maxfd`, it is a bound.
unused-IsBound :
    (events : List EvEvent) (maxfd : ℕ)
    → ((fd : ℕ) → maxfd < fd → event_at events fd ≡ 0)
    → IsBound events (some maxfd)
unused-IsBound events maxfd unused fd used = elim (Bool-cases (ltb maxfd fd)) [
  | inl over ↦ absurd (used (unused fd (ground arith)))
  | inr fine ↦ fine
]

-- Where nothing is wanted from `j` on, the loop ends at a bound.
lower-IsBound :
    (j : ℕ) (events : List EvEvent) (maxfd : ℕ)
    → j ≤ length events
    → j ≤ maxfd
    → ((fd : ℕ) → j ≤ fd → event_at events fd ≡ 0)
    → (m : ℕ) × (lower j events maxfd ≡ ok m) × IsBound events (some m)
unfolding lower
lower-IsBound zero events maxfd inside top unused =
    (maxfd, refl, unused-IsBound events maxfd (λ fd over. unused fd (omega arith)))
lower-IsBound (suc j) events maxfd inside top unused = elim (Bool-cases (event_at events j == 0)) [
  | inl free ↦
      let none_here : event_at events j ≡ 0 = (==_iff (event_at events j) 0).0 free in
      let (m, run, bound) =
        lower-IsBound j events j (omega arith) (omega arith)
          (unused-down j events unused none_here) in
      (
        m,
        lower-step j events maxfd (omega arith)
            ∙ ap (λ (b : Bool). if b then lower j events j else ok maxfd) free
            ∙ run,
        bound,
      )
  | inr live ↦ (
    maxfd,
    lower-step j events maxfd (omega arith)
        ∙ ap (λ (b : Bool). if b then lower j events j else ok maxfd) live,
    unused-IsBound events maxfd (λ fd over. unused fd (omega arith)),
  )
]

-- Nothing is wanted above the bound.
beyond :
    (events : List EvEvent) (maxfd : Option ℕ) (fd : ℕ)
    → IsBound events maxfd
    → is_max fd maxfd ≡ true
    → (i : ℕ) → fd < i
    → event_at events i ≡ 0
beyond events none fd bound top i over = absurd (ground arith)
beyond events (some m) fd bound top i over = elim (Bool-cases (event_at events i == 0)) [
  | inl free ↦ (==_iff (event_at events i) 0).0 free
  | inr live ↦ let stays : ltb m i ≡ false = bound i (λ e. ground arith) in absurd (ground arith)
]

-- The end of delete_event: the bound stays one when the event of one descriptor shrinks.
pub update_max-IsView :
    (view : View) (fd left : ℕ)
    → IsView view
    → fd < view.setsize
    → event_at view.events fd ≡ left
    → (max : Option ℕ) × (update_max view fd left ≡ ok (record view { maxfd = max }))
      × IsView (record view { maxfd = max })
update_max-IsView view fd left valid inside here =
    elim (Bool-cases (is_max fd view.maxfd && left == ev_none)) [
      | inr keep ↦ (view.maxfd, rw keep refl, valid)
      | inl free ↦
          let (m, run, bound) =
            lower-IsBound fd view.events fd (rw valid.full (omega arith)) (omega arith) (
              unused-down fd view.events
                (beyond view.events view.maxfd fd valid.bound (ground arith))
                (here ∙ (==_iff left 0).0 (ground arith))) in
          (some m, rw (free, run) refl, record { full = valid.full; bound = bound })
    ]
