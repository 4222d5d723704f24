-- ===== src/Timer/Moves.antt =====
-- _shift_up of kznet/timer.c runs without a fault and leaves the array of `climb`.
use libakio.Prelude.{
  ℕ, zero, suc, ◌<◌, ◌≤◌, ◌≡◌, ◌≢◌, inl, inr, refl, ap, ◌∙◌, arith, true, false, Option, none, some,
  List, length, set, length-set, get_or-set_self, get_or-set_ne, ltb, ◌==◌, ==_iff, Bool-cases,
  ne→==-false, ok, read-in, write-in,
}
use libakio.Timer.{parent, shift_up}
use libakio.Timer.Memory.{
  Ptr, null, Timer, TimerHeap, Timers, update, deref, assign, place, elem_greater,
}
use libakio.Timer.Climb.{at, climb}

-- a timer is allocated at the address
abbrev pub IsAlive : Timers → Ptr → Type 0
IsAlive st p = (p ≢ null) × ((t : Timer) × (st.cells p ≡ some t))

abbrev pub due : Option Timer → ℕ
due none = 0
due (some t) = t.when_msec

-- the time of the timer at an address
abbrev pub when_of : Timers → Ptr → ℕ
when_of st p = due (st.cells p)

pub deref-alive :
    (st : Timers) (p : Ptr) (t : Timer) → p ≢ null → st.cells p ≡ some t → deref st p ≡ ok t
unfolding deref
deref-alive st p t ne here = rw (ne→==-false p null ne, here) refl

-- What moving timers about keeps: the times, and which timers there are.
pub record IsKept (st st' : Timers) : Type 0 where
  pub times : (p : Ptr) → when_of st' p ≡ when_of st p
  pub alive : (p : Ptr) → IsAlive st p → IsAlive st' p

pub update-IsKept :
    (st : Timers) (heap : TimerHeap) (p : Ptr) (t : Timer) (i : Option ℕ)
    → st.cells p ≡ some t
    → IsKept st
        (record { heap = heap; cells = update st.cells p (some (record t { min_heap_idx = i })) })
unfolding update
update-IsKept st heap p t i here = record {
  times = λ q. elim (Bool-cases (q == p)) [
    | inl e ↦ let eq : q ≡ p = (==_iff q p).0 e in rw (e, eq, here) refl
    | inr ne ↦ rw ne refl
  ];
  alive = λ q (q_ne, (u, q_here)). elim (Bool-cases (q == p)) [
    | inl e ↦ (q_ne, (record t { min_heap_idx = i }, rw e refl))
    | inr ne ↦ (q_ne, (u, rw ne q_here))
  ];
}

-- `place` at an index of the array
pub place-run :
    (st : Timers) (i : ℕ) (p : Ptr)
    → i < length st.heap.tes
    → IsAlive st p
    → (st' : Timers) × (place st i p ≡ ok st')
      × (st'.heap ≡ record (st.heap) { tes = set st.heap.tes i p })
      × IsKept st st'
unfolding place assign
place-run st i p inside (ne, (t, here)) = (
  record {
    heap = record (st.heap) { tes = set st.heap.tes i p };
    cells = update st.cells p (some (record t { min_heap_idx = some i }));
  },
  rw (write-in st.heap.tes i p inside, deref-alive st p t ne here) refl,
  refl,
  update-IsKept st _ p t (some i) here,
)

pub greater-alive :
    (st : Timers) (a b : Ptr)
    → IsAlive st a
    → IsAlive st b
    → elem_greater st a b ≡ ok (ltb (when_of st b) (when_of st a))
unfolding elem_greater
greater-alive st a b (a_ne, (t, a_here)) (b_ne, (u, b_here)) =
    rw (deref-alive st a t a_ne a_here, deref-alive st b u b_ne b_here, a_here, b_here) refl

pub IsKept-twice : (a b c : Timers) → IsKept a b → IsKept b c → IsKept a c
IsKept-twice a b c first second = record {
  times = λ p. second.times p ∙ first.times p;
  alive = λ p alive. second.alive p (first.alive p alive);
}

-- the two ways that a round of _shift_up goes
shift_up-stop :
    (rounds : ℕ) (st : Timers) (h : ℕ) (t : Ptr)
    → suc h < length st.heap.tes
    → elem_greater st (at st.heap.tes (parent (suc h))) t ≡ ok false
    → shift_up (suc rounds) st (suc h) t ≡ place st (suc h) t
unfolding shift_up
shift_up-stop rounds st h t inside fits =
    rw (read-in st.heap.tes (parent (suc h)) null (omega arith), fits) refl

shift_up-go :
    (rounds : ℕ) (st st' : Timers) (h : ℕ) (t : Ptr)
    → suc h < length st.heap.tes
    → elem_greater st (at st.heap.tes (parent (suc h))) t ≡ ok true
    → place st (suc h) (at st.heap.tes (parent (suc h))) ≡ ok st'
    → shift_up (suc rounds) st (suc h) t ≡ shift_up rounds st' (parent (suc h)) t
unfolding shift_up
shift_up-go rounds st st' h t inside later put =
    rw (read-in st.heap.tes (parent (suc h)) null (omega arith), later, put) refl

module _ (when : Ptr → ℕ) (n : ℕ) (t : Ptr) where
  -- The timers of the array outside the hole, and the one that waits, are allocated.
  pub record IsSound (st : Timers) (h : ℕ) : Type 0 where
    pub room : n ≤ length st.heap.tes
    pub others : (i : ℕ) → i < n → i ≢ h → IsAlive st (at st.heap.tes i)
    pub waiting : IsAlive st t
    pub agree : (p : Ptr) → when_of st p ≡ when p

  moved-IsSound :
      (st st' : Timers) (h : ℕ)
      → suc h < n
      → IsSound st (suc h)
      → st'.heap
        ≡ record (st.heap) { tes = set st.heap.tes (suc h) (at st.heap.tes (parent (suc h))) }
      → IsKept st st'
      → IsSound st' (parent (suc h))
  moved-IsSound st st' h used sound eq kept =
      let tes : List Ptr = st.heap.tes in
      let above : Ptr = at tes (parent (suc h)) in
      let array : st'.heap.tes ≡ set tes (suc h) above = ap (λ (hp : TimerHeap). hp.tes) eq in
      record {
        room = rw (array, length-set tes (suc h) above) sound.room;
        others = λ i lt ne. kept.alive (at st'.heap.tes i) (
            rw array (elim (Bool-cases (suc h == i)) [
              | inl e ↦
                  rw
                    (
                      ← (==_iff (suc h) i).0 e,
                      get_or-set_self tes (suc h) above null (omega (arith, sound.room)),
                    )
                    (sound.others (parent (suc h)) (omega arith) (λ e. omega (arith, e)))
              | inr other ↦
                  rw (get_or-set_ne tes (suc h) i above null (ground arith))
                    (sound.others i lt (ground arith))
            ]));
        waiting = kept.alive t sound.waiting;
        agree = λ p. kept.times p ∙ sound.agree p;
      }

  later_test :
      (st : Timers) (h : ℕ)
      → suc h < n
      → IsSound st (suc h)
      → elem_greater st (at st.heap.tes (parent (suc h))) t
        ≡ ok (ltb (when t) (when (at st.heap.tes (parent (suc h)))))
  later_test st h used sound =
      let above : Ptr = at st.heap.tes (parent (suc h)) in
      greater-alive st above t (sound.others (parent (suc h)) (omega arith) (λ e. omega (arith, e)))
        sound.waiting
      ∙ rw (sound.agree t, sound.agree above) refl

  pub shift_up-climb :
      (rounds : ℕ) (st : Timers) (h : ℕ)
      → h < rounds
      → h < n
      → IsSound st h
      → (st' : Timers) × (shift_up rounds st h t ≡ ok st')
        × (st'.heap ≡ record (st.heap) { tes = climb when rounds st.heap.tes h t })
        × IsKept st st'
  unfolding shift_up climb
  shift_up-climb zero st h enough used sound = absurd (omega arith)
  shift_up-climb (suc rounds) st zero enough used sound =
      place-run st zero t (omega (arith, sound.room)) sound.waiting
  shift_up-climb (suc rounds) st (suc h) enough used sound =
      let above : Ptr = at st.heap.tes (parent (suc h)) in
      let inside : suc h < length st.heap.tes = omega (arith, sound.room) in
      elim (Bool-cases (ltb (when t) (when above))) [
        | inr fits ↦
            let (st', run, eq, kept) = place-run st (suc h) t inside sound.waiting in
            (
              st',
              shift_up-stop rounds st h t inside (later_test st h used sound ∙ ap ok fits) ∙ run,
              eq ∙ rw fits refl,
              kept,
            )
        | inl later ↦
            let (st1, put, eq1, kept1) =
              place-run st (suc h) above inside
                (sound.others (parent (suc h)) (omega arith) (λ e. omega (arith, e))) in
            let (st', run, eq, kept) =
              shift_up-climb rounds st1 (parent (suc h)) (omega arith) (omega arith)
                (moved-IsSound st st1 h used sound eq1 kept1) in
            (
              st',
              shift_up-go rounds st st1 h t inside (later_test st h used sound ∙ ap ok later) put
                  ∙ run,
              eq
                  ∙ ap
                      (λ (hp : TimerHeap). record hp {
                        tes = climb when rounds hp.tes (parent (suc h)) t;
                      })
                      eq1
                  ∙ rw later refl,
              IsKept-twice st st1 st' kept1 kept,
            )
      ]
