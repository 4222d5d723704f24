-- ===== src/Timer/Lower.antt =====
-- _shift_down of kznet/timer.c runs without a fault and leaves the array of `sink`.
use libakio.Prelude.{
  ℕ, zero, suc, ◌+◌, ◌-◌, ◌*◌, ◌<◌, ◌≤◌, ◌≡◌, inl, inr, refl, sym, ap, ◌∙◌, arith, true, false,
  List, length, set, length-set, get_or-set_self, get_or-set_ne, ltb, leb, ◌==◌, ==_iff, Bool,
  Bool-cases, if◌then◌else◌, ok, read-in,
}
use libakio.Timer.{smaller_child, shift_down}
use libakio.Timer.Memory.{Ptr, null, TimerHeap, Timers, place, elem_greater}
use libakio.Timer.Climb.{at}
use libakio.Timer.Sink.{pick, sink, sink-stop, sink-go, sink-leaf, IsPick, pick-IsPick}
use libakio.Timer.Moves.{IsKept, IsKept-twice, IsSound, place-run, greater-alive}

child-only :
    (st : Timers) (child : ℕ)
    → (child == st.heap.now) ≡ true
    → smaller_child st child ≡ ok (child - 1)
unfolding smaller_child
child-only st child only = rw only refl

child-both :
    (st : Timers) (child : ℕ) (b : Bool)
    → (child == st.heap.now) ≡ false
    → child < length st.heap.tes
    → elem_greater st (at st.heap.tes child) (at st.heap.tes (child - 1)) ≡ ok b
    → smaller_child st child ≡ ok (if b then child - 1 else child)
unfolding smaller_child
child-both st child b both inside test =
    rw
      (
        both,
        read-in st.heap.tes child null inside,
        read-in st.heap.tes (child - 1) null (omega arith),
        test,
      )
      refl

down-leaf :
    (rounds : ℕ) (st : Timers) (h : ℕ) (t : Ptr)
    → leb (2 * (h + 1)) st.heap.now ≡ false
    → shift_down (suc rounds) st h t ≡ place st h t
unfolding shift_down
down-leaf rounds st h t leaf = rw leaf refl

down-stop :
    (rounds : ℕ) (st : Timers) (h c : ℕ) (t : Ptr)
    → leb (2 * (h + 1)) st.heap.now ≡ true
    → smaller_child st (2 * (h + 1)) ≡ ok c
    → c < length st.heap.tes
    → elem_greater st t (at st.heap.tes c) ≡ ok false
    → shift_down (suc rounds) st h t ≡ place st h t
unfolding shift_down
down-stop rounds st h c t more child inside fits =
    rw (more, child, read-in st.heap.tes c null inside, fits) refl

down-go :
    (rounds : ℕ) (st st' : Timers) (h c : ℕ) (t : Ptr)
    → leb (2 * (h + 1)) st.heap.now ≡ true
    → smaller_child st (2 * (h + 1)) ≡ ok c
    → c < length st.heap.tes
    → elem_greater st t (at st.heap.tes c) ≡ ok true
    → place st h (at st.heap.tes c) ≡ ok st'
    → shift_down (suc rounds) st h t ≡ shift_down rounds st' c t
unfolding shift_down
down-go rounds st st' h c t more child inside later put =
    rw (more, child, read-in st.heap.tes c null inside, later, put) refl

module _ (when : Ptr → ℕ) (n : ℕ) (t : Ptr) where
  -- The child of the code is that of `pick`.
  child-pick :
      (st : Timers) (h : ℕ)
      → st.heap.now ≡ n
      → 2 * (h + 1) ≤ n
      → IsSound when n t st h
      → smaller_child st (2 * (h + 1)) ≡ ok (pick when n st.heap.tes h)
  child-pick st h now le sound =
      let right : ℕ = 2 * (h + 1) in
      elim (Bool-cases (right == n)) [
        | inl only ↦ child-only st right (ap (λ (k : ℕ). right == k) now ∙ only) ∙ rw only refl
        | inr both ↦
            let apart : right < n = ground arith in
            let test : elem_greater st (at st.heap.tes right) (at st.heap.tes (right - 1))
                ≡ ok (ltb (when (at st.heap.tes (right - 1))) (when (at st.heap.tes right))) =
              greater-alive st (at st.heap.tes right) (at st.heap.tes (right - 1))
                (sound.others right apart (λ e. omega (arith, e)))
                (sound.others (right - 1) (omega arith) (λ e. omega (arith, e)))
              ∙ rw (sound.agree (at st.heap.tes right), sound.agree (at st.heap.tes (right - 1)))
                  refl in
            child-both st right _ (ap (λ (k : ℕ). right == k) now ∙ both)
              (omega (arith, sound.room)) test
            ∙ rw both refl
      ]

  lowered-IsSound :
      (st st' : Timers) (h c : ℕ)
      → h < length st.heap.tes
      → c < n
      → h < c
      → IsSound when n t st h
      → st'.heap ≡ record (st.heap) { tes = set st.heap.tes h (at st.heap.tes c) }
      → IsKept st st'
      → IsSound when n t st' c
  lowered-IsSound st st' h c inside lt deeper sound eq kept =
      let tes : List Ptr = st.heap.tes in
      let array : st'.heap.tes ≡ set tes h (at tes c) = ap (λ (hp : TimerHeap). hp.tes) eq in
      record {
        room = rw (array, length-set tes h (at tes c)) sound.room;
        others = λ i i_lt ne. kept.alive (at st'.heap.tes i) (
            rw array (elim (Bool-cases (h == i)) [
              | inl e ↦
                  rw (← (==_iff h i).0 e, get_or-set_self tes h (at tes c) null inside)
                    (sound.others c lt (λ q. omega (arith, deeper, q)))
              | inr other ↦
                  rw (get_or-set_ne tes h i (at tes c) null (ground arith))
                    (sound.others i i_lt (ground arith))
            ]));
        waiting = kept.alive t sound.waiting;
        agree = λ p. kept.times p ∙ sound.agree p;
      }

  pub shift_down-sink :
      (rounds : ℕ) (st : Timers) (h : ℕ)
      → st.heap.now ≡ n
      → n < h + rounds
      → h ≤ n
      → h < length st.heap.tes
      → IsSound when n t st h
      → (st' : Timers) × (shift_down rounds st h t ≡ ok st')
        × (st'.heap ≡ record (st.heap) { tes = sink when n t rounds st.heap.tes h })
        × IsKept st st'
  shift_down-sink zero st h now enough le inside sound = absurd (omega arith)
  shift_down-sink (suc rounds) st h now enough le inside sound =
      let (placed, put, eq, kept) = place-run st h t inside sound.waiting in
      let tes : List Ptr = st.heap.tes in
      elim (Bool-cases (leb (2 * (h + 1)) n)) [
        | inr leaf ↦ (
          placed,
          down-leaf rounds st h t (ap (λ (k : ℕ). leb (2 * (h + 1)) k) now ∙ leaf) ∙ put,
          eq
              ∙ ap (λ (a : List Ptr). record (st.heap) { tes = a })
                  (sym (sink-leaf when n t rounds tes h leaf)),
          kept,
        )
        | inl more ↦
            let c : ℕ = pick when n tes h in
            let more' : leb (2 * (h + 1)) st.heap.now ≡ true =
              ap (λ (k : ℕ). leb (2 * (h + 1)) k) now ∙ more in
            let picked : IsPick when n tes h c = pick-IsPick when n tes h (ground arith) in
            let child = child-pick st h now (ground arith) sound in
            let alive_c = sound.others c picked.inside (λ e. omega (arith, picked.deeper, e)) in
            let test : elem_greater st t (at tes c) ≡ ok (ltb (when (at tes c)) (when t)) =
              greater-alive st t (at tes c) sound.waiting alive_c
              ∙ rw (sound.agree t, sound.agree (at tes c)) refl in
            let c_in : c < length tes = omega (arith, picked.inside, sound.room) in
            elim (Bool-cases (ltb (when (at tes c)) (when t))) [
              | inr fits ↦ (
                placed,
                down-stop rounds st h c t more' child c_in (test ∙ ap ok fits) ∙ put,
                eq
                    ∙ ap (λ (a : List Ptr). record (st.heap) { tes = a })
                        (sym (sink-stop when n t rounds tes h more fits)),
                kept,
              )
              | inl later ↦
                  let (st1, put1, eq1, kept1) = place-run st h (at tes c) inside alive_c in
                  let array : st1.heap.tes ≡ set tes h (at tes c) =
                    ap (λ (hp : TimerHeap). hp.tes) eq1 in
                  let (st', run, eq', kept') =
                    shift_down-sink rounds st1 c (ap (λ (hp : TimerHeap). hp.now) eq1 ∙ now)
                      (omega (arith, picked.deeper)) (omega (arith, picked.inside))
                      (rw (array, length-set tes h (at tes c)) c_in)
                      (lowered-IsSound st st1 h c inside picked.inside picked.deeper sound eq1
                        kept1) in
                  (
                    st',
                    down-go rounds st st1 h c t more' child c_in (test ∙ ap ok later) put1 ∙ run,
                    eq'
                        ∙ ap (λ (hp : TimerHeap). record hp { tes = sink when n t rounds hp.tes c })
                            eq1
                        ∙ ap (λ (a : List Ptr). record (st.heap) { tes = a })
                            (sym (sink-go when n t rounds tes h more later)),
                    IsKept-twice st st1 st' kept1 kept',
                  )
            ]
      ]
