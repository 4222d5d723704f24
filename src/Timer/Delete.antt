-- ===== src/Timer/Delete.antt =====
-- _heap_delete of kznet/timer.c takes one timer out of the heap and keeps the order of the others.
use libakio.Prelude.{
  ℕ, suc, ◌+◌, ◌-◌, ◌<◌, ◌≡◌, ◌≢◌, inl, inr, refl, ap, ◌∙◌, arith, none, some, List, length, ◌==◌,
  ==_iff, Bool-cases, ok, read, read-in,
}
use libakio.Timer.{parent, settle, heap_delete}
use libakio.Timer.Memory.{Ptr, null, Timer, TimerHeap, Timers, update, deref, assign}
use libakio.Timer.Climb.{at}
use libakio.Timer.Moves.{IsAlive, when_of, IsKept, update-IsKept, deref-alive}
use libakio.Timer.Push.{IsTimers, Stands}
use libakio.Timer.Settle.{settle-IsSettled}

-- What a removal leaves: one timer less, and no other lost.
pub record IsDeleted (st : Timers) (t : Ptr) (i : ℕ) (st' : Timers) : Type 0 where
  pub valid : IsTimers st'
  pub count : st.heap.now ≡ st'.heap.now + 1
  pub old : (k : ℕ) → k < st.heap.now → k ≢ i → Stands st' (at st.heap.tes k)
  pub kept : IsKept st st'

delete-steps :
    (st st' : Timers) (t last : Ptr) (n i : ℕ) (timer timer' : Timer)
    → st.heap.now ≡ suc n
    → read st.heap.tes n ≡ ok last
    → deref st t ≡ ok timer
    → timer.min_heap_idx ≡ some i
    → settle (record st { heap = record (st.heap) { now = n } }) i last ≡ ok st'
    → deref st' t ≡ ok timer'
    → heap_delete st t ≡ ok (assign st' t (some (record timer' { min_heap_idx = none })))
unfolding heap_delete deref assign
delete-steps st st' t last n i timer timer' now r d idx s d' = rw (now, r, d, idx, s, d') refl

-- On a heap in order, _heap_delete of a timer that stands at its index runs without a fault; the
-- heap is in order again with one timer less, every other timer still stands in it, and no time of
-- a timer has changed.
pub heap_delete-IsDeleted :
    (st : Timers) (t : Ptr) (timer : Timer) (i : ℕ)
    → IsTimers st
    → st.cells t ≡ some timer
    → timer.min_heap_idx ≡ some i
    → i < st.heap.now
    → at st.heap.tes i ≡ t
    → (st' : Timers) × (heap_delete st t ≡ ok st') × IsDeleted st t i st'
unfolding assign
heap_delete-IsDeleted st t timer i valid here idx inside stands =
    let n : ℕ = st.heap.now - 1 in
    let now : st.heap.now ≡ suc n = omega arith in
    let tes : List Ptr = st.heap.tes in
    let last : Ptr = at tes n in
    let when : Ptr → ℕ = when_of st in
    let st1 : Timers = record st { heap = record (st.heap) { now = n } } in
    let full : n < length tes = omega (arith, valid.size, valid.room, now) in
    let alive_t : IsAlive st t = (rw (← stands) (valid.alive i inside).0, (timer, here)) in
    let (st2, tes2, run, eq, kept, settled) =
      settle-IsSettled when n last st1 i refl
        (λ k k_pos lt. valid.order k k_pos (omega (arith, now))) refl (omega (arith, now)) full
        (record {
          room = omega (arith, full);
          others = λ k lt ne. valid.alive k (omega (arith, now));
          waiting = valid.alive n (omega (arith, now));
          agree = λ p. refl;
        }) in
    let (t_ne, (timer2, there)) = kept.alive t alive_t in
    let array : st2.heap.tes ≡ tes2 = ap (λ (hp : TimerHeap). hp.tes) eq in
    let same_now : st2.heap.now ≡ n = ap (λ (hp : TimerHeap). hp.now) eq in
    let same_all : st2.heap.all ≡ st.heap.all = ap (λ (hp : TimerHeap). hp.all) eq in
    let marked = update-IsKept st2 st2.heap t timer2 none there in
    let st3 : Timers = record st2 {
      cells = update st2.cells t (some (record timer2 { min_heap_idx = none }));
    } in
    let all_kept : IsKept st st3 = record {
      times = λ p. marked.times p ∙ kept.times p;
      alive = λ p alive. marked.alive p (kept.alive p alive);
    } in
    (
      st3,
      delete-steps st st2 t last n i timer timer2 now (read-in tes n null full)
          (deref-alive st t timer alive_t.0 here) idx run (deref-alive st2 t timer2 t_ne there),
      record {
        valid = record {
          size = rw (array, same_all) (settled.size ∙ valid.size);
          room = omega (arith, same_now, same_all, valid.room, now);
          alive = λ k lt. rw array (
              settled.all (λ p. IsAlive st3 p)
                (all_kept.alive last (valid.alive n (omega (arith, now))))
                (λ j j_lt ne. all_kept.alive (at tes j) (valid.alive j (omega (arith, now)))) k
                (omega (arith, same_now)));
          order = λ k k_pos lt.
              rw
                (
                  all_kept.times (at st2.heap.tes (parent k)),
                  all_kept.times (at st2.heap.tes k),
                  array,
                )
                (settled.order k k_pos (omega (arith, same_now)));
        };
        count = omega (arith, same_now, now);
        old = λ k lt ne. elim (Bool-cases (k == n)) [
          | inl at_end ↦
              let same : k ≡ n = (==_iff k n).0 at_end in
              let (j, below, found) = settled.has (omega (arith, same, ne)) in
              (j, (omega (arith, below, same_now), rw (array, found, same) refl))
          | inr other ↦
              let k_lt : k < n =
                (let k_ne : k ≢ n = (λ e. ground arith) in omega (arith, k_ne, now, lt)) in
              let (j, below, found) = settled.keeps k k_lt ne in
              (j, (omega (arith, below, same_now), rw array found))
        ];
        kept = all_kept;
      },
    )
