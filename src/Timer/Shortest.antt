-- ===== src/Timer/Shortest.antt =====
-- get_shortest_msec of kznet/timer.c: the root of the heap is the timer that is due first.
use libakio.Prelude.{
  ℕ, zero, suc, ◌-◌, ◌^◌, ◌<◌, ◌≤◌, ◌≡◌, ◌⊎◌, inl, inr, refl, ◌∙◌, arith, none, some, List, ltb,
  Bool-cases, if◌then◌else◌, ok, read, read-in,
}
use libakio.Timer.{parent, heap_top}
use libakio.Timer.Memory.{Ptr, null, Timer, Timers, deref}
use libakio.Timer.Expire.{get_shortest_msec}
use libakio.Timer.Climb.{at, IsHeap}
use libakio.Timer.Moves.{IsAlive, when_of, deref-alive}
use libakio.Timer.Push.{IsTimers}

root_first :
    (when : Ptr → ℕ) (n : ℕ) (tes : List Ptr)
    → IsHeap when n tes
    → (rounds i : ℕ) → i ≤ rounds
    → i < n
    → when (at tes 0) ≤ when (at tes i)
root_first when n tes order rounds zero enough lt = omega arith
root_first when n tes order zero (suc i) enough lt = absurd (omega arith)
root_first when n tes order (suc rounds) (suc i) enough lt = omega (
  arith,
  order (suc i) (omega arith) lt,
  root_first when n tes order rounds (parent (suc i)) (omega arith) (omega arith),
)

-- a wait, cut to an `int`
abbrev clipped : ℕ → ℕ
clipped msec = if ltb (2 ^ 31 - 1) msec then 2 ^ 31 - 1 else msec

shortest-empty :
    (now_msec : ℕ) (st : Timers) → st.heap.now ≡ 0 → get_shortest_msec now_msec st ≡ ok none
unfolding get_shortest_msec heap_top
shortest-empty now_msec st empty = rw (heap_top, empty) refl

shortest-root :
    (now_msec n : ℕ) (st : Timers) (p : Ptr) (t : Timer)
    → st.heap.now ≡ suc n
    → read st.heap.tes 0 ≡ ok (suc p)
    → deref st (suc p) ≡ ok t
    → get_shortest_msec now_msec st ≡ ok (some (clipped (t.when_msec - now_msec)))
unfolding get_shortest_msec heap_top
shortest-root now_msec n st p t used root here = rw (heap_top, used, root, here) refl

-- The wait ends no later than any timer is due, and is not shorter than it must be.
pub record IsShortest (now_msec : ℕ) (st : Timers) (msec : ℕ) : Type 0 where
  pub small : msec < 2 ^ 31
  pub early : (i : ℕ) → i < st.heap.now → msec ≤ when_of st (at st.heap.tes i) - now_msec
  pub tight : (msec ≡ when_of st (at st.heap.tes 0) - now_msec) ⊎ (msec ≡ 2 ^ 31 - 1)

clipped-IsShortest :
    (now_msec : ℕ) (st : Timers)
    → IsTimers st
    → IsShortest now_msec st (clipped (when_of st (at st.heap.tes 0) - now_msec))
clipped-IsShortest now_msec st valid =
    let first : ℕ = when_of st (at st.heap.tes 0) - now_msec in
    let cut : clipped first ≤ first = ground arith in
    record {
      small = ground arith;
      early = λ i lt. omega (
        arith,
        cut,
        root_first (when_of st) st.heap.now st.heap.tes valid.order i i (omega arith) lt,
      );
      tight = elim (Bool-cases (ltb (2 ^ 31 - 1) first)) [
        | inl long ↦ inr (rw long refl)
        | inr short ↦ inl (rw short refl)
      ];
    }

shortest-alive :
    (now_msec n : ℕ) (st : Timers) (p : Ptr)
    → st.heap.now ≡ suc n
    → read st.heap.tes 0 ≡ ok p
    → IsAlive st p
    → get_shortest_msec now_msec st ≡ ok (some (clipped (when_of st p - now_msec)))
shortest-alive now_msec n st zero used root (ne, (t, here)) = absurd (ne refl)
shortest-alive now_msec n st (suc p) used root (ne, (t, here)) =
    shortest-root now_msec n st p t used root (deref-alive st (suc p) t ne here) ∙ rw here refl

-- On a heap in order get_shortest_msec returns -1 if there is no timer, and otherwise a number
-- below 2^31 that is at most the time left of every timer in the heap, and equal to that of the
-- first one or 2^31 - 1.
pub get_shortest_msec-IsShortest :
    (now_msec : ℕ) (st : Timers)
    → IsTimers st
    → ((st.heap.now ≡ 0) × (get_shortest_msec now_msec st ≡ ok none))
      ⊎ ((msec : ℕ) × ((get_shortest_msec now_msec st ≡ ok (some msec))
            × IsShortest now_msec st msec))
get_shortest_msec-IsShortest now_msec st valid = from_count (st.heap.now) refl
  where
    from_count :
        (n : ℕ)
        → st.heap.now ≡ n
        → ((st.heap.now ≡ 0) × (get_shortest_msec now_msec st ≡ ok none))
          ⊎ ((msec : ℕ) × ((get_shortest_msec now_msec st ≡ ok (some msec))
                × IsShortest now_msec st msec))
    from_count zero e = inl (e, shortest-empty now_msec st e)
    from_count (suc n) e = inr (
      clipped (when_of st (at st.heap.tes 0) - now_msec),
      (
        shortest-alive now_msec n st (at st.heap.tes 0) e
            (read-in st.heap.tes 0 null (omega (arith, valid.size, valid.room, e)))
            (valid.alive 0 (omega (arith, e))),
        clipped-IsShortest now_msec st valid,
      ),
    )
