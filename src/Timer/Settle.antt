-- ===== src/Timer/Settle.antt =====
-- The last lines of _heap_delete and _heap_adjust of kznet/timer.c: a timer goes up or down from an
-- index, to a place where the order allows it.
use libakio.Prelude.{
  ℕ, zero, suc, ◌+◌, ◌<◌, ◌≤◌, ◌≡◌, ◌≢◌, inl, inr, refl, ap, ◌∙◌, arith, Bool, true, false, List,
  length, ltb, ltb→lt, ltb-false→le, Bool-cases, ok, read-in,
}
use libakio.Timer.{parent, shift_up, shift_down, is_below_parent, settle}
use libakio.Timer.Memory.{Ptr, null, Timers}
use libakio.Timer.Climb.{
  at, climb, IsHeap, IsOpen, climb-IsHeap, climb-keeps, climb-has, climb-all, length-climb,
}
use libakio.Timer.Sink.{sink, IsSinking, sink-IsHeap, sink-keeps, sink-has, sink-all, length-sink}
use libakio.Timer.Moves.{IsKept, IsSound, greater-alive, shift_up-climb}
use libakio.Timer.Lower.{shift_down-sink}

module _ (when : Ptr → ℕ) (n : ℕ) (last : Ptr) where
  -- The array after `last` has been put at `i`, in order again.
  pub record IsSettled (tes tes' : List Ptr) (i : ℕ) : Type 1 where
    pub order : IsHeap when n tes'
    pub size : length tes' ≡ length tes
    pub all :
        (P : Ptr → Type 0)
        → P last
        → ((k : ℕ) → k < n → k ≢ i → P (at tes k))
        → (k : ℕ) → k < n
        → P (at tes' k)
    pub keeps : (k : ℕ) → k < n → k ≢ i → (j : ℕ) × (j < n) × (at tes' j ≡ at tes k)
    pub has : i < n → (j : ℕ) × (j < n) × (at tes' j ≡ last)

  -- whether the parent is due after `last`
  abbrev is_later : List Ptr → ℕ → Bool
  is_later tes zero = false
  is_later tes (suc k) = ltb (when last) (when (at tes (parent (suc k))))

  below_parent :
      (st : Timers) (i : ℕ)
      → IsSound when n last st i
      → i ≤ n
      → i < length st.heap.tes
      → is_below_parent st i last ≡ ok (is_later st.heap.tes i)
  unfolding is_below_parent
  below_parent st zero sound le inside = refl
  below_parent st (suc k) sound le inside =
      let above : Ptr = at st.heap.tes (parent (suc k)) in
      rw
        (
          read-in st.heap.tes (parent (suc k)) null (omega arith),
          greater-alive st above last
              (sound.others (parent (suc k)) (omega arith) (λ e. omega (arith, e))) sound.waiting,
          sound.agree last,
          sound.agree above,
        )
        refl

  settle-up :
      (st : Timers) (i : ℕ)
      → is_below_parent st i last ≡ ok true
      → settle st i last ≡ shift_up (i + 1) st i last
  unfolding settle
  settle-up st i e = rw e refl

  settle-down :
      (st : Timers) (i : ℕ)
      → is_below_parent st i last ≡ ok false
      → settle st i last ≡ shift_down (st.heap.now + 1) st i last
  unfolding settle
  settle-down st i e = rw e refl

  module _ (tes : List Ptr) (i : ℕ) (order : IsHeap when (n + 1) tes) (le : i ≤ n) where
    not_later : is_later tes i ≡ false → 0 < i → when (at tes (parent i)) ≤ when last
    not_later = by_index i
      where
        by_index : (i : ℕ) → is_later tes i ≡ false → 0 < i → when (at tes (parent i)) ≤ when last
        by_index zero e more = absurd (omega arith)
        by_index (suc k) e more = ltb-false→le _ _ e

    is_later_sound : is_later tes i ≡ true → (0 < i) × (when last < when (at tes (parent i)))
    is_later_sound = by_index i
      where
        by_index :
            (i : ℕ) → is_later tes i ≡ true → (0 < i) × (when last < when (at tes (parent i)))
        by_index zero e = absurd (cc e)
        by_index (suc k) e = (omega arith, ltb→lt _ _ e)

    over_hole :
        (k : ℕ) → 0 < k → k < n → parent k ≡ i → 0 < i → when (at tes (parent i)) ≤ when (at tes k)
    over_hole k k_pos lt e i_pos =
        let first = order i i_pos (omega arith) in
        let second : when (at tes i) ≤ when (at tes k) = rw (← e) (order k k_pos (omega arith)) in
        omega (arith, first, second)

    gap_up : is_later tes i ≡ true → IsOpen when n last tes i
    gap_up e =
        let (i_pos, later) = is_later_sound e in
        record {
          away = λ k k_pos lt ne pne. order k k_pos (omega arith);
          below = λ k k_pos lt par. omega (arith, over_hole k k_pos lt par i_pos, later);
          across = over_hole;
        }

    gap_down : is_later tes i ≡ false → IsSinking when n last tes i
    gap_down e = record {
      away = λ k k_pos lt ne pne. order k k_pos (omega arith);
      across = over_hole;
      above = λ i_pos lt. not_later e i_pos;
    }

  -- `settle` puts the last timer where the order allows it.
  pub settle-IsSettled :
      (st : Timers) (i : ℕ)
      → st.heap.now ≡ n
      → IsHeap when (n + 1) st.heap.tes
      → last ≡ at st.heap.tes n
      → i ≤ n
      → n < length st.heap.tes
      → IsSound when n last st i
      → (st' : Timers) × (tes' : List Ptr) × (settle st i last ≡ ok st')
        × (st'.heap ≡ record (st.heap) { tes = tes' })
        × IsKept st st'
        × IsSettled st.heap.tes tes' i
  settle-IsSettled st i now order is_last le full sound =
      let tes : List Ptr = st.heap.tes in
      let test = below_parent st i sound le (omega arith) in
      elim (Bool-cases (is_later tes i)) [
        | inl up ↦
            let (i_pos, later) = is_later_sound tes i order le up in
            let used : i < n = omega (arith, heap_end tes i order le i_pos later is_last) in
            let (st', run, eq, kept) =
              shift_up-climb when n last (i + 1) st i (omega arith) used sound in
            (
              st',
              climb when (i + 1) tes i last,
              settle-up st i (test ∙ ap ok up) ∙ run,
              eq,
              kept,
              record {
                order =
                    climb-IsHeap when n last (i + 1) tes i (omega arith) (omega arith) used
                      (gap_up tes i order le up);
                size = length-climb when n last (i + 1) tes i;
                all = λ P new all k lt.
                    climb-all when n last P (i + 1) tes i (omega arith) (omega arith) used new all k
                      lt;
                keeps = λ k lt ne.
                    climb-keeps when n last (i + 1) tes i k (omega arith) (omega arith) used lt ne;
                has = λ lt. climb-has when n last (i + 1) tes i (omega arith) (omega arith) used;
              },
            )
        | inr down ↦
            let (st', run, eq, kept) =
              shift_down-sink when n last (st.heap.now + 1) st i now (omega (arith, now)) le
                (omega arith) sound in
            (
              st',
              sink when n last (st.heap.now + 1) tes i,
              settle-down st i (test ∙ ap ok down) ∙ run,
              eq,
              kept,
              record {
                order =
                    sink-IsHeap when n last (st.heap.now + 1) tes i (omega (arith, now)) le
                      (omega arith) (omega arith) (gap_down tes i order le down);
                size = length-sink when n last (st.heap.now + 1) tes i;
                all = λ P new all k lt.
                    sink-all when n last P (st.heap.now + 1) tes i (omega (arith, now)) le
                      (omega arith) (omega arith) new all k lt;
                keeps = λ k lt ne.
                    sink-keeps when n last (st.heap.now + 1) tes i k (omega (arith, now)) le
                      (omega arith) (omega arith) lt ne;
                has = λ lt.
                    sink-has when n last (st.heap.now + 1) tes i (omega (arith, now)) lt
                      (omega arith) (omega arith);
              },
            )
      ]
    where
      -- The parent of the last index is not due after the last timer.
      heap_end :
          (tes : List Ptr) (i : ℕ)
          → IsHeap when (n + 1) tes
          → i ≤ n
          → 0 < i
          → when last < when (at tes (parent i))
          → last ≡ at tes n
          → i ≢ n
      heap_end tes i order le i_pos later is_last e =
          let edge = order i i_pos (omega arith) in
          omega (arith, edge, later, ap (λ (k : ℕ). when (at tes k)) e, ap when is_last)
