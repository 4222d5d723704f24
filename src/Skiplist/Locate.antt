-- ===== src/Skiplist/Locate.antt =====
-- The part that skiplist_insert and skiplist_delete of skiplist/skiplist.c share: the way down to the
-- place of a key, with the last node of each level before it.
use Prim.Native.Nat.{Ordering}
use libakio.Prelude.{ℕ, ◌<◌, ◌≡◌, ap, ◌∙◌, arith, List, ◌++◌, length, length-append, get_or, ok}
use libakio.Skiplist.{Skiplist, max_level, is_eq, tests, descend}
use libakio.Skiplist.Memory.{Ptr, null, Cells, get_forward}
use libakio.Skiplist.Views.{get_forward-run}
use libakio.Skiplist.Items.{Item, next_at, prev_at, Chain-right}
use libakio.Skiplist.Order.{IsOrder, Below, Starts, Sorted-append}
use libakio.Skiplist.Walk.{Beyond, descend-run}
use libakio.Skiplist.Links.{Spot}
use libakio.Skiplist.Valid.{
  IsSkiplist, Heights-right, header-IsStop, prev-Spot, prev-fwd, Starts-Beyond, is_first,
  tests-first, last_at-level,
}

module _ {K : Type 0} (compare : K → K → Ordering) where
  -- What is known when the loops have ended, with `updates` for the array.
  pub record IsLocated (fuel : ℕ) (list : Skiplist) (cells : Cells K) (lows high : List (Item K))
      (key : K) (garbage updates : List Ptr) : Type 0 where
    pub way :
        descend compare fuel cells key list.level list.header garbage
        ≡ ok (prev_at 0 list.header lows, updates)
    pub size : length updates ≡ length garbage
    pub found : (j : ℕ) → j < list.level → get_or updates j null ≡ prev_at j list.header lows
    pub next : get_forward cells (prev_at 0 list.header lows) 0 ≡ ok (next_at 0 high)
    pub test : tests compare is_eq cells (next_at 0 high) key ≡ ok (is_first compare key high)

  pub located :
      (fuel : ℕ) (list : Skiplist) (cells : Cells K) (lows high : List (Item K)) (key : K)
      (garbage : List Ptr)
      → IsOrder compare
      → IsSkiplist compare list cells (lows ++ high)
      → length (lows ++ high) < fuel
      → length garbage ≡ max_level
      → Below compare key lows
      → Starts compare key high
      → (updates : List Ptr) × IsLocated fuel list cells lows high key garbage updates
  located fuel list cells lows high key garbage order valid enough size below start =
      let beyond : Beyond compare key high =
        Starts-Beyond compare order key high (Sorted-append compare lows high valid.sorted).1
          start in
      let (updates, (run, done)) =
        descend-run compare cells key high beyond fuel list.level list.header lows garbage
          (omega (arith, length-append lows high)) (omega (arith, size, valid.level_max))
          (header-IsStop cells list.header list.level (lows ++ high) valid.level_max valid.header)
          valid.chain below in
      let spot : Spot cells (prev_at 0 list.header lows) 0 =
        prev-Spot cells list.header 0 lows high (omega arith) valid.header valid.chain in
      (
        updates,
        record {
          way =
              run
              ∙ ap (λ (p : Ptr). ok (p, updates))
                  (last_at-level compare cells key high beyond list.level list.header lows
                    valid.level_pos);
          size = done.size;
          found = done.found;
          next =
              get_forward-run cells (prev_at 0 list.header lows) 0 spot.shape spot.at spot.inside
              ∙ ap ok
                  (prev-fwd cells list.header 0 lows high (omega arith) valid.header valid.chain);
          test =
              tests-first compare cells key list.level high
                (Heights-right list.level lows high valid.heights)
                (Chain-right cells lows high valid.chain);
        },
      )
