-- ===== src/Skiplist/Store.antt =====
-- skiplist_insert of skiplist/skiplist.c as an update of what the list has under its keys.
use Prim.Native.Nat.{Ordering}
use mathlib.Core.Path.{subst}
use libakio.Prelude.{
  ℕ, zero, suc, ◌<◌, ◌≤◌, ◌≡◌, inl, inr, refl, ap, ◌∙◌, arith, true, false, some, List, [], ◌∷◌,
  ◌++◌, length, if◌then◌else◌, ok,
}
use libakio.Skiplist.{
  Skiplist, World, max_level, is_eq, tests, descend, random_level, set_value, insert_new,
  insert_leveled, insert_key, insert,
}
use libakio.Skiplist.Memory.{Ptr, Cells, get_forward}
use libakio.Skiplist.Items.{Item, next_at, Chain-right}
use libakio.Skiplist.Order.{
  IsOrder, Above, Below, Starts, lookup, before, from, before-from, before-Below, from-Starts,
  from-Above, Sorted-append,
}
use libakio.Skiplist.Valid.{IsSkiplist, Heights-left, Heights-right, next_at-first, is_first}
use libakio.Skiplist.Revise.{length-insert, lookup-insert}
use libakio.Skiplist.Level.{level_inside}
use libakio.Skiplist.Locate.{IsLocated, located}
use libakio.Skiplist.Revalue.{set_value-run, revalued, revalued-IsSkiplist, lookup-revalued}
use libakio.Skiplist.Insert.{IsFresh, insert_new-steps, raised, IsLinked-all, inserted-IsSkiplist}

module _ {K : Type 0} (compare : K → K → Ordering) where
  -- The memory holds a list with one pair more or changed, of at most one node more.
  abbrev pub IsStored : K → ℕ → List (Item K) → Skiplist → Cells K → List (Item K) → Type 0
  IsStored key value items list' cells' items' =
      IsSkiplist compare list' cells' items'
      × ((k : K)
          → lookup compare k items'
            ≡ (if is_eq (compare key k) then some value else lookup compare k items))
      × (length items' ≤ suc (length items))

  pub insert_key-new :
      (fuel : ℕ) (w : World) (list : Skiplist) (cells : Cells K) (key : K) (value : ℕ)
      (x next : Ptr) (updates : List Ptr) (level : ℕ) (draws : List ℕ)
      → descend compare fuel cells key list.level list.header w.updates ≡ ok (x, updates)
      → get_forward cells x 0 ≡ ok next
      → tests compare is_eq cells next key ≡ ok false
      → random_level 1 w.draws ≡ some (level, draws)
      → insert_key compare fuel w list cells key value
        ≡ insert_new compare list cells w.block level updates key value
  unfolding insert_key insert_leveled
  insert_key-new fuel w list cells key value x next updates level draws d g t r =
      rw (d, g, t, r) refl

  insert_key-old :
      (fuel : ℕ) (w : World) (list : Skiplist) (cells cells' : Cells K) (key : K) (value : ℕ)
      (x next : Ptr) (updates : List Ptr)
      → descend compare fuel cells key list.level list.header w.updates ≡ ok (x, updates)
      → get_forward cells x 0 ≡ ok next
      → tests compare is_eq cells next key ≡ ok true
      → set_value cells next value ≡ ok cells'
      → insert_key compare fuel w list cells key value ≡ ok (list, cells')
  unfolding insert_key
  insert_key-old fuel w list cells cells' key value x next updates d g t r = rw (d, g, t, r) refl

  -- A pair that is new goes between the nodes below the key and those above it.
  stored_new :
      (fuel : ℕ) (w : World) (list : Skiplist) (cells : Cells K) (lows high : List (Item K))
      (key : K) (value : ℕ) (x : Ptr) (forward : List Ptr) (level : ℕ) (draws updates : List ℕ)
      → IsOrder compare
      → IsSkiplist compare list cells (lows ++ high)
      → IsLocated compare fuel list cells lows high key w.updates updates
      → length w.updates ≡ max_level
      → w.block ≡ some (x, forward)
      → IsFresh compare cells x forward level
      → random_level 1 w.draws ≡ some (level, draws)
      → Below compare key lows
      → Above compare key high
      → is_first compare key high ≡ false
      → (list' : Skiplist) × (cells' : Cells K) × (items' : List (Item K)) × (insert_key compare
            fuel w list cells key value
          ≡ ok (list', cells'))
        × IsStored key value (lows ++ high) list' cells' items'
  stored_new fuel w list cells lows high key value x forward level draws updates order valid loc
        size block fresh draw below above other =
      let (pos, le) = level_inside 1 level w.draws draws (omega arith) draw in
      let (updates', (raise_ok, (size', found))) =
        raised list level updates lows (loc.size ∙ size) le
          (Heights-left list.level lows high valid.heights) loc.found in
      let (cells', (link_ok, linked)) =
        IsLinked-all compare list cells lows high x forward level key value valid fresh le updates'
          size' found in
      (
        _,
        cells',
        lows ++ record { addr = x; key = key; value = value; height = level } ∷ high,
        insert_key-new fuel w list cells key value _ _ updates level draws loc.way loc.next
              (loc.test ∙ ap ok other) draw
            ∙ rw block (
                insert_new-steps compare list cells cells' x forward level updates updates' key
                  value raise_ok link_ok),
        (
          inserted-IsSkiplist compare list cells lows high x forward level key value valid fresh le
              cells' linked pos order below above,
          (λ k. lookup-insert _ high compare order k lows below),
          omega (
            arith,
            length-insert (record { addr = x; key = key; value = value; height = level }) high lows,
          ),
        ),
      )

  -- A key that is there gets the new value.
  stored_old :
      (fuel : ℕ) (w : World) (list : Skiplist) (cells : Cells K) (lows : List (Item K)) (p : Item K)
      (ps : List (Item K)) (key : K) (value : ℕ) (updates : List ℕ)
      → IsOrder compare
      → IsSkiplist compare list cells (lows ++ p ∷ ps)
      → IsLocated compare fuel list cells lows (p ∷ ps) key w.updates updates
      → Below compare key lows
      → compare p.key key ≡ Ordering.eq
      → (list' : Skiplist) × (cells' : Cells K) × (items' : List (Item K)) × (insert_key compare
            fuel w list cells key value
          ≡ ok (list', cells'))
        × IsStored key value (lows ++ p ∷ ps) list' cells' items'
  stored_old fuel w list cells lows p ps key value updates order valid loc below eq =
      let (node, rest) = Chain-right cells lows (p ∷ ps) valid.chain in
      let same : p.key ≡ key = order.same p.key key eq in
      let below' : Below compare p.key lows = rw same below in
      let (cells', (set_ok, change)) =
        set_value-run cells p.addr p.key p.value value node.room node.at in
      let first : next_at 0 (p ∷ ps) ≡ p.addr =
        next_at-first list.level p ps (Heights-right list.level lows (p ∷ ps) valid.heights) in
      (
        list,
        cells',
        lows ++ revalued p ps value ∷ ps,
        insert_key-old fuel w list cells cells' key value _ (next_at 0 (p ∷ ps)) updates loc.way
            loc.next (loc.test ∙ ap (λ o. ok (is_eq o)) eq) (rw first set_ok),
        (
          revalued-IsSkiplist p ps value cells cells' node.room change compare list lows node.high
              below' valid,
          (λ k. rw (← same) (lookup-revalued p ps value compare order k lows below')),
          omega (arith, length-insert p ps lows, length-insert (revalued p ps value) ps lows),
        ),
      )

  stored :
      (fuel : ℕ) (w : World) (list : Skiplist) (cells : Cells K) (lows high : List (Item K))
      (key : K) (value : ℕ) (x : Ptr) (forward : List Ptr) (level : ℕ) (draws updates : List ℕ)
      → IsOrder compare
      → IsSkiplist compare list cells (lows ++ high)
      → IsLocated compare fuel list cells lows high key w.updates updates
      → length w.updates ≡ max_level
      → w.block ≡ some (x, forward)
      → IsFresh compare cells x forward level
      → random_level 1 w.draws ≡ some (level, draws)
      → Below compare key lows
      → Starts compare key high
      → (list' : Skiplist) × (cells' : Cells K) × (items' : List (Item K)) × (insert_key compare
            fuel w list cells key value
          ≡ ok (list', cells'))
        × IsStored key value (lows ++ high) list' cells' items'
  stored fuel w list cells lows [] key value x forward level draws updates order valid loc size
        block fresh draw below start =
      stored_new fuel w list cells lows [] key value x forward level draws updates order valid loc
        size block fresh draw below tt refl
  stored fuel w list cells lows (p ∷ ps) key value x forward level draws updates order valid loc
        size block fresh draw below start =
      elim (from-Above compare order key p ps (Sorted-append compare lows (p ∷ ps) valid.sorted).1
        start) [
          | inr (gt, above) ↦
              stored_new fuel w list cells lows (p ∷ ps) key value x forward level draws updates
                order valid loc size block fresh draw below above (ap is_eq gt)
          | inl (eq, above) ↦
              stored_old fuel w list cells lows p ps key value updates order valid loc below eq
        ]

  step :
      (fuel : ℕ) (w : World) (list list' : Skiplist) (cells cells' : Cells K) (key : K) (value : ℕ)
      → 0 < value
      → insert_key compare fuel w list cells key value ≡ ok (list', cells')
      → insert compare fuel w (some list) cells (some key) value ≡ ok (1, some list', cells')
  unfolding insert
  step fuel w list list' cells cells' key zero pos e = absurd (omega arith)
  step fuel w list list' cells cells' key (suc value) pos e = rw e refl

  insert-split :
      (fuel : ℕ) (w : World) (list : Skiplist) (cells : Cells K) (lows high : List (Item K))
      (key : K) (value : ℕ) (x : Ptr) (forward : List Ptr) (level : ℕ) (draws : List ℕ)
      → IsOrder compare
      → IsSkiplist compare list cells (lows ++ high)
      → length (lows ++ high) < fuel
      → 0 < value
      → length w.updates ≡ max_level
      → w.block ≡ some (x, forward)
      → IsFresh compare cells x forward level
      → random_level 1 w.draws ≡ some (level, draws)
      → Below compare key lows
      → Starts compare key high
      → (list' : Skiplist) × (cells' : Cells K) × (items' : List (Item K)) × (insert compare fuel w
            (some list)
            cells
            (some key)
            value
          ≡ ok (1, some list', cells'))
        × IsStored key value (lows ++ high) list' cells' items'
  insert-split fuel w list cells lows high key value x forward level draws order valid enough pos
        size block fresh draw below start =
      let (updates, loc) =
        located compare fuel list cells lows high key w.updates order valid enough size below
          start in
      let (list', cells', items', run, done) =
        stored fuel w list cells lows high key value x forward level draws updates order valid loc
          size block fresh draw below start in
      (list', cells', items', step fuel w list list' cells cells' key value pos run, done)

  -- With compare a total order, a fresh block from malloc, draws that end _random_level, and fuel
  -- for more rounds a level than the list has nodes, skiplist_insert of a value that is not NULL
  -- into a well-formed list returns 1 and leaves a well-formed list of at most one node more that
  -- has the value under the key and under every other key what it had.
  pub insert-lookup :
      (fuel : ℕ) (w : World) (list : Skiplist) (cells : Cells K) (items : List (Item K)) (key : K)
      (value : ℕ) (x : Ptr) (forward : List Ptr) (level : ℕ) (draws : List ℕ)
      → IsOrder compare
      → IsSkiplist compare list cells items
      → length items < fuel
      → 0 < value
      → length w.updates ≡ max_level
      → w.block ≡ some (x, forward)
      → IsFresh compare cells x forward level
      → random_level 1 w.draws ≡ some (level, draws)
      → (list' : Skiplist) × (cells' : Cells K) × (items' : List (Item K)) × (insert compare fuel w
            (some list)
            cells
            (some key)
            value
          ≡ ok (1, some list', cells'))
        × IsStored key value items list' cells' items'
  insert-lookup fuel w list cells items key value x forward level draws order valid enough pos size
        block fresh draw =
      let split : before compare key items ++ from compare key items ≡ items =
        before-from compare key items in
      subst
        (λ (xs : List (Item K)).
          (list' : Skiplist) × (cells' : Cells K) × (items' : List (Item K)) × (insert compare fuel
              w (some list) cells (some key) value
            ≡ ok (1, some list', cells'))
          × IsStored key value xs list' cells' items')
        split
        (insert-split fuel w list cells (before compare key items) (from compare key items) key
          value x forward level draws order (rw split valid) (rw split enough) pos size block fresh
          draw (before-Below compare key items) (from-Starts compare key items))
