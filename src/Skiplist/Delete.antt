-- ===== src/Skiplist/Delete.antt =====
-- skiplist_delete of skiplist/skiplist.c as a removal from what the list has under its keys.
use Prim.Native.Nat.{Ordering}
use mathlib.Core.Path.{subst}
use libakio.Prelude.{
  ℕ, ◌<◌, ◌≤◌, ◌≡◌, inl, inr, refl, sym, ap, ◌∙◌, arith, true, false, Option, none, some, List, [],
  ◌∷◌, ◌++◌, length, Bool-cases, if◌then◌else◌, ok,
}
use libakio.Skiplist.{Skiplist, max_level, is_eq, tests, descend, delete_node, delete_key, delete}
use libakio.Skiplist.Memory.{Ptr, Cells, get_forward}
use libakio.Skiplist.Items.{Item, next_at, prev_at}
use libakio.Skiplist.Order.{
  IsOrder, Above, Below, Starts, lookup, first_value, lookup-append-Below, lookup-Above,
  lookup-from, before, from, before-from, before-Below, from-Starts, from-Above, Sorted-append,
}
use libakio.Skiplist.Unlink.{unlink-run}
use libakio.Skiplist.Valid.{IsSkiplist, Heights-right, next_at-first, is_first}
use libakio.Skiplist.Revise.{length-insert, lookup-insert}
use libakio.Skiplist.Search.{or_null}
use libakio.Skiplist.Locate.{IsLocated, located}
use libakio.Skiplist.Detach.{it-IsTaken, detached}

module _ {K : Type 0} (compare : K → K → Ordering) where
  -- The memory holds a list without the key, of no more nodes.
  abbrev pub IsDeleted : K → List (Item K) → Skiplist → Cells K → List (Item K) → Type 0
  IsDeleted key items list' cells' items' =
      IsSkiplist compare list' cells' items'
      × ((k : K)
          → lookup compare k items'
            ≡ (if is_eq (compare key k) then none else lookup compare k items))
      × (length items' ≤ length items)

  delete_key-hit :
      (fuel : ℕ) (garbage updates : List Ptr) (list : Skiplist) (cells : Cells K) (key : K)
      (x next : Ptr)
      → descend compare fuel cells key list.level list.header garbage ≡ ok (x, updates)
      → get_forward cells x 0 ≡ ok next
      → tests compare is_eq cells next key ≡ ok true
      → delete_key compare fuel garbage list cells key ≡ delete_node compare list cells next updates
  unfolding delete_key
  delete_key-hit fuel garbage updates list cells key x next d g t = rw (d, g, t) refl

  delete_key-miss :
      (fuel : ℕ) (garbage updates : List Ptr) (list : Skiplist) (cells : Cells K) (key : K)
      (x next : Ptr)
      → descend compare fuel cells key list.level list.header garbage ≡ ok (x, updates)
      → get_forward cells x 0 ≡ ok next
      → tests compare is_eq cells next key ≡ ok false
      → delete_key compare fuel garbage list cells key ≡ ok (0, list, cells)
  unfolding delete_key
  delete_key-miss fuel garbage updates list cells key x next d g t = rw (d, g, t) refl

  -- A key that is not there is looked up in vain before and after.
  lookup-same :
      (order : IsOrder compare) (key k : K) (items : List (Item K))
      → lookup compare key items ≡ none
      → lookup compare k items ≡ (if is_eq (compare key k) then none else lookup compare k items)
  lookup-same order key k items absent = elim (Bool-cases (is_eq (compare key k))) [
    | inr miss ↦ rw miss refl
    | inl hit ↦ let same : key ≡ k = is_eq-same order key k hit in rw (hit, ← same) absent
  ]
    where
      is_eq-same : IsOrder compare → (a b : K) → is_eq (compare a b) ≡ true → a ≡ b
      is_eq-same order a b e = order.same a b (is_eq_sound (compare a b) e)
        where
          is_eq_sound : (o : Ordering) → is_eq o ≡ true → o ≡ Ordering.eq
          is_eq_sound Ordering.lt e = absurd (cc e)
          is_eq_sound Ordering.eq e = refl
          is_eq_sound Ordering.gt e = absurd (cc e)

  lookup-removed :
      (order : IsOrder compare) (k : K) (it : Item K) (lows high : List (Item K))
      → Below compare it.key lows
      → Above compare it.key high
      → lookup compare k (lows ++ high)
        ≡ (if is_eq (compare it.key k) then none else lookup compare k (lows ++ it ∷ high))
  lookup-removed order k it lows high below above =
      let absent : lookup compare it.key (lows ++ high) ≡ none =
        lookup-append-Below compare it.key lows high below
        ∙ lookup-Above compare order it.key high above in
      lookup-same order it.key k (lows ++ high) absent
      ∙ (elim (Bool-cases (is_eq (compare it.key k))) [
        | inl hit ↦ rw hit refl
        | inr miss ↦
            let old : lookup compare k (lows ++ it ∷ high) ≡ lookup compare k (lows ++ high) =
              lookup-insert it high compare order k lows below ∙ rw miss refl in
            rw miss (sym old)
      ])

  deleted_hit :
      (fuel : ℕ) (list : Skiplist) (cells : Cells K) (lows : List (Item K)) (p : Item K)
      (ps : List (Item K)) (key : K) (garbage updates : List Ptr)
      → IsOrder compare
      → IsSkiplist compare list cells (lows ++ p ∷ ps)
      → IsLocated compare fuel list cells lows (p ∷ ps) key garbage updates
      → length garbage ≡ max_level
      → Below compare key lows
      → Above compare key ps
      → compare p.key key ≡ Ordering.eq
      → (list' : Skiplist) × (cells' : Cells K) × (items' : List (Item K)) × (delete_key compare
            fuel garbage list cells key
          ≡ ok (p.value, list', cells'))
        × IsDeleted key (lows ++ p ∷ ps) list' cells' items'
  deleted_hit fuel list cells lows p ps key garbage updates order valid loc size below above eq =
      let same : p.key ≡ key = order.same p.key key eq in
      let (unlinked, (run, taken)) =
        unlink-run p.addr (λ j. prev_at j list.header lows) list.level 0 p.height updates cells
          (it-IsTaken compare list cells lows ps p valid updates (loc.size ∙ size) loc.found) in
      let (list', freed_run, valid') =
        detached compare list cells lows ps p valid unlinked taken updates run in
      let first : next_at 0 (p ∷ ps) ≡ p.addr =
        next_at-first list.level p ps (Heights-right list.level lows (p ∷ ps) valid.heights) in
      (
        list',
        _,
        lows ++ ps,
        delete_key-hit fuel garbage updates list cells key _ _ loc.way loc.next
              (loc.test ∙ ap (λ o. ok (is_eq o)) eq)
            ∙ rw first freed_run,
        (
          valid',
          (λ k. rw (← same) (lookup-removed order k p lows ps (rw same below) (rw same above))),
          omega (arith, length-insert p ps lows),
        ),
      )

  deleted_miss :
      (fuel : ℕ) (list : Skiplist) (cells : Cells K) (lows high : List (Item K)) (key : K)
      (garbage updates : List Ptr)
      → IsOrder compare
      → IsSkiplist compare list cells (lows ++ high)
      → IsLocated compare fuel list cells lows high key garbage updates
      → lookup compare key (lows ++ high) ≡ none
      → is_first compare key high ≡ false
      → (list' : Skiplist) × (cells' : Cells K) × (items' : List (Item K)) × (delete_key compare
            fuel garbage list cells key
          ≡ ok (0, list', cells'))
        × IsDeleted key (lows ++ high) list' cells' items'
  deleted_miss fuel list cells lows high key garbage updates order valid loc absent other = (
    list,
    cells,
    lows ++ high,
    delete_key-miss fuel garbage updates list cells key _ _ loc.way loc.next
        (loc.test ∙ ap ok other),
    (valid, (λ k. lookup-same order key k (lows ++ high) absent), omega arith),
  )

  deleted :
      (fuel : ℕ) (list : Skiplist) (cells : Cells K) (lows high : List (Item K)) (key : K)
      (garbage updates : List Ptr) (order : IsOrder compare)
      → IsSkiplist compare list cells (lows ++ high)
      → IsLocated compare fuel list cells lows high key garbage updates
      → length garbage ≡ max_level
      → Below compare key lows
      → Starts compare key high
      → (list' : Skiplist) × (cells' : Cells K) × (items' : List (Item K)) × (delete_key compare
            fuel garbage list cells key
          ≡ ok (or_null (first_value compare order key high), list', cells'))
        × IsDeleted key (lows ++ high) list' cells' items'
  deleted fuel list cells lows [] key garbage updates order valid loc size below start =
      deleted_miss fuel list cells lows [] key garbage updates order valid loc
        (lookup-append-Below compare key lows [] below) refl
  deleted fuel list cells lows (p ∷ ps) key garbage updates order valid loc size below start =
      elim (from-Above compare order key p ps (Sorted-append compare lows (p ∷ ps) valid.sorted).1
        start) [
          | inr (gt, above) ↦ rw gt (
              deleted_miss fuel list cells lows (p ∷ ps) key garbage updates order valid loc
                (lookup-append-Below compare key lows (p ∷ ps) below
                  ∙ lookup-Above compare order key (p ∷ ps) above)
                (ap is_eq gt))
          | inl (eq, above) ↦ rw eq (
              deleted_hit fuel list cells lows p ps key garbage updates order valid loc size below
                above eq)
        ]

  step :
      (fuel : ℕ) (garbage : List Ptr) (list list' : Skiplist) (cells cells' : Cells K) (key : K)
      (value : ℕ)
      → delete_key compare fuel garbage list cells key ≡ ok (value, list', cells')
      → delete compare fuel garbage (some list) cells (some key) ≡ ok (value, some list', cells')
  unfolding delete
  step fuel garbage list list' cells cells' key value e = rw e refl

  delete-split :
      (fuel : ℕ) (list : Skiplist) (cells : Cells K) (lows high : List (Item K)) (key : K)
      (garbage : List Ptr) (order : IsOrder compare)
      → IsSkiplist compare list cells (lows ++ high)
      → length (lows ++ high) < fuel
      → length garbage ≡ max_level
      → Below compare key lows
      → Starts compare key high
      → (list' : Skiplist) × (cells' : Cells K) × (items' : List (Item K)) × (delete compare fuel
            garbage
            (some list)
            cells
            (some key)
          ≡ ok (or_null (lookup compare key (lows ++ high)), some list', cells'))
        × IsDeleted key (lows ++ high) list' cells' items'
  delete-split fuel list cells lows high key garbage order valid enough size below start =
      let (updates, loc) =
        located compare fuel list cells lows high key garbage order valid enough size below start in
      let (list', cells', items', run, done) =
        deleted fuel list cells lows high key garbage updates order valid loc size below start in
      let value : lookup compare key (lows ++ high) ≡ first_value compare order key high =
        lookup-append-Below compare key lows high below
        ∙ lookup-from compare order key high (Sorted-append compare lows high valid.sorted).1
            start in
      (
        list',
        cells',
        items',
        step fuel garbage list list' cells cells' key _ run
            ∙ ap (λ (o : Option ℕ). ok (or_null o, some list', cells')) (sym value),
        done,
      )

  -- With compare a total order, and fuel for more rounds a level than the list has nodes,
  -- skiplist_delete on a well-formed list returns the value under the key or NULL and leaves a
  -- well-formed list of no more nodes that has nothing under the key and under every other key
  -- what it had.
  pub delete-lookup :
      (fuel : ℕ) (list : Skiplist) (cells : Cells K) (items : List (Item K)) (key : K)
      (garbage : List Ptr)
      → IsOrder compare
      → IsSkiplist compare list cells items
      → length items < fuel
      → length garbage ≡ max_level
      → (list' : Skiplist) × (cells' : Cells K) × (items' : List (Item K)) × (delete compare fuel
            garbage
            (some list)
            cells
            (some key)
          ≡ ok (or_null (lookup compare key items), some list', cells'))
        × IsDeleted key items list' cells' items'
  delete-lookup fuel list cells items key garbage order valid enough size =
      let split : before compare key items ++ from compare key items ≡ items =
        before-from compare key items in
      subst
        (λ (xs : List (Item K)).
          (list' : Skiplist) × (cells' : Cells K) × (items' : List (Item K)) × (delete compare fuel
              garbage (some list) cells (some key)
            ≡ ok (or_null (lookup compare key xs), some list', cells'))
          × IsDeleted key xs list' cells' items')
        split
        (delete-split fuel list cells (before compare key items) (from compare key items) key
          garbage order (rw split valid) (rw split enough) size (before-Below compare key items)
          (from-Starts compare key items))
