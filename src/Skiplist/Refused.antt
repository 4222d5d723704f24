-- ===== src/Skiplist/Refused.antt =====
-- skiplist_insert of skiplist/skiplist.c where malloc has no node for a new key, and the calls of
-- skiplist/skiplist.c that do nothing.
use Prim.Native.Nat.{Ordering}
use libakio.Prelude.{
  ℕ, zero, suc, ◌-◌, ◌<◌, ◌≡◌, inl, inr, refl, sym, ap, ◌∙◌, arith, false, Option, none, some, List,
  [], ◌∷◌, ◌++◌, length, ltb, Bool-cases, if◌then◌else◌, ok, fault, read, read-in,
}
use libakio.Skiplist.{
  Skiplist, World, max_level, is_eq, random_level, raise, link, create_node, insert_new, insert_key,
  insert, search, delete,
}
use libakio.Skiplist.Memory.{Ptr, null, Cells, deref, get_forward, set_forward}
use libakio.Skiplist.Views.{get_forward-run}
use libakio.Skiplist.Items.{Item, prev_at}
use libakio.Skiplist.Order.{
  IsOrder, Below, Starts, lookup, lookup-append-Below, before, from, before-from, before-Below,
  from-Starts,
}
use libakio.Skiplist.Links.{Spot}
use libakio.Skiplist.Valid.{IsSkiplist, Heights-left, prev-Spot, is_first}
use libakio.Skiplist.Level.{level_inside}
use libakio.Skiplist.Locate.{located}
use libakio.Skiplist.Insert.{raised}
use libakio.Skiplist.Store.{insert_key-new}

module _ {K : Type 0} (compare : K → K → Ordering) where
  set_forward-null : (cells : Cells K) (i : ℕ) (q : Ptr) → set_forward cells null i q ≡ fault
  unfolding set_forward deref
  set_forward-null cells i q = refl

  link-null :
      (level : ℕ) (updates : List Ptr) (cells : Cells K) (p next : Ptr)
      → 0 < level
      → read updates 0 ≡ ok p
      → get_forward cells p 0 ≡ ok next
      → link level 0 null updates cells ≡ fault
  unfolding link
  link-null zero updates cells p next pos r g = absurd (omega arith)
  link-null (suc level) updates cells p next pos r g = rw (r, g, set_forward-null cells 0 next) refl

  insert_new-null :
      (list : Skiplist) (cells : Cells K) (level : ℕ) (updates updates' : List Ptr) (key : K)
      (value : ℕ)
      → (if ltb list.level level
          then raise (level - list.level) list.level list.header updates
          else ok updates)
        ≡ ok updates'
      → link level 0 null updates' cells ≡ fault
      → insert_new compare list cells none level updates key value ≡ fault
  unfolding insert_new create_node
  insert_new-null list cells level updates updates' key value r l = rw (r, l) refl

  not_first :
      (order : IsOrder compare) (key : K) (lows high : List (Item K))
      → Below compare key lows
      → Starts compare key high
      → lookup compare key (lows ++ high) ≡ none
      → is_first compare key high ≡ false
  not_first order key lows [] below start absent = refl
  not_first order key lows (p ∷ ps) below start absent =
      elim (Bool-cases (is_eq (compare p.key key))) [
        | inr miss ↦ miss
        | inl hit ↦
            let found : lookup compare key (p ∷ ps) ≡ some p.value = rw hit refl in
            absurd
              (cc (sym found ∙ sym (lookup-append-Below compare key lows (p ∷ ps) below) ∙ absent))
      ]

  step :
      (fuel : ℕ) (w : World) (list : Skiplist) (cells : Cells K) (key : K) (value : ℕ)
      → 0 < value
      → insert_key compare fuel w list cells key value ≡ fault
      → insert compare fuel w (some list) cells (some key) value ≡ fault
  unfolding insert
  step fuel w list cells key zero pos e = absurd (omega arith)
  step fuel w list cells key (suc value) pos e = rw e refl

  split_fault :
      (fuel : ℕ) (w : World) (list : Skiplist) (cells : Cells K) (lows high : List (Item K))
      (key : K) (value level : ℕ) (draws : List ℕ)
      → IsOrder compare
      → IsSkiplist compare list cells (lows ++ high)
      → length (lows ++ high) < fuel
      → length w.updates ≡ max_level
      → w.block ≡ none
      → random_level 1 w.draws ≡ some (level, draws)
      → Below compare key lows
      → Starts compare key high
      → lookup compare key (lows ++ high) ≡ none
      → insert_key compare fuel w list cells key value ≡ fault
  split_fault fuel w list cells lows high key value level draws order valid enough size block draw
        below start absent =
      let (pos, le) = level_inside 1 level w.draws draws (omega arith) draw in
      let (updates, loc) =
        located compare fuel list cells lows high key w.updates order valid enough size below
          start in
      let (updates', (raise_ok, (size', found))) =
        raised list level updates lows (loc.size ∙ size) le
          (Heights-left list.level lows high valid.heights) loc.found in
      let spot : Spot cells (prev_at 0 list.header lows) 0 =
        prev-Spot cells list.header 0 lows high (omega arith) valid.header valid.chain in
      let first : read updates' 0 ≡ ok (prev_at 0 list.header lows) =
        read-in updates' 0 null (omega (arith, size')) ∙ ap ok (found 0 pos) in
      insert_key-new compare fuel w list cells key value _ _ updates level draws loc.way loc.next
        (loc.test ∙ ap ok (not_first order key lows high below start absent)) draw
      ∙ rw block (
          insert_new-null list cells level updates updates' key value raise_ok (
            link-null level updates' cells _ _ pos first (
              get_forward-run cells (prev_at 0 list.header lows) 0 spot.shape spot.at spot.inside)))

  -- With compare a total order, draws that end _random_level, and fuel for more rounds a level
  -- than the list has nodes, skiplist_insert of a new key and a value that is not NULL into a
  -- well-formed list faults if malloc has no block for the node.
  pub insert-fault :
      (fuel : ℕ) (w : World) (list : Skiplist) (cells : Cells K) (items : List (Item K)) (key : K)
      (value level : ℕ) (draws : List ℕ)
      → IsOrder compare
      → IsSkiplist compare list cells items
      → length items < fuel
      → 0 < value
      → length w.updates ≡ max_level
      → w.block ≡ none
      → random_level 1 w.draws ≡ some (level, draws)
      → lookup compare key items ≡ none
      → insert compare fuel w (some list) cells (some key) value ≡ fault
  insert-fault fuel w list cells items key value level draws order valid enough pos size block draw
        absent =
      let split : before compare key items ++ from compare key items ≡ items =
        before-from compare key items in
      step fuel w list cells key value pos (
        split_fault fuel w list cells (before compare key items) (from compare key items) key value
          level draws order (rw split valid) (rw split enough) size block draw
          (before-Below compare key items) (from-Starts compare key items) (rw split absent))

  -- A NULL list or key, and a NULL value for an insertion.
  pub refused :
      (fuel : ℕ) (w : World) (garbage : List Ptr) (list : Option Skiplist) (cells : Cells K)
      (key : Option K) (value : ℕ)
      → (insert compare fuel w none cells key value ≡ ok (0, none, cells))
        × (insert compare fuel w list cells none value ≡ ok (0, list, cells))
        × (insert compare fuel w list cells key 0 ≡ ok (0, list, cells))
        × (search compare fuel none cells key ≡ ok 0)
        × (search compare fuel list cells none ≡ ok 0)
        × (delete compare fuel garbage none cells key ≡ ok (0, none, cells))
        × (delete compare fuel garbage list cells none ≡ ok (0, list, cells))
  unfolding insert search delete
  refused fuel w garbage none cells none value = (refl, refl, refl, refl, refl, refl, refl)
  refused fuel w garbage none cells (some key) value = (refl, refl, refl, refl, refl, refl, refl)
  refused fuel w garbage (some list) cells none value = (refl, refl, refl, refl, refl, refl, refl)
  refused fuel w garbage (some list) cells (some key) value =
      (refl, refl, refl, refl, refl, refl, refl)
