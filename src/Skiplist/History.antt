-- ===== src/Skiplist/History.antt =====
-- The lists that a program can come to with the calls of skiplist/skiplist.c, and the map that its
-- calls describe.
use Prim.Native.Nat.{Ordering}
use mathlib.Core.Path.{subst}
use libakio.Prelude.{
  ℕ, suc, ◌<◌, ◌≤◌, ◌≡◌, ◌≢◌, refl, sym, ap, ◌∙◌, arith, true, Option, none, some, List, [], length,
  if◌then◌else◌, Run, ok, fault,
}
use libakio.Skiplist.{Skiplist, World, max_level, is_eq, random_level, new, search, insert, delete}
use libakio.Skiplist.Memory.{Ptr, null, Cells}
use libakio.Skiplist.Items.{Item}
use libakio.Skiplist.Order.{IsOrder, lookup}
use libakio.Skiplist.Valid.{IsSkiplist}
use libakio.Skiplist.Search.{or_null, search-lookup}
use libakio.Skiplist.Insert.{IsFresh}
use libakio.Skiplist.Store.{insert-lookup}
use libakio.Skiplist.Delete.{delete-lookup}
use libakio.Skiplist.Make.{new-IsSkiplist}

module _ {K : Type 0} {A : Type 0} where
  abbrev list_after : Skiplist → Run (A × Option Skiplist × Cells K) → Skiplist
  list_after d fault = d
  list_after d (ok (a, none, cells)) = d
  list_after d (ok (a, some list, cells)) = list

  abbrev pub cells_after : Cells K → Run (A × Option Skiplist × Cells K) → Cells K
  cells_after d fault = d
  cells_after d (ok (a, list, cells)) = cells

module _ {K : Type 0} where
  abbrev new_list : Skiplist → Run (Option Skiplist × Cells K) → Skiplist
  new_list d fault = d
  new_list d (ok (none, cells)) = d
  new_list d (ok (some list, cells)) = list

  abbrev pub new_cells : Cells K → Run (Option Skiplist × Cells K) → Cells K
  new_cells d fault = d
  new_cells d (ok (list, cells)) = cells

module _ {K : Type 0} (compare : K → K → Ordering) where
  -- the abstract map of an insertion and of a deletion
  abbrev pub assign : K → Option ℕ → (K → Option ℕ) → K → Option ℕ
  assign key o m k = if is_eq (compare key k) then o else m k

  -- A list after calls of which at most `n` were insertions, with the map that they describe.
  pub data Reach : ℕ → Skiplist → Cells K → (K → Option ℕ) → Type 0 where
    made :
        (header : Ptr) (forward : List Ptr) (cells : Cells K) (list : Skiplist) (cells' : Cells K)
        → header ≢ null
        → max_level ≤ length forward
        → new true (some (header, forward)) cells ≡ ok (some list, cells')
        → Reach 0 list cells' (λ k. none)
    inserted :
        (n : ℕ) (list : Skiplist) (cells : Cells K) (m : K → Option ℕ) (w : World) (key : K)
        (value result : ℕ) (x : Ptr) (forward : List Ptr) (level : ℕ) (draws : List ℕ) (fuel : ℕ)
        (list' : Skiplist) (cells' : Cells K)
        → Reach n list cells m
        → n < fuel
        → 0 < value
        → length w.updates ≡ max_level
        → w.block ≡ some (x, forward)
        → IsFresh compare cells x forward level
        → random_level 1 w.draws ≡ some (level, draws)
        → insert compare fuel w (some list) cells (some key) value ≡ ok (result, some list', cells')
        → Reach (suc n) list' cells' (assign key (some value) m)
    deleted :
        (n : ℕ) (list : Skiplist) (cells : Cells K) (m : K → Option ℕ) (garbage : List Ptr)
        (key : K) (result fuel : ℕ) (list' : Skiplist) (cells' : Cells K)
        → Reach n list cells m
        → n < fuel
        → length garbage ≡ max_level
        → delete compare fuel garbage (some list) cells (some key) ≡ ok (result, some list', cells')
        → Reach n list' cells' (assign key none m)

  -- The memory holds a list of at most `n` nodes that has under its keys what the map says.
  abbrev pub Represents : ℕ → Skiplist → Cells K → (K → Option ℕ) → Type 0
  Represents n list cells m =
      (items : List (Item K)) × IsSkiplist compare list cells items
      × ((k : K) → lookup compare k items ≡ m k)
      × (length items ≤ n)

  assigned :
      (key k : K) (o : Option ℕ) (items : List (Item K)) (m : K → Option ℕ)
      → lookup compare k items ≡ m k
      → (if is_eq (compare key k) then o else lookup compare k items) ≡ assign key o m k
  assigned key k o items m e = rw e refl

  moved :
      {n : ℕ} {list list' : Skiplist} {cells cells' : Cells K} {m : K → Option ℕ}
      → list ≡ list'
      → cells ≡ cells'
      → Represents n list cells m
      → Represents n list' cells' m
  moved {n} {list} {list'} {cells} {cells'} {m} e f rep =
      subst (λ (l : Skiplist). Represents n l cells' m) e
        (subst (λ (c : Cells K). Represents n list c m) f rep)

  pub Reach-Represents :
      IsOrder compare
      → {n : ℕ} {list : Skiplist} {cells : Cells K} {m : K → Option ℕ} → Reach n list cells m
      → Represents n list cells m
  Reach-Represents order (made header forward cells list cells' valid fits run) =
      let (list1, cells1, run1, good) = new-IsSkiplist compare header forward cells valid fits in
      let e = sym run1 ∙ run in
      moved (ap (λ r. new_list list r) e) (ap (λ r. new_cells cells' r) e)
        ([], good, (λ k. refl), omega arith)
  Reach-Represents order
        (inserted n list cells m w key value result x forward level draws fuel list' cells' reach
          enough pos size block fresh draw run) =
      let (items, good, same, short) = Reach-Represents order reach in
      let (list1, cells1, items1, run1, (good1, same1, short1)) =
        insert-lookup compare fuel w list cells items key value x forward level draws order good
          (omega arith) pos size block fresh draw in
      let e = sym run1 ∙ run in
      moved (ap (λ r. list_after list r) e) (ap (λ r. cells_after cells r) e)
        (items1, good1, (λ k. same1 k ∙ assigned key k (some value) items m (same k)), omega arith)
  Reach-Represents order
        (deleted n list cells m garbage key result fuel list' cells' reach enough size run) =
      let (items, good, same, short) = Reach-Represents order reach in
      let (list1, cells1, items1, run1, (good1, same1, short1)) =
        delete-lookup compare fuel list cells items key garbage order good (omega arith) size in
      let e = sym run1 ∙ run in
      moved (ap (λ r. list_after list r) e) (ap (λ r. cells_after cells r) e)
        (items1, good1, (λ k. same1 k ∙ assigned key k none items m (same k)), omega arith)

  -- With compare a total order, after any calls of skiplist_new, skiplist_insert and
  -- skiplist_delete that started with a granted skiplist_new and whose insertions got fresh blocks
  -- and draws that end _random_level, with fuel for more rounds a level than there were
  -- insertions, skiplist_search returns what the map that the calls describe has under the key, or
  -- NULL.
  pub search-Reach :
      (order : IsOrder compare) (n fuel : ℕ) (list : Skiplist) (cells : Cells K) (m : K → Option ℕ)
      (key : K)
      → Reach n list cells m
      → n < fuel
      → search compare fuel (some list) cells (some key) ≡ ok (or_null (m key))
  search-Reach order n fuel list cells m key reach enough =
      let (items, good, same, short) = Reach-Represents order reach in
      search-lookup compare order fuel list cells items key good (omega arith)
      ∙ ap (λ (o : Option ℕ). ok (or_null o)) (same key)
