-- ===== src/Skiplist.antt =====
-- skiplist/skiplist.c: a map from keys to values as a sorted list with towers of pointers. Keys are
-- of any type, and `compare` stands for the sign of the function that the caller gives.
pub mod Memory
pub mod Views
pub mod Items
pub mod Order
pub mod Stops
pub mod Walk
pub mod Splice
pub mod Links
pub mod Unlink
pub mod Valid
pub mod Search
pub mod Revise
pub mod Level
pub mod Locate
pub mod Revalue
pub mod Fresh
pub mod Insert
pub mod Store
pub mod Lower
pub mod Detach
pub mod Delete
pub mod Make
pub mod Free
pub mod History
pub mod Refused
mod Tests
use Prim.Native.Nat.{Ordering}
use libakio.Prelude.{
  ℕ, zero, suc, ◌+◌, ◌-◌, ◌*◌, ◌^◌, bit_and, Bool, true, false, ◌&&◌, ◌||◌, Option, none, some,
  List, [], ◌∷◌, replicate, ltb, ◌==◌, if◌then◌else◌, Run, ok, fault, ◌>>=◌, read, write, wrap,
}
use libakio.Skiplist.Memory.{Ptr, null, Node, Cells, update, deref, get_forward, set_forward}

-- SKIPLIST_MAXLEVEL
abbrev pub max_level : ℕ
max_level = 32

-- `struct skiplist`; `len` is its `length`
pub record Skiplist : Type 0 where
  pub level : ℕ
  pub len : ℕ
  pub header : Ptr
  pub tail : Ptr

-- What `malloc` returns for a node: NULL, or an address and whatever the pointers of the block hold.
abbrev pub Block : Type 0
Block = Option (Ptr × List Ptr)

-- `(random() & 0xFFFF) < (SKIPLIST_P * 0xFFFF)`, where the product is 16383.75
abbrev pub is_promoted : ℕ → Bool
is_promoted draw = ltb (bit_and draw 0xFFFF) 16384

-- `_random_level` from a level on, with what `random` returns and what it has left then; `none` if
-- the loop needs more draws.
unfoldable pub random_level : ℕ → List ℕ → Option (ℕ × List ℕ)
random_level level [] = none
random_level level (draw ∷ draws) =
    let rest = random_level (level + 1) draws in
    if is_promoted draw
    then rest
    else some (if ltb level max_level then level else max_level, draws)

-- `skiplist_length`
unfoldable pub get_length : Option Skiplist → ℕ
get_length none = 0
get_length (some list) = list.len

-- `update[i] = header`, for the rounds that are left from the level `i`
unfoldable pub raise : ℕ → ℕ → Ptr → List Ptr → Run (List Ptr)
raise zero i header updates = ok updates
raise (suc rounds) i header updates =
    write updates i header >>= λ updates'. raise rounds (i + 1) header updates'

-- What `random` returns until the level is found, the block of the new node, and what the array
-- `update` holds at first.
pub record World : Type 0 where
  pub draws : List ℕ
  pub block : Block
  pub updates : List Ptr

abbrev pub is_lt : Ordering → Bool
is_lt Ordering.lt = true
is_lt Ordering.eq = false
is_lt Ordering.gt = false

abbrev pub is_eq : Ordering → Bool
is_eq Ordering.lt = false
is_eq Ordering.eq = true
is_eq Ordering.gt = false

module _ {K : Type 0} where
  -- `_create_node`
  unfoldable pub create_node : Block → Option K → ℕ → Cells K → Ptr × Cells K
  create_node none key value cells = (null, cells)
  create_node (some (p, forward)) key value cells =
      (p, update cells p (some (record { key = key; value = value; forward = forward })))

  -- `header->forward[i] = NULL`, for the rounds that are left from the level `i`
  unfoldable pub clear_forward : ℕ → ℕ → Ptr → Cells K → Run (Cells K)
  clear_forward zero i header cells = ok cells
  clear_forward (suc rounds) i header cells =
      set_forward cells header i null >>= λ cells'. clear_forward rounds (i + 1) header cells'

  -- `skiplist_new`; the header is not tested for NULL
  unfoldable pub new : (struct_fits : Bool) → Block → Cells K → Run (Option Skiplist × Cells K)
  new false block cells = ok (none, cells)
  new true block cells = do
    let (header, with_header) = create_node block none 0 cells
    cleared ← clear_forward max_level 0 header with_header
    ok (some (record { level = 1; len = 0; header = header; tail = null }), cleared)

  -- The loop of `skiplist_free`; `fuel` is more than the nodes that are left.
  unfoldable pub free_loop : ℕ → Ptr → Cells K → Run (Cells K)
  free_loop zero node cells = fault
  free_loop (suc fuel) zero cells = ok cells
  free_loop (suc fuel) (suc p) cells = do
    next ← get_forward cells (suc p) 0
    free_loop fuel next (update cells (suc p) none)

  -- `skiplist_free`
  unfoldable pub free : ℕ → Option Skiplist → Cells K → Run (Cells K)
  free fuel none cells = ok cells
  free fuel (some list) cells = do
    node ← get_forward cells list.header 0
    free_loop fuel node (update cells list.header none)

  -- `x->forward[i] = update[i]->forward[i]; update[i]->forward[i] = x;`, for the rounds left from `i`
  unfoldable pub link : ℕ → ℕ → Ptr → List Ptr → Cells K → Run (Cells K)
  link zero i x updates cells = ok cells
  link (suc rounds) i x updates cells = do
    before ← read updates i
    next ← get_forward cells before i
    cells1 ← set_forward cells x i next
    cells2 ← set_forward cells1 before i x
    link rounds (i + 1) x updates cells2

  -- The loop of `skiplist_delete` that takes `x` out of its levels, for the rounds left from `i`.
  unfoldable pub unlink : ℕ → ℕ → Ptr → List Ptr → Cells K → Run (Cells K)
  unlink zero i x updates cells = ok cells
  unlink (suc rounds) i x updates cells = do
    before ← read updates i
    next ← get_forward cells before i
    if next == x
        then (do
          behind ← get_forward cells x i
          cells' ← set_forward cells before i behind
          unlink rounds (i + 1) x updates cells')
        else ok cells

  -- The last loop of `skiplist_delete`: the level after it.
  unfoldable pub lower : ℕ → Ptr → Cells K → Run ℕ
  lower zero header cells = ok zero
  lower (suc zero) header cells = ok 1
  lower (suc (suc level)) header cells =
      let rest = lower (suc level) header cells in
      get_forward cells header (suc level) >>= λ top.
      if top == null then rest else ok (suc (suc level))

  -- `x->forward[0]->value = value`
  abbrev pub set_value : Cells K → Ptr → ℕ → Run (Cells K)
  set_value cells p value = do
    n ← deref cells p
    ok (update cells p (some (record n { value = value })))

  module _ (compare : K → K → Ordering) where
    -- `compare(node->key, key)`
    abbrev pub compare_key : Option K → K → Run Ordering
    compare_key none key = fault
    compare_key (some k) key = ok (compare k key)

    -- `p && compare(p->key, key) < 0`, and `== 0`
    unfoldable pub tests : (Ordering → Bool) → Cells K → Ptr → K → Run Bool
    tests wanted cells p key = elim p [
      | zero ↦ ok false
      | suc q ↦ do n ← deref cells (suc q); c ← compare_key n.key key; ok (wanted c)
    ]

    -- The inner loop at the level `i` from the node `x`; `fuel` is more than the nodes that it passes.
    unfoldable pub walk : ℕ → Cells K → K → ℕ → Ptr → Run Ptr
    walk zero cells key i x = fault
    walk (suc fuel) cells key i x = do
      next ← get_forward cells x i
      ahead ← tests is_lt cells next key
      elim ahead [ true ↦ walk fuel cells key i next | false ↦ ok x ]

    -- The outer loop for the levels below `i`: the last node, and the array `update`.
    unfoldable pub descend : ℕ → Cells K → K → ℕ → Ptr → List Ptr → Run (Ptr × List Ptr)
    descend fuel cells key zero x updates = ok (x, updates)
    descend fuel cells key (suc i) x updates = do
      x' ← walk fuel cells key i x
      updates' ← write updates i x'
      descend fuel cells key i x' updates'

    -- The outer loop of `skiplist_search`, which keeps no array.
    unfoldable pub seek : ℕ → Cells K → K → ℕ → Ptr → Run Ptr
    seek fuel cells key zero x = ok x
    seek fuel cells key (suc i) x = walk fuel cells key i x >>= λ x'. seek fuel cells key i x'

    -- `skiplist_search`
    unfoldable pub search_key : ℕ → Skiplist → Cells K → K → Run ℕ
    search_key fuel list cells key = do
      x ← seek fuel cells key list.level list.header
      next ← get_forward cells x 0
      found ← tests is_eq cells next key
      if found then (deref cells next >>= λ n. ok n.value) else ok 0

    unfoldable pub search : ℕ → Option Skiplist → Cells K → Option K → Run ℕ
    search fuel none cells key = ok 0
    search fuel (some list) cells none = ok 0
    search fuel (some list) cells (some key) = search_key fuel list cells key

    -- `skiplist_insert` after the level of the new node is known.
    unfoldable pub insert_new :
        Skiplist → Cells K → Block → ℕ → List Ptr → K → ℕ → Run (Skiplist × Cells K)
    insert_new list cells block level updates key value = do
      updates' ←
          (if ltb list.level level
            then raise (level - list.level) list.level list.header updates
            else ok updates)
      let (x, with_node) = create_node block (some key) value cells
      linked ← link level 0 x updates' with_node
      ok (
        record list {
          level = if ltb list.level level then level else list.level;
          len = wrap 64 (list.len + 1);
        },
        linked,
      )

    unfoldable pub insert_leveled :
        Option (ℕ × List ℕ)
        → Skiplist
        → Cells K
        → Block
        → List Ptr
        → K
        → ℕ
        → Run (Skiplist × Cells K)
    insert_leveled none list cells block updates key value = fault
    insert_leveled (some (level, draws)) list cells block updates key value =
        insert_new list cells block level updates key value

    -- `skiplist_insert` of a key and a value that are not NULL
    unfoldable pub insert_key : ℕ → World → Skiplist → Cells K → K → ℕ → Run (Skiplist × Cells K)
    insert_key fuel w list cells key value = do
      (x, updates) ← descend fuel cells key list.level list.header w.updates
      next ← get_forward cells x 0
      found ← tests is_eq cells next key
      elim found [
        | true ↦ set_value cells next value >>= λ cells'. ok (list, cells')
        | false ↦ insert_leveled (random_level 1 w.draws) list cells w.block updates key value
      ]

    -- `skiplist_insert`
    unfoldable pub insert :
        ℕ → World → Option Skiplist → Cells K → Option K → ℕ → Run (ℕ × Option Skiplist × Cells K)
    insert fuel w none cells key value = ok (0, none, cells)
    insert fuel w (some list) cells none value = ok (0, some list, cells)
    insert fuel w (some list) cells (some key) zero = ok (0, some list, cells)
    insert fuel w (some list) cells (some key) (suc value) = do
      (list', cells') ← insert_key fuel w list cells key (suc value)
      ok (1, some list', cells')

    -- `skiplist_delete` of a node that was found
    unfoldable pub delete_node : Skiplist → Cells K → Ptr → List Ptr → Run (ℕ × Skiplist × Cells K)
    delete_node list cells x updates = do
      unlinked ← unlink list.level 0 x updates cells
      n ← deref unlinked x
      let freed = update unlinked x none
      level ← lower list.level list.header freed
      ok (n.value, record list { level = level; len = wrap 64 (list.len + (2 ^ 64 - 1)) }, freed)

    -- `skiplist_delete` of a key that is not NULL, with what the array `update` holds at first
    unfoldable pub delete_key : ℕ → List Ptr → Skiplist → Cells K → K → Run (ℕ × Skiplist × Cells K)
    delete_key fuel garbage list cells key = do
      (x, updates) ← descend fuel cells key list.level list.header garbage
      next ← get_forward cells x 0
      found ← tests is_eq cells next key
      elim found [ true ↦ delete_node list cells next updates | false ↦ ok (0, list, cells) ]

    -- `skiplist_delete`
    unfoldable pub delete :
        ℕ → List Ptr → Option Skiplist → Cells K → Option K → Run (ℕ × Option Skiplist × Cells K)
    delete fuel garbage none cells key = ok (0, none, cells)
    delete fuel garbage (some list) cells none = ok (0, some list, cells)
    delete fuel garbage (some list) cells (some key) = do
      (value, list', cells') ← delete_key fuel garbage list cells key
      ok (value, some list', cells')
