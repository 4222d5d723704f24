-- ===== src/Skiplist/Tests.antt =====
-- Runs of the model of skiplist/skiplist.c, and its theorems at concrete lists.
use Prim.Native.Nat.{Ordering, compare}
use native.Mathlib.Omega.{compare-lt, compare-eq, compare-gt}
use libakio.Prelude.{
  ℕ, zero, suc, ◌<◌, ◌≤◌, ◌≡◌, refl, arith, true, false, ◌||◌, ◌==◌, ltb, none, some, List, [], ◌∷◌,
  replicate, get_or-replicate, if◌then◌else◌, ok, fault, read, write,
}
use libakio.Skiplist.{
  Skiplist, World, max_level, random_level, raise, create_node, clear_forward, new, free_loop, free,
  link, unlink, lower, tests, walk, descend, seek, search_key, search, insert_new, insert_leveled,
  insert_key, insert, delete_node, delete_key, delete,
}
use libakio.Skiplist.Memory.{Ptr, Node, Cells, update, deref, get_forward, set_forward}
use libakio.Skiplist.Views.{fwd}
use libakio.Skiplist.Items.{Item, next_at, has}
use libakio.Skiplist.Order.{IsOrder}
use libakio.Skiplist.Valid.{IsSkiplist}
use libakio.Skiplist.Level.{clip, random_level-bounds}
use libakio.Skiplist.Insert.{IsFresh}
use libakio.Skiplist.Store.{IsStored, insert-lookup}
use libakio.Skiplist.Delete.{IsDeleted, delete-lookup}
use libakio.Skiplist.Make.{new-IsSkiplist}
use libakio.Skiplist.Free.{free-all}
use libakio.Skiplist.Refused.{insert-fault}
use libakio.Skiplist.History.{cells_after, new_cells, Reach, made, inserted, assign, search-Reach}

program : Unit {0}
unfolding random_level raise create_node clear_forward new free_loop free link unlink lower tests
    walk descend seek search_key search insert_new insert_leveled insert_key insert delete_node
    delete_key delete update deref get_forward set_forward read write
program = tt

-- numbers as keys
compare-less : (a b : ℕ) → a < b → compare a b ≡ Ordering.lt
compare-less a b lt = by_order (compare a b) refl
  where
    by_order : (o : Ordering) → compare a b ≡ o → compare a b ≡ Ordering.lt
    by_order Ordering.lt e = e
    by_order Ordering.eq e = absurd (omega (arith, compare-eq a b e))
    by_order Ordering.gt e = absurd (omega (arith, compare-gt a b e))

compare-more : (a b : ℕ) → b < a → compare a b ≡ Ordering.gt
compare-more a b lt = by_order (compare a b) refl
  where
    by_order : (o : Ordering) → compare a b ≡ o → compare a b ≡ Ordering.gt
    by_order Ordering.gt e = e
    by_order Ordering.eq e = absurd (omega (arith, compare-eq a b e))
    by_order Ordering.lt e = absurd (omega (arith, compare-lt a b e))

compare_self : (a : ℕ) → compare a a ≡ Ordering.eq
compare_self a = by_order (compare a a) refl
  where
    by_order : (o : Ordering) → compare a a ≡ o → compare a a ≡ Ordering.eq
    by_order Ordering.eq e = e
    by_order Ordering.lt e = absurd (omega (arith, compare-lt a a e))
    by_order Ordering.gt e = absurd (omega (arith, compare-gt a a e))

numbers-IsOrder : IsOrder compare
numbers-IsOrder = record {
  self = compare_self;
  same = compare-eq;
  trans = λ a b c e f. compare-less a c (omega (arith, compare-lt a b e, compare-lt b c f));
  flip = λ a b e. compare-less b a (compare-gt a b e);
  flip_back = λ a b e. compare-more b a (compare-lt a b e);
}

-- the keys 10 and 20 at the addresses 1 and 2, in two levels
abbrev header_node : Node ℕ
header_node = record { key = none; value = 0; forward = 1 ∷ 1 ∷ replicate 30 0 }

abbrev cells : Cells ℕ
cells p =
    if p == 1
    then some (record { key = some 10; value = 7; forward = 2 ∷ 0 ∷ [] })
    else if p == 2
    then some (record { key = some 20; value = 8; forward = 0 ∷ [] })
    else if p == 100
    then some header_node
    else none

abbrev two : Skiplist
two = record { level = 2; len = 2; header = 100; tail = 0 }

abbrev second : Item ℕ
second = record { addr = 2; key = 20; value = 8; height = 1 }

abbrev items : List (Item ℕ)
items = record { addr = 1; key = 10; value = 7; height = 2 } ∷ second ∷ []

header_links : (i : ℕ) → i < 32 → fwd cells 100 i ≡ next_at i items
header_links zero lt = refl
header_links (suc zero) lt = refl
header_links (suc (suc i)) lt =
    let over : ltb (suc (suc i)) 2 ≡ false = ground arith in
    let over1 : ltb (suc (suc i)) 1 ≡ false = ground arith in
    rw (over, over1) (get_or-replicate 30 i 0 0 (omega arith))

first_links : (i : ℕ) → i < 2 → fwd cells 1 i ≡ next_at i (second ∷ [])
first_links zero lt = refl
first_links (suc zero) lt = refl
first_links (suc (suc i)) lt = absurd (omega arith)

second_links : (i : ℕ) → i < 1 → fwd cells 2 i ≡ next_at {K = ℕ} i []
second_links zero lt = refl
second_links (suc i) lt = absurd (omega arith)

two-IsSkiplist : IsSkiplist compare two cells items
two-IsSkiplist = record {
  header = record {
    value = 0;
    room = 32;
    at = record { valid = λ e. omega (arith, e); here = refl };
    high = omega arith;
    links = header_links;
  };
  chain = (
    record {
      room = 2;
      at = record { valid = λ e. omega (arith, e); here = refl };
      high = omega arith;
      links = first_links;
    },
    (
      record {
        room = 1;
        at = record { valid = λ e. omega (arith, e); here = refl };
        high = omega arith;
        links = second_links;
      },
      tt,
    ),
  );
  sorted = ((refl, tt), (tt, tt));
  distinct = (refl, (refl, tt));
  apart = refl;
  heights = ((omega arith, omega arith), ((omega arith, omega arith), tt));
  level_pos = omega arith;
  level_max = omega arith;
  count = refl;
}

-- two draws that promote and one that does not: the level 3
abbrev world : World
world = record {
  draws = 5 ∷ 16383 ∷ 16384 ∷ [];
  block = some (3, replicate 3 0);
  updates = replicate 32 9;
}

three_free : IsFresh compare cells 3 (replicate 3 0) 3
three_free = record { valid = λ e. omega (arith, e); free = refl; room = omega arith }

draws_level : random_level 1 (5 ∷ 16383 ∷ 16384 ∷ []) ≡ some (3, [])
unfolding random_level
draws_level = refl

insert-lookup_example :
    (list' : Skiplist) × (cells' : Cells ℕ) × (items' : List (Item ℕ)) × (insert compare 3 world
        (some two)
        cells
        (some 15)
        9
      ≡ ok (1, some list', cells'))
    × IsStored compare 15 9 items list' cells' items'
insert-lookup_example =
    insert-lookup compare 3 world two cells items 15 9 3 (replicate 3 0) 3 [] numbers-IsOrder
      two-IsSkiplist (omega arith) (omega arith) refl refl three_free draws_level

delete-lookup_example :
    (list' : Skiplist) × (cells' : Cells ℕ) × (items' : List (Item ℕ)) × (delete compare 3
        (replicate 32 9)
        (some two)
        cells
        (some 10)
      ≡ ok (7, some list', cells'))
    × IsDeleted compare 10 items list' cells' items'
delete-lookup_example =
    delete-lookup compare 3 two cells items 10 (replicate 32 9) numbers-IsOrder two-IsSkiplist
      (omega arith) refl

free-all_example :
    (cells' : Cells ℕ) × (free 3 (some two) cells ≡ ok cells')
    × ((p : Ptr) → cells' p ≡ (if (p == 100) || has p items then none else cells p))
free-all_example = free-all compare 3 two cells items two-IsSkiplist (omega arith)

new-IsSkiplist_example :
    (list : Skiplist) × (cells' : Cells ℕ) × (new true (some (100, replicate 32 9)) cells
      ≡ ok (some list, cells'))
    × IsSkiplist compare list cells' []
new-IsSkiplist_example =
    new-IsSkiplist compare 100 (replicate 32 9) cells (λ e. omega (arith, e)) (omega arith)

random_level-bounds_example :
    (level : ℕ) × (random_level 1 (5 ∷ 16383 ∷ 16384 ∷ []) ≡ some (level, []))
    × (0 < level)
    × (level ≤ max_level)
    × (level ≡ clip 3)
random_level-bounds_example = random_level-bounds 16384 (5 ∷ 16383 ∷ []) [] (refl, (refl, tt)) refl

-- an empty list, and the list after one insertion
abbrev list0 : Skiplist
list0 = record { level = 1; len = 0; header = 100; tail = 0 }

abbrev cells0 : Cells ℕ
cells0 = new_cells (λ _. none) (new true (some (100, replicate 32 9)) (λ _. none))

made0 : new true (some (100, replicate 32 9)) (λ _. none) ≡ ok (some list0, cells0)
unfolding program
made0 = refl

abbrev list1 : Skiplist
list1 = record { level = 3; len = 1; header = 100; tail = 0 }

abbrev cells1 : Cells ℕ
cells1 = cells_after cells0 (insert compare 1 world (some list0) cells0 (some 15) 9)

inserted1 : insert compare 1 world (some list0) cells0 (some 15) 9 ≡ ok (1, some list1, cells1)
unfolding program
inserted1 = refl

three_free0 : IsFresh compare cells0 3 (replicate 3 0) 3
unfolding program
three_free0 = record { valid = λ e. omega (arith, e); free = refl; room = omega arith }

one-Reach : Reach compare 1 list1 cells1 (assign compare 15 (some 9) (λ k. none))
one-Reach =
    inserted 0 list0 cells0 (λ k. none) world 15 9 1 3 (replicate 3 0) 3 [] 1 list1 cells1
      (made 100 (replicate 32 9) (λ _. none) list0 cells0 (λ e. omega (arith, e)) (omega arith)
        made0)
      (omega arith) (omega arith) refl refl three_free0 draws_level inserted1

search-Reach_example : search compare 2 (some list1) cells1 (some 15) ≡ ok 9
search-Reach_example =
    search-Reach compare numbers-IsOrder 1 2 list1 cells1 (assign compare 15 (some 9) (λ k. none))
      15 one-Reach (omega arith)

insert-fault_example :
    insert compare 3 (record world { block = none }) (some two) cells (some 15) 9 ≡ fault
insert-fault_example =
    insert-fault compare 3 (record world { block = none }) two cells items 15 9 3 [] numbers-IsOrder
      two-IsSkiplist (omega arith) (omega arith) refl refl draws_level refl
