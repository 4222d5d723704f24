-- ===== src/Linklist/Tests.antt =====
-- Runs of the model of linklist/linklist.c, and its theorems at concrete lists.
use libakio.Prelude.{◌≡◌, refl, true, false, none, some, [], ◌∷◌, arith, ok}
use libakio.Linklist
use libakio.Linklist.{Linklist}
use libakio.Linklist.Heap.{
  null, node, Cells, Memory, update, load, store, set_next, set_prev, release, Cmd, pure, ◌>>=◌,
  ◌>>◌,
}
use libakio.Linklist.Heap as Mem
use libakio.Linklist.Segment.{Items}
use libakio.Linklist.Valid.{IsList, SameOutside}
use libakio.Linklist.Insert.{Inserted, insert_node-Inserted, add_tail-Inserted}
use libakio.Linklist.Delete.{delete_node-IsList}
use libakio.Linklist.Move.{move_node-broken}
use libakio.Linklist.Free.{Freed, free-Freed}

program : Unit {0}
unfolding update load store set_next set_prev release Mem.free Linklist.add_head Linklist.add_tail
    Linklist.insert_node Linklist.delete_node Linklist.link Linklist.detach Linklist.move_node
    Linklist.free
program = tt

-- three nodes at 1, 2 and 3
abbrev cells : Cells
cells =
    update (update (update (λ _. none) 1 (some (node 0 2 10))) 2 (some (node 1 3 20))) 3
      (some (node 2 0 30))

abbrev memory : Memory
memory = record { cells = cells; released = [] }

abbrev three : Linklist
three = record { head = 1; tail = 3; len = 3; free_func = true }

abbrev items : Items
items = (1, 10) ∷ (2, 20) ∷ (3, 30) ∷ []

three-IsList : IsList memory three items
unfolding update
three-IsList = record {
  chain = (omega arith, refl, (omega arith, refl, (omega arith, refl, tt)));
  distinct = (refl, (refl, (refl, tt)));
  head = refl;
  tail = refl;
  len = refl;
}

insert_node-Inserted_example :
    (l' : Linklist) × (m' : Memory) × (Linklist.insert_node 7 (some three) 2 70 true memory
      ≡ ok ((true, some l'), m'))
    × Inserted memory ((1, 10) ∷ (2, 20) ∷ []) ((3, 30) ∷ []) 7 70 l' m'
unfolding update
insert_node-Inserted_example =
    insert_node-Inserted ((1, 10) ∷ (2, 20) ∷ []) ((3, 30) ∷ []) 7 70 three-IsList (omega arith)
      refl (omega arith) true 2 refl (omega arith)

add_tail-Inserted_example :
    (l' : Linklist) × (m' : Memory) × (Linklist.add_tail 7 (some three) 70 memory
      ≡ ok ((true, some l'), m'))
    × Inserted memory items [] 7 70 l' m'
unfolding update
add_tail-Inserted_example =
    add_tail-Inserted 7 70 (omega arith) refl (omega arith) items three-IsList

delete_node-IsList_example :
    let rest : Items = (1, 10) ∷ (3, 30) ∷ [] in
    (l' : Linklist) × (m' : Memory) × (Linklist.delete_node three 2 memory ≡ ok (l', m'))
    × IsList m' l' rest
    × (m'.cells 2 ≡ none)
    × SameOutside rest 2 memory m'
    × (m'.released ≡ 20 ∷ [])
delete_node-IsList_example =
    delete_node-IsList ((1, 10) ∷ []) ((3, 30) ∷ []) 2 20 three-IsList (omega arith)

move_node-broken_example :
    (l' : Linklist) × (m' : Memory) × (Linklist.move_node (some three) 2 1 false memory
      ≡ ok ((true, some l'), m'))
    × ((zs : Items) → ¬ IsList m' l' zs)
move_node-broken_example =
    move_node-broken ((1, 10) ∷ []) ((3, 30) ∷ []) 2 1 20 three-IsList refl false

free-Freed_example :
    (m' : Memory) × (Linklist.free (some three) memory ≡ ok (tt, m')) × Freed true items memory m'
free-Freed_example = free-Freed items three-IsList
