-- ===== src/Linklist.antt =====
-- linklist/linklist.c: a doubly linked list. The `struct linklist` lives outside the node memory,
-- so a function returns the new one; a pointer to it that may be NULL is an `Option`.
pub mod Heap
pub mod Segment
pub mod Splice
pub mod Commands
pub mod Valid
pub mod Insert
pub mod Delete
pub mod Move
pub mod Free
mod Tests
use libakio.Prelude.{
  ℕ, zero, suc, ◌+◌, ◌-◌, ◌^◌, Bool, true, false, Option, none, some, ◌==◌, ◌||◌, not,
  if◌then◌else◌, wrap,
}
use libakio.Linklist.Heap.{
  Ptr, null, node, Cmd, pure, ◌>>=◌, ◌>>◌, load, store, set_next, set_prev, release,
}
use libakio.Linklist.Heap

-- `free_func` is whether there is one
pub record Linklist : Type 0 where
  pub head : Ptr
  pub tail : Ptr
  pub len : ℕ
  pub free_func : Bool

abbrev skip : Cmd (Unit {0})
skip = pure tt

-- `len++` in `unsigned long`
abbrev pub longer : ℕ → ℕ
longer len = wrap 64 (len + 1)

pub new : (fits free_func : Bool) → Option Linklist
new fits free_func =
    if fits
    then some (record { head = null; tail = null; len = 0; free_func = free_func })
    else none

-- `fresh` is what `malloc` returns. The Boolean is whether the result is not NULL.
pub add_head : (fresh : Ptr) → Option Linklist → ℕ → Cmd (Bool × Option Linklist)
add_head fresh none value = pure (false, none)
add_head fresh (some l) value =
    if fresh == null
    then pure (false, some l)
    else if l.len == 0
    then (do
      store fresh (some (node null null value))
      pure (true, some (record l { head = fresh; tail = fresh; len = longer l.len })))
    else (do
      store fresh (some (node null l.head value))
      set_prev l.head fresh
      pure (true, some (record l { head = fresh; len = longer l.len })))

pub add_tail : (fresh : Ptr) → Option Linklist → ℕ → Cmd (Bool × Option Linklist)
add_tail fresh none value = pure (false, none)
add_tail fresh (some l) value =
    if fresh == null
    then pure (false, some l)
    else if l.len == 0
    then (do
      store fresh (some (node null null value))
      pure (true, some (record l { head = fresh; tail = fresh; len = longer l.len })))
    else (do
      store fresh (some (node l.tail null value))
      set_next l.tail fresh
      pure (true, some (record l { tail = fresh; len = longer l.len })))

-- The two branches of `if (after)`: where the new node goes, and the list's ends after it.
place : Linklist → Ptr → Ptr → Bool → Cmd (Ptr × Ptr × Linklist)
place l at fresh true = do
  n ← load at
  pure (at, n.next, if l.tail == at then record l { tail = fresh } else l)
place l at fresh false = do
  n ← load at
  pure (n.prev, at, if l.head == at then record l { head = fresh } else l)

-- The new node's fields, and the links of its neighbours to it.
pub link : Ptr → ℕ → (before behind : Ptr) → Cmd (Unit {0})
link fresh value before behind = do
  store fresh (some (node before behind value))
  if before == null then skip else set_next before fresh
  if behind == null then skip else set_prev behind fresh

pub insert_node :
    (fresh : Ptr) → Option Linklist → Ptr → ℕ → (after : Bool) → Cmd (Bool × Option Linklist)
unfolding place
insert_node fresh none at value after = pure (false, none)
insert_node fresh (some l) at value after =
    if at == null || fresh == null then pure (false, some l) else (do
      (before, behind, l') ← place l at fresh after
      link fresh value before behind
      pure (true, some (record l' { len = longer l'.len })))

-- Takes the node out of the chain: the same lines open `linklist_move_node` and
-- `linklist_delete_node`.
pub detach : Linklist → Ptr → Cmd Linklist
detach l p = do
  n ← load p
  if n.prev == null then skip else set_next n.prev n.next
  n' ← load p
  if n'.next == null then skip else set_prev n'.next n'.prev
  let head = if n.prev == null then n.next else l.head
  let tail = if n'.next == null then n'.prev else l.tail
  pure (record l { head = head; tail = tail })

pub move_node : Option Linklist → (src dst : Ptr) → (after : Bool) → Cmd (Bool × Option Linklist)
unfolding detach
move_node none src dst after = pure (false, none)
move_node (some l) src dst after =
    if src == null || (dst == null || src == dst) then pure (false, some l) else (do
      l' ← detach l src
      n ← load dst
      if after then set_prev src dst else set_next src dst
      if after then set_next src n.next else set_prev src n.prev
      let tail = if after then (if l'.tail == dst then src else l'.tail) else l'.tail
      let head = if after then l'.head else (if l'.head == dst then src else l'.head)
      pure (true, some (record l' { head = head; tail = tail })))

pub delete_node : Linklist → Ptr → Cmd Linklist
unfolding detach
delete_node l p = do
  l' ← detach l p
  n ← load p
  if l'.free_func then release n.value else skip
  Heap.free p
  pure (record l' { len = wrap 64 (l'.len + (2 ^ 64 - 1)) })

-- `while (len--)`: one round for each node that is counted.
free_loop : ℕ → Bool → Ptr → Cmd (Unit {0})
free_loop zero free_func current = skip
free_loop (suc len) free_func current = do
  n ← load current
  if free_func then release n.value else skip
  Heap.free current
  free_loop len free_func n.next

pub free : Option Linklist → Cmd (Unit {0})
unfolding free_loop
free none = skip
free (some l) = free_loop l.len l.free_func l.head
