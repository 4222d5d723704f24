-- ===== src/Timer.antt =====
-- kznet/timer.c: a binary heap of timers in an array, and the list of timers to use again.
-- `int32_t` indices are natural numbers: a heap of 2^30 timers is out of reach.
pub mod Memory
pub mod Expire
pub mod Climb
pub mod Moves
pub mod Push
pub mod Sink
pub mod Lower
pub mod Settle
pub mod Delete
pub mod Shortest
mod Tests
use libakio.Prelude.{
  ℕ, zero, suc, ◌+◌, ◌-◌, ◌*◌, ◌/◌, ◌^◌, Bool, true, false, ◌||◌, Option, none, some, List, ◌++◌,
  replicate, ltb, leb, ◌==◌, if◌then◌else◌, Run, ok, fault, ◌>>=◌, read,
}
use libakio.Timer.Memory.{
  Ptr, null, Timer, TimerHeap, Timers, Cells, deref, assign, place, elem_greater,
}

-- `timer_heap_create`, with whether the two allocations succeed
unfoldable pub create : (heap_fits tes_fits : Bool) → ℕ → Option TimerHeap
create true true maxsize = some (record {
  now = 0;
  all = 16;
  tes = replicate 16 null;
  maxsize = if ltb maxsize 16 then 16 else maxsize;
  allocs = 0;
  size = 0;
  head = null;
  tail = none;
})
create true false maxsize = none
create false tes_fits maxsize = none

-- The loop of `timer_heap_delete`; `fuel` is more than the timers that are left to use again.
unfoldable pub delete_loop : ℕ → Ptr → Timers → Run Timers
delete_loop zero curr st = fault
delete_loop (suc fuel) curr st =
    if curr == null
    then ok st
    else (deref st curr >>= λ t. delete_loop fuel t.next (assign st curr none))

-- `timer_heap_delete`: the timers that are in the heap are not given back
unfoldable pub delete : ℕ → Timers → Run Timers
delete fuel st = delete_loop fuel st.heap.head st

-- `(i - 1) / 2`, which is 0 at 0 in C too
abbrev pub parent : ℕ → ℕ
parent i = (i - 1) / 2

-- `_shift_up`. A round moves the hole to its parent, so one round more than the index is enough;
-- running out of rounds is a fault.
unfoldable pub shift_up : ℕ → Timers → ℕ → Ptr → Run Timers
shift_up zero st hole t = fault
shift_up (suc rounds) st zero t = place st zero t
shift_up (suc rounds) st (suc h) t = do
  above ← read st.heap.tes (parent (suc h))
  greater ← elem_greater st above t
  elim greater [
    | false ↦ place st (suc h) t
    | true ↦ place st (suc h) above >>= (λ st'. shift_up rounds st' (parent (suc h)) t)
  ]

-- The smaller child: `min_child -= (min_child == now || _elem_greater(...))`.
unfoldable pub smaller_child : Timers → ℕ → Run ℕ
smaller_child st child = if child == st.heap.now then ok (child - 1) else (do
  right ← read st.heap.tes child
  left ← read st.heap.tes (child - 1)
  greater ← elem_greater st right left
  ok (if greater then child - 1 else child))

-- `_shift_down`. A round moves the hole to a child below `now`, so `now + 1` rounds are enough.
unfoldable pub shift_down : ℕ → Timers → ℕ → Ptr → Run Timers
shift_down zero st hole t = fault
shift_down (suc rounds) st hole t =
    if leb (2 * (hole + 1)) st.heap.now
    then (do
      child ← smaller_child st (2 * (hole + 1))
      below ← read st.heap.tes child
      greater ← elem_greater st t below
      elim greater [
        | false ↦ place st hole t
        | true ↦ place st hole below >>= (λ st'. shift_down rounds st' child t)
      ])
    else place st hole t

-- `_heap_top`
unfoldable pub heap_top : Timers → Run Ptr
heap_top st = elim (st.heap.now) [ zero ↦ ok null | suc n ↦ read st.heap.tes 0 ]

-- `_reserve` with the result of `realloc`: NULL, or the content of the cells that are new
abbrev pub adopt : Timers → ℕ → Option (List Ptr) → Bool × Timers
adopt st all none = (false, st)
adopt st all (some new_cells) =
    (true, record st { heap = record (st.heap) { tes = st.heap.tes ++ new_cells; all = all } })

-- `_reserve`: whether it returns 0, and the state
unfoldable pub reserve : (ℕ → Option (List Ptr)) → Timers → ℕ → Bool × Timers
reserve realloc st n =
    let all : ℕ = if ltb (st.heap.all * 2) n then n else st.heap.all * 2 in
    adopt st all (realloc all)

-- `_heap_push` after the test for room
abbrev pub push_roomy : Bool × Timers → Ptr → Run (Bool × Timers)
push_roomy (false, st) t = ok (false, st)
push_roomy (true, st) t = do
  st' ← shift_up (st.heap.now + 1) st st.heap.now t
  ok (true, record st' { heap = record (st'.heap) { now = st'.heap.now + 1 } })

-- `_heap_push`: whether it returns 0, and the state
unfoldable pub heap_push : (ℕ → Option (List Ptr)) → Timers → Ptr → Run (Bool × Timers)
heap_push realloc st t =
    push_roomy
      (if ltb st.heap.all (st.heap.now + 1)
        then reserve realloc st (st.heap.now + 1)
        else (true, st))
      t

-- Whether the timer at an index is less than its parent; an index 0 has none.
unfoldable pub is_below_parent : Timers → ℕ → Ptr → Run Bool
is_below_parent st zero t = ok false
is_below_parent st (suc i) t =
    read st.heap.tes (parent (suc i)) >>= λ above. elem_greater st above t

-- The last lines of `_heap_adjust` and `_heap_delete`: put a timer at an index.
unfoldable pub settle : Timers → ℕ → Ptr → Run Timers
settle st i t = do
  up ← is_below_parent st i t
  elim up [ true ↦ shift_up (i + 1) st i t | false ↦ shift_down (st.heap.now + 1) st i t ]

-- `_heap_adjust`; an index of -1 makes `_shift_down` read before the array
unfoldable pub heap_adjust : Timers → Ptr → Run Timers
heap_adjust st t = do
  timer ← deref st t
  elim (timer.min_heap_idx) [ none ↦ fault | some i ↦ settle st i t ]

-- `_heap_delete`
unfoldable pub heap_delete : Timers → Ptr → Run Timers
heap_delete st t = elim (st.heap.now) [
  | zero ↦ fault
  | suc n ↦ do
    last ← read st.heap.tes n
    timer ← deref st t
    st' ← elim (timer.min_heap_idx) [
      | none ↦ fault
      | some i ↦ settle (record st { heap = record (st.heap) { now = n } }) i last
    ]
    timer' ← deref st' t
    ok (assign st' t (some (record timer' { min_heap_idx = none })))
]

-- The timer for `create_timer`: the first to use again, or a new one; NULL if `malloc` fails.
unfoldable pub take : Option Ptr → Timers → Run (Ptr × Timers)
take fresh st = elim (st.heap.head) [
  | suc p ↦ do
    te ← deref st (suc p)
    ok (
      suc p,
      record st {
        heap = record (st.heap) {
          head = te.next;
          tail = if te.next == null then none else st.heap.tail;
          size = st.heap.size - 1;
        };
      },
    )
  | zero ↦ elim fresh [
    | none ↦ ok (null, st)
    | some p ↦ ok (p, record st { heap = record (st.heap) { allocs = st.heap.allocs + 1 } })
  ]
]

-- `create_timer` at the time `now_msec`; the asserts are faults
unfoldable pub create_timer :
    Option Ptr → (ℕ → Option (List Ptr)) → ℕ → Timers → ℕ → Ptr → ℕ → Run (Ptr × Timers)
create_timer fresh realloc now_msec st zero cb user_data = fault
create_timer fresh realloc now_msec st (suc msec) zero user_data = fault
create_timer fresh realloc now_msec st (suc msec) (suc cb) user_data = do
  (te, st1) ← take fresh st
  elim te [
    | zero ↦ ok (null, st1)
    | suc p ↦ do
      let timer : Timer = record {
        min_heap_idx = none;
        when_msec = now_msec + suc msec;
        user_data = user_data;
        cb = suc cb;
        next = null;
      }
      (pushed, st2) ← heap_push realloc (assign st1 (suc p) (some timer)) (suc p)
      ok (if pushed then suc p else null, st2)
  ]

-- `heap->tail->next = t; heap->tail = t; heap->size++;`
unfoldable pub append : Timers → Ptr → Run Timers
append st t =
    let heap : TimerHeap = record (st.heap) { tail = some t; size = st.heap.size + 1 } in
    elim (st.heap.tail) [
      | none ↦ ok (record st { heap = record heap { head = t } })
      | some q ↦ do
        last ← deref st q
        ok (assign (record st { heap = heap }) q (some (record last { next = t })))
    ]

-- `delete_timer`: whether it returns 0, and the state
unfoldable pub delete_timer : Timers → Ptr → Run (Bool × Timers)
delete_timer st t = do
  timer ← deref st t
  elim (timer.min_heap_idx) [
    | none ↦ ok (false, st)
    | some i ↦
        if timer.next == null
        then (do
          st' ← heap_delete st t
          st'' ←
              (if ltb st'.heap.maxsize st'.heap.allocs
                then ok (
                    assign
                      (record st' { heap = record (st'.heap) { allocs = st'.heap.allocs - 1 } }) t
                      none)
                else append st' t)
          ok (true, st''))
        else ok (false, st)
  ]
