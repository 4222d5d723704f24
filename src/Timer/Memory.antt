-- ===== src/Timer/Memory.antt =====
-- The data of kznet/timer.c: timers at addresses, the heap, and the reads and writes of both.
use libakio.Prelude.{
  ℕ, Option, none, some, List, ltb, ◌==◌, if◌then◌else◌, Bool, Run, ok, fault, ◌>>=◌, write,
}

abbrev pub Ptr : Type 0
Ptr = ℕ

abbrev pub null : Ptr
null = 0

-- `struct timer`. The index is `none` where the code has -1; times are milliseconds; `user_data` (`data`) and
-- `cb` are addresses.
pub record Timer : Type 0 where
  pub min_heap_idx : Option ℕ
  pub when_msec : ℕ
  pub user_data : ℕ
  pub cb : Ptr
  pub next : Ptr

-- `struct timer_heap`. `head` is `head.next`, and `tail` is `none` where it points to `head`.
pub record TimerHeap : Type 0 where
  pub now : ℕ
  pub all : ℕ
  pub tes : List Ptr
  pub maxsize : ℕ
  pub allocs : ℕ
  pub size : ℕ
  pub head : Ptr
  pub tail : Option Ptr

abbrev pub Cells : Type 0
Cells = Ptr → Option Timer

-- the heap of a loop, and the timers in memory
pub record Timers : Type 0 where
  pub heap : TimerHeap
  pub cells : Cells

unfoldable pub update : Cells → Ptr → Option Timer → Cells
update cells p c a = if a == p then c else cells a

-- `*p`, a fault at NULL and where no timer is
unfoldable pub deref : Timers → Ptr → Run Timer
deref st p = if p == null then fault else elim (st.cells p) [ none ↦ fault | some t ↦ ok t ]

unfoldable pub assign : Timers → Ptr → Option Timer → Timers
assign st p c = record st { cells = update st.cells p c }

-- `heap->tes[i] = p; heap->tes[i]->min_heap_idx = i;`
unfoldable pub place : Timers → ℕ → Ptr → Run Timers
place st i p = do
  tes ← write st.heap.tes i p
  t ← deref st p
  ok (
      assign (record st { heap = record (st.heap) { tes = tes } }) p
        (some (record t { min_heap_idx = some i })))

-- `_elem_greater`
unfoldable pub elem_greater : Timers → Ptr → Ptr → Run Bool
elem_greater st a b = do ta ← deref st a; tb ← deref st b; ok (ltb tb.when_msec ta.when_msec)
