-- ===== src/Timer/Tests.antt =====
-- Runs of the model of kznet/timer.c, and its theorems at a concrete heap.
use libakio.Prelude.{
  ℕ, zero, suc, ◌-◌, ◌<◌, ◌≤◌, ◌==◌, if◌then◌else◌, ◌≡◌, ◌⊎◌, refl, arith, Bool, true, false,
  Option, none, some, List, [], ◌∷◌, replicate, length-replicate, Run, ok, read, write, ◌>>=◌,
}
use libakio.Timer
use libakio.Timer.{
  shift_up, shift_down, smaller_child, heap_top, reserve, heap_push, is_below_parent, settle,
  heap_adjust, heap_delete, take, create_timer, append, delete_timer,
}
use libakio.Timer.Memory.{Ptr, Timer, Timers, Cells, update, deref, assign, place, elem_greater}
use libakio.Timer.Expire.{get_shortest_msec, rearm, process_time_events}
use libakio.Timer.Climb.{at}
use libakio.Timer.Moves.{IsAlive, when_of}
use libakio.Timer.Push.{IsTimers, IsPushed, IsRealloc, heap_push-IsPushed}
use libakio.Timer.Delete.{IsDeleted, heap_delete-IsDeleted}
use libakio.Timer.Shortest.{IsShortest, get_shortest_msec-IsShortest}

program : Unit {0}
unfolding shift_up shift_down smaller_child heap_top reserve heap_push is_below_parent settle
    heap_adjust heap_delete take create_timer append delete_timer deref assign place elem_greater
    get_shortest_msec rearm process_time_events read write update Timer.create
program = tt

abbrev timer : Option ℕ → ℕ → Timer
timer i when = record { min_heap_idx = i; when_msec = when; user_data = 0; cb = 9; next = 0 }

-- timers at 10 and 20 in the heap, and one at 30 that waits
abbrev memory : Cells
memory p =
    if p == 10
    then some (timer (some 0) 300)
    else if p == 20
    then some (timer (some 1) 500)
    else if p == 30
    then some (timer none 100)
    else none

abbrev two : Timers
two = record {
  heap = record {
    now = 2;
    all = 2;
    tes = 10 ∷ 20 ∷ [];
    maxsize = 16;
    allocs = 3;
    size = 0;
    head = 0;
    tail = none;
  };
  cells = memory;
}

abbrev grows : ℕ → Option (List Ptr)
grows all = some (replicate (all - 2) 0)

grows-IsRealloc : IsRealloc grows two
grows-IsRealloc all more e = ground (arith, length-replicate {A = ℕ} (all - 2) 0)

two-IsAlive : (i : ℕ) → i < 2 → IsAlive two (at two.heap.tes i)
two-IsAlive zero lt = (λ e. absurd (omega (arith, e)), (timer (some 0) 300, refl))
two-IsAlive (suc zero) lt = (λ e. absurd (omega (arith, e)), (timer (some 1) 500, refl))
two-IsAlive (suc (suc i)) lt = absurd (omega arith)

two-IsTimers : IsTimers two
two-IsTimers = record { size = refl; room = omega arith; alive = two-IsAlive; order = two_order }
  where
    two_order :
        (i : ℕ)
        → zero < i
        → i < 2
        → when_of two (at two.heap.tes (Timer.parent i)) ≤ when_of two (at two.heap.tes i)
    two_order zero pos lt = absurd (omega arith)
    two_order (suc zero) pos lt = omega arith
    two_order (suc (suc i)) pos lt = absurd (omega arith)

thirty-IsAlive : IsAlive two 30
thirty-IsAlive = (λ e. absurd (omega (arith, e)), (timer none 100, refl))

heap_push-IsPushed_example :
    ((heap_push grows two 30 ≡ ok (false, two))
      × ((two.heap.now ≡ two.heap.all) × (grows 4 ≡ none)))
    ⊎ ((st' : Timers) × ((heap_push grows two 30 ≡ ok (true, st')) × IsPushed two 30 st'))
heap_push-IsPushed_example =
    heap_push-IsPushed grows two 30 grows-IsRealloc two-IsTimers thirty-IsAlive

heap_delete-IsDeleted_example :
    (st' : Timers) × (heap_delete two 10 ≡ ok st') × IsDeleted two 10 0 st'
heap_delete-IsDeleted_example =
    heap_delete-IsDeleted two 10 (timer (some 0) 300) 0 two-IsTimers refl refl (omega arith) refl

get_shortest_msec-IsShortest_example :
    ((two.heap.now ≡ 0) × (get_shortest_msec 120 two ≡ ok none))
    ⊎ ((msec : ℕ) × ((get_shortest_msec 120 two ≡ ok (some msec)) × IsShortest 120 two msec))
get_shortest_msec-IsShortest_example = get_shortest_msec-IsShortest 120 two two-IsTimers

abbrev array : Run (Bool × Timers) → Run (List Ptr)
array r = r >>= λ s. ok s.1.heap.tes

pushed_array : array (heap_push grows two 30) ≡ ok (30 ∷ 20 ∷ 10 ∷ 0 ∷ [])
unfolding heap_push reserve shift_up place elem_greater deref assign update read write
pushed_array = refl

deleted_array : (heap_delete two 10 >>= λ st. ok st.heap.now) ≡ ok 1
unfolding heap_delete settle is_below_parent shift_up shift_down place elem_greater deref assign
    update read write smaller_child
deleted_array = refl

-- at 400 the timer at 10 is due; its callback asks for 50 more milliseconds
abbrev count_and_time : Option (ℕ × Timers) → ℕ × ℕ
count_and_time none = (0, 0)
count_and_time (some (processed, st)) = (processed, when_of st (at st.heap.tes 0))

expired :
    (process_time_events
        (record { timers = λ st. st; with_timers = λ st st'. st' })
        (λ tick. 400)
        (λ cb user_data st. ok (50, st))
        5
        0
        two
        0
      >>= λ r. ok (count_and_time r))
    ≡ ok (1, 450)
unfolding process_time_events rearm heap_adjust settle is_below_parent shift_up shift_down place
    elem_greater deref assign update read write smaller_child heap_top
expired = refl
