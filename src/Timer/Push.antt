-- ===== src/Timer/Push.antt =====
-- _heap_push of kznet/timer.c keeps the heap order and every timer.
use libakio.Prelude.{
  ℕ, zero, suc, ◌+◌, ◌-◌, ◌*◌, ◌<◌, ◌≤◌, ◌≡◌, ◌⊎◌, inl, inr, refl, ap, ◌∙◌, arith, true, false,
  Option, none, some, List, [], ◌∷◌, ◌++◌, length, length-append, ltb, Bool-cases, Option-cases,
  if◌then◌else◌, ok,
}
use libakio.Timer.{parent, shift_up, reserve, heap_push}
use libakio.Timer.Memory.{Ptr, TimerHeap, Timers}
use libakio.Timer.Climb.{
  at, climb, IsHeap, IsOpen, climb-IsHeap, climb-keeps, climb-has, climb-all, length-climb,
}
use libakio.Timer.Moves.{IsAlive, when_of, IsKept, shift_up-climb}

-- the array has `all` cells, the first `now` are timers in heap order
pub record IsTimers (st : Timers) : Type 0 where
  pub size : length st.heap.tes ≡ st.heap.all
  pub room : st.heap.now ≤ st.heap.all
  pub alive : (i : ℕ) → i < st.heap.now → IsAlive st (at st.heap.tes i)
  pub order : IsHeap (when_of st) st.heap.now st.heap.tes

-- the timer stands among the first `now`
abbrev pub Stands : Timers → Ptr → Type 0
Stands st p = (j : ℕ) × ((j < st.heap.now) × (at st.heap.tes j ≡ p))

-- What a push leaves: one timer more, and none lost.
pub record IsPushed (st : Timers) (t : Ptr) (st' : Timers) : Type 0 where
  pub valid : IsTimers st'
  pub count : st'.heap.now ≡ st.heap.now + 1
  pub new : Stands st' t
  pub old : (i : ℕ) → i < st.heap.now → Stands st' (at st.heap.tes i)
  pub kept : IsKept st st'

one_more : Timers → Timers
one_more st = record st { heap = record (st.heap) { now = st.heap.now + 1 } }

gap_at_end :
    (when : Ptr → ℕ) (now : ℕ) (t : Ptr) (tes : List Ptr)
    → IsHeap when now tes
    → IsOpen when (now + 1) t tes now
gap_at_end when now t tes order = record {
  away = λ i pos lt ne pne. order i pos (omega (arith, ne));
  below = λ i pos lt e. absurd (omega (arith, e));
  across = λ i pos lt e h_pos. absurd (omega (arith, e));
}

-- From the array of `climb` to the state.
pushed :
    (st st' : Timers) (t : Ptr)
    → IsTimers st
    → st.heap.now < st.heap.all
    → IsAlive st t
    → st'.heap
      ≡ record (st.heap) { tes = climb (when_of st) (st.heap.now + 1) st.heap.tes st.heap.now t }
    → IsKept st st'
    → IsPushed st t (one_more st')
unfolding one_more
pushed st st' t valid room alive eq kept =
    let now : ℕ = st.heap.now in
    let n : ℕ = now + 1 in
    let when : Ptr → ℕ = when_of st in
    let tes : List Ptr = climb when n st.heap.tes now t in
    let array : st'.heap.tes ≡ tes = ap (λ (hp : TimerHeap). hp.tes) eq in
    let same_now : st'.heap.now ≡ now = ap (λ (hp : TimerHeap). hp.now) eq in
    let same_all : st'.heap.all ≡ st.heap.all = ap (λ (hp : TimerHeap). hp.all) eq in
    let inside : now < length st.heap.tes = rw valid.size room in
    record {
      valid = record {
        size = rw (array, same_all) (length-climb when n t n st.heap.tes now ∙ valid.size);
        room = omega (arith, same_now, same_all, room);
        alive = λ i lt. kept.alive (at st'.heap.tes i) (
            rw array (
              climb-all when n t (IsAlive st) n st.heap.tes now (omega arith) inside (omega arith)
                alive (λ k k_lt ne. valid.alive k (omega (arith, ne))) i
                (omega (arith, same_now))));
        order = λ i pos lt.
            rw (kept.times (at st'.heap.tes (parent i)), kept.times (at st'.heap.tes i), array)
              (climb-IsHeap when n t n st.heap.tes now (omega arith) inside (omega arith)
                (gap_at_end when now t st.heap.tes valid.order) i pos (omega (arith, same_now)));
      };
      count = omega (arith, same_now);
      new =
          let (j, below, found) =
            climb-has when n t n st.heap.tes now (omega arith) inside (omega arith) in
          (j, (omega (arith, below, same_now), rw array found));
      old = λ i lt.
          let (j, below, found) =
            climb-keeps when n t n st.heap.tes now i (omega arith) inside (omega arith)
              (omega arith) (λ e. omega (arith, e)) in
          (j, (omega (arith, below, same_now), rw array found));
      kept = record { times = kept.times; alive = kept.alive };
    }

-- With room in the array.
push-room :
    (st : Timers) (t : Ptr)
    → IsTimers st
    → st.heap.now < st.heap.all
    → IsAlive st t
    → (st' : Timers) × (shift_up (st.heap.now + 1) st st.heap.now t ≡ ok st')
      × IsPushed st t (one_more st')
unfolding one_more
push-room st t valid room alive =
    let now : ℕ = st.heap.now in
    let when : Ptr → ℕ = when_of st in
    let inside : now < length st.heap.tes = rw valid.size room in
    let (st', run, eq, kept) =
      shift_up-climb when (now + 1) t (now + 1) st now (omega arith) (omega arith) (record {
        room = omega (arith, inside);
        others = λ i lt ne. valid.alive i (omega (arith, ne));
        waiting = alive;
        agree = λ p. refl;
      }) in
    (st', run, pushed st st' t valid room alive eq kept)

at-append : (tes more : List Ptr) (i : ℕ) → i < length tes → at (tes ++ more) i ≡ at tes i
at-append [] more i lt = absurd (omega arith)
at-append (p ∷ tes) more zero lt = refl
at-append (p ∷ tes) more (suc i) lt = at-append tes more i (omega arith)

-- What `realloc` does for the array: NULL, or as many new cells as the array grows by.
abbrev pub IsRealloc : (ℕ → Option (List Ptr)) → Timers → Type 0
IsRealloc realloc st =
    (all : ℕ) (new_cells : List Ptr)
    → realloc all ≡ some new_cells
    → length new_cells ≡ all - st.heap.all

-- the state after the array has grown
grown : Timers → ℕ → List Ptr → Timers
grown st all more = record st { heap = record (st.heap) { tes = st.heap.tes ++ more; all = all } }

grown-IsTimers :
    (st : Timers) (all : ℕ) (more : List Ptr)
    → IsTimers st
    → st.heap.all ≤ all
    → length more ≡ all - st.heap.all
    → IsTimers (grown st all more)
unfolding grown
grown-IsTimers st all more valid larger fits =
    let inside : (i : ℕ) → i < st.heap.now → i < length st.heap.tes =
      λ i lt. omega (arith, valid.size, valid.room, lt) in
    record {
      size = omega (arith, length-append st.heap.tes more, valid.size, fits);
      room = omega (arith, valid.room);
      alive = λ i lt. rw (at-append st.heap.tes more i (inside i lt)) (valid.alive i lt);
      order = λ i pos lt.
          rw
            (
              at-append st.heap.tes more i (inside i lt),
              at-append st.heap.tes more (parent i) (inside (parent i) (omega arith)),
            )
            (valid.order i pos lt);
    }

from_grown :
    (st : Timers) (all : ℕ) (more : List Ptr) (t : Ptr) (st' : Timers)
    → IsTimers st
    → IsPushed (grown st all more) t st'
    → IsPushed st t st'
unfolding grown
from_grown st all more t st' valid done = record {
  valid = done.valid;
  count = done.count;
  new = done.new;
  old = λ i lt.
      let (j, (below, found)) = done.old i lt in
      (
        j,
        (below, found ∙ at-append st.heap.tes more i (omega (arith, valid.size, valid.room, lt))),
      );
  kept = record { times = done.kept.times; alive = done.kept.alive };
}

-- the three ways through _heap_push
push-calm :
    (realloc : ℕ → Option (List Ptr)) (st st' : Timers) (t : Ptr)
    → ltb st.heap.all (st.heap.now + 1) ≡ false
    → shift_up (st.heap.now + 1) st st.heap.now t ≡ ok st'
    → heap_push realloc st t ≡ ok (true, one_more st')
unfolding heap_push one_more
push-calm realloc st st' t calm run = rw (calm, run) refl

-- the size that _reserve asks for
abbrev wanted : Timers → ℕ
wanted st = if ltb (st.heap.all * 2) (st.heap.now + 1) then st.heap.now + 1 else st.heap.all * 2

push-refused :
    (realloc : ℕ → Option (List Ptr)) (st : Timers) (t : Ptr)
    → ltb st.heap.all (st.heap.now + 1) ≡ true
    → realloc (wanted st) ≡ none
    → heap_push realloc st t ≡ ok (false, st)
unfolding heap_push reserve
push-refused realloc st t tight refused = rw (tight, refused) refl

push-grown :
    (realloc : ℕ → Option (List Ptr)) (st st' : Timers) (t : Ptr) (more : List Ptr)
    → ltb st.heap.all (st.heap.now + 1) ≡ true
    → realloc (wanted st) ≡ some more
    → shift_up (st.heap.now + 1) (grown st (wanted st) more) st.heap.now t ≡ ok st'
    → heap_push realloc st t ≡ ok (true, one_more st')
unfolding heap_push reserve one_more grown
push-grown realloc st st' t more tight granted run = rw (tight, granted, run) refl

-- With a realloc that returns NULL or an array of the size asked for, _heap_push of an allocated
-- timer onto a heap in order runs without a fault: either the array is full, realloc fails, and
-- the call returns -1 and changes nothing, or it returns 0, the heap is in order again with one
-- timer more, the new timer and every old one stand in it, and no time of a timer has changed.
pub heap_push-IsPushed :
    (realloc : ℕ → Option (List Ptr)) (st : Timers) (t : Ptr)
    → IsRealloc realloc st
    → IsTimers st
    → IsAlive st t
    → ((heap_push realloc st t ≡ ok (false, st))
        × ((st.heap.now ≡ st.heap.all) × (realloc (wanted st) ≡ none)))
      ⊎ ((st' : Timers) × ((heap_push realloc st t ≡ ok (true, st')) × IsPushed st t st'))
unfolding grown
heap_push-IsPushed realloc st t fair valid alive =
    elim (Bool-cases (ltb st.heap.all (st.heap.now + 1))) [
      | inr calm ↦
          let (st', run, done) = push-room st t valid (ground arith) alive in
          inr (one_more st', (push-calm realloc st st' t calm run, done))
      | inl tight ↦ elim (Option-cases (realloc (wanted st))) [
        | inl refused ↦
            inl (push-refused realloc st t tight refused, (ground (arith, valid.room), refused))
        | inr (more, granted) ↦
            let larger : st.heap.all ≤ wanted st = ground arith in
            let bigger : st.heap.now < wanted st = ground (arith, valid.room) in
            let (st', run, done) =
              push-room (grown st (wanted st) more) t
                (grown-IsTimers st (wanted st) more valid larger (fair (wanted st) more granted))
                bigger alive in
            inr (
              one_more st',
              (
                push-grown realloc st st' t more tight granted run,
                from_grown st (wanted st) more t (one_more st') valid done,
              ),
            )
      ]
    ]
