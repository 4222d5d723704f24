-- ===== src/Linklist/Free.antt =====
-- `linklist_free` (linklist/linklist.c).
use libakio.Prelude.{
  ℕ, ◌≡◌, refl, ◌∙◌, Bool, none, some, List, [], ◌∷◌, arith, ◌==◌, if◌then◌else◌, length, ok,
  Bool-cases, ==_iff, inl, inr,
}
use libakio.Linklist
use libakio.Linklist.{Linklist, free_loop}
use libakio.Linklist.Heap.{Ptr, null, Memory}
use libakio.Linklist.Segment.{Items, first, has, Distinct, Segment, frame, update-ne, update-eq}
use libakio.Linklist.Splice.{ne_of_mem}
use libakio.Linklist.Commands.{dropped, load-ok, drop-ok}
use libakio.Linklist.Valid.{IsList}

-- the log after the values of `xs` were handed to `free_func` in order, if there is one
abbrev pub log_all : Bool → Items → List ℕ → List ℕ
log_all free_func [] log = log
log_all free_func ((p, v) ∷ xs) log = log_all free_func xs (if free_func then v ∷ log else log)

-- `m'` is `m` without the nodes of `xs`, and with their values in the log.
pub record Freed (free_func : Bool) (xs : Items) (m m' : Memory) : Type 0 where
  pub cells : (a : Ptr) → m'.cells a ≡ (if has a xs then none else m.cells a)
  pub released : m'.released ≡ log_all free_func xs m.released

free_loop-Freed :
    (fr : Bool) (m : Memory) (before : Ptr) (xs : Items)
    → Segment m.cells before xs null
    → Distinct xs
    → (m' : Memory) × (free_loop (length xs) fr (first null xs) m ≡ ok (tt, m')) × Freed fr xs m m'
unfolding free_loop
free_loop-Freed fr m before [] s d = (m, refl, record { cells = λ a. refl; released = refl })
free_loop-Freed fr m before ((p, v) ∷ xs) s d =
    let m₁ : Memory = dropped fr m p v in
    let kept : Segment m₁.cells p xs null =
      frame p null xs s.2 λ a i. update-ne m.cells p none a (ne_of_mem a p xs i d.0) in
    let (m', run, f) = free_loop-Freed fr m₁ p xs kept d.1 in
    (
      m',
      rw (load-ok m s.0 s.1)
          (drop-ok fr m (free_loop (length xs) fr (first null xs)) s.0 s.1 ∙ run),
      record {
        cells = λ a. elim (Bool-cases (a == p)) [
          | inl e ↦
              let same : a ≡ p = (==_iff a p).0 e in
              rw (e, same) (f.cells p ∙ rw d.0 (update-eq m.cells p none))
          | inr e ↦ rw (e, f.cells a, update-ne m.cells p none a (ground arith))
        ];
        released = f.released;
      },
    )

-- linklist_free ends without a fault on a well-formed list, hands every value to free_func in
-- order if there is one, frees every node of the list and changes no other node.
pub free-Freed :
    {m : Memory} {l : Linklist} (xs : Items)
    → IsList m l xs
    → (m' : Memory) × (Linklist.free (some l) m ≡ ok (tt, m')) × Freed l.free_func xs m m'
unfolding Linklist.free
free-Freed {m} {l} xs is =
    rw (is.head, is.len) (free_loop-Freed l.free_func m null xs is.chain is.distinct)
