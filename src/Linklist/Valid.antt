-- ===== src/Linklist/Valid.antt =====
-- The invariant of linklist/linklist.c: which sequence of nodes a list stands for.
use libakio.Prelude.{◌≡◌, ◌≢◌, refl, false, [], ◌∷◌, ◌++◌, arith, ◌==◌, if◌then◌else◌, length}
use libakio.Linklist.{Linklist}
use libakio.Linklist.Heap.{Ptr, null, Memory}
use libakio.Linklist.Segment.{
  Items, first, last, has, Distinct, Segment, Apart, last-mem, last-append,
}

pub record IsList (m : Memory) (l : Linklist) (xs : Items) : Type 0 where
  pub chain : Segment m.cells null xs null
  pub distinct : Distinct xs
  pub head : l.head ≡ first null xs
  pub tail : l.tail ≡ last null xs
  pub len : l.len ≡ length xs

-- `m` and `m'` have the same nodes outside the addresses of `xs` and the address `p`.
abbrev pub SameOutside : Items → Ptr → Memory → Memory → Type 0
SameOutside xs p m m' = (a : Ptr) → a ≢ p → has a xs ≡ false → m'.cells a ≡ m.cells a

-- The list's tail after a node was put behind the last one of `xs`.
pub tail-insert :
    (f : Ptr) (xs ys : Items)
    → Apart xs ys
    → last null xs ≢ null
    → (if last null (xs ++ ys) == last null xs then f else last null (xs ++ ys)) ≡ last f ys
tail-insert f [] ys d ne = absurd (ne refl)
tail-insert f ((p, v) ∷ xs) [] d ne = rw (last-append p xs []) (ground arith)
tail-insert f ((p, v) ∷ xs) ((q, w) ∷ ys) d ne =
    rw (last-append p xs ((q, w) ∷ ys))
      (ground (arith, last-mem q w ys, d.disjoint (last p xs) (last-mem p v xs)))

-- The list's head after a node was put before the first one of `ys`.
pub head-insert :
    (f : Ptr) (xs ys : Items)
    → Apart xs ys
    → first null ys ≢ null
    → (if first null (xs ++ ys) == first null ys then f else first null (xs ++ ys)) ≡ first f xs
head-insert f [] ys d ne = ground arith
head-insert f ((p, v) ∷ xs) [] d ne = absurd (ne refl)
head-insert f ((p, v) ∷ xs) ((q, w) ∷ ys) d ne = ground (arith, d.disjoint p (ground arith))

-- The end that an insertion does not touch.
pub head-keep : (f : Ptr) (xs ys : Items) → last null xs ≢ null → first null (xs ++ ys) ≡ first f xs
head-keep f [] ys ne = absurd (ne refl)
head-keep f ((p, v) ∷ xs) ys ne = refl

pub tail-keep : (f : Ptr) (xs ys : Items) → first null ys ≢ null → last null (xs ++ ys) ≡ last f ys
tail-keep f xs [] ne = absurd (ne refl)
tail-keep f xs ((q, w) ∷ ys) ne = last-append null xs ((q, w) ∷ ys)
