-- ===== src/Skiplist/Unlink.antt =====
-- The loop of skiplist_delete of skiplist/skiplist.c that takes a node out of its levels.
use libakio.Prelude.{
  ℕ, zero, suc, ◌+◌, ◌<◌, ◌≤◌, ◌≡◌, ◌≢◌, inl, inr, refl, sym, ◌∙◌, arith, true, false, ◌&&◌, List,
  ltb, leb, ◌==◌, ==_iff, ne→==-false, Bool-cases, if◌then◌else◌, ok, read,
}
use libakio.Skiplist.{unlink}
use libakio.Skiplist.Memory.{Ptr, Cells, get_forward, set_forward}
use libakio.Skiplist.Views.{IsWrite, shape, fwd}
use libakio.Skiplist.Links.{in_range, if_and_true, Spot, Spot-kept, Spot-get, Spot-set}

module _ {K : Type 0} where
  module _ (x : Ptr) (at : ℕ → Ptr) where
    -- The memory after `x` has been taken out of the levels from `i` below `top`.
    pub record IsUnlinked (i top : ℕ) (cells cells' : Cells K) : Type 0 where
      pub shapes : (p : Ptr) → shape cells' p ≡ shape cells p
      pub others :
          (p : Ptr) (j : ℕ)
          → p ≢ x
          → fwd cells' p j
            ≡ (if (leb i j && ltb j top) && (p == at j) then fwd cells x j else fwd cells p j)
      pub own : (j : ℕ) → fwd cells' x j ≡ fwd cells x j

    pub record IsTaken (top rounds i : ℕ) (updates : List Ptr) (cells : Cells K) : Type 0 where
      pub apart : (j : ℕ) → at j ≢ x
      pub entries : (j : ℕ) → in_range i rounds j ≡ true → read updates j ≡ ok (at j)
      pub befores : (j : ℕ) → in_range i rounds j ≡ true → Spot cells (at j) j
      pub hits : (j : ℕ) → in_range i rounds j ≡ true → j < top → fwd cells (at j) j ≡ x
      pub misses : (j : ℕ) → in_range i rounds j ≡ true → top ≤ j → fwd cells (at j) j ≢ x
      pub own : (j : ℕ) → j < top → Spot cells x j
      pub covered : top ≤ i + rounds

    unlink-stop :
        (rounds i : ℕ) (updates : List Ptr) (cells : Cells K)
        → read updates i ≡ ok (at i)
        → get_forward cells (at i) i ≡ ok (fwd cells (at i) i)
        → (fwd cells (at i) i == x) ≡ false
        → unlink (suc rounds) i x updates cells ≡ ok cells
    unfolding unlink
    unlink-stop rounds i updates cells r g miss = rw (r, g, miss) refl

    unlink-step :
        (rounds i : ℕ) (updates : List Ptr) (cells cells1 : Cells K)
        → read updates i ≡ ok (at i)
        → get_forward cells (at i) i ≡ ok (fwd cells (at i) i)
        → (fwd cells (at i) i == x) ≡ true
        → get_forward cells x i ≡ ok (fwd cells x i)
        → set_forward cells (at i) i (fwd cells x i) ≡ ok cells1
        → unlink (suc rounds) i x updates cells ≡ unlink rounds (i + 1) x updates cells1
    unfolding unlink
    unlink-step rounds i updates cells cells1 r g hit gx s1 = rw (r, g, hit, gx, s1) refl

    nothing_taken : (top i : ℕ) (cells : Cells K) → top ≤ i → IsUnlinked i top cells cells
    nothing_taken top i cells le = record {
      shapes = λ p. refl;
      others = λ p j ne. let miss : (leb i j && ltb j top) ≡ false = ground arith in rw miss refl;
      own = λ j. refl;
    }

    next_taken :
        (top i : ℕ) (cells cells1 cells' : Cells K)
        → i < top
        → at i ≢ x
        → IsWrite cells (at i) i (fwd cells x i) cells1
        → IsUnlinked (i + 1) top cells1 cells'
        → IsUnlinked i top cells cells'
    next_taken top i cells cells1 cells' lt apart w rest =
        let own_kept : (j : ℕ) → fwd cells1 x j ≡ fwd cells x j = λ j.
          let miss : (x == at i) ≡ false = ne→==-false x (at i) (λ e. apart (sym e)) in
          w.pointers x j ∙ rw miss refl in
        record {
          shapes = λ p. rest.shapes p ∙ w.shapes p;
          own = λ j. rest.own j ∙ own_kept j;
          others = λ p j ne. elim (Bool-cases (j == i)) [
            | inl same ↦
                let eq : j ≡ i = (==_iff j i).0 same in
                let outside : (leb (i + 1) i && ltb i top) ≡ false = ground arith in
                let inside : (leb i i && ltb i top) ≡ true = ground arith in
                let level : (i == i) ≡ true = ground arith in
                rw eq (
                  rest.others p i ne
                  ∙ rw (outside, inside)
                      (w.pointers p i
                        ∙ rw level (if_and_true (p == at i) (fwd cells x i) (fwd cells p i))))
            | inr other ↦
                let miss : ((p == at i) && (j == i)) ≡ false = ground arith in
                let old : fwd cells1 p j ≡ fwd cells p j = w.pointers p j ∙ rw miss refl in
                let range : (leb (i + 1) j && ltb j top) ≡ (leb i j && ltb j top) = ground arith in
                rest.others p j ne ∙ rw (range, old, own_kept j) refl
          ];
        }

    pub unlink-run :
        (rounds i top : ℕ) (updates : List Ptr) (cells : Cells K)
        → IsTaken top rounds i updates cells
        → (cells' : Cells K) × ((unlink rounds i x updates cells ≡ ok cells')
            × IsUnlinked i top cells cells')
    unfolding unlink
    unlink-run zero i top updates cells taken =
        (cells, (refl, nothing_taken top i cells (omega (arith, taken.covered))))
    unlink-run (suc rounds) i top updates cells taken =
        let first : in_range i (suc rounds) i ≡ true = ground arith in
        let entry = taken.entries i first in
        let got = Spot-get cells (at i) i (taken.befores i first) in
        elim (Bool-cases (ltb i top)) [
          | inr over ↦
              let le : top ≤ i = ground arith in
              (
                cells,
                (
                  unlink-stop rounds i updates cells entry got
                      (ne→==-false _ x (taken.misses i first le)),
                  nothing_taken top i cells le,
                ),
              )
          | inl below ↦
              let lt : i < top = ground arith in
              let (cells1, (set1, w)) =
                Spot-set cells (at i) i (fwd cells x i) (taken.befores i first) in
              let hit : (fwd cells (at i) i == x) ≡ true =
                (==_iff (fwd cells (at i) i) x).1 (taken.hits i first lt) in
              let kept : (j : ℕ) → j ≢ i → fwd cells1 (at j) j ≡ fwd cells (at j) j = λ j ne.
                let miss : ((at j == at i) && (j == i)) ≡ false =
                  rw (ne→==-false j i ne) (ground arith) in
                w.pointers (at j) j ∙ rw miss refl in
              let (cells', (run, done)) = unlink-run rounds (i + 1) top updates cells1 (record {
                apart = taken.apart;
                entries = λ j inside. taken.entries j (ground arith);
                befores = λ j inside.
                    Spot-kept cells cells1 (at j) j (w.shapes (at j))
                      (taken.befores j (ground arith));
                hits =
                    λ j inside j_lt. kept j (λ e. ground arith) ∙ taken.hits j (ground arith) j_lt;
                misses = λ j inside le e.
                    taken.misses j (ground arith) le (sym (kept j (λ e. ground arith)) ∙ e);
                own = λ j j_lt. Spot-kept cells cells1 x j (w.shapes x) (taken.own j j_lt);
                covered = omega (arith, taken.covered);
              }) in
              (
                cells',
                (
                  unlink-step rounds i updates cells cells1 entry got hit
                        (Spot-get cells x i (taken.own i lt)) set1
                      ∙ run,
                  next_taken top i cells cells1 cells' lt (taken.apart i) w done,
                ),
              )
        ]
