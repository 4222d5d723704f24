-- ===== src/Skiplist/Make.antt =====
-- skiplist_new of skiplist/skiplist.c makes the list that has no node, whatever the memory held.
use Prim.Native.Nat.{Ordering}
use libakio.Prelude.{
  ℕ, zero, suc, ◌+◌, ◌≤◌, ◌≡◌, ◌≢◌, inl, inr, refl, ◌∙◌, arith, true, false, none, some, List, [],
  length, ◌==◌, Bool-cases, ok,
}
use libakio.Skiplist.{Skiplist, max_level, create_node, clear_forward, new}
use libakio.Skiplist.Memory.{Ptr, null, Cells, update}
use libakio.Skiplist.Views.{Shape, IsAt, shape, fwd, set_forward-run, IsAt-kept}
use libakio.Skiplist.Links.{in_range}
use libakio.Skiplist.Valid.{IsSkiplist}

abbrev empty_list : Ptr → Skiplist
empty_list header = record { level = 1; len = 0; header = header; tail = null }

module _ {K : Type 0} where
  -- The header after its pointers have been cleared at a range of levels.
  record IsCleared (header : Ptr) (i rounds : ℕ) (cells cells' : Cells K) : Type 0 where
    same : (p : Ptr) → shape cells' p ≡ shape cells p
    nulls : (j : ℕ) → in_range i rounds j ≡ true → fwd cells' header j ≡ null
    others : (j : ℕ) → in_range i rounds j ≡ false → fwd cells' header j ≡ fwd cells header j

  clear-run :
      (rounds i : ℕ) (header : Ptr) (s : Shape K) (cells : Cells K)
      → IsAt cells header s
      → i + rounds ≤ s.room
      → (cells' : Cells K) × (clear_forward rounds i header cells ≡ ok cells')
        × IsCleared header i rounds cells cells'
  unfolding clear_forward
  clear-run zero i header s cells at fits = (
    cells,
    refl,
    record { same = λ p. refl; nulls = λ j e. absurd (ground arith); others = λ j e. refl },
  )
  clear-run (suc rounds) i header s cells at fits =
      let (cells1, (set_ok, w)) = set_forward-run cells header i null s at (omega arith) in
      let (cells', run, done) =
        clear-run rounds (i + 1) header s cells1
          (IsAt-kept cells cells1 header s (w.shapes header) at) (omega arith) in
      let hit : (header == header) ≡ true = ground arith in
      (
        cells',
        rw set_ok run,
        record {
          same = λ p. done.same p ∙ w.shapes p;
          nulls = λ j e. elim (Bool-cases (in_range (i + 1) rounds j)) [
            | inl later ↦ done.nulls j later
            | inr first ↦
                let level : (j == i) ≡ true = ground arith in
                done.others j first ∙ w.pointers header j ∙ rw (hit, level) refl
          ];
          others = λ j e.
              let level : (j == i) ≡ false = ground arith in
              done.others j (ground arith) ∙ w.pointers header j ∙ rw (hit, level) refl;
        },
      )

  new-steps :
      (header : Ptr) (forward : List Ptr) (cells cells' : Cells K)
      → clear_forward max_level 0 header
          (update cells header (some (record { key = none; value = 0; forward = forward })))
        ≡ ok cells'
      → new true (some (header, forward)) cells ≡ ok (some (empty_list header), cells')
  unfolding new create_node
  new-steps header forward cells cells' e = rw e refl

  pub new-IsSkiplist :
      (compare : K → K → Ordering) (header : Ptr) (forward : List Ptr) (cells : Cells K)
      → header ≢ null
      → max_level ≤ length forward
      → (list : Skiplist) × (cells' : Cells K) × (new true (some (header, forward)) cells
          ≡ ok (some list, cells'))
        × IsSkiplist compare list cells' []
  unfolding update
  new-IsSkiplist compare header forward cells valid fits =
      let made : Cells K =
        update cells header (some (record { key = none; value = 0; forward = forward })) in
      let hit : (header == header) ≡ true = ground arith in
      let at : IsAt made header (record { key = none; value = 0; room = length forward }) = record {
        valid = valid;
        here = rw hit refl;
      } in
      let (cells', run, done) = clear-run max_level 0 header _ made at fits in
      (
        empty_list header,
        cells',
        new-steps header forward cells cells' run,
        record {
          header = record {
            value = 0;
            room = length forward;
            at = IsAt-kept made cells' header _ (done.same header) at;
            high = fits;
            links = λ i lt. done.nulls i (ground arith);
          };
          chain = tt;
          sorted = tt;
          distinct = tt;
          apart = refl;
          heights = tt;
          level_pos = omega arith;
          level_max = omega arith;
          count = refl;
        },
      )
