-- ===== src/Buffer/Delete.antt =====
-- buffer_pool_delete of kznet/buffer.c gives back every buffer of the pool, and nothing else.
use libakio.Prelude.{
  ℕ, zero, suc, ◌<◌, ◌≤◌, ◌≡◌, ◌≢◌, inl, inr, refl, ap, ◌∙◌, arith, true, none, List, [], ◌∷◌,
  length, ltb, ◌==◌, ==_iff, ne→==-false, Bool-cases, if◌then◌else◌, ok,
}
use libakio.Buffer.{Store, delete_loop, delete}
use libakio.Buffer.Memory.{Ptr, null, Cell, Cells, update, load}
use libakio.Buffer.Segment.{
  Item, first, count, Segment, count_rest, Segment-kept, load-run, update_self, update_other,
}
use libakio.Buffer.Spare.{IsPool, not_in}

delete_loop-step :
    (fuel : ℕ) (p : Ptr) (c : Cell) (cells : Cells)
    → p ≢ null
    → load cells p ≡ ok c
    → delete_loop (suc fuel) p cells ≡ delete_loop fuel c.next (update cells p none)
unfolding delete_loop
delete_loop-step fuel p c cells ne l = rw (ne→==-false p null ne, l) refl

delete_loop-run :
    (fuel : ℕ) (cells : Cells) (ys : List Item)
    → length ys < fuel
    → ((a : Ptr) → count a ys ≤ 1)
    → Segment cells ys null
    → (cells' : Cells) × (delete_loop fuel (first ys null) cells ≡ ok cells')
      × ((a : Ptr) → cells' a ≡ (if ltb 0 (count a ys) then none else cells a))
unfolding delete_loop
delete_loop-run zero cells ys enough once seg = absurd (omega arith)
delete_loop-run (suc fuel) cells [] enough once seg = (cells, refl, λ a. refl)
delete_loop-run (suc fuel) cells (y ∷ ys) enough once ((valid, here), seg) =
    let hit : (y.addr == y.addr) ≡ true = ground arith in
    let out : count y.addr ys ≡ 0 =
      let c : count y.addr (y ∷ ys) ≡ suc (count y.addr ys) = rw hit refl in
      omega (arith, once y.addr, c) in
    let (cells', run, done) =
      delete_loop-run fuel (update cells y.addr none) ys (omega arith)
        (λ a. omega (arith, once a, count_rest a y ys))
        (Segment-kept cells (update cells y.addr none) ys null
          (λ a more. update_other cells y.addr none a (not_in a y.addr ys more out)) seg) in
    (
      cells',
      delete_loop-step fuel y.addr (record { buffer = y.buffer; next = first ys null }) cells valid
            (load-run cells y.addr y.buffer (first ys null) (valid, here))
          ∙ run,
      (λ a. done a ∙ (elim (Bool-cases (a == y.addr)) [
        | inr ne ↦ rw (ne, update_other cells y.addr none a (λ e. ground arith)) refl
        | inl e ↦
            let eq : a ≡ y.addr = (==_iff a y.addr).0 e in
            let none_left : count a ys ≡ 0 = ap (λ (z : Ptr). count z ys) eq ∙ out in
            let gone : update cells y.addr none a ≡ none =
              ap (update cells y.addr none) eq ∙ update_self cells y.addr none in
            let some_there : ltb 0 (suc (count a ys)) ≡ true = ground arith in
            rw (e, some_there, none_left) gone
      ])),
    )

-- With fuel for more rounds than the pool has buffers, buffer_pool_delete of a well-formed pool
-- ends without a fault, frees every one of them and no other address.
pub delete-all :
    (fuel : ℕ) (s : Store) (ys : List Item)
    → IsPool s ys
    → length ys < fuel
    → (cells' : Cells) × (delete fuel s ≡ ok cells')
      × ((a : Ptr) → cells' a ≡ (if ltb 0 (count a ys) then none else s.cells a))
unfolding delete
delete-all fuel s ys pool enough =
    let (cells', run, done) = delete_loop-run fuel s.cells ys enough pool.once pool.segment in
    (cells', ap (λ (p : Ptr). delete_loop fuel p s.cells) pool.head ∙ run, done)
