-- ===== src/Linklist/Commands.antt =====
-- The commands of linklist/linklist.c on a memory: what each pointer write leaves behind.
use libakio.Prelude.{
  ℕ, ◌≡◌, ◌≢◌, refl, Bool, true, false, none, some, [], ◌∷◌, arith, ◌==◌, if◌then◌else◌, ok,
}
use mathlib.Core.Path.{fun_ext}
use libakio.Linklist.Heap.{
  Ptr, null, Node, Cells, Memory, Cmd, pure, update, load, store, set_next, set_prev, free, release,
  ◌>>◌,
}
use libakio.Linklist.Segment.{Items, first, last, Segment, link_next, link_prev, last-node}

module _ (h : Cells) {p : Ptr} (q : Ptr) (n : Node) (ne : p ≢ null) (e : h p ≡ some n) where
  update-link_next : update h p (some (record n { next = q })) ≡ link_next h p q
  unfolding update link_next
  update-link_next = fun_ext λ a. ground arith

  update-link_prev : update h p (some (record n { prev = q })) ≡ link_prev h p q
  unfolding update link_prev
  update-link_prev = fun_ext λ a. ground arith

module _ (m : Memory) {p : Ptr} {n : Node} (ne : p ≢ null) (e : m.cells p ≡ some n) where
  not_null : (p == null) ≡ false
  not_null = ground arith

  pub load-ok : load p m ≡ ok (n, m)
  unfolding load
  load-ok = rw (not_null, e)

  pub set_next-ok : (q : Ptr) → set_next p q m ≡ ok (tt, record m { cells = link_next m.cells p q })
  unfolding set_next store
  set_next-ok q = rw (load-ok, update-link_next m.cells q n ne e)

  pub set_prev-ok : (q : Ptr) → set_prev p q m ≡ ok (tt, record m { cells = link_prev m.cells p q })
  unfolding set_prev store
  set_prev-ok q = rw (load-ok, update-link_prev m.cells q n ne e)

  pub free-ok : free p m ≡ ok (tt, record m { cells = update m.cells p none })
  unfolding free store
  free-ok = rw load-ok

module _ (m : Memory) (q before behind : Ptr) where
  -- `if (p != NULL) p->next = q` for the last node of a segment
  pub maybe_next-ok :
      (xs : Items)
      → Segment m.cells before xs behind
      → (if last null xs == null then pure tt else set_next (last null xs) q) m
        ≡ ok (tt, record m { cells = link_next m.cells (last null xs) q })
  unfolding link_next
  maybe_next-ok [] s = refl
  maybe_next-ok ((p, v) ∷ xs) s =
      let (ne, (n, e, _)) = last-node m.cells before behind p v xs s in
      rw (not_null m ne e) (set_next-ok m ne e q)

  -- `if (p != NULL) p->prev = q` for the first node of a segment
  pub maybe_prev-ok :
      (xs : Items)
      → Segment m.cells before xs behind
      → (if first null xs == null then pure tt else set_prev (first null xs) q) m
        ≡ ok (tt, record m { cells = link_prev m.cells (first null xs) q })
  unfolding link_prev
  maybe_prev-ok [] s = refl
  maybe_prev-ok ((p, v) ∷ xs) s = rw (not_null m s.0 s.1) (set_prev-ok m s.0 s.1 q)

-- the memory after `free_func`, if there is one, was called and the node was freed
abbrev pub dropped : Bool → Memory → Ptr → ℕ → Memory
dropped free_func m p v = record {
  cells = update m.cells p none;
  released = if free_func then v ∷ m.released else m.released;
}

pub drop-ok :
    {A : Type 0} (free_func : Bool) (m : Memory) {p : Ptr} {n : Node} (c : Cmd A)
    → p ≢ null
    → m.cells p ≡ some n
    → ((if free_func then release n.value else pure tt) >> (free p >> c)) m
      ≡ c (dropped free_func m p n.value)
unfolding release
drop-ok true m {n} c ne e = rw (free-ok (record m { released = n.value ∷ m.released }) ne e)
drop-ok false m c ne e = rw (free-ok m ne e)
