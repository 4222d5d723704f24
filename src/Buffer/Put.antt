-- ===== src/Buffer/Put.antt =====
-- buffer_pool_put of kznet/buffer.c: an empty buffer more in the pool, or a block given back.
use mathlib.Core.Option.{some-injective}
use libakio.Prelude.{
  ℕ, ◌+◌, ◌-◌, ◌≤◌, ◌≡◌, ◌≢◌, inl, inr, refl, sym, ap, ◌∙◌, arith, true, false, Option, none, some,
  List, [], ◌∷◌, ◌++◌, length-append, ltb, ◌==◌, ==_iff, Bool-cases, if◌then◌else◌, ok,
}
use libakio.Buffer.{Store, append, rewind, put_back, put}
use libakio.Buffer.Memory.{Ptr, null, Buffer, Cell, Cells, update}
use libakio.Buffer.Bytes.{IsBuffer}
use libakio.Buffer.Segment.{
  Item, last_addr, count, cell, IsAt, count-append, count_last, Segment-kept, Segment-append,
  Segment-relinked, load-run, set_next-run, update_self, update_other,
}
use libakio.Buffer.Spare.{
  IsPool, IsBlocks-kept, AllEmpty-append, not_free, not_in, Segment-last, last_addr-append,
  rewind-IsEmpty,
}

abbrev pub one_at : Ptr → Ptr → ℕ
one_at a p = if a == p then 1 else 0

put-freed :
    (s : Store) (p : Ptr) (b : Buffer) (q : Ptr)
    → IsAt s.cells p b q
    → ltb s.pool.maxsize s.pool.allocs ≡ true
    → put s p
      ≡ ok (record s {
        cells = update s.cells p none;
        pool = record (s.pool) { allocs = s.pool.allocs - 1 };
      })
unfolding put
put-freed s p b q at over = rw (over, load-run s.cells p b q at) refl

put-first :
    (s : Store) (p : Ptr) (b : Buffer) (q : Ptr)
    → IsAt s.cells p b q
    → ltb s.pool.maxsize s.pool.allocs ≡ false
    → s.pool.tail ≡ none
    → put s p
      ≡ ok (record s {
        cells = update s.cells p (cell (rewind b) null);
        pool = record (s.pool) { head = p; tail = some p; size = s.pool.size + 1 };
      })
unfolding put put_back append
put-first s p b q at room tail = rw (room, load-run s.cells p b q at, tail) refl

put-behind :
    (s : Store) (p : Ptr) (b : Buffer) (q t : Ptr) (bt : Buffer)
    → IsAt s.cells p b q
    → ltb s.pool.maxsize s.pool.allocs ≡ false
    → s.pool.tail ≡ some t
    → IsAt (update s.cells p (cell (rewind b) null)) t bt null
    → put s p
      ≡ ok (record s {
        cells = update (update s.cells p (cell (rewind b) null)) t (cell bt p);
        pool = record (s.pool) { tail = some p; size = s.pool.size + 1 };
      })
unfolding put put_back append
put-behind s p b q t bt at room tail at_t =
    rw
      (
        room,
        load-run s.cells p b q at,
        tail,
        set_next-run (update s.cells p (cell (rewind b) null)) t bt null p at_t,
      )
      refl

-- What a call leaves: the pool has the buffers `ys'`, and nothing but its own and the one at `p` changed.
pub record IsPut (s : Store) (p : Ptr) (ys : List Item) (s' : Store) (ys' : List Item)
    : Type 0 where
  pub pool : IsPool s' ys'
  pub others : (a : Ptr) → a ≢ p → count a ys ≡ 0 → s'.cells a ≡ s.cells a
  pub counts : (a : Ptr) → count a ys' ≤ count a ys + one_at a p
  pub same_blocks : s'.blocks ≡ s.blocks
  pub frees : (a : Ptr) → s.cells a ≡ none → s'.cells a ≡ none

module _ (s : Store) (p : Ptr) (b : Buffer) (q : Ptr) (at : IsAt s.cells p b q)
    (good : IsBuffer b) where
  abbrev pub returned : Item
  returned = record { addr = p; buffer = rewind b }

  counts_append :
      (a : Ptr) (ys : List Item) → count a (ys ++ returned ∷ []) ≡ count a ys + one_at a p
  counts_append a ys = count-append a ys (returned ∷ [])

  free_kept : (c : Option Cell) (a : Ptr) → s.cells a ≡ none → update s.cells p c a ≡ none
  free_kept c a e = update_other s.cells p c a (not_free s.cells p a b q at.1 e) ∙ e

  freed-IsPut :
      (ys : List Item)
      → IsPool s ys
      → count p ys ≡ 0
      → IsPut s p ys
          (record s {
            cells = update s.cells p none;
            pool = record (s.pool) { allocs = s.pool.allocs - 1 };
          })
          ys
  freed-IsPut ys pool out = record {
    pool = record {
      segment =
          Segment-kept s.cells (update s.cells p none) ys null
            (λ a pos. update_other s.cells p none a (not_in a p ys pos out)) pool.segment;
      head = pool.head;
      tail = pool.tail;
      size = pool.size;
      empty = pool.empty;
      once = pool.once;
      blocks =
          IsBlocks-kept s.cells (update s.cells p none) s.blocks (λ a inside e. free_kept none a e)
            pool.blocks;
    };
    others = λ a ne outside. update_other s.cells p none a ne;
    counts = λ a. omega arith;
    same_blocks = refl;
    frees = free_kept none;
  }

  first-IsPut :
      IsPool s []
      → IsPut s p []
          (record s {
            cells = update s.cells p (cell (rewind b) null);
            pool = record (s.pool) { head = p; tail = some p; size = s.pool.size + 1 };
          })
          (returned ∷ [])
  first-IsPut pool = record {
    pool = record {
      segment = ((at.0, update_self s.cells p _), tt);
      head = refl;
      tail = refl;
      size = omega (arith, pool.size);
      empty = (rewind-IsEmpty b good, tt);
      once = λ a. ground arith;
      blocks =
          IsBlocks-kept s.cells (update s.cells p (cell (rewind b) null)) s.blocks
            (λ a inside e. free_kept _ a e) pool.blocks;
    };
    others = λ a ne outside. update_other s.cells p _ a ne;
    counts = λ a. ground arith;
    same_blocks = refl;
    frees = free_kept _;
  }

  module _ (y : Item) (ys : List Item) (pool : IsPool s (y ∷ ys)) (out : count p (y ∷ ys) ≡ 0) where
    abbrev t : Ptr
    t = last_addr y ys

    abbrev rewound : Cells
    rewound = update s.cells p (cell (rewind b) null)

    t_ne : t ≢ p
    t_ne = not_in t p (y ∷ ys) (count_last y ys) out

    last : (bt : Buffer) × IsAt s.cells t bt null
    last = Segment-last s.cells y ys null pool.segment

    behind-IsPut :
        (bt : Buffer)
        → IsAt s.cells t bt null
        → IsPut s p
            (y ∷ ys)
            (record s {
              cells = update rewound t (cell bt p);
              pool = record (s.pool) { tail = some p; size = s.pool.size + 1 };
            })
            ((y ∷ ys) ++ returned ∷ [])
    behind-IsPut bt (valid, here) =
        let cells' : Cells = update rewound t (cell bt p) in
        let other : (a : Ptr) → a ≢ p → a ≢ t → cells' a ≡ s.cells a =
          λ a ne ne_t. update_other rewound t _ a ne_t ∙ update_other s.cells p _ a ne in
        let frees : (a : Ptr) → s.cells a ≡ none → cells' a ≡ none = λ a e.
          other a (not_free s.cells p a b q at.1 e) (not_free s.cells t a bt null here e) ∙ e in
        record {
          pool = record {
            segment =
                Segment-append cells' (y ∷ ys) (returned ∷ []) null
                  (Segment-relinked s.cells cells' y ys null p pool.once
                    (λ a pos ne. other a (not_in a p (y ∷ ys) pos out) ne)
                    (λ b' e.
                      let same : bt ≡ b' =
                        ap (λ (c : Cell). c.buffer) (some-injective _ _ (sym here ∙ e)) in
                      update_self rewound t _ ∙ ap (λ (z : Buffer). cell z p) same)
                    pool.segment)
                  (
                    (
                      at.0,
                      update_other rewound t _ p (λ e. t_ne (sym e)) ∙ update_self s.cells p _,
                    ),
                    tt,
                  );
            head = pool.head;
            tail = ap (λ (a : Ptr). some a) (sym (last_addr-append y ys returned));
            size = omega (arith, pool.size, length-append (y ∷ ys) (returned ∷ []));
            empty = AllEmpty-append (y ∷ ys) returned pool.empty (rewind-IsEmpty b good);
            once = λ a. elim (Bool-cases (a == p)) [
              | inl e ↦
                  let eq : a ≡ p = (==_iff a p).0 e in
                  let zero_there : count a (y ∷ ys) ≡ 0 =
                    ap (λ (z : Ptr). count z (y ∷ ys)) eq ∙ out in
                  omega (
                    arith,
                    counts_append a (y ∷ ys),
                    zero_there,
                    (let one : one_at a p ≡ 1 = rw e refl in one),
                  )
              | inr e ↦ omega (
                arith,
                counts_append a (y ∷ ys),
                pool.once a,
                (let none_here : one_at a p ≡ 0 = rw e refl in none_here),
              )
            ];
            blocks = IsBlocks-kept s.cells cells' s.blocks (λ a inside e. frees a e) pool.blocks;
          };
          others = λ a ne outside.
              other a ne (λ e.
                omega (arith, count_last y ys, ap (λ (z : Ptr). count z (y ∷ ys)) e, outside));
          counts = λ a. omega (arith, counts_append a (y ∷ ys));
          same_blocks = refl;
          frees = frees;
        }

  -- buffer_pool_put of a buffer that is not in the well-formed pool keeps the pool well formed and
  -- changes no buffer outside it but that one: more than maxsize allocated buffers, and the pool
  -- keeps its list; otherwise the buffer comes behind the others, with both markers at its start.
  pub put-IsPut :
      (ys : List Item)
      → IsPool s ys
      → count p ys ≡ 0
      → (s' : Store) × (ys' : List Item) × (put s p ≡ ok s')
        × (ys' ≡ (if ltb s.pool.maxsize s.pool.allocs then ys else ys ++ returned ∷ []))
        × IsPut s p ys s' ys'
  put-IsPut ys pool out = elim (Bool-cases (ltb s.pool.maxsize s.pool.allocs)) [
    | inl over ↦ (_, ys, put-freed s p b q at over, rw over refl, freed-IsPut ys pool out)
    | inr room ↦ kept room ys pool out
  ]
    where
      kept :
          ltb s.pool.maxsize s.pool.allocs ≡ false
          → (ys : List Item) → IsPool s ys
          → count p ys ≡ 0
          → (s' : Store) × (ys' : List Item) × (put s p ≡ ok s')
            × (ys' ≡ (if ltb s.pool.maxsize s.pool.allocs then ys else ys ++ returned ∷ []))
            × IsPut s p ys s' ys'
      kept room [] pool out =
          (_, returned ∷ [], put-first s p b q at room pool.tail, rw room refl, first-IsPut pool)
      kept room (y ∷ ys) pool out =
          let (bt, (valid, here)) = last y ys pool out in
          let there : update s.cells p (cell (rewind b) null) (last_addr y ys) ≡ cell bt null =
            update_other s.cells p _ (last_addr y ys) (t_ne y ys pool out) ∙ here in
          (
            _,
            (y ∷ ys) ++ returned ∷ [],
            put-behind s p b q (last_addr y ys) bt at room pool.tail (valid, there),
            rw room refl,
            behind-IsPut y ys pool out bt (valid, here),
          )
