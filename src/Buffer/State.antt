-- ===== src/Buffer/State.antt =====
-- The invariant of a chain of kznet/buffer.c and its pool: which buffers are where, and in which state.
use libakio.Prelude.{
  ℕ, suc, ◌+◌, ◌<◌, ◌≤◌, ◌≡◌, ◌≢◌, inl, inr, refl, sym, ap, ◌∙◌, arith, true, none, List, [], ◌∷◌,
  ◌++◌, ◌==◌, ==_iff, Bool-cases,
}
use libakio.Buffer.{Store}
use libakio.Buffer.Memory.{Ptr, null, Buffer, Cells, update}
use libakio.Buffer.Chain.{Chain}
use libakio.Buffer.Bytes.{IsBuffer, content}
use libakio.Buffer.Segment.{
  Item, first, count, cell, IsAt, Segment, bytes_of, count_self, Segment-kept, update_self,
  update_other,
}
use libakio.Buffer.Spare.{IsPool, IsPool-kept, not_free}

abbrev pub AllBuffers : List Item → Type 0
AllBuffers [] = Unit {0}
AllBuffers (x ∷ xs) = IsBuffer x.buffer × AllBuffers xs

pub AllBuffers-append :
    (xs : List Item) (w : Item) → AllBuffers xs → IsBuffer w.buffer → AllBuffers (xs ++ w ∷ [])
AllBuffers-append [] w goods good = (good, tt)
AllBuffers-append (x ∷ xs) w (here, goods) good = (here, AllBuffers-append xs w goods good)

-- The chain has the buffers `front` and at its end `w`, and the pool has `ys`.
pub record IsChain (s : Store) (chain : Chain) (front : List Item) (w : Item) (ys : List Item)
    : Type 0 where
  pub segment : Segment s.cells front w.addr
  pub at_end : IsAt s.cells w.addr w.buffer null
  pub read_first : chain.rbuf ≡ first front w.addr
  pub write_last : chain.wbuf ≡ w.addr
  pub buffers : AllBuffers front
  pub buffer : IsBuffer w.buffer
  pub pool : IsPool s ys
  pub once : (a : Ptr) → count a front + count a (w ∷ []) + count a ys ≤ 1

-- the bytes that the chain holds
abbrev pub chain_bytes : List Item → Item → List ℕ
chain_bytes front w = bytes_of front ++ content w.buffer

pub Segment-some :
    (cells : Cells) (xs : List Item) (q a : Ptr)
    → Segment cells xs q
    → 0 < count a xs
    → cells a ≢ none
Segment-some cells [] q a seg more e = omega (arith, more)
Segment-some cells (x ∷ xs) q a ((valid, here), seg) more e = elim (Bool-cases (a == x.addr)) [
  | inl hit ↦ cc (sym here ∙ ap cells (sym ((==_iff a x.addr).0 hit)) ∙ e)
  | inr miss ↦
      let c : count a (x ∷ xs) ≡ count a xs = rw miss refl in
      Segment-some cells xs q a seg (omega (arith, more, c)) e
]

-- The last buffer changes.
pub IsChain-write :
    (s : Store) (chain : Chain) (front : List Item) (w : Item) (ys : List Item) (b : Buffer)
    → IsBuffer b
    → IsChain s chain front w ys
    → IsChain
        (record s { cells = update s.cells w.addr (cell b null) })
        chain
        front
        (record w { buffer = b })
        ys
IsChain-write s chain front w ys b good state =
    let w_once : (a : Ptr) → 0 < count a front + count a ys → a ≢ w.addr = λ a more e.
      let c : count w.addr (w ∷ []) ≡ suc 0 =
        (let hit : (w.addr == w.addr) ≡ true = ground arith in rw hit refl) in
      let d : count a front ≡ count w.addr front = ap (λ (z : Ptr). count z front) e in
      let f : count a ys ≡ count w.addr ys = ap (λ (z : Ptr). count z ys) e in
      omega (arith, state.once w.addr, c, d, f, more) in
    record {
      segment =
          Segment-kept s.cells _ front w.addr
            (λ a more. update_other s.cells w.addr _ a (w_once a (omega (arith, more))))
            state.segment;
      at_end = (state.at_end.0, update_self s.cells w.addr _);
      read_first = state.read_first;
      write_last = state.write_last;
      buffers = state.buffers;
      buffer = good;
      pool =
          IsPool-kept s _ ys
            (λ a more. update_other s.cells w.addr _ a (w_once a (omega (arith, more))))
            (λ a e.
              update_other s.cells w.addr _ a
                (not_free s.cells w.addr a w.buffer null state.at_end.1 e)
              ∙ e)
            state.pool;
      once = state.once;
    }

-- The first buffer of several changes.
pub IsChain-front :
    (s : Store) (chain : Chain) (x : Item) (front : List Item) (w : Item) (ys : List Item)
    (b : Buffer)
    → IsBuffer b
    → IsChain s chain (x ∷ front) w ys
    → IsChain
        (record s { cells = update s.cells x.addr (cell b (first front w.addr)) })
        chain
        (record x { buffer = b } ∷ front)
        w
        ys
IsChain-front s chain x front w ys b good state =
    let hit : (x.addr == x.addr) ≡ true = ground arith in
    let x_once : (a : Ptr) → 0 < count a front + count a (w ∷ []) + count a ys → a ≢ x.addr =
      λ a more e.
        let c : count x.addr (x ∷ front) ≡ suc (count x.addr front) = rw hit refl in
        let d : count a front ≡ count x.addr front = ap (λ (z : Ptr). count z front) e in
        let f : count a ys ≡ count x.addr ys = ap (λ (z : Ptr). count z ys) e in
        let g : count a (w ∷ []) ≡ count x.addr (w ∷ []) = ap (λ (z : Ptr). count z (w ∷ [])) e in
        omega (arith, state.once x.addr, c, d, f, g, more) in
    let ((valid, here), seg) = state.segment in
    record {
      segment = (
        (valid, update_self s.cells x.addr _),
        Segment-kept s.cells _ front w.addr
            (λ a more. update_other s.cells x.addr _ a (x_once a (omega (arith, more)))) seg,
      );
      at_end = (
        state.at_end.0,
        update_other s.cells x.addr _ w.addr (x_once w.addr (omega (arith, count_self w [])))
            ∙ state.at_end.1,
      );
      read_first = state.read_first;
      write_last = state.write_last;
      buffers = (good, state.buffers.1);
      buffer = state.buffer;
      pool =
          IsPool-kept s _ ys
            (λ a more. update_other s.cells x.addr _ a (x_once a (omega (arith, more))))
            (λ a e.
              update_other s.cells x.addr _ a (not_free s.cells x.addr a x.buffer _ here e) ∙ e)
            state.pool;
      once = state.once;
    }

-- The counters do not matter.
pub IsChain-same :
    (s : Store) (chain chain' : Chain) (front : List Item) (w : Item) (ys : List Item)
    → chain'.rbuf ≡ chain.rbuf
    → chain'.wbuf ≡ chain.wbuf
    → IsChain s chain front w ys
    → IsChain s chain' front w ys
IsChain-same s chain chain' front w ys r e state = record {
  segment = state.segment;
  at_end = state.at_end;
  read_first = r ∙ state.read_first;
  write_last = e ∙ state.write_last;
  buffers = state.buffers;
  buffer = state.buffer;
  pool = state.pool;
  once = state.once;
}
