-- ===== src/Buffer/Fill.antt =====
-- The bytes that buffer_chain_recv of kznet/buffer.c stores, in the last buffer and in an empty one.
use libakio.Prelude.{
  ℕ, ◌+◌, ◌≤◌, ◌≡◌, inl, inr, refl, sym, ap, ◌∙◌, arith, none, List, [], ◌∷◌, ◌++◌, length,
  drop-all, ltb, Bool-cases, Option-cases, ok,
}
use libakio.Buffer.{Store, detach}
use libakio.Buffer.Memory.{
  Ptr, null, take, Buffer, Cell, Cells, buffer_size, header_size, load, set_buffer, set_next, slice,
  store,
}
use libakio.Buffer.Chain.{Chain, fill, extend}
use libakio.Buffer.Bytes.{IsBuffer, content, length-take, length-store, slice-store}
use libakio.Buffer.Segment.{Item, count, Segment, count_self, Segment-kept}
use libakio.Buffer.Spare.{IsEmpty}
use libakio.Buffer.Peek.{IsPeeked}
use libakio.Buffer.State.{IsChain, Segment-some}

pub fill-IsBuffer :
    (b : Buffer) (ys : List ℕ)
    → IsBuffer b
    → b.last + length ys ≤ buffer_size
    → IsBuffer (fill b ys)
fill-IsBuffer b ys good fits = record {
  start_at = good.start_at;
  end_at = good.end_at;
  full = length-store b.bytes b.last ys (omega (arith, good.full)) ∙ good.full;
  read_from = good.read_from;
  in_order = omega (arith, good.in_order);
  fits = omega (arith, good.end_at);
}

pub fill-content : (b : Buffer) (ys : List ℕ) → IsBuffer b → content (fill b ys) ≡ content b ++ ys
fill-content b ys good =
    slice-store b.bytes b.read_at b.last ys good.in_order
      (omega (arith, good.full, good.fits, good.end_at))

-- the buffer of the pool after the other bytes
abbrev pub fill_fresh : Buffer → List ℕ → Buffer
fill_fresh b zs = record b { last = b.read_at + length zs; bytes = store b.bytes b.last zs }

pub fill_fresh-IsBuffer :
    (b : Buffer) (zs : List ℕ)
    → IsEmpty b
    → header_size + length zs ≤ buffer_size
    → IsBuffer (fill_fresh b zs)
fill_fresh-IsBuffer b zs (good, at_start, empty) fits = record {
  start_at = good.start_at;
  end_at = good.end_at;
  full = length-store b.bytes b.last zs (omega (arith, good.full, good.start_at)) ∙ good.full;
  read_from = good.read_from;
  in_order = omega arith;
  fits = omega (arith, good.start_at, good.end_at);
}

pub fill_fresh-content : (b : Buffer) (zs : List ℕ) → IsEmpty b → content (fill_fresh b zs) ≡ zs
fill_fresh-content b zs (good, at_start, empty) =
    let same : b.read_at ≡ b.last = at_start ∙ sym empty in
    let inside : b.last ≤ length b.bytes = omega (arith, good.full, good.fits, good.end_at) in
    let nothing : slice b.last b.last b.bytes ≡ [] =
      drop-all b.last (take b.last b.bytes) (omega (arith, length-take b.last b.bytes inside)) in
    ap (λ (n : ℕ). slice n (n + length zs) (store b.bytes b.last zs)) same
    ∙ slice-store b.bytes b.last b.last zs (omega arith) inside
    ∙ ap (λ (z : List ℕ). z ++ zs) nothing

absent :
    (cells : Cells) (xs : List Item) (q a : Ptr)
    → Segment cells xs q
    → cells a ≡ none
    → count a xs ≡ 0
absent cells xs q a seg free = elim (Bool-cases (ltb 0 (count a xs))) [
  | inl more ↦ absurd (Segment-some cells xs q a seg (ground arith) free)
  | inr zero_there ↦ ground arith
]

-- The chain is as it was after a call of `buffer_pool_peek`.
pub peek-IsChain :
    (s s' : Store) (chain : Chain) (front : List Item) (w t : Item) (ys ys' : List Item)
    → IsChain s chain front w ys
    → IsPeeked s s' ys t ys'
    → IsChain s' chain front w (t ∷ ys')
peek-IsChain s s' chain front w t ys ys' state done = record {
  segment =
      Segment-kept s.cells s'.cells front w.addr
        (λ a more. done.others a (Segment-some s.cells front w.addr a state.segment more))
        state.segment;
  at_end = (
    state.at_end.0,
    done.others w.addr
          (Segment-some s.cells (w ∷ []) null w.addr (state.at_end, tt) (count_self w []))
        ∙ state.at_end.1,
  );
  read_first = state.read_first;
  write_last = state.write_last;
  buffers = state.buffers;
  buffer = state.buffer;
  pool = done.pool;
  once = λ a. elim (Option-cases (s.cells a)) [
    | inr (c, there) ↦ omega (arith, state.once a, done.counts a (λ e. cc (sym there ∙ e)))
    | inl free ↦ omega (
      arith,
      done.pool.once a,
      absent s.cells front w.addr a state.segment free,
      absent s.cells (w ∷ []) null a (state.at_end, tt) free,
    )
  ];
}

pub extend-steps :
    (s s2 : Store) (chain : Chain) (temp : Ptr) (ys zs : List ℕ) (cw ct : Cell)
    (cells1 cells3 cells4 : Cells)
    → load s.cells chain.wbuf ≡ ok cw
    → set_buffer s.cells chain.wbuf (fill cw.buffer ys) ≡ ok cells1
    → load cells1 temp ≡ ok ct
    → detach (record s { cells = cells1 }) temp ≡ ok s2
    → set_buffer s2.cells temp (fill_fresh ct.buffer zs) ≡ ok cells3
    → set_next cells3 chain.wbuf temp ≡ ok cells4
    → extend s chain temp ys zs ≡ ok (record s2 { cells = cells4 }, record chain { wbuf = temp })
unfolding extend
extend-steps s s2 chain temp ys zs cw ct cells1 cells3 cells4 lw sw lt d st sn =
    rw (lw, sw, lt, d, st, sn) refl
