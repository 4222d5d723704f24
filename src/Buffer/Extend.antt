-- ===== src/Buffer/Extend.antt =====
-- The branch of buffer_chain_recv of kznet/buffer.c that takes a buffer of the pool into the chain.
use libakio.Prelude.{
  ℕ, suc, ◌+◌, ◌<◌, ◌≤◌, ◌≡◌, ◌≢◌, refl, sym, ap, ◌∙◌, arith, true, none, List, [], ◌∷◌, ◌++◌,
  length, length-append, ◌==◌, ==_iff, ok,
}
use libakio.Buffer.{Store}
use libakio.Buffer.Memory.{Ptr, null, Cells, buffer_size, header_size, update}
use libakio.Buffer.Chain.{Chain, fill, extend}
use libakio.Buffer.Bytes.{content, append_assoc, append_nil}
use libakio.Buffer.Segment.{
  Item, first, count, cell, IsAt, bytes_of, bytes_of-append, count-append, count_self, first-append,
  Segment-kept, Segment-append, load-run, set_buffer-run, set_next-run, update_self, update_other,
}
use libakio.Buffer.Spare.{IsPool, IsPool-kept, not_free, detach-IsPool}
use libakio.Buffer.Put.{one_at}
use libakio.Buffer.State.{AllBuffers-append, IsChain, IsChain-write, chain_bytes}
use libakio.Buffer.Skip.{count_cons}
use libakio.Buffer.Fill.{
  fill-IsBuffer, fill-content, fill_fresh, fill_fresh-IsBuffer, fill_fresh-content, extend-steps,
}

module _ (s : Store) (chain : Chain) (front : List Item) (w t : Item) (spare : List Item)
    (ys zs : List ℕ) (state : IsChain s chain front w (t ∷ spare))
    (fits : w.buffer.last + length ys ≤ buffer_size)
    (fits_new : header_size + length zs ≤ buffer_size) where
  abbrev filled : Item
  filled = record w { buffer = fill w.buffer ys }

  abbrev joined : Item
  joined = record t { buffer = fill_fresh t.buffer zs }

  abbrev cells1 : Cells
  cells1 = update s.cells w.addr (cell (fill w.buffer ys) null)

  abbrev s1 : Store
  s1 = record s { cells = cells1 }

  state1 : IsChain s1 chain front filled (t ∷ spare)
  state1 =
      IsChain-write s chain front w (t ∷ spare) (fill w.buffer ys)
        (fill-IsBuffer w.buffer ys state.buffer fits) state

  t_w : t.addr ≢ w.addr
  t_w e =
      let c : count w.addr (t ∷ spare) ≡ count t.addr (t ∷ spare) =
        ap (λ (z : Ptr). count z (t ∷ spare)) (sym e) in
      omega (arith, state.once w.addr, c, count_self t spare, count_self w [])

  -- the address is one of the buffers but `t` and `w`
  others_apart : (a : Ptr) → 0 < count a front + count a spare → (a ≢ t.addr) × (a ≢ w.addr)
  others_apart a more = (
    (λ e.
        let one : one_at a t.addr ≡ 1 =
          (let hit : (a == t.addr) ≡ true = (==_iff a t.addr).1 e in rw hit refl) in
        omega (arith, state.once a, count_cons a t spare, one, more)),
    (λ e.
        let hit : (a == w.addr) ≡ true = (==_iff a w.addr).1 e in
        let one : count a (w ∷ []) ≡ 1 = rw hit refl in
        omega (arith, state.once a, count_cons a t spare, one, more)),
  )

  module _ (s2 : Store) (same : s2.cells ≡ update cells1 t.addr (cell t.buffer null)) where
    abbrev cells3 : Cells
    cells3 = update s2.cells t.addr (cell joined.buffer null)

    abbrev cells4 : Cells
    cells4 = update cells3 w.addr (cell filled.buffer t.addr)

    cells2-other : (a : Ptr) → a ≢ t.addr → s2.cells a ≡ cells1 a
    cells2-other a ne = ap (λ (c : Cells). c a) same ∙ update_other cells1 t.addr _ a ne

    t-IsAt : IsAt s2.cells t.addr t.buffer null
    t-IsAt =
        (state1.pool.segment.0.0, ap (λ (c : Cells). c t.addr) same ∙ update_self cells1 t.addr _)

    w-IsAt : IsAt cells3 w.addr filled.buffer null
    w-IsAt = (
      state1.at_end.0,
      update_other s2.cells t.addr _ w.addr (λ e. t_w (sym e))
          ∙ cells2-other w.addr (λ e. t_w (sym e))
          ∙ state1.at_end.1,
    )

    cells4-other : (a : Ptr) → a ≢ t.addr → a ≢ w.addr → cells4 a ≡ s2.cells a
    cells4-other a ne_t ne_w =
        update_other cells3 w.addr _ a ne_w ∙ update_other s2.cells t.addr _ a ne_t

    free_kept : (a : Ptr) → s2.cells a ≡ none → cells4 a ≡ none
    free_kept a e =
        let ne_t : a ≢ t.addr = not_free s2.cells t.addr a t.buffer null t-IsAt.1 e in
        let ne_w : a ≢ w.addr =
          not_free cells3 w.addr a filled.buffer null w-IsAt.1
            (update_other s2.cells t.addr _ a ne_t ∙ e) in
        cells4-other a ne_t ne_w ∙ e

    extended :
        IsPool s2 spare
        → IsChain
            (record s2 { cells = cells4 })
            (record chain { wbuf = t.addr })
            (front ++ filled ∷ [])
            joined
            spare
    extended pool = record {
      segment =
          Segment-append cells4 front (filled ∷ []) t.addr
            (Segment-kept s1.cells cells4 front w.addr
              (λ a more.
                let (ne_t, ne_w) = others_apart a (omega (arith, more)) in
                cells4-other a ne_t ne_w ∙ cells2-other a ne_t)
              state1.segment)
            ((state1.at_end.0, update_self cells3 w.addr _), tt);
      at_end = (t-IsAt.0, update_other cells3 w.addr _ t.addr t_w ∙ update_self s2.cells t.addr _);
      read_first = state1.read_first ∙ sym (first-append front (filled ∷ []) t.addr);
      write_last = refl;
      buffers = AllBuffers-append front filled state1.buffers state1.buffer;
      buffer = fill_fresh-IsBuffer t.buffer zs state1.pool.empty.0 fits_new;
      pool =
          IsPool-kept s2 cells4 spare
            (λ a more.
              let (ne_t, ne_w) = others_apart a (omega (arith, more)) in cells4-other a ne_t ne_w)
            free_kept pool;
      once = λ a. omega (
        arith,
        state1.once a,
        count-append a front (filled ∷ []),
        count_cons a t spare,
        count_cons a joined [],
      );
    }

  -- The chain has both runs of bytes more.
  extended_bytes : chain_bytes (front ++ filled ∷ []) joined ≡ chain_bytes front w ++ (ys ++ zs)
  extended_bytes =
      ap (λ (z : List ℕ). z ++ content joined.buffer) (bytes_of-append front (filled ∷ []))
      ∙ ap (λ (z : List ℕ). (bytes_of front ++ z) ++ content joined.buffer)
          (append_nil (content filled.buffer) ∙ fill-content w.buffer ys state.buffer)
      ∙ ap (λ (z : List ℕ). (bytes_of front ++ (content w.buffer ++ ys)) ++ z)
          (fill_fresh-content t.buffer zs state.pool.empty.0)
      ∙ ap (λ (z : List ℕ). z ++ zs) (sym (append_assoc (bytes_of front) (content w.buffer) ys))
      ∙ append_assoc (chain_bytes front w) ys zs

  pub extend-IsChain :
      (s' : Store) × (front' : List Item) × (w' : Item) × (extend s chain t.addr ys zs
        ≡ ok (s', record chain { wbuf = t.addr }))
      × IsChain s' (record chain { wbuf = t.addr }) front' w' spare
      × (chain_bytes front' w' ≡ chain_bytes front w ++ (ys ++ zs))
      × (s'.blocks ≡ s.blocks)
      × (length front' ≡ suc (length front))
  extend-IsChain =
      let (s2, run, pool, same, blocks) = detach-IsPool s1 t spare state1.pool in
      let here = state1.pool.segment.0 in
      (
        record s2 { cells = cells4 s2 same },
        front ++ filled ∷ [],
        joined,
        extend-steps s s2 chain t.addr ys zs (record { buffer = w.buffer; next = null })
            (record { buffer = t.buffer; next = first spare null }) cells1 (cells3 s2 same)
            (cells4 s2 same)
            (rw state.write_last (load-run s.cells w.addr w.buffer null state.at_end))
            (rw state.write_last
              (set_buffer-run s.cells w.addr w.buffer (fill w.buffer ys) null state.at_end))
            (load-run cells1 t.addr t.buffer (first spare null) here) run
            (set_buffer-run s2.cells t.addr t.buffer joined.buffer null (t-IsAt s2 same))
            (rw state.write_last
              (set_next-run (cells3 s2 same) w.addr filled.buffer null t.addr (w-IsAt s2 same))),
        extended s2 same pool,
        extended_bytes,
        blocks,
        omega (arith, length-append front (filled ∷ [])),
      )
