-- ===== src/Buffer/Shrink.antt =====
-- shrink_chain of kznet/buffer.c: the bytes that were read leave the chain, and the buffers that are
-- empty then go to the pool.
use libakio.Prelude.{
  ℕ, zero, suc, ◌+◌, ◌-◌, ◌<◌, ◌≤◌, ◌≡◌, ◌≢◌, inl, inr, refl, sym, ap, ◌∙◌, arith, true, false,
  List, [], ◌∷◌, ◌++◌, length, length-append, drop, ltb, ◌==◌, ==_iff, ne→==-false, Bool-cases, ok,
}
use libakio.Buffer.{Store}
use libakio.Buffer.Memory.{Ptr, null, Buffer, Cell, update, load, set_buffer, read_size}
use libakio.Buffer.Chain.{Chain, skip_all, shrink}
use libakio.Buffer.Bytes.{
  content, length-content, read_size-content, drop-append, drop-past, append_assoc,
}
use libakio.Buffer.Segment.{
  Item, first, count, cell, bytes_of, count_self, Segment-kept, load-run, set_buffer-run,
}
use libakio.Buffer.Put.{IsPut, one_at, put-IsPut}
use libakio.Buffer.State.{IsChain, IsChain-write, IsChain-front, chain_bytes}
use libakio.Buffer.Skip.{
  shrink-last, shrink-part, shrink-whole, count_cons, skipped-IsBuffer, skipped_content,
  skip_all-IsBuffer, skip_all-content,
}

-- The chain without its first buffer, after that has gone to the pool.
put-IsChain :
    (s s' : Store) (chain : Chain) (x : Item) (front : List Item) (w : Item) (ys ys' : List Item)
    → IsChain s chain (x ∷ front) w ys
    → IsPut s x.addr ys s' ys'
    → IsChain s' (record chain { rbuf = first front w.addr }) front w ys'
put-IsChain s s' chain x front w ys ys' state done =
    let other : (a : Ptr) → 0 < count a front + count a (w ∷ []) → s'.cells a ≡ s.cells a =
      λ a more.
        done.others a
          (λ e.
            let same : one_at a x.addr ≡ 1 =
              (let hit : (a == x.addr) ≡ true = (==_iff a x.addr).1 e in rw hit refl) in
            omega (arith, state.once a, count_cons a x front, same, more))
          (omega (arith, state.once a, count_cons a x front, more)) in
    record {
      segment =
          Segment-kept s.cells s'.cells front w.addr (λ a more. other a (omega (arith, more)))
            state.segment.1;
      at_end = (state.at_end.0, other w.addr (omega (arith, count_self w [])) ∙ state.at_end.1);
      read_first = refl;
      write_last = state.write_last;
      buffers = state.buffers.1;
      buffer = state.buffer;
      pool = done.pool;
      once = λ a. omega (arith, state.once a, count_cons a x front, done.counts a);
    }

-- What a call leaves of `bytes` after `size` of them.
pub record IsShrunk (s' : Store) (chain chain' : Chain) (bytes : List ℕ) (size : ℕ)
    (front front' : List Item) (w' : Item) (ys' : List Item) : Type 0 where
  pub state : IsChain s' chain' front' w' ys'
  pub left : chain_bytes front' w' ≡ drop size bytes
  pub shorter : length front' ≤ length front
  pub sent : chain'.sent ≡ chain.sent
  pub recv : chain'.recv ≡ chain.recv

-- Only one buffer is left.
one-IsShrunk :
    (fuel : ℕ) (s : Store) (chain : Chain) (w : Item) (ys : List Item) (size : ℕ)
    → IsChain s chain [] w ys
    → size ≤ length (content w.buffer)
    → (s' : Store) × (chain' : Chain) × (front' : List Item) × (w' : Item) × (ys' : List Item)
      × (shrink (suc fuel) s chain size ≡ ok (chain'.rbuf, s', chain'))
      × IsShrunk s' chain chain' (content w.buffer) size [] front' w' ys'
one-IsShrunk fuel s chain w ys size state le =
    let fits : w.buffer.read_at + size ≤ w.buffer.last =
      omega (arith, length-content w.buffer state.buffer, state.buffer.in_order) in
    let b : Buffer = skip_all w.buffer size in
    let at = state.at_end in
    let loaded : load s.cells chain.rbuf ≡ ok (record { buffer = w.buffer; next = null }) =
      rw state.read_first (load-run s.cells w.addr w.buffer null at) in
    let written : set_buffer s.cells chain.rbuf b ≡ ok (update s.cells w.addr (cell b null)) =
      rw state.read_first (set_buffer-run s.cells w.addr w.buffer b null at) in
    (
      _,
      chain,
      [],
      record w { buffer = b },
      ys,
      shrink-last fuel s chain size (record { buffer = w.buffer; next = null }) _ loaded
          ((==_iff chain.rbuf chain.wbuf).1 (state.read_first ∙ sym state.write_last))
          (ground (arith, read_size-content w.buffer state.buffer)) written,
      record {
        state =
            IsChain-write s chain [] w ys b (skip_all-IsBuffer w.buffer size state.buffer fits)
              state;
        left = skip_all-content w.buffer size state.buffer fits;
        shorter = omega arith;
        sent = refl;
        recv = refl;
      },
    )

-- The first buffer keeps some bytes.
part-IsShrunk :
    (fuel : ℕ) (s : Store) (chain : Chain) (x : Item) (front : List Item) (w : Item)
    (ys : List Item) (size : ℕ)
    → IsChain s chain (x ∷ front) w ys
    → (chain.rbuf == chain.wbuf) ≡ false
    → load s.cells chain.rbuf ≡ ok (record { buffer = x.buffer; next = first front w.addr })
    → ltb size (read_size x.buffer) ≡ true
    → (s' : Store) × (chain' : Chain) × (front' : List Item) × (w' : Item) × (ys' : List Item)
      × (shrink (suc fuel) s chain size ≡ ok (chain'.rbuf, s', chain'))
      × IsShrunk s' chain chain' (chain_bytes (x ∷ front) w) size (x ∷ front) front' w' ys'
part-IsShrunk fuel s chain x front w ys size state other loaded less =
    let good = state.buffers.0 in
    let lt : size < length (content x.buffer) = ground (arith, read_size-content x.buffer good) in
    let fits : x.buffer.read_at + size ≤ x.buffer.last =
      omega (arith, length-content x.buffer good, lt, good.in_order) in
    let b : Buffer = record (x.buffer) { read_at = x.buffer.read_at + size } in
    let written : set_buffer s.cells chain.rbuf b
        ≡ ok (update s.cells x.addr (cell b (first front w.addr))) =
      rw state.read_first (set_buffer-run s.cells x.addr x.buffer b _ state.segment.0) in
    (
      _,
      chain,
      record x { buffer = b } ∷ front,
      w,
      ys,
      shrink-part fuel s chain size (record { buffer = x.buffer; next = first front w.addr }) _
          loaded other less written,
      record {
        state =
            IsChain-front s chain x front w ys b (skipped-IsBuffer x.buffer size good fits) state;
        left =
            ap (λ (z : List ℕ). (z ++ bytes_of front) ++ content w.buffer)
              (skipped_content x.buffer size)
            ∙ ap (λ (z : List ℕ). z ++ content w.buffer)
                (sym (drop-append size (content x.buffer) (bytes_of front) (omega arith)))
            ∙ sym (
                drop-append size (content x.buffer ++ bytes_of front) (content w.buffer)
                  (omega (arith, length-append (content x.buffer) (bytes_of front))));
        shorter = omega arith;
        sent = refl;
        recv = refl;
      },
    )

bytes_left :
    (x : Item) (front : List Item) (w : Item) (size : ℕ)
    → length (content x.buffer) ≤ size
    → drop size (chain_bytes (x ∷ front) w)
      ≡ drop (size - length (content x.buffer)) (chain_bytes front w)
bytes_left x front w size le =
    ap (drop size) (append_assoc (content x.buffer) (bytes_of front) (content w.buffer))
    ∙ drop-past size (content x.buffer) (chain_bytes front w) le

pub shrink-IsShrunk :
    (fuel : ℕ) (s : Store) (chain : Chain) (front : List Item) (w : Item) (ys : List Item)
    (size : ℕ)
    → IsChain s chain front w ys
    → length front < fuel
    → size ≤ length (chain_bytes front w)
    → (s' : Store) × (chain' : Chain) × (front' : List Item) × (w' : Item) × (ys' : List Item)
      × (shrink fuel s chain size ≡ ok (chain'.rbuf, s', chain'))
      × IsShrunk s' chain chain' (chain_bytes front w) size front front' w' ys'
shrink-IsShrunk zero s chain front w ys size state enough le = absurd (omega arith)
shrink-IsShrunk (suc fuel) s chain [] w ys size state enough le =
    one-IsShrunk fuel s chain w ys size state le
shrink-IsShrunk (suc fuel) s chain (x ∷ front) w ys size state enough le =
    let here = state.segment.0 in
    let good = state.buffers.0 in
    let ne : x.addr ≢ w.addr = λ e.
      let c : count w.addr (x ∷ front) ≡ count x.addr (x ∷ front) =
        ap (λ (z : Ptr). count z (x ∷ front)) (sym e) in
      omega (arith, state.once w.addr, c, count_self x front, count_self w []) in
    let other : (chain.rbuf == chain.wbuf) ≡ false =
      ne→==-false chain.rbuf chain.wbuf (λ e. ne (sym state.read_first ∙ e ∙ state.write_last)) in
    let c : Cell = record { buffer = x.buffer; next = first front w.addr } in
    let loaded : load s.cells chain.rbuf ≡ ok c =
      rw state.read_first (load-run s.cells x.addr x.buffer _ here) in
    let size_x = read_size-content x.buffer good in
    elim (Bool-cases (ltb size (read_size x.buffer))) [
      | inl less ↦ part-IsShrunk fuel s chain x front w ys size state other loaded less
      | inr more ↦
          let over : length (content x.buffer) ≤ size = ground (arith, size_x) in
          let out : count x.addr ys ≡ 0 = omega (arith, state.once x.addr, count_self x front) in
          let (s1, ys1, put_ok, same, done) =
            put-IsPut s x.addr x.buffer (first front w.addr) here good ys state.pool out in
          let state1 = put-IsChain s s1 chain x front w ys ys1 state done in
          let whole : length (chain_bytes (x ∷ front) w)
              ≡ length (content x.buffer) + length (chain_bytes front w) =
            ap (λ (z : List ℕ). length z)
              (append_assoc (content x.buffer) (bytes_of front) (content w.buffer))
            ∙ length-append (content x.buffer) (chain_bytes front w) in
          let (s2, chain2, front2, w2, ys2, run, result) =
            shrink-IsShrunk fuel s1 (record chain { rbuf = first front w.addr }) front w ys1
              (size - length (content x.buffer)) state1 (omega arith) (omega (arith, whole)) in
          (
            s2,
            chain2,
            front2,
            w2,
            ys2,
            shrink-whole fuel s s1 chain size c loaded other more (rw state.read_first put_ok)
                ∙ ap
                    (λ (n : ℕ).
                      shrink fuel s1 (record chain { rbuf = first front w.addr }) (size - n))
                    size_x
                ∙ run,
            record {
              state = result.state;
              left = result.left ∙ sym (bytes_left x front w size over);
              shorter = omega (arith, result.shorter);
              sent = result.sent;
              recv = result.recv;
            },
          )
    ]
