-- ===== src/Buffer/Receive.antt =====
-- One round of buffer_chain_recv of kznet/buffer.c in which bytes came in.
use libakio.Prelude.{
  ℕ, ℤ, suc, pos, ◌+◌, ◌-◌, ◌<◌, ◌≤◌, ◌≡◌, inl, inr, refl, sym, ap, ◌∙◌, arith, true, false, Option,
  none, some, List, [], ◌∷◌, ◌++◌, length, length-append, length-drop, drop, ltb, ◌==◌, Bool-cases,
  if◌then◌else◌, ok, wrap,
}
use libakio.Buffer.{Store}
use libakio.Buffer.Memory.{Ptr, null, take, Cell, Cells, buffer_size, load, set_buffer, write_size}
use libakio.Buffer.Chain.{Chain, fill, extend, receive}
use libakio.Buffer.Bytes.{
  content, write_size-free, take-drop, append_assoc, append_nil, length-take,
}
use libakio.Buffer.Segment.{Item, bytes_of, load-run, set_buffer-run}
use libakio.Buffer.State.{IsChain, IsChain-write, IsChain-same, chain_bytes}
use libakio.Buffer.Fill.{fill-IsBuffer, fill-content}
use libakio.Buffer.Extend.{extend-IsChain}

-- What the calls so far leave of a chain that held `bytes`: `taken` have come in, and there are
-- buffers for `rounds` more, which make the chain no longer than `cap` before its last buffer.
pub record IsReceived (s : Store) (chain : Chain) (bytes taken : List ℕ) (rounds cap : ℕ)
    (front : List Item) (w : Item) (ys : List Item) : Type 0 where
  pub state : IsChain s chain front w ys
  pub parts : chain_bytes front w ≡ bytes ++ taken
  pub counted : chain.recv ≡ wrap 64 (length taken)
  pub room : rounds ≤ length ys + length s.blocks
  pub short : length front + rounds ≤ cap

receive-nothing :
    (s : Store) (chain : Chain) (temp : Ptr) (wlen tlen : ℕ)
    → receive s chain temp wlen tlen [] ≡ ok (some (pos 0), s, chain)
unfolding receive
receive-nothing s chain temp wlen tlen = refl

receive-fill :
    (s : Store) (chain : Chain) (temp : Ptr) (wlen tlen : ℕ) (ys : List ℕ) (c : Cell)
    (cells : Cells)
    → (length ys == 0) ≡ false
    → ltb wlen (length ys) ≡ false
    → load s.cells chain.wbuf ≡ ok c
    → set_buffer s.cells chain.wbuf (fill c.buffer ys) ≡ ok cells
    → receive s chain temp wlen tlen ys
      ≡ ok (
        some (pos 1),
        record s { cells = cells },
        record chain { recv = wrap 64 (chain.recv + length ys) },
      )
unfolding receive
receive-fill s chain temp wlen tlen ys c cells some_bytes fits l w =
    rw (some_bytes, fits, l, w) refl

receive-extend :
    (s s' : Store) (chain chain' : Chain) (temp : Ptr) (wlen tlen : ℕ) (ys : List ℕ)
    → (length ys == 0) ≡ false
    → ltb wlen (length ys) ≡ true
    → extend s
        (record chain { recv = wrap 64 (chain.recv + length ys) })
        temp
        (take wlen ys)
        (drop wlen ys)
      ≡ ok (s', chain')
    → receive s chain temp wlen tlen ys
      ≡ ok (if length ys == wlen + tlen then none else some (pos 1), s', chain')
unfolding receive
receive-extend s s' chain chain' temp wlen tlen ys some_bytes more e = rw (some_bytes, more, e) refl

-- One round in which `readv` stored the bytes `ys`.
pub receive-IsReceived :
    (s : Store) (chain : Chain) (front : List Item) (w t : Item) (spare : List Item)
    (bytes taken ys : List ℕ) (rounds cap tlen : ℕ)
    → IsReceived s chain bytes taken (suc rounds) cap front w (t ∷ spare)
    → length ys ≤ write_size w.buffer + write_size t.buffer
    → (verdict : Option ℤ) × (s' : Store) × (chain' : Chain) × (front' : List Item) × (w' : Item)
      × (spare' : List Item) × (receive s chain t.addr (write_size w.buffer) tlen ys
          ≡ ok (verdict, s', chain'))
      × IsReceived s' chain' bytes (taken ++ ys) rounds cap front' w' spare'
receive-IsReceived s chain front w t spare bytes taken [] rounds cap tlen before le = (
  some (pos 0),
  s,
  chain,
  front,
  w,
  t ∷ spare,
  receive-nothing s chain t.addr (write_size w.buffer) tlen,
  record {
    state = before.state;
    parts = before.parts ∙ ap (◌++◌ bytes) (sym (append_nil taken));
    counted = before.counted ∙ ap (λ (z : List ℕ). wrap 64 (length z)) (sym (append_nil taken));
    room = omega (arith, before.room);
    short = omega (arith, before.short);
  },
)
receive-IsReceived s chain front w t spare bytes taken (z ∷ zs) rounds cap tlen before le =
    let ys : List ℕ = z ∷ zs in
    let counted : Chain = record chain { recv = wrap 64 (chain.recv + length ys) } in
    let state : IsChain s counted front w (t ∷ spare) =
      IsChain-same s chain counted front w (t ∷ spare) refl refl before.state in
    let free_w = write_size-free w.buffer state.buffer in
    let free_t = write_size-free t.buffer state.pool.empty.0.0 in
    let total : wrap 64 (chain.recv + length ys) ≡ wrap 64 (length (taken ++ ys)) =
      omega (arith, before.counted, length-append taken ys) in
    elim (Bool-cases (ltb (write_size w.buffer) (length ys))) [
      | inr small ↦
          let fits : w.buffer.last + length ys ≤ buffer_size =
            ground (arith, free_w, state.buffer.fits, state.buffer.end_at) in
          (
            some (pos 1),
            _,
            counted,
            front,
            record w { buffer = fill w.buffer ys },
            t ∷ spare,
            receive-fill s chain t.addr (write_size w.buffer) tlen ys
                (record { buffer = w.buffer; next = null }) _ (ground arith) small
                (rw state.write_last (load-run s.cells w.addr w.buffer null state.at_end))
                (rw state.write_last
                  (set_buffer-run s.cells w.addr w.buffer (fill w.buffer ys) null state.at_end)),
            record {
              state =
                  IsChain-write s counted front w (t ∷ spare) (fill w.buffer ys)
                    (fill-IsBuffer w.buffer ys state.buffer fits) state;
              parts =
                  ap (◌++◌ (bytes_of front)) (fill-content w.buffer ys state.buffer)
                  ∙ sym (append_assoc (bytes_of front) (content w.buffer) ys)
                  ∙ ap (λ (b : List ℕ). b ++ ys) before.parts
                  ∙ append_assoc bytes taken ys;
              counted = total;
              room = omega (arith, before.room);
              short = omega (arith, before.short);
            },
          )
      | inl large ↦
          let wlen : ℕ = write_size w.buffer in
          let lt : wlen < length ys = ground arith in
          let size_w : length (take wlen ys) ≡ wlen = length-take wlen ys (omega (arith, lt)) in
          let size_t : length (drop wlen ys) ≡ length ys - wlen = length-drop wlen ys in
          let (s', front', w', run, state', more, same, longer) =
            extend-IsChain s counted front w t spare (take wlen ys) (drop wlen ys) state
              (omega (arith, size_w, free_w, state.buffer.fits, state.buffer.end_at))
              (omega (
                arith, size_t, lt, le, free_t, state.pool.empty.0.0.start_at, state.pool.empty.0.2,
              )) in
          (
            _,
            s',
            record counted { wbuf = t.addr },
            front',
            w',
            spare,
            receive-extend s s' chain _ t.addr wlen tlen ys (ground arith) large run,
            record {
              state = state';
              parts =
                  more
                  ∙ ap (◌++◌ (chain_bytes front w)) (take-drop wlen ys)
                  ∙ ap (λ (b : List ℕ). b ++ ys) before.parts
                  ∙ append_assoc bytes taken ys;
              counted = total;
              room =
                  let e : length s'.blocks ≡ length s.blocks =
                    ap (λ (bs : List (Ptr × List ℕ)). length bs) same in
                  omega (arith, before.room, e);
              short = omega (arith, before.short, longer);
            },
          )
    ]
