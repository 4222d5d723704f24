-- ===== src/Buffer/Chain.antt =====
-- The chain of kznet/buffer.c. `readv` and `writev` are lists of their answers, one for each call.
use libakio.Prelude.{
  ℕ, ℤ, zero, suc, pos, negsuc, ◌+◌, ◌-◌, not, ◌||◌, Option, none, some, List, [], ◌∷◌, ◌++◌,
  length, drop, ltb, ◌==◌, if◌then◌else◌, Run, ok, fault, ◌>>=◌, wrap,
}
use libakio.Buffer.{Store, peek, detach, put}
use libakio.Buffer.Memory.{
  Ptr, null, take, Buffer, Cells, load, set_next, set_buffer, read_size, write_size, slice, store,
}

-- `struct buffer_chain`
pub record Chain : Type 0 where
  pub rbuf : Ptr
  pub wbuf : Ptr
  pub sent : ℕ
  pub recv : ℕ

-- `buf->pos += size` for the only buffer of the chain
abbrev pub skip_all : Buffer → ℕ → Buffer
skip_all b size =
    if b.read_at + size == b.last
    then record b { read_at = b.start; last = b.start }
    else record b { read_at = b.read_at + size }

-- `shrink_chain`; `fuel` is more than the buffers before the last one. A failed assertion is a fault.
unfoldable pub shrink : ℕ → Store → Chain → ℕ → Run (Ptr × Store × Chain)
shrink zero s chain size = fault
shrink (suc fuel) s chain size = do
  c ← load s.cells chain.rbuf
  let rlen = read_size c.buffer
  if chain.rbuf == chain.wbuf
      then (if ltb rlen size then fault else (do
        cells ← set_buffer s.cells chain.rbuf (skip_all c.buffer size)
        ok (chain.rbuf, record s { cells = cells }, chain)))
      else (if ltb size rlen
          then (do
            cells ←
                set_buffer s.cells chain.rbuf
                  (record (c.buffer) { read_at = c.buffer.read_at + size })
            ok (chain.rbuf, record s { cells = cells }, chain))
          else (put s chain.rbuf >>= λ s'.
              shrink fuel s' (record chain { rbuf = c.next }) (size - rlen)))

-- What `readv` answers: the bytes that have come, none of them at the end of the stream, EAGAIN,
-- EINTR or another error. It takes as many of the bytes as there is room for.
pub data Input : Type 0 where
  got : List ℕ → Input
  no_input : Input
  read_interrupted : Input
  read_failed : Input

-- the buffer with bytes stored behind `last`
abbrev pub fill : Buffer → List ℕ → Buffer
fill b ys = record b { last = b.last + length ys; bytes = store b.bytes b.last ys }

-- The branch in which the bytes `zs` go over into the buffer `temp` of the pool.
unfoldable pub extend : Store → Chain → Ptr → List ℕ → List ℕ → Run (Store × Chain)
extend s chain temp ys zs = do
  w ← load s.cells chain.wbuf
  cells ← set_buffer s.cells chain.wbuf (fill w.buffer ys)
  t ← load cells temp
  detached ← detach (record s { cells = cells }) temp
  filled ← set_buffer detached.cells temp (record (t.buffer) {
    last = t.buffer.read_at + length zs;
    bytes = store t.buffer.bytes t.buffer.last zs;
  })
  linked ← set_next filled chain.wbuf temp
  ok (record detached { cells = linked }, record chain { wbuf = temp })

-- A round of `buffer_chain_recv` that got the bytes `ys`, with the room in the two buffers: what to
-- return, or `none` to go on.
unfoldable pub receive :
    Store → Chain → Ptr → (wlen tlen : ℕ) → List ℕ → Run (Option ℤ × Store × Chain)
receive s chain temp wlen tlen ys =
    let counted = record chain { recv = wrap 64 (chain.recv + length ys) } in
    if length ys == 0
    then ok (some (pos 0), s, chain)
    else if ltb wlen (length ys)
    then (do
      (s', chain') ← extend s counted temp (take wlen ys) (drop wlen ys)
      ok (if length ys == wlen + tlen then none else some (pos 1), s', chain'))
    else (do
      w ← load s.cells chain.wbuf
      cells ← set_buffer s.cells chain.wbuf (fill w.buffer ys)
      ok (some (pos 1), record s { cells = cells }, counted))

-- The loop of `buffer_chain_recv`, with the bytes that have come in. Where it asks for more answers
-- than there are it has not returned yet: `none`.
unfoldable pub recv_loop :
    List Input → List ℕ → Store → Chain → Run (Option ℤ × List ℕ × Store × Chain)
recv_loop [] taken s chain = ok (none, taken, s, chain)
recv_loop (input ∷ inputs) taken s chain = do
  w ← load s.cells chain.wbuf
  let (temp, s') = peek s
  t ← load s'.cells temp
  let wlen = write_size w.buffer
  let tlen = write_size t.buffer
  elim input [
    | got available ↦ do
      let ys = take (wlen + tlen) available
      (verdict, s'', chain') ← receive s' chain temp wlen tlen ys
      let rest = recv_loop inputs (taken ++ ys) s'' chain'
      elim verdict [ some r ↦ ok (some r, taken ++ ys, s'', chain') | none ↦ rest ]
    | no_input ↦ ok (some (pos 1), taken, s', chain)
    | read_interrupted ↦ recv_loop inputs taken s' chain
    | read_failed ↦ ok (some (negsuc 0), taken, s', chain)
  ]

-- `buffer_chain_recv`
unfoldable pub recv : List Input → Store → Chain → Run (Option ℤ × List ℕ × Store × Chain)
recv inputs s chain = recv_loop inputs [] s (record chain { recv = 0 })

-- What `writev` answers: how many bytes it would take, of which it takes as many as it is given,
-- EAGAIN, EINTR or another error.
pub data Output : Type 0 where
  took : ℕ → Output
  no_output : Output
  write_interrupted : Output
  write_failed : Output

-- SM_MAX_IOV
abbrev pub max_iov : ℕ
max_iov = 8

-- The inner loop of `buffer_chain_send`, for the entries of `vec` that are left: the bytes of the
-- entries one after the other, and their total.
unfoldable pub gather : ℕ → Cells → Ptr → Run (List ℕ × ℕ)
gather zero cells p = ok ([], 0)
gather (suc room) cells p = if p == null then ok ([], 0) else (do
  c ← load cells p
  (ys, total) ← gather room cells c.next
  ok (slice c.buffer.read_at c.buffer.last c.buffer.bytes ++ ys, read_size c.buffer + total))

-- A round of `buffer_chain_send` in which `writev` took `rv` bytes: what to return, or `none` to go on.
unfoldable pub advance : ℕ → Store → Chain → (rv total : ℕ) → Run (Option ℤ × Store × Chain)
advance fuel s chain rv total = if rv == 0 then ok (some (pos 0), s, chain) else (do
  (buf, s', chain') ← shrink fuel s (record chain { sent = wrap 64 (chain.sent + rv) }) rv
  c ← load s'.cells buf
  ok (
    if not (rv == total) || (c.buffer.read_at == c.buffer.last) then some (pos 1) else none,
    s',
    chain',
  ))

-- The loop of `buffer_chain_send`, with the bytes that have gone out.
unfoldable pub send_loop :
    ℕ → List Output → List ℕ → Store → Chain → Run (Option ℤ × List ℕ × Store × Chain)
send_loop fuel [] gone s chain = ok (none, gone, s, chain)
send_loop fuel (output ∷ outputs) gone s chain = do
  (ys, total) ← gather max_iov s.cells chain.rbuf
  elim output [
    | took k ↦ do
      let rv = if ltb total k then total else k
      (verdict, s', chain') ← advance fuel s chain rv total
      let rest = send_loop fuel outputs (gone ++ take rv ys) s' chain'
      elim verdict [ some r ↦ ok (some r, gone ++ take rv ys, s', chain') | none ↦ rest ]
    | no_output ↦ ok (some (pos 1), gone, s, chain)
    | write_interrupted ↦ send_loop fuel outputs gone s chain
    | write_failed ↦ ok (some (negsuc 0), gone, s, chain)
  ]

-- `buffer_chain_send`
unfoldable pub send : ℕ → List Output → Store → Chain → Run (Option ℤ × List ℕ × Store × Chain)
send fuel outputs s chain = send_loop fuel outputs [] s (record chain { sent = 0 })
