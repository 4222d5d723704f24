-- ===== src/Buffer/Recv.antt =====
-- buffer_chain_recv of kznet/buffer.c: the bytes that come in are behind those of the chain.
use libakio.Prelude.{
  ℕ, ℤ, zero, suc, pos, negsuc, ◌+◌, ◌≤◌, ◌≡◌, inl, inr, refl, sym, ap, ◌∙◌, arith, Option, none,
  some, List, [], ◌∷◌, ◌++◌, length, Option-cases, ok, wrap,
}
use libakio.Buffer.{Store, peek}
use libakio.Buffer.Memory.{Ptr, null, take, Cell, load, write_size}
use libakio.Buffer.Chain.{
  Chain, Input, got, no_input, read_interrupted, read_failed, receive, recv_loop, recv,
}
use libakio.Buffer.Bytes.{append_nil}
use libakio.Buffer.Segment.{Item, first, load-run}
use libakio.Buffer.Peek.{peek-IsPeeked}
use libakio.Buffer.State.{IsChain, IsChain-same, chain_bytes}
use libakio.Buffer.Fill.{peek-IsChain}
use libakio.Buffer.Receive.{IsReceived, receive-IsReceived}

module _ (s s1 : Store) (chain : Chain) (temp : Ptr) (cw ct : Cell)
    (last_there : load s.cells chain.wbuf ≡ ok cw) (peeked : peek s ≡ (temp, s1))
    (temp_there : load s1.cells temp ≡ ok ct) (inputs : List Input) (taken : List ℕ) where
  abbrev stored : List ℕ → List ℕ
  stored available = take (write_size cw.buffer + write_size ct.buffer) available

  recv-return :
      (available : List ℕ) (s2 : Store) (chain2 : Chain) (r : ℤ)
      → receive s1 chain temp (write_size cw.buffer) (write_size ct.buffer) (stored available)
        ≡ ok (some r, s2, chain2)
      → recv_loop (got available ∷ inputs) taken s chain
        ≡ ok (some r, taken ++ stored available, s2, chain2)
  unfolding recv_loop
  recv-return available s2 chain2 r e = rw (last_there, peeked, temp_there, e) refl

  recv-again :
      (available : List ℕ) (s2 : Store) (chain2 : Chain)
      → receive s1 chain temp (write_size cw.buffer) (write_size ct.buffer) (stored available)
        ≡ ok (none, s2, chain2)
      → recv_loop (got available ∷ inputs) taken s chain
        ≡ recv_loop inputs (taken ++ stored available) s2 chain2
  unfolding recv_loop
  recv-again available s2 chain2 e = rw (last_there, peeked, temp_there, e) refl

  recv-other :
      (recv_loop (no_input ∷ inputs) taken s chain ≡ ok (some (pos 1), taken, s1, chain))
      × (recv_loop (read_interrupted ∷ inputs) taken s chain ≡ recv_loop inputs taken s1 chain)
      × (recv_loop (read_failed ∷ inputs) taken s chain ≡ ok (some (negsuc 0), taken, s1, chain))
  unfolding recv_loop
  recv-other = (
    rw (last_there, peeked, temp_there) refl,
    rw (last_there, peeked, temp_there) refl,
    rw (last_there, peeked, temp_there) refl,
  )

length-take_le : (n : ℕ) (xs : List ℕ) → length (take n xs) ≤ n
length-take_le zero xs = omega arith
length-take_le (suc n) [] = omega arith
length-take_le (suc n) (x ∷ xs) = omega (arith, length-take_le n xs)

-- What is known when `readv` is called.
record IsPolled (s s1 : Store) (chain : Chain) (bytes taken : List ℕ) (rounds cap : ℕ)
    (front : List Item) (w t : Item) (spare : List Item) : Type 0 where
  last_there : load s.cells chain.wbuf ≡ ok (record { buffer = w.buffer; next = null })
  peeked : peek s ≡ (t.addr, s1)
  temp_there : load s1.cells t.addr ≡ ok (record { buffer = t.buffer; next = first spare null })
  before : IsReceived s1 chain bytes taken (suc rounds) cap front w (t ∷ spare)

polled :
    (s : Store) (chain : Chain) (front : List Item) (w : Item) (ys : List Item)
    (bytes taken : List ℕ) (rounds cap : ℕ)
    → IsReceived s chain bytes taken (suc rounds) cap front w ys
    → (t : Item) × (spare : List Item) × (s1 : Store) × IsPolled s s1 chain bytes taken rounds cap
        front w t spare
polled s chain front w ys bytes taken rounds cap before =
    let state = before.state in
    let (t, spare, s1, run, done) = peek-IsPeeked s ys state.pool (omega (arith, before.room)) in
    (
      t,
      spare,
      s1,
      record {
        last_there = rw state.write_last (load-run s.cells w.addr w.buffer null state.at_end);
        peeked = run;
        temp_there = load-run s1.cells t.addr t.buffer (first spare null) done.pool.segment.0;
        before = record {
          state = peek-IsChain s s1 chain front w t ys spare state done;
          parts = before.parts;
          counted = before.counted;
          room = omega (arith, before.room, done.left);
          short = before.short;
        };
      },
    )

weaker :
    {s : Store} {chain : Chain} {bytes taken : List ℕ} {rounds less cap : ℕ} {front : List Item}
    {w : Item} {ys : List Item}
    → less ≤ rounds
    → IsReceived s chain bytes taken rounds cap front w ys
    → IsReceived s chain bytes taken less cap front w ys
weaker le before = record {
  state = before.state;
  parts = before.parts;
  counted = before.counted;
  room = omega (arith, before.room);
  short = omega (arith, before.short);
}

-- The result of the loop from a state on.
abbrev Receives : List Input → List ℕ → List ℕ → ℕ → Store → Chain → Type 0
Receives inputs bytes taken cap s chain =
    (result : Option ℤ) × (taken' : List ℕ) × (s' : Store) × (chain' : Chain) × (front' : List Item)
    × (w' : Item) × (ys' : List Item) × (recv_loop inputs taken s chain
        ≡ ok (result, taken', s', chain'))
    × IsReceived s' chain' bytes taken' 0 cap front' w' ys'

recv_loop-IsReceived :
    (inputs : List Input) (s : Store) (chain : Chain) (front : List Item) (w : Item)
    (ys : List Item) (bytes taken : List ℕ) (cap : ℕ)
    → IsReceived s chain bytes taken (length inputs) cap front w ys
    → Receives inputs bytes taken cap s chain
unfolding recv_loop
recv_loop-IsReceived [] s chain front w ys bytes taken cap before =
    (none, taken, s, chain, front, w, ys, refl, before)
recv_loop-IsReceived (no_input ∷ inputs) s chain front w ys bytes taken cap before =
    let (t, spare, s1, p) = polled s chain front w ys bytes taken (length inputs) cap before in
    (
      some (pos 1),
      taken,
      s1,
      chain,
      front,
      w,
      t ∷ spare,
      (recv-other s s1 chain t.addr _ _ p.last_there p.peeked p.temp_there inputs taken).0,
      weaker (omega arith) p.before,
    )
recv_loop-IsReceived (read_failed ∷ inputs) s chain front w ys bytes taken cap before =
    let (t, spare, s1, p) = polled s chain front w ys bytes taken (length inputs) cap before in
    (
      some (negsuc 0),
      taken,
      s1,
      chain,
      front,
      w,
      t ∷ spare,
      (recv-other s s1 chain t.addr _ _ p.last_there p.peeked p.temp_there inputs taken).2,
      weaker (omega arith) p.before,
    )
recv_loop-IsReceived (read_interrupted ∷ inputs) s chain front w ys bytes taken cap before =
    let (t, spare, s1, p) = polled s chain front w ys bytes taken (length inputs) cap before in
    let (result, taken', s', chain', front', w', ys', run, done) =
      recv_loop-IsReceived inputs s1 chain front w (t ∷ spare) bytes taken cap
        (weaker (omega arith) p.before) in
    (
      result,
      taken',
      s',
      chain',
      front',
      w',
      ys',
      (recv-other s s1 chain t.addr _ _ p.last_there p.peeked p.temp_there inputs taken).1 ∙ run,
      done,
    )
recv_loop-IsReceived (got available ∷ inputs) s chain front w ys bytes taken cap before =
    let (t, spare, s1, p) = polled s chain front w ys bytes taken (length inputs) cap before in
    let new : List ℕ = take (write_size w.buffer + write_size t.buffer) available in
    let (verdict, s2, chain2, front2, w2, spare2, run, done) =
      receive-IsReceived s1 chain front w t spare bytes taken new (length inputs) cap
        (write_size t.buffer) p.before
        (length-take_le (write_size w.buffer + write_size t.buffer) available) in
    elim (Option-cases verdict) [
      | inr (r, returns) ↦ (
        some r,
        taken ++ new,
        s2,
        chain2,
        front2,
        w2,
        spare2,
        recv-return s s1 chain t.addr _ _ p.last_there p.peeked p.temp_there inputs taken available
            s2 chain2 r (run ∙ ap (λ (o : Option ℤ). ok (o, s2, chain2)) returns),
        weaker (omega arith) done,
      )
      | inl again ↦
          let (result, taken', s', chain', front', w', ys', rest, all_done) =
            recv_loop-IsReceived inputs s2 chain2 front2 w2 spare2 bytes (taken ++ new) cap done in
          (
            result,
            taken',
            s',
            chain',
            front',
            w',
            ys',
            recv-again s s1 chain t.addr _ _ p.last_there p.peeked p.temp_there inputs taken
                  available s2 chain2 (run ∙ ap (λ (o : Option ℤ). ok (o, s2, chain2)) again)
                ∙ rest,
            all_done,
          )
    ]

-- On a well-formed chain, with a buffer in the pool or a block from malloc for every answer of
-- readv, buffer_chain_recv runs without a fault; the chain and the pool stay well formed, the
-- chain then holds its old bytes and behind them those that readv stored, in order, and recv
-- counts these.
pub recv-IsChain :
    (inputs : List Input) (s : Store) (chain : Chain) (front : List Item) (w : Item)
    (ys : List Item)
    → IsChain s chain front w ys
    → length inputs ≤ length ys + length s.blocks
    → (result : Option ℤ) × (taken : List ℕ) × (s' : Store) × (chain' : Chain) × (front' : List
        Item)
      × (w' : Item) × (ys' : List Item) × (recv inputs s chain ≡ ok (result, taken, s', chain'))
      × IsChain s' chain' front' w' ys'
      × (chain_bytes front' w' ≡ chain_bytes front w ++ taken)
      × (chain'.recv ≡ wrap 64 (length taken))
      × (length front' ≤ length front + length inputs)
unfolding recv
recv-IsChain inputs s chain front w ys state room =
    let (result, taken, s', chain', front', w', ys', run, done) =
      recv_loop-IsReceived inputs s (record chain { recv = 0 }) front w ys (chain_bytes front w) []
        (length front + length inputs)
        (record {
          state = IsChain-same s chain (record chain { recv = 0 }) front w ys refl refl state;
          parts = sym (append_nil (chain_bytes front w));
          counted = refl;
          room = room;
          short = omega arith;
        }) in
    (
      result,
      taken,
      s',
      chain',
      front',
      w',
      ys',
      run,
      done.state,
      done.parts,
      done.counted,
      omega (arith, done.short),
    )
