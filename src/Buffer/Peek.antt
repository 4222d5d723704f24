-- ===== src/Buffer/Peek.antt =====
-- buffer_pool_peek and buffer_pool_get of kznet/buffer.c: the first buffer of the pool, or a new one.
use libakio.Prelude.{
  ℕ, ℤ, pos, negsuc, suc, ◌+◌, ◌<◌, ◌≤◌, ◌≡◌, ◌≢◌, refl, sym, ap, ◌∙◌, arith, true, false, none,
  some, List, [], ◌∷◌, length, ◌==◌, ==_iff, ne→==-false, ok,
}
use libakio.Buffer.{Pool, Store, fresh_buffer, allocate, peek, detach, get, clip, create}
use libakio.Buffer.Memory.{Ptr, null, Cells, buffer_size, update}
use libakio.Buffer.Segment.{Item, count, cell, IsAt, update_self, update_other}
use libakio.Buffer.Spare.{IsPool, IsBlocks, IsBlocks-kept, IsEmpty, has_block, detach-IsPool}

fresh-IsEmpty : (bytes : List ℕ) → length bytes ≡ buffer_size → IsEmpty (fresh_buffer bytes)
fresh-IsEmpty bytes full = (
  record {
    start_at = refl;
    end_at = refl;
    full = full;
    read_from = omega arith;
    in_order = omega arith;
    fits = omega arith;
  },
  refl,
  refl,
)

peek-ready : (s : Store) → (s.pool.head == null) ≡ false → peek s ≡ (s.pool.head, s)
unfolding peek
peek-ready s e = rw e refl

pub peek-new : (s : Store) → (s.pool.head == null) ≡ true → peek s ≡ allocate s s.blocks
unfolding peek
peek-new s e = rw e refl

-- What a call leaves: the pool has the buffer `t` in front of `ys`, which it had or which was free.
pub record IsPeeked (s s' : Store) (old : List Item) (t : Item) (ys : List Item) : Type 0 where
  pub pool : IsPool s' (t ∷ ys)
  pub others : (a : Ptr) → s.cells a ≢ none → s'.cells a ≡ s.cells a
  pub counts : (a : Ptr) → s.cells a ≢ none → count a (t ∷ ys) ≤ count a old
  pub left : length ys + length s'.blocks + 1 ≡ length old + length s.blocks

new-IsPool :
    (s : Store) (p : Ptr) (bytes : List ℕ) (rest : List (Ptr × List ℕ))
    → IsPool s []
    → IsBlocks s.cells ((p, bytes) ∷ rest)
    → IsPool
        (allocate s ((p, bytes) ∷ rest)).1
        (record { addr = p; buffer = fresh_buffer bytes } ∷ [])
unfolding allocate
new-IsPool s p bytes rest pool ((valid, free, full, out), blocks) = record {
  segment = ((valid, update_self s.cells p _), tt);
  head = refl;
  tail = refl;
  size = omega (arith, pool.size);
  empty = (fresh-IsEmpty bytes full, tt);
  once = λ a. ground arith;
  blocks =
      IsBlocks-kept s.cells (update s.cells p (cell (fresh_buffer bytes) null)) rest
        (λ a inside e.
          update_other s.cells p _ a
            (λ same. cc (sym inside ∙ ap (λ z. has_block z rest) same ∙ out))
          ∙ e)
        blocks;
}

allocate-other :
    (s : Store) (p : Ptr) (bytes : List ℕ) (rest : List (Ptr × List ℕ)) (a : Ptr)
    → a ≢ p
    → (allocate s ((p, bytes) ∷ rest)).1.cells a ≡ s.cells a
unfolding allocate
allocate-other s p bytes rest a ne = update_other s.cells p _ a ne

allocated :
    (s : Store) (blocks : List (Ptr × List ℕ))
    → IsPool s []
    → blocks ≡ s.blocks
    → IsBlocks s.cells blocks
    → 0 < length blocks
    → (t : Item) × (ys : List Item) × (s' : Store) × (allocate s blocks ≡ (t.addr, s'))
      × IsPeeked s s' [] t ys
unfolding allocate
allocated s [] pool same good more = absurd (omega arith)
allocated s ((p, bytes) ∷ rest) pool same good more = (
  record { addr = p; buffer = fresh_buffer bytes },
  [],
  (allocate s ((p, bytes) ∷ rest)).1,
  refl,
  record {
    pool = new-IsPool s p bytes rest pool good;
    others = λ a there. allocate-other s p bytes rest a (λ e. there (ap s.cells e ∙ good.0.1));
    counts = λ a there.
        let miss : (a == p) ≡ false = ne→==-false a p (λ e. there (ap s.cells e ∙ good.0.1)) in
        rw miss (omega arith);
    left =
        let e : length ((p, bytes) ∷ rest) ≡ length s.blocks =
          ap (λ (bs : List (Ptr × List ℕ)). length bs) same in
        omega (arith, e);
  },
)

-- A call with a buffer in the pool, or a block that `malloc` still gives.
pub peek-IsPeeked :
    (s : Store) (ys : List Item)
    → IsPool s ys
    → 0 < length ys + length s.blocks
    → (t : Item) × (ys' : List Item) × (s' : Store) × (peek s ≡ (t.addr, s'))
      × IsPeeked s s' ys t ys'
peek-IsPeeked s [] pool more =
    let e : (s.pool.head == null) ≡ true = (==_iff s.pool.head null).1 pool.head in
    let (t, ys', s', run, done) = allocated s s.blocks pool refl pool.blocks (omega arith) in
    (t, ys', s', peek-new s e ∙ run, done)
peek-IsPeeked s (y ∷ ys) pool more =
    let e : (s.pool.head == null) ≡ false =
      ne→==-false s.pool.head null (λ same. pool.segment.0.0 (sym pool.head ∙ same)) in
    (
      y,
      ys,
      s,
      peek-ready s e ∙ ap (λ (p : Ptr). (p, s)) pool.head,
      record {
        pool = pool;
        others = λ a there. refl;
        counts = λ a there. omega arith;
        left = omega arith;
      },
    )

get-steps :
    (s s' s'' : Store) (p : Ptr)
    → peek s ≡ (p, s')
    → p ≢ null
    → detach s' p ≡ ok s''
    → get s ≡ ok (p, s'')
unfolding get
get-steps s s' s'' p e valid d = rw (e, ne→==-false p null valid, d) refl

-- While the well-formed pool has a buffer or malloc gives a block, buffer_pool_get returns an
-- empty buffer that is no longer in the pool and has no next one, and the pool stays well formed.
pub get-IsPool :
    (s : Store) (ys : List Item)
    → IsPool s ys
    → 0 < length ys + length s.blocks
    → (t : Item) × (ys' : List Item) × (s' : Store) × (get s ≡ ok (t.addr, s'))
      × IsPool s' ys'
      × IsAt s'.cells t.addr t.buffer null
      × IsEmpty t.buffer
      × (count t.addr ys' ≡ 0)
      × (length ys' + length s'.blocks + 1 ≡ length ys + length s.blocks)
get-IsPool s ys pool more =
    let (t, ys', s', run, done) = peek-IsPeeked s ys pool more in
    let ((valid, here), seg) = done.pool.segment in
    let (s'', d, pool'', cells'', blocks'') = detach-IsPool s' t ys' done.pool in
    let hit : (t.addr == t.addr) ≡ true = ground arith in
    let twice : count t.addr (t ∷ ys') ≡ suc (count t.addr ys') = rw hit refl in
    (
      t,
      ys',
      s'',
      get-steps s s' s'' t.addr run valid d,
      pool'',
      (valid, ap (λ (c : Cells). c t.addr) cells'' ∙ update_self s'.cells t.addr _),
      done.pool.empty.0,
      omega (arith, done.pool.once t.addr, twice),
      let e : length s''.blocks ≡ length s'.blocks =
            ap (λ (bs : List (Ptr × List ℕ)). length bs) blocks'' in
          omega (arith, done.left, e),
    )

-- A pool that `buffer_pool_create` has made is empty.
pub create-IsPool :
    (cells : Cells) (blocks : List (Ptr × List ℕ)) (maxsize : ℤ)
    → IsBlocks cells blocks
    → (pool : Pool) × (create true maxsize ≡ some pool)
      × (32 ≤ pool.maxsize)
      × IsPool (record { cells = cells; blocks = blocks; pool = pool }) []
unfolding create
create-IsPool cells blocks maxsize good = (
  _,
  refl,
  at_least maxsize,
  record {
    segment = tt;
    head = refl;
    tail = refl;
    size = refl;
    empty = tt;
    once = λ a. omega arith;
    blocks = good;
  },
)
  where
    at_least : (m : ℤ) → 32 ≤ clip m
    at_least (pos n) = ground arith
    at_least (negsuc n) = omega arith
