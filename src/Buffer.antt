-- ===== src/Buffer.antt =====
-- kznet/buffer.c: a pool of buffers, and a chain of them that bytes go into and come out of. The
-- pool is here, and the chain in Chain.
pub mod Memory
pub mod Chain
pub mod Bytes
pub mod Segment
pub mod Spare
pub mod Put
pub mod Peek
pub mod State
pub mod Skip
pub mod Shrink
pub mod Gather
pub mod Advance
pub mod Send
pub mod Fill
pub mod Extend
pub mod Receive
pub mod Recv
pub mod Relay
pub mod Delete
mod Tests
use libakio.Prelude.{
  ℕ, ℤ, zero, suc, pos, negsuc, ◌+◌, ◌-◌, ◌^◌, Bool, true, false, Option, none, some, List, [], ◌∷◌,
  ltb, ◌==◌, if◌then◌else◌, Run, ok, fault, ◌>>=◌, wrap,
}
use libakio.Buffer.Memory.{
  Ptr, null, Buffer, Cell, Cells, buffer_size, header_size, update, load, set_next, set_buffer,
}

-- `struct buffer_pool`: `head` is `head.next`, and `tail` is `none` where it is the address of
-- `head`. A pool of 2^31 buffers is out of reach, so that the `int` counts are natural numbers.
pub record Pool : Type 0 where
  pub maxsize : ℕ
  pub allocs : ℕ
  pub size : ℕ
  pub head : Ptr
  pub tail : Option Ptr

-- The memory, the pool, and the blocks that `malloc` returns before it returns NULL, each with the
-- bytes that it holds.
pub record Store : Type 0 where
  pub cells : Cells
  pub blocks : List (Ptr × List ℕ)
  pub pool : Pool

abbrev pub clip : ℤ → ℕ
clip (pos n) = if ltb n 32 then 32 else n
clip (negsuc n) = 32

-- `buffer_pool_create`, with whether `malloc` succeeds
unfoldable pub create : (fits : Bool) → ℤ → Option Pool
create false maxsize = none
create true maxsize =
    some (record { maxsize = clip maxsize; allocs = 0; size = 0; head = null; tail = none })

-- The loop of `buffer_pool_delete`; `fuel` is more than the buffers that are left.
unfoldable pub delete_loop : ℕ → Ptr → Cells → Run Cells
delete_loop zero curr cells = fault
delete_loop (suc fuel) curr cells =
    if curr == null
    then ok cells
    else (do c ← load cells curr; delete_loop fuel c.next (update cells curr none))

-- `buffer_pool_delete`
unfoldable pub delete : ℕ → Store → Run Cells
delete fuel s = delete_loop fuel s.pool.head s.cells

-- the block that `malloc` returns, as an empty buffer
abbrev pub fresh_buffer : List ℕ → Buffer
fresh_buffer bytes = record {
  read_at = header_size;
  last = header_size;
  start = header_size;
  end = buffer_size;
  bytes = bytes;
}

-- `buffer_pool_peek` of an empty pool
unfoldable pub allocate : Store → List (Ptr × List ℕ) → Ptr × Store
allocate s [] = (null, s)
allocate s ((p, bytes) ∷ blocks) = (
  p,
  record {
    cells = update s.cells p (some (record { buffer = fresh_buffer bytes; next = null }));
    blocks = blocks;
    pool = record (s.pool) {
      head = p;
      tail = some p;
      size = s.pool.size + 1;
      allocs = s.pool.allocs + 1;
    };
  },
)

-- `buffer_pool_peek`
unfoldable pub peek : Store → Ptr × Store
peek s = if s.pool.head == null then allocate s s.blocks else (s.pool.head, s)

-- `buffer_detach` of the first buffer of the pool, which has one then: `size` is not 0
unfoldable pub detach : Store → Ptr → Run Store
detach s buf = do
  c ← load s.cells buf
  cells ← set_next s.cells buf null
  ok (record s {
    cells = cells;
    pool = record (s.pool) {
      head = c.next;
      tail = if c.next == null then none else s.pool.tail;
      size = s.pool.size - 1;
    };
  })

-- `buffer_pool_get`
unfoldable pub get : Store → Run (Ptr × Store)
get s =
    let (buf, s') = peek s in
    if buf == null then ok (null, s') else (detach s' buf >>= λ s''. ok (buf, s''))

-- `pool->tail->next = buf`
unfoldable pub append : Store → Ptr → Run Store
append s buf = elim (s.pool.tail) [
  | none ↦ ok (record s { pool = record (s.pool) { head = buf } })
  | some t ↦ set_next s.cells t buf >>= λ cells. ok (record s { cells = cells })
]

-- `buf->pos = buf->last = buf->start`
abbrev pub rewind : Buffer → Buffer
rewind b = record b { read_at = b.start; last = b.start }

-- `buffer_pool_put` of a buffer that is kept
unfoldable pub put_back : Store → Ptr → Run Store
put_back s buf = do
  c ← load s.cells buf
  s' ←
      append
        (record s {
          cells = update s.cells buf (some (record { buffer = rewind c.buffer; next = null }));
        })
        buf
  ok (record s' { pool = record (s'.pool) { tail = some buf; size = s'.pool.size + 1 } })

-- `buffer_pool_put`
unfoldable pub put : Store → Ptr → Run Store
put s buf =
    if ltb s.pool.maxsize s.pool.allocs
    then (load s.cells buf >>= λ c. ok (record s {
      cells = update s.cells buf none;
      pool = record (s.pool) { allocs = s.pool.allocs - 1 };
    }))
    else put_back s buf
