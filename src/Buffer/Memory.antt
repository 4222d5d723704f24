-- ===== src/Buffer/Memory.antt =====
-- The memory of kznet/buffer.c: blocks of bytes with two markers, linked into lists.
use libakio.Prelude.{
  ℕ, zero, suc, ◌+◌, ◌-◌, ◌^◌, Option, none, some, List, [], ◌∷◌, ◌++◌, length, drop, ◌==◌,
  if◌then◌else◌, Run, ok, fault, ◌>>=◌, wrap,
}

abbrev pub Ptr : Type 0
Ptr = ℕ

abbrev pub null : Ptr
null = 0

-- the first bytes of a list
abbrev pub take : ℕ → List ℕ → List ℕ
take zero xs = []
take (suc n) [] = []
take (suc n) (x ∷ xs) = x ∷ take n xs

-- BUFFER_SIZE, and BUFFER_HSIZE: five pointers
abbrev pub buffer_size : ℕ
buffer_size = 4096

abbrev pub header_size : ℕ
header_size = 40

-- `struct buffer` without `next`. The four pointers are offsets into the block that holds the
-- struct and the bytes behind it.
pub record Buffer : Type 0 where
  pub read_at : ℕ
  pub last : ℕ
  pub start : ℕ
  pub end : ℕ
  pub bytes : List ℕ

pub record Cell : Type 0 where
  pub buffer : Buffer
  pub next : Ptr

abbrev pub Cells : Type 0
Cells = Ptr → Option Cell

unfoldable pub update : Cells → Ptr → Option Cell → Cells
update cells p c a = if a == p then c else cells a

-- `*p`, a fault at NULL and where no buffer is
unfoldable pub load : Cells → Ptr → Run Cell
load cells p = if p == null then fault else elim (cells p) [ none ↦ fault | some c ↦ ok c ]

-- `p->next = q`
unfoldable pub set_next : Cells → Ptr → Ptr → Run Cells
set_next cells p q = load cells p >>= λ c. ok (update cells p (some (record c { next = q })))

-- a write to the other fields
unfoldable pub set_buffer : Cells → Ptr → Buffer → Run Cells
set_buffer cells p b = load cells p >>= λ c. ok (update cells p (some (record c { buffer = b })))

-- `(size_t)(to - from)`
abbrev pub distance : ℕ → ℕ → ℕ
distance from to = wrap 64 (to + (2 ^ 64 - from))

-- `buffer_rsize` and `buffer_wsize`
abbrev pub read_size : Buffer → ℕ
read_size b = distance b.read_at b.last

abbrev pub write_size : Buffer → ℕ
write_size b = distance b.last b.end

-- the bytes between two offsets
abbrev pub slice : ℕ → ℕ → List ℕ → List ℕ
slice from to xs = drop from (take to xs)

-- the block after bytes have been stored from an offset on
abbrev pub store : List ℕ → ℕ → List ℕ → List ℕ
store xs offset ys = take offset xs ++ ys ++ drop (offset + length ys) xs
