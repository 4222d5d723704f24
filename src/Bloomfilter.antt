-- ===== src/Bloomfilter.antt =====
-- bloomfilter/bloomfilter.c: a filter of `k` probes into a bitset.
pub mod Hash
pub mod Probes
pub mod Keys
mod Tests
use libakio.Prelude.{
  ℕ, zero, suc, ◌+◌, ◌%◌, bit_or, Bool, true, false, not, ◌||◌, Option, none, some, List, ltb, ◌==◌,
  if◌then◌else◌, Run, ok, fault, ◌>>=◌, shr, shl, wrap,
}
use libakio.Bloomfilter.Hash.{bloom_hash}
use libakio.Bitset
use libakio.Bitset.{Bitset, Malloc}

-- The float arithmetic of `bloomfilter_new`, over a type `F` of floats.
pub record Floats (F : Type 0) : Type 0 where
  -- `erate <= 0 || erate >= 1`
  pub outside_unit : F → Bool
  -- `ceilf(log2f(1.0 / erate))`, as an `int`
  pub probe_count : F → ℕ
  -- `capacity * ceilf((k / 0.69))`, as an `unsigned long`
  pub bit_count : ℕ → ℕ → ℕ

pub record Filter (F : Type 0) : Type 0 where
  pub erate : F
  pub k : ℕ
  pub capacity : ℕ
  pub nbits : ℕ
  pub count : ℕ
  pub set : Option Bitset

-- a key, as the bytes before its terminating zero
abbrev pub Key : Type 0
Key = List ℕ

-- `if (k < 1) k = 1; if (k > 30) k = 30;`
abbrev pub clamp_k : ℕ → ℕ
clamp_k k = if ltb k 1 then 1 else if ltb 30 k then 30 else k

-- `(h >> 17) | (h << 15)`
abbrev pub delta : ℕ → ℕ
delta h = bit_or (shr h 17) (shl 32 h 15)

-- `h % nbits`, which is undefined for no bits
bitpos : ℕ → ℕ → Run ℕ
bitpos h zero = fault
bitpos h (suc n) = ok (wrap 32 (h % suc n))

-- The rounds that are left of the loop in `bloomfilter_add`.
pub add_loop : ℕ → ℕ → ℕ → ℕ → Option Bitset → Run (Option Bitset)
unfolding bitpos
add_loop zero nbits h d set = ok set
add_loop (suc rounds) nbits h d set = do
  pos ← bitpos h nbits
  (_, set') ← Bitset.set set pos 1
  add_loop rounds nbits (wrap 32 (h + d)) d set'

-- The rounds that are left of the loop in `bloomfilter_check`.
pub check_loop : ℕ → ℕ → ℕ → ℕ → Option Bitset → Run ℕ
unfolding bitpos
check_loop zero nbits h d set = ok 1
check_loop (suc rounds) nbits h d set = do
  pos ← bitpos h nbits
  bit ← Bitset.get set pos
  let rest = check_loop rounds nbits (wrap 32 (h + d)) d set
  if bit == 1 then rest else ok 0

module _ {F : Type 0} where
  -- `struct_fits` says whether `malloc` finds room for the filter; a NULL bitset is not checked.
  unfoldable pub new : Floats F → (struct_fits : Bool) → Malloc → ℕ → F → Run (Option (Filter F))
  new fl struct_fits m capacity erate =
      if fl.outside_unit erate || not struct_fits then ok none else (do
        let k = clamp_k (fl.probe_count erate)
        let nbits = fl.bit_count capacity k
        set ← Bitset.new m nbits
        ok (
            some (record {
              erate = erate;
              k = k;
              capacity = capacity;
              nbits = nbits;
              count = 0;
              set = set;
            })))

  -- The result and the filter after the call.
  unfoldable pub add : Option (Filter F) → Option Key → Run (ℕ × Option (Filter F))
  unfolding add_loop
  add none key = ok (0, none)
  add (some f) none = ok (0, some f)
  add (some f) (some key) = if ltb f.capacity f.count then ok (0, some f) else (do
    let h = bloom_hash key
    set ← add_loop f.k f.nbits h (delta h) f.set
    ok (1, some (record f { set = set; count = wrap 64 (f.count + 1) })))

  unfoldable pub check : Option (Filter F) → Option Key → Run ℕ
  unfolding check_loop
  check none key = ok 0
  check (some f) none = ok 0
  check (some f) (some key) = let h = bloom_hash key in check_loop f.k f.nbits h (delta h) f.set
