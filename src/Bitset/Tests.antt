-- ===== src/Bitset/Tests.antt =====
-- Runs of the model of bitset/bitset.c, and its theorems at concrete sets.
use libakio.Prelude.{
  ℕ, zero, suc, ◌+◌, ◌*◌, ◌/◌, ◌%◌, ◌<◌, ◌≡◌, ◌↔◌, ◌⊎◌, refl, true, false, none, some, [], ◌∷◌,
  arith, ◌==◌, if◌then◌else◌, replicate, length-replicate, ok, fault, ◌>>=◌, Returns, read, write,
  memset, get_or, replicate,
}
use libakio.Bitset
use libakio.Bitset.{Bitset, Malloc, nbytes, count_loop}
use libakio.Bitset.Valid.{IsValid, bit}
use libakio.Bitset.Access.{get-fault_iff, past_length, get-set}
use libakio.Bitset.Fill.{IsMalloc, IsAll, new-IsAll, set_all-IsAll}
use libakio.Bitset.Count.{sum_below, count-overrun}

program : Unit {0}
unfolding Bitset.new Bitset.get Bitset.set Bitset.set_all Bitset.clear_all Bitset.count read write
    memset sum_below
program = tt

-- memory that holds 0xAA everywhere
abbrev dirty : Malloc
dirty = record { struct_fits = true; block = λ n. some (replicate n 0xAA) }

dirty-IsMalloc : IsMalloc dirty
dirty-IsMalloc n block e = ground (arith, length-replicate {A = ℕ} n 0xAA)

-- twelve bits, the third and the tenth set
abbrev twelve : Bitset
twelve = record { length = 12; bytes = 0x04 ∷ 0x02 ∷ [] }

twelve-IsValid : IsValid twelve
twelve-IsValid = record { small = omega arith; size = refl; bytes = in_byte }
  where
    in_byte : (i : ℕ) → get_or twelve.bytes i 0 < 256
    in_byte zero = omega arith
    in_byte (suc zero) = omega arith
    in_byte (suc (suc i)) = omega arith

abbrev eight : Bitset
eight = record { length = 8; bytes = 0x81 ∷ [] }

eight-IsValid : IsValid eight
eight-IsValid = record { small = omega arith; size = refl; bytes = in_byte }
  where
    in_byte : (i : ℕ) → get_or eight.bytes i 0 < 256
    in_byte zero = omega arith
    in_byte (suc i) = omega arith

new_run : Bitset.new dirty 12 ≡ ok (some (record { length = 12; bytes = 0 ∷ 0 ∷ [] }))
unfolding program
new_run = refl

set_run :
    Bitset.set (some twelve) 4 1 ≡ ok (0, some (record { length = 12; bytes = 0x14 ∷ 0x02 ∷ [] }))
unfolding program
set_run = refl

set_all_run :
    Bitset.set_all (some twelve) ≡ ok (some (record { length = 12; bytes = 0xFF ∷ 0x0F ∷ [] }))
unfolding program
set_all_run = refl

get-set_example :
    (r : Bitset) × (Bitset.get (some twelve) 4 >>= (λ old. ok (old, some r))
      ≡ Bitset.set (some twelve) 4 1)
    × IsValid r
    × (r.length ≡ 12)
    × ((m : ℕ)
        → m < 12
        → Bitset.get (some r) m ≡ (if 4 == m then ok 1 else Bitset.get (some twelve) m))
get-set_example = get-set 4 1 twelve-IsValid (omega arith) (omega arith)

get-fault_iff_example : (Bitset.get (some eight) 8 ≡ fault) ↔ ((◌≡◌ {A = ℕ} 8 8) × (8 % 8 ≡ 0))
get-fault_iff_example = get-fault_iff eight-IsValid 8

past_length_example :
    (Bitset.get (some twelve) 13 ≡ ok 0) × (Bitset.set (some twelve) 13 1 ≡ ok (0, some twelve))
past_length_example = past_length twelve-IsValid 13 1 (omega arith)

new-IsAll_example : Returns (Bitset.new dirty 12) λ t.
    ((t ≡ none) × ((dirty.struct_fits ≡ false) ⊎ (dirty.block ((12 + 7) / 8) ≡ none)))
    ⊎ ((r : Bitset) × (t ≡ some r) × IsAll 12 0 r)
new-IsAll_example = new-IsAll dirty 12 dirty-IsMalloc (omega arith)

set_all-IsAll_example : (r : Bitset) × (Bitset.set_all (some twelve) ≡ ok (some r)) × IsAll 12 1 r
set_all-IsAll_example = set_all-IsAll twelve-IsValid

count-overrun_example :
    (count_loop (nbytes 12) 0 twelve.bytes 0 ≡ ok (sum_below (bit twelve) (8 * nbytes 12)))
    × (Bitset.count (some twelve) ≡ fault)
count-overrun_example = count-overrun twelve-IsValid

count_rounds : count_loop (nbytes 12) 0 twelve.bytes 0 ≡ ok 2
unfolding program
count_rounds = refl
