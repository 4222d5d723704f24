-- ===== src/Bloomfilter/Tests.antt =====
-- Runs of the model of bloomfilter/bloomfilter.c, and its theorems at concrete filters.
use libakio.Prelude.{
  ℕ, ◌*◌, ◌<◌, ◌≤◌, ◌≡◌, ◌↔◌, refl, true, none, some, [], ◌∷◌, ◌++◌, arith, replicate,
  length-replicate, ok, ◌>>=◌, Returns, read, write, memset, ltb,
}
use libakio.Bitset
use libakio.Bitset.{Malloc}
use libakio.Bitset.Fill.{IsMalloc}
use libakio.Bloomfilter
use libakio.Bloomfilter.{Floats, Filter, Key}
use libakio.Bloomfilter.Hash.{bloom_hash}
use libakio.Bloomfilter.Probes.{probed}
use libakio.Bloomfilter.Keys.{
  probes, any_probes, Models, IsGrown, new-Models, add-Models, check_iff, check-added, add_all,
  no_false_negative, add-null_set,
}

program : Unit {0}
unfolding Bitset.new Bitset.get Bitset.set read write memset Bloomfilter.new Bloomfilter.add
    Bloomfilter.check bloom_hash probed any_probes add_all
program = tt

-- Rates are percentages here; 3 probes and 5 bits for each key.
abbrev percent : Floats ℕ
percent = record {
  outside_unit = λ p. ltb 99 p;
  probe_count = λ p. 3;
  bit_count = λ capacity k. capacity * 5;
}

abbrev clean : Malloc
clean = record { struct_fits = true; block = λ n. some (replicate n 7) }

clean-IsMalloc : IsMalloc clean
clean-IsMalloc n block e = ground (arith, length-replicate {A = ℕ} n 7)

abbrev apple : Key
apple = b'a' ∷ b'p' ∷ b'p' ∷ b'l' ∷ b'e' ∷ []

abbrev pear : Key
pear = b'p' ∷ b'e' ∷ b'a' ∷ b'r' ∷ []

abbrev empty : Filter ℕ
empty = record {
  erate = 10;
  k = 3;
  capacity = 2;
  nbits = 10;
  count = 0;
  set = some (record { length = 10; bytes = 0 ∷ 0 ∷ [] });
}

-- murmurhash2 of "abcde" and "akio" with the seed of `_bloom_hash`
hash_values :
    (bloom_hash (b'a' ∷ b'b' ∷ b'c' ∷ b'd' ∷ b'e' ∷ []) ≡ 906554763)
    × (bloom_hash (b'a' ∷ b'k' ∷ b'i' ∷ b'o' ∷ []) ≡ 1799691889)
unfolding program
hash_values = (refl, refl)

new_run : Bloomfilter.new percent true clean 2 10 ≡ ok (some empty)
unfolding program
new_run = refl

check-empty : Bloomfilter.check (some empty) (some apple) ≡ ok 0
unfolding program
check-empty = refl

add-check_run :
    (Bloomfilter.add (some empty) (some apple) >>= λ r. Bloomfilter.check r.1 (some apple)) ≡ ok 1
unfolding program
add-check_run = refl

new-Models_example :
    (f : Filter ℕ) × (Bloomfilter.new percent true clean 2 10 ≡ ok (some f))
    × Models f []
    × (f.capacity ≡ 2)
    × (1 ≤ f.k)
    × (f.k ≤ 30)
new-Models_example =
    new-Models percent clean 2 10 (replicate 2 7) refl clean-IsMalloc refl refl (omega arith)
      (omega arith) (omega arith)

abbrev fresh : Filter ℕ
fresh = new-Models_example.0

fresh-Models : Models fresh []
fresh-Models = new-Models_example.2

fresh_capacity : fresh.capacity ≡ 2
fresh_capacity = new-Models_example.3

add-Models_example :
    (g : Filter ℕ) × (Bloomfilter.add (some fresh) (some apple) ≡ ok (1, some g))
    × Models g (apple ∷ [])
    × IsGrown fresh g
add-Models_example = add-Models fresh-Models apple (omega arith)

abbrev one_key : Filter ℕ
one_key = add-Models_example.0

check-added_example : Bloomfilter.check (some one_key) (some apple) ≡ ok 1
check-added_example = check-added add-Models_example.2 apple [] [] refl

check_iff_example : Returns (Bloomfilter.check (some one_key) (some pear)) λ t.
    (t < 2)
    × ((t ≡ 1) ↔ (
        (m : ℕ)
        → m < one_key.nbits
        → probes one_key.k one_key.nbits pear m ≡ true
        → any_probes one_key.k one_key.nbits (apple ∷ []) m ≡ true))
check_iff_example = check_iff add-Models_example.2 pear

no_false_negative_example :
    (g : Filter ℕ) × (add_all fresh ((pear ∷ []) ++ apple ∷ (pear ∷ [])) ≡ ok (some g))
    × (Bloomfilter.check (some g) (some apple) ≡ ok 1)
no_false_negative_example =
    no_false_negative (pear ∷ []) (pear ∷ []) apple fresh-Models (omega (arith, fresh_capacity))

-- a filter for no key, with one key in it
abbrev full : Filter ℕ
full = record {
  erate = 10;
  k = 1;
  capacity = 0;
  nbits = 8;
  count = 1;
  set = some (record { length = 8; bytes = 0 ∷ [] });
}

abbrev no_set : Filter ℕ
no_set = record { erate = 10; k = 1; capacity = 4; nbits = 8; count = 0; set = none }

add-null_set_example :
    (g : Filter ℕ) × (Bloomfilter.add (some no_set) (some apple) ≡ ok (1, some g))
    × ((asked : Key) → Bloomfilter.check (some g) (some asked) ≡ ok 0)
add-null_set_example = add-null_set no_set apple refl (omega arith) (omega arith) (omega arith)
