-- ===== src/Hashmap/Tests.antt =====
-- Runs of the model of hashmap/hashmap.c, and its theorems at concrete tables.
use libakio.Prelude.{
  ℕ, zero, suc, ◌+◌, ◌≡◌, ◌↔◌, ◌⊎◌, refl, arith, Bool, true, false, ◌&&◌, ◌==◌, Option, none, some,
  [], ◌∷◌, read, ok,
}
use libakio.Hashmap.{
  Key, Hashmap, Malloc, ◌>>=◌, ends, out_of_fuel, null_entry, string_hash, hash_loop, probe, holds,
  new, put_slot, get, delete, table_bytes, rehash, resize, put_key, put,
}
use libakio.Hashmap.ForEach.{map_loop, for_each}
use libakio.Hashmap.Lookup.{IsTable, Stored, entry, get-returns}
use libakio.Hashmap.Put.{put-Stored, resize-stuck, keys_from}
use libakio.Hashmap.Placed.{IsClean, IsPlaced, put_slot-IsPlaced}
use libakio.Hashmap.Delete.{Removed, delete-endless, delete-found}
use libakio.Hashmap.New.{new-empty, new-IsPlaced}

program : Unit {0}
unfolding string_hash hash_loop probe new put_slot get delete rehash resize put_key put map_loop
    for_each read
program = tt

-- `!strcmp(a, b)`
abbrev equal : Key → Key → Bool
equal [] [] = true
equal [] (y ∷ ys) = false
equal (x ∷ xs) [] = false
equal (x ∷ xs) (y ∷ ys) = (x == y) && equal xs ys

equal_sound : (a b : Key) → equal a b ≡ true → a ≡ b
equal_sound [] [] h = refl
equal_sound [] (y ∷ ys) h = absurd (ground arith)
equal_sound (x ∷ xs) [] h = absurd (ground arith)
equal_sound (x ∷ xs) (y ∷ ys) h =
    let first : x ≡ y = ground arith in
    let rest : xs ≡ ys = equal_sound xs ys (ground arith) in rw (first, rest) refl

equal_self : (a : Key) → equal a a ≡ true
equal_self [] = refl
equal_self (x ∷ xs) = ground (arith, equal_self xs)

equal_iff : (a b : Key) → (equal a b ≡ true) ↔ (a ≡ b)
equal_iff a b = (equal_sound a b, λ e. rw e (equal_self b))

abbrev apple : Key
apple = b'a' ∷ b'p' ∷ []

abbrev pear : Key
pear = b'p' ∷ b'e' ∷ []

abbrev plum : Key
plum = b'p' ∷ b'l' ∷ []

abbrev granted : Malloc
granted = record { struct_fits = true; table_fits = λ n. true }

abbrev empty : Hashmap
empty = record {
  size = 4;
  use_count = 0;
  entrys = null_entry ∷ null_entry ∷ null_entry ∷ null_entry ∷ [];
}

-- "ap" at slot 1 and "pe" at slot 3
abbrev two : Hashmap
two = record {
  size = 4;
  use_count = 2;
  entrys =
      null_entry
      ∷ record { key = some apple; value = 7; isdel = false }
      ∷ null_entry
      ∷ record { key = some pear; value = 8; isdel = false }
      ∷ [];
}

two_puts :
    (put equal granted 20 2 (some empty) (some apple) 7
      >>= (λ r. put equal granted 20 2 r.1 (some pear) 8))
    ≡ ends (1, some two)
unfolding string_hash hash_loop probe put_slot put_key put resize rehash new read
two_puts = refl

two-IsTable : IsTable two
two-IsTable = record { power = 2; size = refl; small = omega arith; full = refl }

-- "ap" alone, and the table after it, as the calls of hashmap_put leave them
abbrev one : Hashmap
one = record {
  size = 4;
  use_count = 1;
  entrys =
      null_entry
      ∷ record { key = some apple; value = 7; isdel = false }
      ∷ null_entry
      ∷ null_entry
      ∷ [];
}

empty_new : new granted 4 ≡ some empty
unfolding new
empty_new = refl

one_put : put_slot equal 20 empty apple 7 ≡ ends one
unfolding string_hash hash_loop probe put_slot read
one_put = refl

two_put : put_slot equal 20 one pear 8 ≡ ends two
unfolding string_hash hash_loop probe put_slot read
two_put = refl

two-IsPlaced : IsClean equal two × IsPlaced equal 20 two
two-IsPlaced =
    let (table, clean, placed) = new-IsPlaced equal granted 2 20 empty (omega arith) empty_new in
    let (clean1, placed1) =
      put_slot-IsPlaced equal equal_iff 20 empty one apple 7 clean placed one_put in
    put_slot-IsPlaced equal equal_iff 20 one two pear 8 clean1 placed1 two_put

-- three keys make the table of four grow
growth :
    (put equal granted 30 2 (some two) (some plum) 9
      >>= (λ r. put equal granted 30 2 r.1 (some []) 5)
      >>= (λ r. get equal 30 r.1 (some plum)))
    ≡ ends (some 9)
unfolding string_hash hash_loop probe put_slot put_key put resize rehash new get read
growth = refl

get-returns_example : (value : Option ℕ) × (get equal 20 (some two) (some plum) ≡ ends value)
get-returns_example = get-returns equal plum two 20 2 two-IsTable (omega arith) (omega arith) refl

put-Stored_example :
    (stored : Stored equal 20 two plum 9) × (put equal granted 20 2 (some two) (some plum) 9
      ≡ ends (1, some stored.after))
put-Stored_example =
    put-Stored equal granted 20 equal_iff 1 two plum 9 2 two-IsTable (omega arith) refl
      (omega arith) refl

new-empty_example :
    ((granted.struct_fits && granted.table_fits (table_bytes 4)) ≡ false) × (new granted 4 ≡ none)
    ⊎ (map : Hashmap) × (new granted 4 ≡ some map)
      × IsTable map
      × ((key : Key) → get equal 1 (some map) (some key) ≡ ends none)
new-empty_example = new-empty equal granted 2 0 (omega arith)

two-lacks_plum : (slot : ℕ) → holds equal plum (entry two slot).key ≡ false
two-lacks_plum zero = refl
two-lacks_plum (suc zero) = refl
two-lacks_plum (suc (suc zero)) = refl
two-lacks_plum (suc (suc (suc zero))) = refl
two-lacks_plum (suc (suc (suc (suc slot)))) = refl

delete-endless_example : delete equal 1000 (some two) (some plum) ≡ out_of_fuel
delete-endless_example =
    delete-endless equal plum two two-IsTable two-IsPlaced.0 two-lacks_plum 1000

two-has_pear : get equal 20 (some two) (some pear) ≡ ends (some 8)
unfolding string_hash hash_loop probe get read
two-has_pear = refl

delete-found_example : Removed equal 20 two pear 8
delete-found_example =
    delete-found equal equal_iff 20 two pear 8 2 two-IsTable two-IsPlaced.0 two-IsPlaced.1
      (omega arith) (omega arith) refl two-has_pear

-- one key in the table, but two uses counted: "pe" was deleted
abbrev one_deleted : Hashmap
one_deleted = record {
  size = 4;
  use_count = 2;
  entrys =
      null_entry
      ∷ record { key = some apple; value = 7; isdel = false }
      ∷ null_entry
      ∷ record { key = none; value = 8; isdel = true }
      ∷ [];
}

after_delete : delete equal 20 (some two) (some pear) ≡ ends (some 8, some one_deleted)
unfolding string_hash hash_loop probe delete read
after_delete = refl

resized : resize equal granted 20 (put_key equal granted 20 1) one_deleted ≡ ends one_deleted
unfolding string_hash hash_loop probe put_slot put_key resize rehash new read
resized = refl

resize-stuck_example : one_deleted ≡ one_deleted
unfolding keys_from
resize-stuck_example =
    resize-stuck equal granted 20 (put_key equal granted 20 1) one_deleted one_deleted (omega arith)
      resized

-- the callback of a walk over the table: it adds one to each value and sums the old ones
walked :
    for_each (some (λ k v w. (v + 1, w + v))) (some two) 0
    ≡ ok (
      1,
      some (record two {
        entrys =
            null_entry
            ∷ record { key = some apple; value = 8; isdel = false }
            ∷ null_entry
            ∷ record { key = some pear; value = 9; isdel = false }
            ∷ [];
      }),
      15,
    )
unfolding for_each map_loop read
walked = refl

abbrev fig : Key
fig = b'f' ∷ b'i' ∷ []

-- "fi" collides with "ap" and comes to another slot. Once "ap" is deleted, a put of "fi" stores it
-- a second time, in the slot of "ap"; a deletion of "fi" then brings its old value back.
stale :
    (put_slot equal 20 empty apple 7
      >>= (λ a. put_slot equal 20 a fig 8)
      >>= (λ b. delete equal 20 (some b) (some apple))
      >>= (λ c. put equal granted 20 1 c.1 (some fig) 9)
      >>= (λ d. delete equal 20 d.1 (some fig))
      >>= (λ f. get equal 20 f.1 (some fig)))
    ≡ ends (some 8)
unfolding string_hash hash_loop probe put_slot put_key put resize rehash new delete get read
stale = refl
