-- ===== src/Hashmap/Delete.antt =====
-- hashmap_delete of hashmap/hashmap.c, which tests for a deleted entry where hashmap_get tests for an
-- unused one.
use native.Mathlib.Nat.{mod-lt}
use libakio.Prelude.{
  ℕ, zero, suc, ◌<◌, ◌≡◌, ◌↔◌, refl, ◌∙◌, arith, Bool, true, false, ◌&&◌, Option, none, some,
  length-set, ◌≤◌, read-in,
}
use libakio.Hashmap.{
  Key, Entry, Hashmap, ends, out_of_fuel, null_entry, mask, probe, holds, is_null, get_visit,
  delete_visit, get, delete,
}
use libakio.Hashmap.Path.{mask_mod, pow_pos}
use libakio.Hashmap.Trace.{probe-miss, trace-same}
use libakio.Hashmap.Lookup.{IsTable, entry, enough, get-probe, probe-get}
use libakio.Hashmap.Placed.{IsClean, IsPlaced, clean_entry}
use libakio.Hashmap.Emptied.{removed, emptied, frame, after-IsPlaced, after-gone, unused-stops}

probe-endless :
    {A : Type 0} (visit : Entry → Option A) (map : Hashmap)
    → IsTable map
    → ((slot : ℕ) → slot < map.size → visit (entry map slot) ≡ none)
    → (fuel index perturb : ℕ) → probe visit fuel map.entrys map.size index perturb ≡ out_of_fuel
unfolding probe
probe-endless visit map table never zero index perturb = refl
probe-endless visit map table never (suc fuel) index perturb =
    let i : ℕ = mask map.size index in
    let inside : i < map.size =
      rw (table.size, mask_mod table.power index) (mod-lt index (pow_pos table.power)) in
    probe-miss visit map.entrys map.size fuel index perturb (entry map i)
      (read-in map.entrys i null_entry (rw (table.full, ← table.size) inside)) (never i inside)
    ∙ probe-endless visit map table never fuel _ _

module _ (same : Key → Key → Bool) where
  -- On a table without deleted entries hashmap_delete of a key that is not in it never returns.
  pub delete-endless :
      (key : Key) (map : Hashmap)
      → IsTable map
      → IsClean same map
      → ((slot : ℕ) → holds same key (entry map slot).key ≡ false)
      → (fuel : ℕ) → delete same fuel (some map) (some key) ≡ out_of_fuel
  unfolding delete
  delete-endless key map table clean absent fuel =
      rw
        (probe-endless (delete_visit same key) map table
          (λ slot inside. rw (clean slot, absent slot) refl) fuel _ _)
        refl

  delete-passes :
      (key : Key) (e : Entry)
      → (is_null e.key && e.isdel) ≡ false
      → get_visit same key e ≡ none
      → delete_visit same key e ≡ none
  delete-passes key e clean pass = ground arith

  delete-stops :
      (key : Key) (v : ℕ) (e : Entry)
      → get_visit same key e ≡ some (some v)
      → delete_visit same key e ≡ some (removed e, some v)
  delete-stops key v e stop = ground arith

  -- What `hashmap_delete` of a key that is in the table promises.
  pub record Removed (fuel : ℕ) (map : Hashmap) (key : Key) (v : ℕ) : Type 0 where
    pub after : Hashmap
    pub run : delete same fuel (some map) (some key) ≡ ends (some v, some after)
    pub table : IsTable after
    pub size : after.size ≡ map.size
    pub placed : IsPlaced same fuel after
    pub gone : get same fuel (some after) (some key) ≡ ends none
    pub others :
        (key' : Key) (r : Option ℕ)
        → same key key' ≡ false
        → get same fuel (some map) (some key') ≡ ends r
        → get same fuel (some after) (some key') ≡ ends r

  -- With compare deciding equality, take a table whose size is a power of two, without deleted
  -- entries, with an unused entry, and with every entry that has a key being the one where
  -- hashmap_get for that key returns within the fuel, which is 13 + size rounds or more.
  -- hashmap_delete of a key that hashmap_get finds a value for returns that value. After it
  -- hashmap_get of the key returns NULL, hashmap_get of every other key that ended, with a value
  -- or with NULL, ends with the same, and the table is still of that size with every key at its
  -- place.
  pub delete-found :
      ((a b : Key) → (same a b ≡ true) ↔ (a ≡ b))
      → (fuel : ℕ) (map : Hashmap) (key : Key) (v unused : ℕ) → IsTable map
      → IsClean same map
      → IsPlaced same fuel map
      → enough map ≤ fuel
      → unused < map.size
      → is_null (entry map unused).key ≡ true
      → get same fuel (some map) (some key) ≡ ends (some v)
      → Removed fuel map key v
  unfolding delete emptied
  delete-found same_iff fuel map key v unused table clean placed deep inside null got =
      let (i, walked) = get-probe same fuel map key (some v) got in
      let (e, here, seen, run) =
        trace-same (get_visit same key) (delete_visit same key) (some v) (λ e. (removed e, some v))
          map.entrys map.size
          (λ j e' at_j. delete-passes key e' (clean_entry same map clean j e' at_j))
          (delete-stops key v) fuel _ _ i walked in
      let (stop, lacks) = unused-stops same key (entry map unused) (clean unused) null in
      let still : IsTable (emptied map i e) = record {
        power = table.power;
        size = table.size;
        small = table.small;
        full = length-set map.entrys i (removed e) ∙ table.full;
      } in
      record {
        after = emptied map i e;
        run = rw run refl;
        table = still;
        size = refl;
        placed = after-IsPlaced same same_iff fuel map key v i e here seen walked placed;
        gone =
            after-gone same same_iff fuel map key v i e here seen walked unused still placed deep
              inside stop lacks;
        others = λ key' r apart got'.
            let (j, walked') = get-probe same fuel map key' r got' in
            probe-get same fuel (emptied map i e) key' r j
              (frame same same_iff fuel map key v i e here seen walked key' j r apart walked');
      }
