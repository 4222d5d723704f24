-- ===== src/Hashmap/New.antt =====
-- hashmap_new of hashmap/hashmap.c makes an empty table.
use native.Mathlib.Nat.{mod-lt}
use libakio.Prelude.{
  ℕ, zero, suc, ◌/◌, ◌^◌, ◌<◌, ◌≤◌, ◌≡◌, ◌⊎◌, refl, sym, ap, get_or, get_or-read, ◌∙◌, arith, Bool,
  true, false, ◌&&◌, none, some, replicate, length-replicate, get_or-replicate, read-in, Bool-cases,
  inl, inr, ne→==-false, ◌==◌,
}
use libakio.Hashmap.{
  Key, Entry, Hashmap, Malloc, ends, null_entry, table_bytes, mask, get_visit, string_hash, new,
  get,
}
use libakio.Hashmap.Path.{mask_mod, pow_pos}
use libakio.Hashmap.Trace.{probe-hit}
use libakio.Hashmap.Lookup.{IsTable, probe-get}
use libakio.Hashmap.Placed.{IsClean, IsPlaced}

-- a new table of `size` entries
abbrev fresh : ℕ → Hashmap
fresh size = record { size = size; use_count = 0; entrys = replicate size null_entry }

fresh-IsTable : (k : ℕ) → 2 ^ k ≤ 2 ^ 59 → IsTable (fresh (2 ^ k))
fresh-IsTable k small = record {
  power = k;
  size = refl;
  small = omega arith;
  full = length-replicate (2 ^ k) null_entry;
}

get-fresh :
    (same : Key → Key → Bool) (k fuel : ℕ) (key : Key)
    → get same (suc fuel) (some (fresh (2 ^ k))) (some key) ≡ ends none
get-fresh same k fuel key =
    let map : Hashmap = fresh (2 ^ k) in
    let i : ℕ = mask (2 ^ k) (string_hash key) in
    let inside : i < 2 ^ k =
      rw (mask_mod k (string_hash key)) (mod-lt (string_hash key) (pow_pos k)) in
    probe-get same (suc fuel) map key none i (
      probe-hit (get_visit same key) map.entrys map.size fuel (string_hash key) (string_hash key)
        null_entry none
        (read-in map.entrys i null_entry (rw (length-replicate (2 ^ k) null_entry) inside)
          ∙ rw (get_or-replicate (2 ^ k) i null_entry null_entry inside) refl)
        refl)

new-granted :
    (m : Malloc) (k : ℕ)
    → 2 ^ k ≤ 2 ^ 59
    → (m.struct_fits && m.table_fits (table_bytes (2 ^ k))) ≡ true
    → new m (2 ^ k) ≡ some (fresh (2 ^ k))
unfolding new
new-granted m k small fits =
    let pos : 0 < 2 ^ k = pow_pos k in
    let plain : table_bytes (2 ^ k) / 24 ≡ 2 ^ k = omega arith in
    let some_size : (2 ^ k == 0) ≡ false = ne→==-false (2 ^ k) 0 (λ e. omega arith) in
    rw (some_size, fits, plain) refl

new-refused :
    (m : Malloc) (k : ℕ)
    → (m.struct_fits && m.table_fits (table_bytes (2 ^ k))) ≡ false
    → new m (2 ^ k) ≡ none
unfolding new
new-refused m k full =
    let pos : 0 < 2 ^ k = pow_pos k in
    let some_size : (2 ^ k == 0) ≡ false = ne→==-false (2 ^ k) 0 (λ e. omega arith) in
    rw (some_size, full) refl

-- For a size that is a power of two up to 2^59, hashmap_new returns NULL if one of its allocations
-- fails, and otherwise a well-formed table in which hashmap_get finds no key after one round.
pub new-empty :
    (same : Key → Key → Bool) (m : Malloc) (k fuel : ℕ)
    → 2 ^ k ≤ 2 ^ 59
    → ((m.struct_fits && m.table_fits (table_bytes (2 ^ k))) ≡ false) × (new m (2 ^ k) ≡ none)
      ⊎ (map : Hashmap) × (new m (2 ^ k) ≡ some map)
        × IsTable map
        × ((key : Key) → get same (suc fuel) (some map) (some key) ≡ ends none)
new-empty same m k fuel small =
    elim (Bool-cases (m.struct_fits && m.table_fits (table_bytes (2 ^ k)))) [
      | inr full ↦ inl (full, new-refused m k full)
      | inl fits ↦
          inr (
            fresh (2 ^ k),
            new-granted m k small fits,
            fresh-IsTable k small,
            get-fresh same k fuel,
          )
    ]

null-replicate : (n i : ℕ) → get_or (replicate n null_entry) i null_entry ≡ null_entry
unfolding replicate get_or
null-replicate zero i = refl
null-replicate (suc n) zero = refl
null-replicate (suc n) (suc i) = null-replicate n i

module _ (same : Key → Key → Bool) where
  fresh-IsPlaced : (size fuel : ℕ) → IsPlaced same fuel (fresh size)
  fresh-IsPlaced size fuel slot k e here held =
      let null : e ≡ null_entry =
        sym (get_or-read (replicate size null_entry) slot e null_entry here)
        ∙ null-replicate size slot in
      absurd (cc (sym held ∙ ap (λ (e : Entry). e.key) null))

  fresh-IsClean : (size : ℕ) → IsClean same (fresh size)
  fresh-IsClean size slot = rw (null-replicate size slot) refl

  -- A new table, of a size that is a power of two up to 2^59, has no deleted entry, and all its
  -- keys, which are none, are placed.
  pub new-IsPlaced :
      (m : Malloc) (k fuel : ℕ) (map : Hashmap)
      → 2 ^ k ≤ 2 ^ 59
      → new m (2 ^ k) ≡ some map
      → IsTable map × IsClean same map × IsPlaced same fuel map
  new-IsPlaced m k fuel map small made =
      elim (Bool-cases (m.struct_fits && m.table_fits (table_bytes (2 ^ k)))) [
        | inr full ↦ absurd (cc (sym (new-refused m k full) ∙ made))
        | inl fits ↦
            let same_map : fresh (2 ^ k) ≡ map = cc (sym (new-granted m k small fits) ∙ made) in
            rw (← same_map)
              (fresh-IsTable k small, fresh-IsClean (2 ^ k), fresh-IsPlaced (2 ^ k) fuel)
      ]
