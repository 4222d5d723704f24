-- ===== src/Hashmap.antt =====
-- hashmap/hashmap.c: open addressing with perturbed probing. The loops `while (1)` take fuel.
pub mod Cycle
pub mod Path
pub mod Bound
pub mod Trace
pub mod Lookup
pub mod Placed
pub mod Emptied
pub mod Delete
pub mod New
pub mod Put
mod Tests
pub mod Reach
pub mod ForEach
use libakio.Prelude.{
  ℕ, zero, suc, ◌+◌, ◌-◌, ◌*◌, ◌/◌, ◌^◌, bit_and, bit_xor, Bool, true, false, not, ◌&&◌, ◌||◌,
  Option, none, some, List, [], ◌∷◌, length, set, replicate, ltb, leb, ◌==◌, if◌then◌else◌, shr,
  shl, wrap, Run, ok, fault, read,
}

-- the bytes of a `const char *` before its terminating zero
abbrev pub Key : Type 0
Key = List ℕ

-- a `void *` value is its address
pub record Entry : Type 0 where
  pub key : Option Key
  pub value : ℕ
  pub isdel : Bool

pub record Hashmap : Type 0 where
  pub size : ℕ
  pub use_count : ℕ
  pub entrys : List Entry

-- The end of a run of code with an unbounded loop.
pub data Ends (A : Type 0) : Type 0 where
  ends : A → Ends A
  faults : Ends A
  out_of_fuel : Ends A

infixl 5 ◌>>=◌
abbrev pub ◌>>=◌ : {A B : Type 0} → Ends A → (A → Ends B) → Ends B
out_of_fuel >>= k = out_of_fuel
faults >>= k = faults
ends a >>= k = k a

-- A `char` is signed: from 128 on it is negative, and widens to 64 bits with ones.
abbrev pub widen : ℕ → ℕ
widen c = if ltb c 128 then c else wrap 64 (2 ^ 64 - 256 + c)

hash_loop : ℕ → Key → ℕ
hash_loop x [] = x
hash_loop x (c ∷ str) = hash_loop (bit_xor (wrap 64 (1000003 * x)) (widen c)) str

-- the first character, which is the terminating zero of an empty key
abbrev first_char : Key → ℕ
first_char [] = 0
first_char (c ∷ str) = c

unfoldable pub string_hash : Key → ℕ
unfolding hash_loop
string_hash str = bit_xor (hash_loop (shl 64 (widen (first_char str)) 7) str) (wrap 64 (length str))

abbrev pub null_entry : Entry
null_entry = record { key = none; value = 0; isdel = false }

abbrev pub init_size : ℕ
init_size = 2 ^ 9

-- Which of the calls of `malloc` succeed: the struct, and the table of a number of bytes.
pub record Malloc : Type 0 where
  pub struct_fits : Bool
  pub table_fits : ℕ → Bool

-- `map->size * sizeof(map_entry)`, which may wrap
abbrev pub table_bytes : ℕ → ℕ
table_bytes size = wrap 64 (size * 24)

unfoldable pub new : Malloc → ℕ → Option Hashmap
new m size =
    let n : ℕ = if size == 0 then init_size else size in
    if m.struct_fits && m.table_fits (table_bytes n)
    then some
        (record { size = n; use_count = 0; entrys = replicate (table_bytes n / 24) null_entry })
    else none

-- `index & (map->size - 1)`
abbrev pub mask : ℕ → ℕ → ℕ
mask size index = bit_and index (size - 1)

-- `(index << 2) + index + perturb + 1`
abbrev pub next_index : ℕ → ℕ → ℕ
next_index index perturb = wrap 64 (index * 4 + index + perturb + 1)

-- The function returns at the slot, or the loop goes on.
abbrev pub settle : {A : Type 0} → ℕ → Option A → Ends (ℕ × A) → Ends (ℕ × A)
settle i (some a) rest = ends (i, a)
settle i none rest = rest

-- The loop that the three operations share: they look at the entry under the index until `visit`
-- returns from the function, which then happened at the slot that stands in the result.
unfoldable pub probe :
    {A : Type 0} → (Entry → Option A) → ℕ → List Entry → ℕ → (index perturb : ℕ) → Ends (ℕ × A)
probe visit zero entrys size index perturb = out_of_fuel
probe visit (suc fuel) entrys size index perturb =
    let i : ℕ = mask size index in
    let p : ℕ = shr perturb 5 in
    let rest = probe visit fuel entrys size (next_index i p) p in
    elim (read entrys i) [ fault ↦ faults | ok e ↦ settle i (visit e) rest ]

abbrev pub is_null : Option Key → Bool
is_null none = true
is_null (some k) = false

module _ (same : Key → Key → Bool) where
  -- `(entry->key != NULL) && (!map->compare(entry->key, key))`
  abbrev pub holds : Key → Option Key → Bool
  holds key none = false
  holds key (some k) = same k key

  -- The entry that `hashmap_put` leaves where it returns, and whether it counts a new use.
  abbrev pub put_visit : Key → ℕ → Entry → Option (Entry × Bool)
  put_visit key value e =
      if holds key e.key
      then some (record e { value = value; isdel = false }, false)
      else if is_null e.key
      then some (record { key = some key; value = value; isdel = false }, true)
      else none

  -- What `hashmap_get` returns at an entry; NULL is `none`.
  abbrev pub get_visit : Key → Entry → Option (Option ℕ)
  get_visit key e =
      if is_null e.key && not e.isdel
      then some none
      else if holds key e.key
      then some (some e.value)
      else none

  -- What `hashmap_delete` returns at an entry, with the entry that it leaves there.
  abbrev pub delete_visit : Key → Entry → Option (Entry × Option ℕ)
  delete_visit key e =
      if is_null e.key && e.isdel
      then some (e, none)
      else if holds key e.key
      then some (record e { key = none; isdel = true }, some e.value)
      else none

  -- the loop of `hashmap_put`, after the resize
  unfoldable pub put_slot : ℕ → Hashmap → Key → ℕ → Ends Hashmap
  put_slot fuel map key value = do
    let hash = string_hash key
    (slot, (e, fresh)) ← probe (put_visit key value) fuel map.entrys map.size hash hash
    ends (record map {
      entrys = set map.entrys slot e;
      use_count = if fresh then wrap 64 (map.use_count + 1) else map.use_count;
    })

  -- `hashmap_get`
  unfoldable pub get : ℕ → Option Hashmap → Option Key → Ends (Option ℕ)
  get fuel none key = ends none
  get fuel (some map) none = ends none
  get fuel (some map) (some key) = do
    let hash = string_hash key
    (slot, value) ← probe (get_visit key) fuel map.entrys map.size hash hash
    ends value

  -- `hashmap_delete`, with the map after the call
  unfoldable pub delete : ℕ → Option Hashmap → Option Key → Ends (Option ℕ × Option Hashmap)
  delete fuel none key = ends (none, none)
  delete fuel (some map) none = ends (none, some map)
  delete fuel (some map) (some key) = do
    let hash = string_hash key
    (slot, (e, value)) ← probe (delete_visit key) fuel map.entrys map.size hash hash
    ends (value, some (record map { entrys = set map.entrys slot e }))

  module _ (m : Malloc) (fuel : ℕ) where
    -- The loop of `_hashmap_resize`, with the calls that are left of it; `put_new` is `hashmap_put`.
    unfoldable pub rehash :
        (Hashmap → Key → ℕ → Ends Hashmap) → ℕ → ℕ → List Entry → ℕ → Hashmap → Ends (ℕ × Hashmap)
    rehash put_new zero i entrys olduse newmap = ends (olduse, newmap)
    rehash put_new (suc rounds) i entrys zero newmap = ends (zero, newmap)
    rehash put_new (suc rounds) i entrys (suc olduse) newmap = elim (read entrys i) [
      | fault ↦ faults
      | ok e ↦ elim (e.key) [
        | none ↦ rehash put_new rounds (i + 1) entrys (suc olduse) newmap
        | some key ↦
            put_new newmap key e.value
            >>= (λ grown. rehash put_new rounds (i + 1) entrys olduse grown)
      ]
    ]

    -- `_hashmap_resize`: the new table replaces the old one only if `olduse` has reached 0.
    unfoldable pub resize : (Hashmap → Key → ℕ → Ends Hashmap) → Hashmap → Ends Hashmap
    resize put_new map = elim (new m (shl 64 map.size 1)) [
      | none ↦ ends map
      | some newmap ↦ do
        (olduse, filled) ← rehash put_new map.size 0 map.entrys map.use_count newmap
        ends (
            if olduse == 0
            then record map { entrys = filled.entrys; size = shl 64 map.size 1 }
            else map)
    ]

    -- `map->use * 3 >= map->size * 2`
    abbrev pub is_crowded : Hashmap → Bool
    is_crowded map = leb (wrap 64 (map.size * 2)) (wrap 64 (map.use_count * 3))

    -- `hashmap_put` of a key that is not NULL, with the depth of the calls that resize
    unfoldable pub put_key : ℕ → Hashmap → Key → ℕ → Ends Hashmap
    put_key zero map key value = out_of_fuel
    put_key (suc depth) map key value =
        let resized = resize (put_key depth) map in
        if is_crowded map
        then resized >>= (λ roomy. put_slot fuel roomy key value)
        else put_slot fuel map key value

    -- `hashmap_put`: the result and the map after the call
    unfoldable pub put : ℕ → Option Hashmap → Option Key → ℕ → Ends (ℕ × Option Hashmap)
    put depth none key value = ends (0, none)
    put depth (some map) none value = ends (0, some map)
    put depth (some map) (some key) value =
        put_key depth map key value >>= (λ after. ends (1, some after))
