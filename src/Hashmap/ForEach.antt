-- ===== src/Hashmap/ForEach.antt =====
-- hashmap_map of hashmap/hashmap.c: the callback on every entry that holds a key.
use libakio.Prelude.{
  ℕ, zero, suc, ◌+◌, Option, none, some, List, Run, ok, Bool, true, false, if◌then◌else◌, ◌>>=◌,
  read, set,
}
use libakio.Hashmap.{Key, Entry, Hashmap}

module _ {W : Type 0} (func : Key → ℕ → W → ℕ × W) where
  -- One entry: the callback gets the key, the value and what it is called on, and leaves a new
  -- value and a new state. The last component is whether it was called.
  abbrev pub apply : Entry → Option Key → W → Entry × W × Bool
  apply e none other = (e, other, false)
  apply e (some key) other =
      let (value, after) = func key e.value other in (record e { value = value }, after, true)

  -- the loop of `hashmap_map`; `left` is its counter of uses
  unfoldable pub map_loop : ℕ → ℕ → ℕ → List Entry → W → Run (List Entry × W)
  map_loop zero i left entrys other = ok (entrys, other)
  map_loop (suc rounds) i zero entrys other = ok (entrys, other)
  map_loop (suc rounds) i (suc left) entrys other = do
    e ← read entrys i
    let (e', other', called) = apply e e.key other
    map_loop rounds (i + 1) (if called then left else suc left) (set entrys i e') other'

-- `hashmap_map`
unfoldable pub for_each :
    {W : Type 0} → Option (Key → ℕ → W → ℕ × W) → Option Hashmap → W → Run (ℕ × Option Hashmap × W)
for_each func none other = ok (0, none, other)
for_each none (some map) other = ok (0, some map, other)
for_each (some func) (some map) other = do
  (entrys, other') ← map_loop func map.size 0 map.use_count map.entrys other
  ok (1, some (record map { entrys = entrys }), other')
