-- ===== src/Buffer/Segment.antt =====
-- Lists of buffers in the memory of kznet/buffer.c.
use libakio.Prelude.{
  ℕ, suc, ◌+◌, ◌<◌, ◌≤◌, ◌≡◌, ◌≢◌, inl, inr, refl, sym, ap, ◌∙◌, arith, true, Option, none, some,
  List, [], ◌∷◌, ◌++◌, ◌==◌, ne→==-false, Bool-cases, if◌then◌else◌, ok,
}
use libakio.Buffer.Memory.{Ptr, null, Buffer, Cell, Cells, update, load, set_next, set_buffer}
use libakio.Buffer.Bytes.{content, append_assoc}

pub record Item : Type 0 where
  pub addr : Ptr
  pub buffer : Buffer

-- the address of the first buffer, or what comes behind the list
abbrev pub first : List Item → Ptr → Ptr
first [] q = q
first (x ∷ xs) q = x.addr

abbrev pub last_addr : Item → List Item → Ptr
last_addr x [] = x.addr
last_addr x (y ∷ ys) = last_addr y ys

abbrev pub tail_of : List Item → Option Ptr
tail_of [] = none
tail_of (x ∷ xs) = some (last_addr x xs)

abbrev pub count : Ptr → List Item → ℕ
count a [] = 0
count a (x ∷ xs) = if a == x.addr then suc (count a xs) else count a xs

abbrev pub cell : Buffer → Ptr → Option Cell
cell b q = some (record { buffer = b; next = q })

abbrev pub IsAt : Cells → Ptr → Buffer → Ptr → Type 0
IsAt cells p b q = (p ≢ null) × (cells p ≡ cell b q)

-- The memory holds the buffers, each linked to the next one and the last one to `q`.
abbrev pub Segment : Cells → List Item → Ptr → Type 0
Segment cells [] q = Unit {0}
Segment cells (x ∷ xs) q = IsAt cells x.addr x.buffer (first xs q) × Segment cells xs q

-- the bytes that can be read from the buffers
abbrev pub bytes_of : List Item → List ℕ
bytes_of [] = []
bytes_of (x ∷ xs) = content x.buffer ++ bytes_of xs

pub bytes_of-append : (xs ys : List Item) → bytes_of (xs ++ ys) ≡ bytes_of xs ++ bytes_of ys
bytes_of-append [] ys = refl
bytes_of-append (x ∷ xs) ys =
    ap (◌++◌ (content x.buffer)) (bytes_of-append xs ys)
    ∙ sym (append_assoc (content x.buffer) (bytes_of xs) (bytes_of ys))

pub count-append : (a : Ptr) (xs ys : List Item) → count a (xs ++ ys) ≡ count a xs + count a ys
count-append a [] ys = omega arith
count-append a (x ∷ xs) ys = elim (Bool-cases (a == x.addr)) [
  | inl e ↦ rw e (omega (arith, count-append a xs ys))
  | inr e ↦ rw e (count-append a xs ys)
]

pub count_self : (x : Item) (xs : List Item) → 0 < count x.addr (x ∷ xs)
count_self x xs = let hit : (x.addr == x.addr) ≡ true = ground arith in rw hit (omega arith)

pub count_last : (x : Item) (xs : List Item) → 0 < count (last_addr x xs) (x ∷ xs)
count_last x [] = count_self x []
count_last x (y ∷ ys) = elim (Bool-cases (last_addr y ys == x.addr)) [
  | inl e ↦ rw e (omega arith)
  | inr e ↦ rw e (count_last y ys)
]

pub count_rest : (a : Ptr) (x : Item) (xs : List Item) → count a xs ≤ count a (x ∷ xs)
count_rest a x xs = elim (Bool-cases (a == x.addr)) [
  | inl e ↦ rw e (omega arith)
  | inr e ↦ rw e (omega arith)
]

pub Segment-kept :
    (cells cells' : Cells) (xs : List Item) (q : Ptr)
    → ((a : Ptr) → 0 < count a xs → cells' a ≡ cells a)
    → Segment cells xs q
    → Segment cells' xs q
Segment-kept cells cells' [] q same seg = tt
Segment-kept cells cells' (x ∷ xs) q same ((valid, here), seg) = (
  (valid, same x.addr (count_self x xs) ∙ here),
  Segment-kept cells cells' xs q (λ a pos. same a (omega (arith, count_rest a x xs))) seg,
)

pub first-append : (xs ys : List Item) (q : Ptr) → first (xs ++ ys) q ≡ first xs (first ys q)
first-append [] ys q = refl
first-append (x ∷ xs) ys q = refl

pub Segment-append :
    (cells : Cells) (xs ys : List Item) (q : Ptr)
    → Segment cells xs (first ys q)
    → Segment cells ys q
    → Segment cells (xs ++ ys) q
Segment-append cells [] ys q left right = right
Segment-append cells (x ∷ xs) ys q ((valid, here), left) right = (
  (valid, here ∙ ap (λ (p : Ptr). cell x.buffer p) (sym (first-append xs ys q))),
  Segment-append cells xs ys q left right,
)

-- The memory with another buffer behind the last one of a list.
pub Segment-relinked :
    (cells cells' : Cells) (x : Item) (xs : List Item) (q q' : Ptr)
    → ((a : Ptr) → count a (x ∷ xs) ≤ 1)
    → ((a : Ptr) → 0 < count a (x ∷ xs) → a ≢ last_addr x xs → cells' a ≡ cells a)
    → ((b : Buffer) → cells (last_addr x xs) ≡ cell b q → cells' (last_addr x xs) ≡ cell b q')
    → Segment cells (x ∷ xs) q
    → Segment cells' (x ∷ xs) q'
Segment-relinked cells cells' x [] q q' once same change ((valid, here), seg) =
    ((valid, change x.buffer here), tt)
Segment-relinked cells cells' x (y ∷ ys) q q' once same change ((valid, here), seg) =
    let hit : (x.addr == x.addr) ≡ true = ground arith in
    let apart : x.addr ≢ last_addr y ys = λ e.
      let c : count x.addr (x ∷ y ∷ ys) ≡ suc (count x.addr (y ∷ ys)) = rw hit refl in
      let d : count (last_addr y ys) (y ∷ ys) ≡ count x.addr (y ∷ ys) =
        ap (λ (a : Ptr). count a (y ∷ ys)) (sym e) in
      omega (arith, once x.addr, c, d, count_last y ys) in
    (
      (valid, same x.addr (count_self x (y ∷ ys)) apart ∙ here),
      Segment-relinked cells cells' y ys q q' (λ a. omega (arith, once a, count_rest a x (y ∷ ys)))
          (λ a pos ne. same a (omega (arith, count_rest a x (y ∷ ys))) ne) change seg,
    )

-- Reads and writes of a buffer that is there.
pub load-run :
    (cells : Cells) (p : Ptr) (b : Buffer) (q : Ptr)
    → IsAt cells p b q
    → load cells p ≡ ok (record { buffer = b; next = q })
unfolding load
load-run cells p b q (valid, here) = rw (ne→==-false p null valid, here) refl

pub set_next-run :
    (cells : Cells) (p : Ptr) (b : Buffer) (q q' : Ptr)
    → IsAt cells p b q
    → set_next cells p q' ≡ ok (update cells p (cell b q'))
unfolding set_next
set_next-run cells p b q q' at = rw (load-run cells p b q at) refl

pub set_buffer-run :
    (cells : Cells) (p : Ptr) (b b' : Buffer) (q : Ptr)
    → IsAt cells p b q
    → set_buffer cells p b' ≡ ok (update cells p (cell b' q))
unfolding set_buffer
set_buffer-run cells p b b' q at = rw (load-run cells p b q at) refl

pub update_self : (cells : Cells) (p : Ptr) (c : Option Cell) → update cells p c p ≡ c
unfolding update
update_self cells p c = let hit : (p == p) ≡ true = ground arith in rw hit refl

pub update_other :
    (cells : Cells) (p : Ptr) (c : Option Cell) (a : Ptr) → a ≢ p → update cells p c a ≡ cells a
unfolding update
update_other cells p c a ne = rw (ne→==-false a p ne) refl
