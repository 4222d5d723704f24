-- ===== src/Linklist/Heap.antt =====
-- The memory of linklist/linklist.c: nodes at addresses, and commands that read and write them.
use libakio.Prelude.{ℕ, Option, none, some, List, ◌∷◌, ◌==◌, if◌then◌else◌, Run, ok, fault}

abbrev pub Ptr : Type 0
Ptr = ℕ

abbrev pub null : Ptr
null = 0

-- `struct list_node`; a `void *` value is its address
pub record Node : Type 0 where
  pub prev : Ptr
  pub next : Ptr
  pub value : ℕ

abbrev pub node : Ptr → Ptr → ℕ → Node
node p q v = record { prev = p; next = q; value = v }

abbrev pub Cells : Type 0
Cells = Ptr → Option Node

-- The nodes, and the values that `free_func` was called with, the latest first.
pub record Memory : Type 0 where
  pub cells : Cells
  pub released : List ℕ

unfoldable pub update : Cells → Ptr → Option Node → Cells
update h p c a = if a == p then c else h a

abbrev pub Cmd : Type 0 → Type 0
Cmd A = Memory → Run (A × Memory)

abbrev pub pure : {A : Type 0} → A → Cmd A
pure a m = ok (a, m)

module _ {A B : Type 0} where
  abbrev pub and_then : Run (A × Memory) → (A → Cmd B) → Run (B × Memory)
  and_then fault f = fault
  and_then (ok (a, m)) f = f a m

  infixl 5 ◌>>=◌ ◌>>◌
  abbrev pub ◌>>=◌ : Cmd A → (A → Cmd B) → Cmd B
  c >>= f = λ m. and_then (c m) f

  abbrev pub ◌>>◌ : Cmd A → Cmd B → Cmd B
  c >> d = c >>= λ _. d

-- `*p`, a fault at NULL and where no node is
unfoldable pub load : Ptr → Cmd Node
load p m = if p == null then fault else elim (m.cells p) [ none ↦ fault | some n ↦ ok (n, m) ]

-- what a `malloc` and the assignments of all its fields, or a `free`, leave at `p`
unfoldable pub store : Ptr → Option Node → Cmd (Unit {0})
store p c m = ok (tt, record m { cells = update m.cells p c })

-- `p->next = q`
unfoldable pub set_next : Ptr → Ptr → Cmd (Unit {0})
set_next p q = do n ← load p; store p (some (record n { next = q }))

-- `p->prev = q`
unfoldable pub set_prev : Ptr → Ptr → Cmd (Unit {0})
set_prev p q = do n ← load p; store p (some (record n { prev = q }))

unfoldable pub free : Ptr → Cmd (Unit {0})
free p = load p >> store p none

-- the call of `free_func`
unfoldable pub release : ℕ → Cmd (Unit {0})
release v m = ok (tt, record m { released = v ∷ m.released })
