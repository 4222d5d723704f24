-- ===== src/Buffer/Tests.antt =====
-- Runs of the model of kznet/buffer.c, and its theorems at concrete chains and pools.
use libakio.Prelude.{
  ℕ, ℤ, ◌+◌, ◌≤◌, ◌≡◌, refl, arith, Option, none, some, List, [], ◌∷◌, ◌++◌, length, replicate,
  length-replicate, ltb, ◌==◌, if◌then◌else◌, ok, fault, wrap,
}
use libakio.Buffer.{Store, delete, put, get}
use libakio.Buffer.Memory.{Ptr, null, Buffer, Cells}
use libakio.Buffer.Chain.{Chain, Input, Output, got, read_interrupted, took, no_output, send, recv}
use libakio.Buffer.Bytes.{IsBuffer}
use libakio.Buffer.Segment.{Item, count, cell, IsAt}
use libakio.Buffer.Spare.{IsPool, IsEmpty}
use libakio.Buffer.Put.{IsPut, put-IsPut}
use libakio.Buffer.Peek.{get-IsPool}
use libakio.Buffer.State.{IsChain, chain_bytes}
use libakio.Buffer.Send.{send-IsSent}
use libakio.Buffer.Recv.{recv-IsChain}
use libakio.Buffer.Relay.{relay, relay-bytes, recv-fault}
use libakio.Buffer.Delete.{delete-all}

-- a buffer with three bytes to read, one that is full, and an empty one
abbrev three : Buffer
three = record { read_at = 40; last = 43; start = 40; end = 4096; bytes = replicate 4096 7 }

abbrev full : Buffer
full = record { read_at = 50; last = 4096; start = 40; end = 4096; bytes = replicate 4096 8 }

abbrev empty : Buffer
empty = record { read_at = 40; last = 40; start = 40; end = 4096; bytes = replicate 4096 0 }

block_size : (c : ℕ) → length (replicate 4096 c) ≡ 4096
block_size c = length-replicate 4096 c

three-IsBuffer : IsBuffer three
three-IsBuffer = record {
  start_at = refl;
  end_at = refl;
  full = block_size 7;
  read_from = omega arith;
  in_order = omega arith;
  fits = omega arith;
}

full-IsBuffer : IsBuffer full
full-IsBuffer = record {
  start_at = refl;
  end_at = refl;
  full = block_size 8;
  read_from = omega arith;
  in_order = omega arith;
  fits = omega arith;
}

empty-IsEmpty : IsEmpty empty
empty-IsEmpty = (
  record {
    start_at = refl;
    end_at = refl;
    full = block_size 0;
    read_from = omega arith;
    in_order = omega arith;
    fits = omega arith;
  },
  refl,
  refl,
)

abbrev front : List Item
front = record { addr = 1; buffer = full } ∷ []

abbrev w : Item
w = record { addr = 2; buffer = three }

abbrev spare : List Item
spare = record { addr = 3; buffer = empty } ∷ []

abbrev cells : Cells
cells p =
    if p == 1
    then cell full 2
    else if p == 2
    then cell three 0
    else if p == 3
    then cell empty 0
    else none

abbrev store : Store
store = record {
  cells = cells;
  blocks = (4, replicate 4096 9) ∷ [];
  pool = record { maxsize = 32; allocs = 3; size = 1; head = 3; tail = some 3 };
}

abbrev chain : Chain
chain = record { rbuf = 1; wbuf = 2; sent = 0; recv = 0 }

spare-IsPool : IsPool store spare
spare-IsPool = record {
  segment = (((λ e. omega (arith, e)), refl), tt);
  head = refl;
  tail = refl;
  size = refl;
  empty = (empty-IsEmpty, tt);
  once = λ a. ground arith;
  blocks = (((λ e. omega (arith, e)), refl, block_size 9, refl), tt);
}

chain-IsChain : IsChain store chain front w spare
chain-IsChain = record {
  segment = (((λ e. omega (arith, e)), refl), tt);
  at_end = ((λ e. omega (arith, e)), refl);
  read_first = refl;
  write_last = refl;
  buffers = (full-IsBuffer, tt);
  buffer = three-IsBuffer;
  pool = spare-IsPool;
  once = λ a. ground arith;
}

abbrev inputs : List Input
inputs = read_interrupted ∷ got (1 ∷ 2 ∷ []) ∷ []

abbrev outputs : List Output
outputs = took 5000 ∷ no_output ∷ []

send-IsSent_example :
    (result : Option ℤ) × (gone : List ℕ) × (s' : Store) × (chain' : Chain) × (front' : List Item)
    × (w' : Item) × (ys' : List Item) × (send 2 outputs store chain ≡ ok (result, gone, s', chain'))
    × IsChain s' chain' front' w' ys'
    × (chain_bytes front w ≡ gone ++ chain_bytes front' w')
    × (chain'.sent ≡ wrap 64 (length gone))
send-IsSent_example = send-IsSent 2 outputs store chain front w spare chain-IsChain (omega arith)

recv-IsChain_example :
    (result : Option ℤ) × (taken : List ℕ) × (s' : Store) × (chain' : Chain) × (front' : List Item)
    × (w' : Item) × (ys' : List Item) × (recv inputs store chain ≡ ok (result, taken, s', chain'))
    × IsChain s' chain' front' w' ys'
    × (chain_bytes front' w' ≡ chain_bytes front w ++ taken)
    × (chain'.recv ≡ wrap 64 (length taken))
    × (length front' ≤ 3)
recv-IsChain_example = recv-IsChain inputs store chain front w spare chain-IsChain (omega arith)

relay-bytes_example :
    (taken gone : List ℕ) × (s' : Store) × (chain' : Chain) × (front' : List Item) × (w' : Item)
    × (ys' : List Item) × (relay inputs outputs 4 store chain ≡ ok (taken, gone, s', chain'))
    × IsChain s' chain' front' w' ys'
    × (chain_bytes front w ++ taken ≡ gone ++ chain_bytes front' w')
relay-bytes_example =
    relay-bytes inputs outputs 4 store chain front w spare chain-IsChain (omega arith) (omega arith)

-- the same chain with an empty pool, and a malloc that fails
abbrev bare : Store
bare = record {
  cells = cells;
  blocks = [];
  pool = record { maxsize = 32; allocs = 3; size = 0; head = 0; tail = none };
}

bare-IsChain : IsChain bare chain front w []
bare-IsChain = record {
  segment = (((λ e. omega (arith, e)), refl), tt);
  at_end = ((λ e. omega (arith, e)), refl);
  read_first = refl;
  write_last = refl;
  buffers = (full-IsBuffer, tt);
  buffer = three-IsBuffer;
  pool = record {
    segment = tt;
    head = refl;
    tail = refl;
    size = refl;
    empty = tt;
    once = λ a. omega arith;
    blocks = tt;
  };
  once = λ a. ground arith;
}

recv-fault_example : recv (got (1 ∷ []) ∷ []) bare chain ≡ fault
recv-fault_example = recv-fault (got (1 ∷ [])) [] bare chain front w bare-IsChain refl

put-IsPut_example :
    (s' : Store) × (ys' : List Item) × (put store 2 ≡ ok s')
    × (ys' ≡ spare ++ record { addr = 2; buffer = record three { last = 40 } } ∷ [])
    × IsPut store 2 spare s' ys'
put-IsPut_example =
    put-IsPut store 2 three 0 ((λ e. omega (arith, e)), refl) three-IsBuffer spare spare-IsPool refl

get-IsPool_example :
    (t : Item) × (ys' : List Item) × (s' : Store) × (get store ≡ ok (t.addr, s'))
    × IsPool s' ys'
    × IsAt s'.cells t.addr t.buffer null
    × IsEmpty t.buffer
    × (count t.addr ys' ≡ 0)
    × (length ys' + length s'.blocks + 1 ≡ 2)
get-IsPool_example = get-IsPool store spare spare-IsPool (omega arith)

delete-all_example :
    (cells' : Cells) × (delete 2 store ≡ ok cells')
    × ((a : Ptr) → cells' a ≡ (if ltb 0 (count a spare) then none else cells a))
delete-all_example = delete-all 2 store spare spare-IsPool (omega arith)
