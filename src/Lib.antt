-- ===== src/Lib.antt =====
-- A verification library for libakio, a C library of small data structures.
--
-- Parts, and where they are modelled:
--
-- * bitset/bitset.c, in Bitset: an array of bits in a block of bytes. `Bitset.get`, `set`, `new`,
--   `set_all`, `clear_all`, `count` and `get_length` are bitset_get, bitset_set, bitset_new,
--   bitset_setall, bitset_clearall, bitset_count and bitset_length. Children: Byte (facts about one
--   byte), Valid (invariant and bit view), Access, Fill, Count (properties), Tests.
-- * bloomfilter/bloomfilter.c, in Bloomfilter: probes into a bitset through the operations of
--   Bitset. Hash has murmurhash2 and _bloom_hash; `new`, `add` and `check` are bloomfilter_new,
--   bloomfilter_add and bloomfilter_check. Children: Probes (the two loops), Keys (the filter
--   against the list of its keys), Tests.
-- * linklist/linklist.c, in Linklist: a doubly linked list over an explicit memory of nodes (Heap).
--   Every function of linklist.c has its name there without the prefix. Children: Segment (chains
--   of nodes), Splice (the two changes of a chain), Commands (pointer writes), Valid (invariant),
--   Insert, Delete, Move, Free (properties), Tests.
-- * hashmap/hashmap.c, in Hashmap: open addressing. `new`, `put`, `get`, `delete`, `resize` and
--   `string_hash` have the names of their functions; `probe` is the loop that put, get and delete
--   share, and what each does at an entry is a `visit`. Children: ForEach (hashmap_map), Cycle (the
--   walk x -> 5 x + 1), Path (the mask), Reach (the loop comes to every slot), Bound (the hash),
--   Trace (loops that ended), Placed (where the keys stand), Emptied (the table after a deletion),
--   Lookup, Put, Delete, New (properties), Tests.
-- * kznet/timer.c, in Timer: a binary heap of timers in an array, the list of free timers, and in
--   Expire the times and process_time_events. Memory has the data. Children: Climb (the array of
--   _shift_up by itself), Moves (_shift_up against it), Sink, Lower (the same for _shift_down),
--   Settle, Push, Delete, Shortest (properties), Tests.
-- * kznet/event.c, in Event: the table of events and one round of the loop, over the record
--   `PollerOps` of the functions of kznet/poller.c (Poller), which Select and Epoll fill. Children:
--   Bound (maxfd), Register, Unregister (properties), Create (event_loop_create), Tests. Event uses
--   Timer for the timers. Descriptors are natural numbers: a negative one is outside the model.
-- * skiplist/skiplist.c, in Skiplist: a sorted list with towers of pointers over an explicit memory
--   of nodes (Memory). `new`, `free`, `search`, `insert`, `delete` and `get_length` are
--   skiplist_new, skiplist_free, skiplist_search, skiplist_insert, skiplist_delete and
--   skiplist_length; `random_level` is _random_level. `descend` and `seek` are the loops that look
--   for a key, with and without the array `update`. Children: Views (what an address holds), Items
--   (the list of nodes), Order (keys in order), Stops, Walk (those loops), Splice, Links, Unlink
--   (the loops that link and unlink), Valid (invariant), Revise (the list with one node more),
--   Level, Locate, Fresh, Insert (a new node), Revalue (a new value), Store, Lower, Detach, Delete,
--   Search, Make, Free, Refused (properties), History (the reachable lists against a map), Tests.
-- * kznet/buffer.c, in Buffer: the pool of buffers (`create`, `delete`, `peek`, `detach`, `get`,
--   `put` for the functions buffer_pool_... and buffer_detach), and in Buffer/Chain the chain
--   (`shrink`, `recv` and `send` for shrink_chain, buffer_chain_recv and buffer_chain_send).
--   Children: Memory (buffers at addresses), Bytes (the bytes between the markers), Segment (lists
--   of buffers), Spare (invariant of the pool), Put, Peek, Delete (the pool), State (invariant of
--   the chain), Skip, Shrink, Gather, Advance, Send, Fill, Extend, Receive, Recv, Relay (the
--   chain), Tests.
--
-- Conventions. A pointer that may be NULL is an `Option`, or the address 0 in Linklist, Timer,
-- Skiplist and Buffer. A function that changes an object returns the new one. An access outside a
-- block, through NULL or to no node, and a division by zero, are the value `fault` of `Run`.
-- Results of malloc are arguments. Unsigned words are natural numbers with their wrap written out
-- (`wrap 64` for `unsigned long`, `wrap 32` for `uint32_t` and `int` patterns, `wrap 8` for
-- `unsigned char`). Loops with a bound in the code are structural recursions on the rounds that are
-- left. The probing loop of Hashmap takes fuel: 13 rounds use up a 64-bit perturbation and as many
-- rounds as the table has entries come to every slot, so 13 + size is enough. hashmap_put calls
-- itself through the resize, to a depth that is an argument. _shift_up and _shift_down of Timer
-- take one round more than the index and than the number of timers; process_time_events, which
-- callbacks may keep busy for ever, takes fuel. The walks of Skiplist take fuel at each level, and
-- more than the number of nodes is enough; so is more than the number of buffers for shrink_chain
-- and buffer_pool_delete of Buffer.
--
-- Parameters stand for what is not in the repository: malloc and realloc, the compare function, the
-- draws of random, the clock, callbacks, select, epoll_ctl, epoll_wait, readv and writev. readv and
-- writev take as many bytes as there is room for or as they are given, at most.
--
-- Not modelled: the functions that only give memory back (bitset_free, bloomfilter_free,
-- hashmap_free, event_loop_delete, poller_delete); the floats of bloomfilter_new, which are a
-- record of functions (`Floats`); the endless loop of event_loop_start; the sockets; the demos and
-- tests.
pub mod Prelude
pub mod Bitset
pub mod Bloomfilter
pub mod Linklist
pub mod Hashmap
pub mod Timer
pub mod Event
pub mod Buffer
pub mod Skiplist
