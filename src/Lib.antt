-- ===== src/Lib.antt =====
-- libqb, a library for clients and servers: its ring buffer, its timers, its main loop, its
-- growing array, its handles, its maps and its string functions.
--
-- The parts. A ring buffer in shared memory carries messages from one writer to one reader, and a
-- notifier, by default a semaphore, counts them. The main loop polls its sources (jobs, timers,
-- descriptors), which put items on the lists of three priorities, and dispatches them. The timers
-- are a heap that the loop's timer source expires. The array, whose elements never move, holds the
-- poll entries, the timers and the handles of other parts. A handle names a reference-counted
-- instance.
--
-- Which file models what:
--   Ring and its children: lib/ringbuffer.c, and the structures of lib/ringbuffer_int.h. The state
--     is RingBuffer, that is `struct qb_ringbuffer_s` with the shared header and data it points
--     to; each operation has the name of its C function without qb_rb_. Ring/Memory is the data
--     segment, bytes mapped twice in a row; Ring/Layout says how a ring holds a list of chunks;
--     Ring/Dump is qb_rb_write_to_file and qb_rb_create_from_file; Ring/Queue and Ring/Overwrite
--     are the contracts of a ring, as a bounded queue and as one that drops its oldest chunks.
--   Timers and its children: include/tlist.h. The state is TimerList, `struct timerlist` with the
--     timers and handles it points to; each operation has the name of its C function without
--     timerlist_ or timerlist_heap_. One child for each direction of the sift, for adding,
--     deleting and expiring, and Timers/Check for the validity check and the time to sleep.
--   Loop and its children: lib/loop.c, lib/loop_job.c, and the structures of lib/loop_int.h. The
--     state is Loop; `turn` is one turn of qb_loop_run. What a dispatched function or a polled
--     source does is a list of calls of the loop's interface (Call). Loop/Steady is what such calls
--     keep, and Loop/Todo, Loop/Order and Loop/Liveness are about the turns.
--   Array and its children: lib/array.c. The state is Array, over any type of elements with a zero.
--   Handles and its children: lib/hdb.c, on the model of the array. The state is Hdb, that is
--     `struct qb_hdb` with the instances freed so far; each operation has the name of its C
--     function without qb_hdb_. Handles/Creation and Handles/Iterator are the two larger ones.
--   Map and its children: lib/map.c, and the structures of lib/map_int.h. An implementation fills
--     Ops; Map/Interface says what it promises, Map/Entries is the map of entries it is measured
--     by, and Map/Run what clients observe.
--   HashTable and its children: lib/hashtable.c, as an implementation of that interface. The state
--     is Table; a node is named by its key, and each operation has the name of its C function, with
--     table_ for hashtable_ where the name alone would be too short. The notifiers, the iterator
--     and the creation of a table are children; HashTable/Remaining is what an iterator has before
--     it.
--   SkipList and its children: lib/skiplist.c, as another implementation of the map interface. The
--     state is SkipList, with the nodes and their arrays of pointers in memory; Putting, Removing,
--     Iterating, Notifiers and Creation have the operations. Items is the list that the pointers
--     stand for, Shape the invariant; Walking and Searching are about the search, Linking to Put
--     about skiplist_put, and Splicing to Rm about skiplist_rm.
--   LoopTimers and its children: lib/loop_timerlist.c, which composes the array, the timers and the
--     levels of the loop. The state is TimerSource. LoopTimers/Sleep has the time that the loop may
--     sleep and the one that a timer has left, and the creation of the source.
--   Strings and its child: lib/strlcpy.c, lib/strlcat.c and lib/strchrnul.c, on buffers that are
--     memory from a pointer on.
--   Prelude: the shared tests on numbers, lists, updates of memory and return values.
--
-- Conventions. Numbers are natural numbers, with the wrap-around of `uint32_t`, `size_t` and
-- `uint64_t` written out where it can occur; an `int32_t` that can be negative is kept as
-- its 32 bits. A result that is a count or a negated errno is a Ret. Pointers are numbers or
-- Option. `none` for a whole call is a failed assertion or a NULL pointer that is followed. Malloc,
-- calloc and realloc are arguments that say what they return. A skip list keeps a level as one more
-- than the `int8_t`.
--
-- Bounds and fuel. The loop of qb_rb_chunk_alloc has fuel word_size + 1, since each chunk that is
-- reclaimed frees at least two words; the loops of the heap have the depth of the position, or the
-- size and one more; qb_loop_run_level takes to_process items at most, and that is its fuel.
-- The shift of qb_hashtable_create has fuel of its own, and 32 steps are enough for any size below
-- 2^31; qb_map_foreach takes one step more than there are entries. The other loops go through a
-- list, or through the numbers up to a count that the source has, and want no fuel. The walks of a
-- skip list have as much fuel as nodes were ever made, and the list is shorter than that; the loop
-- that generates a level goes through the numbers that random gives.
--
-- Not modelled: closing and chown of rings, the operating system's mmap, files and semaphores
-- (a ring's notifier and a file's write are parameters), the mutexes and the memory order of the
-- atomics, the first run of a handle database, the default loop and the freeing of loops, and the
-- other parts of the library: tries, IPC, logs, descriptors, and what only calls the operating
-- system.
pub mod Array
pub mod Handles
pub mod HashTable
pub mod Loop
pub mod LoopTimers
pub mod Map
pub mod Prelude
pub mod Ring
pub mod SkipList
pub mod Strings
pub mod Timers
