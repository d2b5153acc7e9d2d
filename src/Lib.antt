-- ===== src/Lib.antt =====
-- geostreamd, the HTTP daemon of the repository, which serves image files over a pool of clients, in
-- src/gvar/geostreamd, the decoder of GVAR blocks in src/libgvar, the fifo of the later stream
-- server in src/geostreamd, and the skip lists and the tree of regions in
-- src/dct/skip_list.
--
-- Parts and files:
--   RwLock    rwlock.c, rwlock.h: each function is one atomic step, since it runs under the lock's
--             mutex; a wait is `none`. RwLock/System lets any number of threads interleave, with
--             signals and spurious wakeups.
--   Ll        ll.c: doubly linked lists. An item is an address, its fields are two functions of the
--             address, and an operation takes and gives back the list's writer lock. Ll/Chain says
--             when a memory holds a list.
--   Buffer    buffer.c: the byte buffer, its pointers as offsets. What `read`, `write`, `malloc`
--             and `vsnprintf` return is an argument.
--   Request   request.c: request_scan (Scan, with what it accepts in Grammar), header_list_next and
--             the Connection header (HeaderList), and request_parse (Parse). The answer of the uri
--             library to a URI is an argument.
--   Server    server.c: the pool of free and busy clients over two lists, and whether the listening
--             event is pending. It uses Ll through its theorems on lists. server_free_client is its
--             test of the free list and its rest (free_known), between which Server/Runs lets other
--             steps come, as in a style of THREADS; each rest, and each run of
--             event_server_new_clients with the calls in it, is one step, and a client is freed only
--             while it is busy. The style EVENTS keeps to all of that with its one thread;
--             Tests/Pool has a run of the style THREADS that goes wrong.
--   Client    client.c: the texts of the answers (Reason), the choice of the answer (Serve), the
--             transfer of a file (Send), client_request (Read, Whole), client_prepare_headers
--             (Headers, with its two formats as vsnprintf expands them) and the handlers of both
--             styles (Handlers, Continues, Thread). It uses Buffer and Request.
--   Cache     cache.c: the free and the busy files over two lists, and cache_file_get with its
--             eviction loop. It uses Ll through its theorems on lists; the free list is a weaker
--             queue (Queue), since an evicted file is linked twice. Lists, Busy, Files and Fresh
--             say what each operation makes of the two lists, Evict, Find, Load, Fetch and Failures
--             what each part of cache_file_get does, Invariant and Sound that all of it keeps them.
--   Gvar      libgvar: unpack10.cpp (Unpack), the time tags of cdaTime.cpp (Time), Header.cpp and
--             Block.cpp (Header), LineDoc.cpp and the loop of Block1or2.cpp (LineDoc, Lines), and
--             its whole constructor (Block). It stands alone: the daemon serves the files and does
--             not look into them.
--   Fifo      geostreamd/fifo.h: the ring with one writer, and readers with a semaphore each (Ring,
--             Readers); System lets them work in any order, Steps and Reads show that each step
--             keeps the readers in order, and Order what a reader gets. A
--             write is its part under the mutex and a post for each reader; a read is its wait for
--             the semaphore and its look at the slot, which takes no lock, so a write may come
--             between. Order is about the runs without such a write to that very slot, and
--             Tests/Fifos has one with it.
--   SkipList  src/dct/skip_list/SkipList.h, SkipNode.h and RandomHeight.cpp: the nodes as functions of
--             an address and a level. Line is one level, Level which nodes it holds, Shape when the
--             memory is a skip list, Ordered the ordered map that it stands for. Search and
--             Retrieve are the search; Splice, Gap, Grown, Inserted and Insert the insertion; Cut,
--             Out, Taken, Lower and Remove the removal, WithKey removeWithKey; Start is the
--             constructor, Destroy the destructor, Traverse and Iterate the printing and the
--             stepping; Runs any sequence of calls. A new node's address is one that was never in
--             use.
--   Cascade   CascadeNode.h and Region.h, over the ordered maps that SkipList promises, with numbers
--             as identifiers and values: the window query of one dimension (Cascade), its loops for
--             one region (Shrink, ShrinkMin, Grow, and all four in Net), a query (Query) and
--             sequences of queries (Queries), and the insertion (Entry, which is also insertRegion
--             of DynamicCascadeTree.h). The calls on the next node are a list (Effect).
--   Config    config.c and the choice of a server in geostreamd.c: the directives' callbacks and
--             the ring of servers. What dotconf reads is an argument: a section is rounds of directives,
--             each up to the first answer that is not NULL, and none of them a section of its own.
--   Prelude   shared names, lists over native numbers, Boolean tests, texts, and an `int` that may
--             be negative.
--   Tests     the theorems at concrete inputs.
--
-- Bounds and fuel. request_scan gets two rounds more than the memory has bytes: each round takes a
-- byte, and one more sees the end. The loop over the header lines gets one round more than there
-- are bytes behind the request line, and the loop over a Connection header one more than its value
-- has bytes: each round takes at least one. A search in a skip list gets one round more on a level
-- than the list has nodes, its traversals two or three. The choice of a server takes as many rounds
-- as there are servers in the ring. The search of the cache and its eviction loop get two rounds more than
-- there are busy files: each round passes or takes away one, and cache_get_cfile adds one. Sizes and
-- counts of the cache are integers without bound. The width of `unsigned long` is an argument of
-- unpack10. A byte is a number below 256 and EOF is 255, as a `char` holds it.
--
-- Not modelled: the text of a port that does not fit its ten bytes (client_request_serv); what
-- unpack10 does behind the end of Block1or2's array when the word count is above 52353, where
-- block1or2 reads on as if the array went on; log.c, which only writes; sockets, the timer, signals
-- and options; the rest of libgvar (the documentation of block 0 and its floating format, and
-- printing) and the other programs of the repository; deletions from a tree of regions, and trees
-- over several dimensions; src/ELUG, navigation code in floating point. The daemon's answer to a
-- file name is an argument of Client, which Cache does not yet fill. The fifo's readers do not come
-- while a write is under way, though newReader takes no lock. Allocations do not fail where their
-- failure is no argument.
pub mod Prelude
pub mod RwLock
pub mod Ll
pub mod Buffer
pub mod Request
pub mod Server
pub mod SkipList
pub mod Cascade
pub mod Cache
pub mod Client
pub mod Fifo
pub mod Gvar
pub mod Config
pub mod Tests
