-- ===== src/Lib.antt =====
-- A network file system: a naming server, storage servers and a client program, in C.
--
-- The naming server (namingserver.c) keeps a map from paths to storage servers and answers the commands of
-- clients: it passes CREATE, DELETE and COPY on to storage servers, and tells the client where to go for READ,
-- WRITE and DETAILS. A storage server (storageserverinit.c, operations/) carries out the commands and keeps a
-- map from paths to the indices of semaphores. Both maps are the hash map of hashmap/map.c, with keys that
-- hashmap/map_operations.c makes of paths. The naming server also fills a cache of paths, LRU/lru.c.
--
-- The files, and the code that they are about:
--   Hashmap           hashmap/map.c: the state as the record Hashmap, one function for each of the C functions
--                     of the same name, and resize_loop, probe_loop and iterate_loop for the loops. Dict is
--                     the specification, a list of entries in the order of insertion; Invariant says which
--                     maps are well formed and which list such a map holds; Get, Set, Overwrite, Remove,
--                     Resize and Iterate have the theorems of the operations, Hash, Probe, Order, Append
--                     and Replace what they rest on.
--   MapOperations     hashmap/map_operations.c: Keys on the keys, Values on set_value and get_value,
--                     RemoveEntry and Paths on remove_entry and get_paths, for the paths that Below
--                     says, AddPaths on add_paths_to_list.
--   Lru               LRU/lru.c: the nodes are a heap, addresses are numbers and 0 is NULL. Track is the
--                     specification, a list ordered by use; Index reads the map as a function, Cells the
--                     heap cell by cell, Chain and Items are on the list of nodes, Invariant on the whole
--                     cache, Get, Put and Run on the calls and on runs of them.
--   Io                send and recv one after the other, against a script of what the network answers, with
--                     a log of what was sent; exit, faults and calls that do not return are results.
--                     Delivery says how the log of one program becomes the script of another.
--   Command           processCommand of namingserver.c and clientinit.c.
--   NamingServer      namingserver.c: connectToStorageServer, getResultsFromSS and facilitateCopy; Client is
--                     a round of client_handler, Register the loop of main. Talk, CreateDelete, Copy,
--                     Rounds and Ports have the theorems of the commands; Serving, Invariant and Lines those
--                     on what every round keeps. First is on the first registration, Handler on a client's
--                     thread as a whole (Within and Rounds on the bound of its rounds, Keeps on the state), Race on the threads of several clients and main at the
--                     buffer that getResultsFromSS shares with it.
--   ClientInit        clientinit.c: a round of the loop of main, and the client's side of READ, WRITE and
--                     DETAILS; Session is main from the connection on; Transfer has the theorems about the
--                     client and the storage server together.
--   Operations        operations/create_file.c and delete.c.
--   StorageServer     storageserverinit.c: the locks and the threads that move a file; Ports has the
--                     dispatches, a connection at either port and the set-up of main; Locking, Transfer,
--                     Created and Connections have the theorems. Startup is main up to the registration,
--                     with getFiles, which Listing is about.
--   Exchange          the programs together: Register on the registration of a storage server, Create and
--                     Command on a CREATE, Read on a READ and Write on a WRITE, from the user's line
--                     to the storage server; Unknown on a path that no storage server has.
--   Prelude, Text     tests, lists, bytes, and the functions of the C library on texts that the code uses.
--
-- Numbers and bounds: an int is its 32-bit pattern (-1 is 2 ^ 32 - 1), a uintptr_t has 64 bits, and the hash
-- wraps at 32 bits. A probe takes at most as many rounds as the map has buckets, a walk along the entries at
-- most one more than their number: the theorems of the operations show that a well-formed map never needs
-- more. The loops that move a file, and that of a client's thread, take a reply in each round, so that the
-- replies that are left bound them.
--
-- Where a function of the model gives none, the code faults or does not return. A socket keeps messages
-- apart: each recv gives one, and none is longer than the buffer. Parameters: the file system of a storage
-- server and the programs that it runs (System), the network (World), and the layout of a structure that is
-- received. Creating and joining a thread succeeds, and so does connecting to a server.
--
-- The theorems about maps of paths are for maps all of whose keys are those of paths: not empty and without
-- white space. An empty row of a registering server leaves a key that is none.
--
-- Not modelled: hashmap_free, which only gives memory back, the failure of an allocation, keys of the maps
-- that do not fit into their buffers of PATH_MAX + 5 bytes (a path of a little less than PATH_MAX characters
-- can already make one), maps of 2 ^ 24 buckets and more, whose bound on the load a float no longer gives
-- exactly, a read of StorageServersInfo outside of the array (zeros stand for it), the set-up of sockets, what
-- is printed, and threads that interleave at the map of paths or at the cache.
pub mod Prelude
pub mod Text
pub mod Hashmap
pub mod MapOperations
pub mod Io
pub mod Lru
pub mod Command
pub mod Operations
pub mod StorageServer
pub mod ClientInit
pub mod NamingServer
pub mod Exchange
