-- ===== src/Lib.antt =====
-- The pht extension gives PHP threads and the data structures that threads share. This library models
-- its C code and proves what the code promises.
--
-- Parts and files
--   Vector, Vector/*        src/ds/pht_vector.c: the growable array of entries. `Vector.push` is
--                           `pht_vector_push`, and so on for the other functions of the file.
--   Queue, Queue/*          src/ds/pht_queue.c: the linked list, with the store of its nodes.
--   HashTable, HashTable/*  src/ds/pht_hashtable.c: the hash table with linear probing, Robin Hood
--                           displacement and tombstones. `search`, `update` and `delete` are the
--                           `_direct` functions with the public ones in front of them.
--   PhtString               src/pht_string.c: byte strings and their comparison.
--   Mutex                   the POSIX mutexes of the shared objects.
--   Entry, Entry/*          src/pht_entry.c: the entries that the structures hold, their conversion from
--                           and to PHP values, and the heap of shared objects with reference counts.
--   Classes, Classes/*      src/classes/queue.c, vector.c, hashtable.c and atomic_integer.c: the methods
--                           and object handlers, which work on the heap through an address.
--   Thread, Thread/*        src/classes/thread.c: tasks, the loop of the worker, the methods of pht\Thread,
--                           and the steps of a thread and its worker (Thread/Steps).
--   Thread/Children,        src/classes/thread.c and pht.c: the table of child threads, from the object of a
--   Thread/Waiting          thread to the end of the request.
--   Extension, Extension/*  pht.c: what loading and unloading the extension do. Classes/Registration has
--                           the `*_ce_init` functions of src/classes that it calls.
--   Engine, Engine/*        src/pht_zend.c and PHT_ZVAL_DUP of src/pht_zend.h: the hard copy of a zval, with
--                           its array or constant expression, on numbered blocks of memory.
--   Copy, Copy/*            src/pht_copy.c: the copies of functions, classes, constants, included files and
--                           ini directives that a new thread takes from its parent. Copy/Functions,
--                           Copy/Constants, Copy/Loading and Copy/Context have the functions of the file
--                           under their names, Copy/Classes their data.
--   Common, Common/*        shared names, tests, lists, integers and runs of C code.
--   Tests, Tests/*          runs on concrete inputs.
--
-- How they interact
--   A structure holds entries. An entry owns its bytes or counts as a reference to a shared object on the
--   heap, which holds a structure, a mutex, a count and a version. The operations of the structures return
--   the entries that the C code passes to the destructor (`pht_entry_delete`); the methods of the classes
--   delete these. A thread keeps its tasks in a queue, whose elements are tasks with entries as arguments.
--
-- Conventions
--   `Run` is a run of C code: a value, `fault` for undefined behaviour (a read outside a block, NULL
--   dereferenced, an overflow of `int`), or `blocked` for a wait on a mutex that another thread holds.
--   An `int` or `zend_long` is a number with its range written out; unsigned counters wrap.
--   `malloc` of a node and the serialiser, the hash function, closures, the engine's calls of PHP code and
--   the file system are parameters. Memory is not exhausted, but where the code tests for it.
--   Functions of the engine that copying calls are parameters too: zend_string_dup, zend_string_tolower,
--   zend_lookup_class, zend_register_constant and the handlers of directives. A HashTable of the engine
--   with string keys is a list of its elements; one that is a PHP value has its buckets, hash part and
--   internal pointer. The classes of the old thread are finite trees.
--   Version counters have 64 bits and reference counts 32.
--
-- Bounds and fuel
--   The loops of the hash table have as many rounds as the code, the size of the table. `destroy_loop`
--   and `walk` of Queue have a round more than there are elements. `entry_delete` has a round for every
--   entry stored on the heap and two more; `handle_thread_tasks` takes its fuel as an argument, and one
--   round more than there are tasks drains a joined thread. Vectors are bounded by 2 ^ 30 elements where
--   the block may double, since its size is an `int`.
--
-- Not modelled
--   The table for phpinfo in pht.c. Of the classes, the lists of methods and the offsets of objects. Of
--   the copies, the release of strings, the destruction of a copy that the table does not take, and the
--   name of the file of a class as a block are not followed. The calls of worker_function before its loop
--   are not composed, and pthread_join is noted, not run: how a worker ends is in Thread/Finishing.
--   The test of a reference count after the mutex was released is one step with the decrement.
--   A thread is started once, and the worker's test and change of the status under the mutex are one step,
--   which a join() without the mutex cannot come between. pthread_mutex_destroy is not followed: the mutex
--   of a thread that was joined is not used again.
--   The steps of a thread and its worker are the accesses to the shared thread object; what a handler
--   does to the heap is `handle_task`.
pub mod Common
pub mod Vector
pub mod Queue
pub mod PhtString
pub mod HashTable
pub mod Mutex
pub mod Engine
pub mod Copy
pub mod Entry
pub mod Classes
pub mod Thread
pub mod Extension
pub mod Tests
