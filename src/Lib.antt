-- ===== src/Lib.antt =====
-- CuckooFS: a distributed file system whose metadata server is an extension of PostgreSQL. This
-- library models the C code of that server, below cuckoo/, and the message format that it shares
-- with the client.
--
-- Parts and files:
--   * RwLock (cuckoo/utils/rwlock.c): the reader-writer lock that the processes of the server,
--     its backends, share. RwLock has the lock word and its masks, RwLock.Fields the arithmetic
--     of its fields. RwLock.Ops has the operations of one backend: rw_lock_declare,
--     rw_lock_undeclare, rw_lock_acquire, rw_lock_release and rw_lock_release_all are
--     RWLockDeclare, RWLockUndeclare, RWLockAcquire, RWLockRelease and RWLockReleaseAll.
--     RwLock.System has the interleavings of the backends, a step for each atomic access.
--     RWLockRelease takes any handle, and so does its step; IsProper marks the runs in which it is
--     called only on holds.
--   * Allocator (cuckoo/utils/cuckoo_shmem_allocator.c): the allocator of shared memory. malloc
--     and free are CuckooShmemAllocatorMalloc and CuckooShmemAllocatorFree, init_page_count is
--     the count of CuckooShmemAllocatorInit. Allocator.Ownership has the interleavings of the
--     users of a page.
--   * Serialized (remote_connection_def/remote_connection_utils/serialized_data.h): the buffer of
--     a message. init, clear, apply_for_segment, append and next_several_item_size are
--     SerializedDataInit, SerializedDataClear, SerializedDataApplyForSegment,
--     SerializedDataAppend and SerializedDataNextSeveralItemSize.
--   * Shard (cuckoo/metadb/shard_table.c): the table that sends hash values to servers.
--     build_shard_table and search_shard_info are cuckoo_build_shard_table and
--     SearchShardInfoByShardValue, shard_ranges the ranges of cuckoo_renew_shard_table.
--   * Errors (cuckoo/utils/error_code.c, with the list of error codes in
--     remote_connection_def/remote_connection_utils/error_code_def.h): elog_text is the message
--     of CUCKOO_ELOG_ERROR, error_msg_analyse is CuckooErrorMsgAnalyse.
--   * DirHash (cuckoo/dir_path_shmem/dir_path_hash.c): the cache of directories in front of the
--     directory table. search_directory, insert_directory and delete_directory are
--     SearchDirectoryByDirectoryHashTable, InsertDirectoryByDirectoryHashTable and
--     DeleteDirectoryByDirectoryHashTable, eliminate is EliminateDirPathHashByLRU,
--     commit_for_dir_path_hash and abort_for_dir_path_hash are CommitForDirPathHash and
--     AbortForDirPathHash; insert_row and delete_row are the changes of a row in
--     cuckoo/metadb/directory_table.c. DirHash.Coherence relates the cache to the rows.
--   * Path (cuckoo/utils/path_parse.c): paths, and the tree of directories that a transaction has
--     locked. path_names splits a path, walk goes through its names, path_parse_tree_insert is
--     PathParseTreeInsert, verify_path_validity is VerifyPathValidity, check_whether_path_exists
--     is CheckWhetherPathExistsInDirectoryTable, get_next_sequence_num is GetNextSequenceNum, and
--     generate_inode_id is GenerateInodeIdBySeqAndNodeId of cuckoo/utils/utils.c. Path.Compare has
--     the order of paths, pathcmp of cuckoo/utils/utils_standalone.c.
--   * Meta (cuckoo/metadb/meta_handle.c): the operations on files and directories, over the rows
--     of the inode tables. search_and_update is SearchAndUpdateInodeTableInfo, hash_part_id and
--     combine are HashPartId and CombineParentIdWithPartId. read_dir_handle, open_dir, utime_ns,
--     chown and chmod are the handlers of one path; create_handle, stat_handle, open_handle,
--     close_handle and unlink_handle those of many, with create_loop as the groups of Create.
--     rmdir_sub_rmdir, rmdir_sub_unlink, rename_sub_rename_locally, rename_sub_create and
--     mkdir_sub_mkdir are the parts of Rmdir, Rename and Mkdir that servers do for one another.
--     Meta.Tables is the interface to the tables, Meta.Plain an instance of it.
--   * Transaction (cuckoo/transaction/transaction.c): explicit_begin, explicit_commit,
--     explicit_rollback and explicit_prepare are the functions CuckooExplicitTransaction..., and
--     transaction_callback is CuckooTransactionCallback, which ends a transaction in the tree of
--     paths, the cache of directories and the locks.
--   * Base: Boolean tests, arrays, machine words, bits, sums of a family.
-- The end of a transaction clears the tree of paths, commits or aborts the cache of directories
-- and releases all locks. The parsing of paths searches the cache of directories, and the cache
-- takes the locks of its entries by the operations of RwLock. A metadata operation parses its
-- paths, finds the shard of a row by its number, and reads or changes the row. The allocator and
-- the messages carry requests and answers between the processes; the other parts do not call them.
--
-- Conventions: an integer of w bits is a natural number with its wrap written out. Memory is a
-- map from offsets to values. A loop without a bound in the code runs on fuel, and running out of
-- it is a result of its own: 32 rounds double any capacity from 1 on to 2^31, and halve any range
-- of fewer than 2^32 rows to nothing; the release of all handles takes one round for each handle.
-- A scan of the pages counts down the pages that are left, so it needs no fuel. The lock theorems
-- have at most 2046 backends: with 8196 handles each, and a reference on its way in or out, no
-- field of the lock word runs over. In the cache of directories, fuel bounds the scans of an
-- elimination, for which one more than the largest count of use is enough, tries the rounds in
-- which a key is entered, and patience the attempts at a lock: where the code would go on for
-- ever, as it does when every entry of a full partition is in use, the model fails with no_room.
-- The groups of Create take at most two rounds for each request.
-- In Meta, a char is signed, as on x86. A subtransaction that is rolled back gives the tables from
-- before it. A request carries the shard in whose list it is, for the lists of pointers by shard
-- of the code, and requests are changed in place. An error that the code raises ends the handler
-- with a failure, after which the transaction is rolled back.
--
-- Not modelled: the spin delay between two attempts; the bytes of the shared memory beyond the
-- headers of its blocks; the catalogs, transactions and connections of PostgreSQL; the remote
-- side of a transaction, whose calls are only recorded; of the metadata operations, the parts of
-- Mkdir, Rmdir and Rename that call other servers, MkdirSubCreate, and the dispatch and encoding
-- of requests; the update and the reload of the shard table; the interleavings of several backends in the cache of
-- directories; the C++ of the client and the store. The memory manager of a message and the byte
-- order of the machine are parameters; of realloc it is assumed that the old bytes stand in the
-- new block. The hash tables of PostgreSQL (dynahash) are parameters with their documented laws,
-- and so are the inode tables with their unique index, the order of names by the collation of the
-- database, the hash of a shard value, the sort of the requests and the order in which the shards
-- of a batch are visited, the hash function of a key, the random place where a scan starts, and the values
-- that the sequence of the database gives. The red-black tree of the children of a node is a map
-- from names to nodes.
pub mod Base
pub mod RwLock
pub mod Allocator
pub mod Serialized
pub mod Shard
pub mod Errors
pub mod DirHash
pub mod Path
pub mod Meta
pub mod Transaction
