-- ===== src/Lib.antt =====
-- fuse_example is the start of a file system on a log-structured merge tree. This library models
-- its core: checksums, the in-memory ordered map, the nodes, the builder and the iterators of the
-- on-disk trees, the iterator that merges them, the transaction log, and the superblock.
--
-- The checksum (Crc64, for util/crc64.c, inc/crc64.h and the tables of gen_crc64_table.py) guards
-- every structure on disk. Crc64/Linear is about the rounds of the polynomial as a linear map,
-- Crc64/Slices builds on it. A word of memory is a list of bytes, read little endian by `load`,
-- as on the machines that the source supports; xor and shifts are those of Bits.
--
-- The red-black tree (RbTree, for util/rbtree.c and inc/rbtree.h) is a zipper: a `struct rb_node
-- *` is a position, with the subtree below the node and the frames up to the root in place of the
-- parent links. A rotation acts on the subtree at a position; following a null pointer is `none`.
-- RbTree/Insert is `rb_insert` and RbTree/Erase `rb_erase`, whose loop runs on fuel, two turns
-- more than the path is long; their children are about balance and order. RbTree/Walk is about
-- `rb_next` and `rb_prev`.
--
-- The map (Mtree, for lib/mtree.c and inc/mtree.h) keeps copies of keys and values in such a
-- tree. The comparison `cmp` is an instance argument of type KeyOrder (Lsm/Key) with the laws of
-- an order, and `malloc`, a function from a size to whether it succeeds, is an argument where the
-- code allocates. Mtree/Spec is what the map promises: a strictly sorted list.
--
-- Io (for inc/io.h) turns bytes into pages. The callbacks of `struct io_ops` are the fields of a
-- record, over a type of disks of their own. Memory has copies in and out of an allocated buffer,
-- with their bounds: a copy outside is `fault` (Errors).
--
-- Ctree/Node (for the nodes in lib/ctree.c, with the structures of inc/aulsmfs.h) has a buffer of
-- bytes and a list of slots. Ctree/Node/Image is the layout of the bytes, Append and Overflow are
-- about `ctree_node_append`, Parse, Reads and Total about `ctree_node_parse`, Disk about
-- `ctree_node_write` and `ctree_node_read`. The loop of the parse runs on fuel, one unit for each
-- byte of the node and one more, since every turn moves by at least four bytes. Sums of sizes and
-- offsets are not reduced modulo 2^64, since they stay below the size of an allocation.
--
-- Ctree/Builder is `struct ctree_builder`, with the disk and the allocator (Alloc, for
-- inc/alloc.h) that it works on; Space reserves its pages, Steps is the rest. Nodes and Kept say
-- what the nodes of a builder keep. A step returns the code with the state, so that an error
-- keeps the ranges reserved before it; `fault` is an access that C does not define. A full node
-- goes up by a call for the next level, on fuel: two more than there are levels, since a new
-- level is empty and takes the entry. The loop of `ctree_builder_finish` takes its fuel as an
-- argument. Ctree/Root is `struct ctree`.
--
-- Ctree/Iter is `struct ctree_iter`: the arrays `node` and `pos` are one list of slots, from the
-- leaf up. A move or a search is a zipper on that list, with the slots below a level nearest
-- first, and returns its code with the iterator, so that an error keeps the levels reached before
-- it. Iter/Search has the searches. Iter/Spec is the tree that a root pointer reaches on the
-- disk, as a list of entries, and where an iterator stands in that list; Descend and Next are
-- about `ctree_next`, Walk about iteration, Split, Bound, Settle and Lower about the searches.
--
-- Lsm/State is `struct lsm` (lib/lsm.c, inc/lsm.h): two maps in memory, and the roots of the
-- trees on disk, which `struct aulsmfs_tree` keeps. Lsm/Iter is `struct lsm_iter`, a list of
-- cursors by the index of the tree, each in memory or on disk, with copies of the items at which
-- they stand. A loop for each tree that takes part is `each_tree`, where an index behind the last
-- tree is `fault`; an item is kept in a buffer, which an empty key and value do not allocate. The
-- loops of `lsm_next` run on fuel, which every walk takes as an argument. Iter/Search has the
-- searches. Lsm/Over is what the iterator promises, sorted lists laid over each other;
-- Iter/Cursors is about one cursor, Each about all of them in turn, Begin, Merge, Visit and Walk
-- about iteration, Lower, Lookup and Added about the searches.
--
-- Log (for lib/log.c and inc/log.h) is `struct trans_log` with its disk and allocator, in the
-- manner of the builder; `realloc` of a pointer into an allocation is `fault`. Log/Flush is about
-- `trans_log_flush`, Log/Append about `trans_log_append`.
--
-- FileWrappers (for lib/file_wrappers.c) has the loops over pread and pwrite, which are fields of
-- a record; their fuel is one or two turns more than there are bytes, since a turn moves a byte
-- or ends the loop. Regular is a file on which calls that end below 2^30 bytes transfer all that
-- there is; a gap behind its end reads as zeros. Super is the superblock, as mkfs/main.c writes
-- it and fuse/main.c reads it.
--
-- Examples runs the models and applies the theorems to concrete data.
--
-- Not modelled: which blocks are freed, beyond `__mtree_release`; asserts, save those on the
-- sizes in mkfs/main.c, which are `fault`; `lsm_prev`, the merge and the release of the iterator
-- in lib/lsm.c; option parsing, opening and truncation of files in mkfs/main.c and fuse/main.c,
-- and the fuse callbacks, which are stubs; the tests.
pub mod Alloc
pub mod Base
pub mod Bits
pub mod Crc64
pub mod Errors
pub mod FileWrappers
pub mod Io
pub mod Memory
pub mod Ctree
pub mod Log
pub mod Lsm
pub mod Mtree
pub mod RbTree
pub mod Super
mod Examples
