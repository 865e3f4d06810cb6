-- ===== src/Ctree.antt =====
-- inc/ctree.h and lib/ctree.c: on-disk B+ trees.
pub mod Builder
pub mod Iter
pub mod Node
pub mod Root
