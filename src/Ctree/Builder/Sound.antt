-- ===== src/Ctree/Builder/Sound.antt =====
-- Appends to the builder of lib/ctree.c stay within their buffers, end, and keep count of the pages
-- that they reserve.
use fuse_example.Alloc.{Alloc}
use fuse_example.Io.{Io}
