-- ===== src/Examples/Nodes.antt =====
-- Instances for inc/io.h and the nodes of lib/ctree.c, at pages of 32 bytes.
use mathlib.Core.Path.{subst}
use fuse_example.Base.{
  ℕ, ◌*◌, ◌≤◌, ◌≡◌, refl, arith, Bool, true, List, [], ◌∷◌, ◌++◌, replicate, length, ◌==◌,
  if◌then◌else◌,
}
use fuse_example.Errors.{eio, ok, err, fault}
use fuse_example.Lsm.Key.{Bytes, Entry}
use fuse_example.Io.{Io, io_align, io_pages, io_bytes, io_pages-io_bytes}
use fuse_example.Io.Align.{io_align-io_bytes}
use fuse_example.Ctree.Node.{
  CtreeNode, null_ptr, header_size, ctree_node_append, ctree_node_write, ctree_node_parse,
}
use fuse_example.Ctree.Node.Image.{image, layout, Holds, HasPages, Fits}
use fuse_example.Ctree.Node.Append.{needed, Appended, ctree_node_append-Appended}
use fuse_example.Ctree.Node.Overflow.{ctree_node_append-fault}
use fuse_example.Ctree.Node.Parse.{Parsed}
use fuse_example.Ctree.Node.Reads.{header_image, ctree_node_parse-Parsed}
use fuse_example.Ctree.Node.Total.{Contained, ctree_node_parse-Contained}
use fuse_example.Ctree.Node.Disk.{ReadsBack, RoundTrip, ctree_node_write-RoundTrip}

-- A disk of one extent, which is the last write.
abbrev extent : Io
extent = record {
  Disk = List ℕ;
  page_size = 32;
  read = λ disk size offs. if size == length disk then ok disk else err eio;
  write = λ disk bytes offs. ok bytes;
}

extent-ReadsBack : ReadsBack extent
extent-ReadsBack disk disk' bytes offs e =
    subst (λ d. extent.read d (length bytes) offs ≡ ok bytes) stored (ground arith)
  where
    stored : bytes ≡ disk'
    stored = cc e

abbrev item : ℕ → Entry
item k = record { key = k ∷ []; val = k ∷ k ∷ [] }

abbrev one_item : List Entry
one_item = item 2 ∷ []

-- A node of one page with one entry.
abbrev one_node : CtreeNode
one_node = record {
  buf = replicate 16 0 ++ (image one_item ++ replicate 9 0);
  bytes = 23;
  max_bytes = 32;
  entry = layout header_size one_item;
  max_entries = 100;
  ptr = null_ptr;
  level = 0;
}

one_node-Holds : Holds one_node one_item
one_node-Holds = record {
  header = replicate 16 0;
  spare = replicate 9 0;
  header_length = refl;
  contents = refl;
  size = refl;
  slots = refl;
  allocated = refl;
  slots_fit = omega arith;
}

one_item-Fits : Fits one_item
one_item-Fits = (omega arith, omega arith, tt)

abbrev always : ℕ → Bool
always size = true

room_for_item : needed 32 one_node (item 4) ≤ 32 * 2
unfolding io_bytes io_pages
room_for_item = omega arith

ctree_node_append-Appended_example :
    Appended 32 one_item (item 4) (ctree_node_append always 32 one_node (4 ∷ []) (4 ∷ 4 ∷ []))
ctree_node_append-Appended_example =
    ctree_node_append-Appended always 32 one_node one_item (item 4) (omega arith) one_node-Holds
      (omega arith) room_for_item

one_node-HasPages : HasPages 32 one_node
unfolding io_bytes io_pages
one_node-HasPages = omega arith

ctree_node_write-RoundTrip_example :
    RoundTrip always extent [] 5 0 one_item (ctree_node_write extent [] one_node 5 0)
ctree_node_write-RoundTrip_example =
    ctree_node_write-RoundTrip always extent [] one_node 5 0 one_item extent-ReadsBack (omega arith)
      one_node-Holds one_node-HasPages one_item-Fits (omega arith) (omega arith)

-- A value of 60 bytes in a page of 32.
abbrev long_val : Bytes
long_val = replicate 60 7

ctree_node_append-fault_example : ctree_node_append always 32 one_node (4 ∷ []) long_val ≡ fault
ctree_node_append-fault_example =
    ctree_node_append-fault always 32 one_node (4 ∷ []) long_val (omega arith) (λ size. refl)
      (omega arith) refl (omega arith)

-- What a read of the node's page gives to the parse.
abbrev page : CtreeNode
page = record {
  buf = header_image 23 0 ++ (image one_item ++ replicate 9 0);
  bytes = 0;
  max_bytes = 32;
  entry = [];
  max_entries = 0;
  ptr = record { offs = 5; size = 1; csum = 0 };
  level = 0;
}

one_page : 23 ≤ io_bytes 32 page.ptr.size
unfolding io_bytes
one_page = omega arith

whole_page : io_bytes 32 page.ptr.size ≤ length page.buf
unfolding io_bytes
whole_page = omega arith

ctree_node_parse-Parsed_example :
    Parsed page (layout header_size one_item) (ctree_node_parse always 32 page)
ctree_node_parse-Parsed_example =
    ctree_node_parse-Parsed always 32 page 23 one_item (replicate 9 0) one_item-Fits refl refl
      (omega arith) (omega arith) one_page refl

ctree_node_parse-Contained_example : Contained (ctree_node_parse always 32 page)
ctree_node_parse-Contained_example =
    ctree_node_parse-Contained always 32 page (omega arith) whole_page refl

io_pages-io_bytes_example : io_pages 32 (io_bytes 32 3) ≡ 3
io_pages-io_bytes_example = io_pages-io_bytes 32 3 (omega arith)

io_align-io_bytes_example : io_align 32 33 ≡ io_bytes 32 (io_pages 32 33)
io_align-io_bytes_example = io_align-io_bytes 5 59 33 refl (omega arith)
