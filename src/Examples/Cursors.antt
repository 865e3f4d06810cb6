-- ===== src/Examples/Cursors.antt =====
-- Instances for the iterators of lib/ctree.c, at a tree of two leaves on pages of 32 bytes.
use fuse_example.Base.{
  ℕ, ◌≡◌, ◌≢◌, ◌<◌, ◌^◌, refl, arith, Bool, true, List, [], ◌∷◌, ◌++◌, replicate, take, drop,
  length,
}
use fuse_example.Errors.{ok, done}
use fuse_example.Memory.{peek}
use fuse_example.Io.{Io, io_read, io_bytes}
use fuse_example.Lsm.Key.{Entry}
use fuse_example.Crc64.{crc64, crc64_from, crc_word, crc_bytes, crc_byte, entry}
use fuse_example.Ctree.Node.{
  AulsmfsPtr, CtreeNode, ctree_node_create, ctree_node_read, ctree_node_parse, parse_loop,
  read_sizes, grow_slots, push_slot, ctree_node_key, ctree_node_val, header_size,
}
use fuse_example.Ctree.Node.Image.{image, layout}
use fuse_example.Ctree.Node.Reads.{header_image}
use fuse_example.Ctree.Root.{Ctree}
use fuse_example.Mtree.Spec.{IsSorted, drop_below}
use fuse_example.Mtree.Lookup.{find}
use fuse_example.Examples.Orders.{by_number}
use fuse_example.Ctree.Iter.{read_node, ctree_iter_setup}
use fuse_example.Ctree.Iter.Search.{ctree_lookup}
use fuse_example.Ctree.Iter.Lower.{LooksUp, ctree_lookup-find, walk_from, walk_from-drop_below}
use fuse_example.Ctree.Iter.Spec.{Child, pair_of, IsNode, Stored, PtrFits}
use fuse_example.Ctree.Iter.Walk.{walk, walk-entries}

abbrev pub item : ℕ → Entry
item k = record { key = k ∷ []; val = k ∷ k ∷ [] }

-- A leaf of one entry fills a page.
abbrev leaf_page : ℕ → List ℕ
leaf_page k = header_image 23 0 ++ (image (item k ∷ []) ++ replicate 9 0)

abbrev child_two : Child
child_two = record {
  key = 2 ∷ [];
  ptr = record { offs = 0; size = 1; csum = 90381259063037616 };
  entries = item 2 ∷ [];
}

abbrev child_five : Child
child_five = record {
  key = 5 ∷ [];
  ptr = record { offs = 1; size = 1; csum = 11978542715584695016 };
  entries = item 5 ∷ [];
}

abbrev pairs : List Entry
pairs = pair_of child_two ∷ pair_of child_five ∷ []

abbrev root_page : List ℕ
root_page = header_image 74 1 ++ (image pairs ++ replicate 22 0)

-- A disk is its bytes.
abbrev pub flat : Io
flat = record {
  Disk = List ℕ;
  page_size = 32;
  read = λ disk size offs. ok (take size (drop offs disk));
  write = λ disk bytes offs. ok disk;
}

abbrev pub two_leaves : List ℕ
two_leaves = leaf_page 2 ++ (leaf_page 5 ++ root_page)

abbrev pub always : ℕ → Bool
always size = true

abbrev root_ptr : AulsmfsPtr
root_ptr = record { offs = 2; size = 3; csum = 11306687178185780736 }

-- A node that was read from a page.
abbrev page_node : List ℕ → AulsmfsPtr → ℕ → ℕ → List Entry → CtreeNode
page_node page ptr bytes level es = record {
  buf = page;
  bytes = 0;
  max_bytes = bytes;
  entry = layout header_size es;
  max_entries = 100;
  ptr = ptr;
  level = level;
}

read_two :
    read_node always flat two_leaves child_two.ptr 0
    ≡ done (page_node (leaf_page 2) child_two.ptr 32 0 (item 2 ∷ []))
unfolding read_node ctree_node_read ctree_node_create ctree_node_parse parse_loop read_sizes
    grow_slots push_slot io_read io_bytes peek crc64 crc64_from crc_word crc_bytes crc_byte entry
read_two = refl

read_five :
    read_node always flat two_leaves child_five.ptr 0
    ≡ done (page_node (leaf_page 5) child_five.ptr 32 0 (item 5 ∷ []))
unfolding read_node ctree_node_read ctree_node_create ctree_node_parse parse_loop read_sizes
    grow_slots push_slot io_read io_bytes peek crc64 crc64_from crc_word crc_bytes crc_byte entry
read_five = refl

read_root :
    read_node always flat two_leaves root_ptr 1 ≡ done (page_node root_page root_ptr 96 1 pairs)
unfolding read_node ctree_node_read ctree_node_create ctree_node_parse parse_loop read_sizes
    grow_slots push_slot io_read io_bytes peek crc64 crc64_from crc_word crc_bytes crc_byte entry
read_root = refl

not_empty : child_two ∷ child_five ∷ [] ≢ []
not_empty e = cc

no_entry : (k : ℕ) → item k ∷ [] ≢ []
no_entry k e = cc

fits : (p : AulsmfsPtr) → p.offs < 2 ^ 64 → p.size < 2 ^ 64 → p.csum < 2 ^ 64 → PtrFits p
fits p a b c = record { offs_fits = a; size_fits = b; csum_fits = c }

two_IsNode : IsNode always flat two_leaves child_two.ptr 0 child_two.entries
unfolding ctree_node_key ctree_node_val peek
two_IsNode = record { node = _; read = read_two; holds = (refl, refl, tt) }

five_IsNode : IsNode always flat two_leaves child_five.ptr 0 child_five.entries
unfolding ctree_node_key ctree_node_val peek
five_IsNode = record { node = _; read = read_five; holds = (refl, refl, tt) }

root_IsNode : IsNode always flat two_leaves root_ptr 1 pairs
unfolding ctree_node_key ctree_node_val peek
root_IsNode = record { node = _; read = read_root; holds = (refl, refl, (refl, refl, tt)) }

abbrev pub small_tree : Ctree
small_tree = record { ptr = root_ptr; height = 2; pages = 5 }

pub small_tree-Stored : Stored always flat two_leaves 1 root_ptr (item 2 ∷ item 5 ∷ [])
small_tree-Stored = (
  child_two ∷ child_five ∷ [],
  root_IsNode,
  not_empty,
  (
    ((two_IsNode, no_entry 2), refl, fits child_two.ptr (omega arith) (omega arith) (omega arith)),
    (
      (
        (five_IsNode, no_entry 5),
        refl,
        fits child_five.ptr (omega arith) (omega arith) (omega arith),
      ),
      tt,
    ),
  ),
  refl,
)

walk-entries_example : walk always flat two_leaves 3 small_tree ≡ done (item 2 ∷ item 5 ∷ [])
walk-entries_example =
    walk-entries always flat two_leaves small_tree (item 2 ∷ item 5 ∷ []) 3 small_tree-Stored refl
      (omega arith)

small_tree-IsSorted : IsSorted (item 2 ∷ item 5 ∷ [])
small_tree-IsSorted = ground arith

ctree_lookup-find_example :
    LooksUp
      (find (5 ∷ []) (item 2 ∷ item 5 ∷ []))
      (ctree_lookup always flat two_leaves (ctree_iter_setup small_tree) (5 ∷ []))
ctree_lookup-find_example =
    ctree_lookup-find always flat two_leaves (5 ∷ []) small_tree (item 2 ∷ item 5 ∷ [])
      small_tree-IsSorted small_tree-Stored refl

-- One of the two keys is not below 3.
one_above : length (drop_below (3 ∷ []) (item 2 ∷ item 5 ∷ [])) < 2
unfolding drop_below
one_above = omega arith

walk_from-drop_below_example :
    walk_from always flat two_leaves 2 small_tree (3 ∷ [])
    ≡ done (drop_below (3 ∷ []) (item 2 ∷ item 5 ∷ []))
walk_from-drop_below_example =
    walk_from-drop_below always flat two_leaves (3 ∷ []) small_tree (item 2 ∷ item 5 ∷ [])
      small_tree-IsSorted 2 small_tree-Stored refl one_above
