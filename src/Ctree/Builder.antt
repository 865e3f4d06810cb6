-- ===== src/Ctree/Builder.antt =====
-- The builder of lib/ctree.c: sorted pairs are appended to a leaf, a full node is written and goes
-- as a key and a pointer to the node one level up. An error leaves the state reached so far, with
-- the ranges reserved so far; of a node whose append or write failed it keeps what it was before.
pub mod Finish
pub mod Kept
pub mod Nodes
pub mod Ranges
pub mod Sound
pub mod Space
pub mod Steps
use fuse_example.Base.{
  ℕ, zero, suc, ◌+◌, ◌-◌, ◌*◌, Bool, true, false, List, [], ◌∷◌, ◌++◌, Option, none, some, length,
  ltb, leb, ◌==◌, if◌then◌else◌,
}
use fuse_example.Errors.{Errno, enomem, Result, ok, err, Run, done, fail, fault, out_of_fuel}
use fuse_example.Memory.{encode}
use fuse_example.Alloc.{Alloc, alloc_reserve, alloc_cancel}
use fuse_example.Io.{Io, io_pages}
use fuse_example.Lsm.Key.{Bytes}
use fuse_example.Ctree.Node.{
  AulsmfsPtr, null_ptr, CtreeEntry, CtreeNode, ctree_node_setup, ctree_node_reset,
  ctree_node_can_append, ctree_node_append, ctree_node_write, ctree_node_key,
}

-- `struct range`
pub record Range : Type 0 where
  pub begin : ℕ
  pub end : ℕ

-- `struct ctree_builder`. `node` lists the nodes by level, `reserved` the used ranges, the last
-- one first.
pub record CtreeBuilder : Type 0 where
  pub node : List CtreeNode
  pub max_nodes : ℕ
  pub reserved : List Range
  pub max_ranges : ℕ
  pub pages : ℕ
  pub ptr : AulsmfsPtr
  pub height : ℕ

-- `ctree_builder_setup`, and what `ctree_builder_release` leaves.
unfoldable pub ctree_builder_setup : CtreeBuilder
ctree_builder_setup = record {
  node = [];
  max_nodes = 0;
  reserved = [];
  max_ranges = 0;
  pages = 0;
  ptr = null_ptr;
  height = 0;
}

-- The sizes of `struct range`, of a pointer and of `struct ctree_node`.
abbrev pub range_size : ℕ
range_size = 16

abbrev pub pointer_size : ℕ
pointer_size = 8

abbrev pub node_size : ℕ
node_size = 88

abbrev pub ptr_image : AulsmfsPtr → Bytes
ptr_image p = encode 8 p.offs ++ (encode 8 p.size ++ encode 8 p.csum)

-- The reserved ranges with `size` pages at `offs`: the last range grows where they adjoin.
abbrev pub add_range : List Range → (size offs : ℕ) → List Range
add_range [] size offs = record { begin = offs; end = offs + size } ∷ []
add_range (last ∷ ranges) size offs =
    if last.end == offs
    then record { begin = last.begin; end = offs + size } ∷ ranges
    else record { begin = offs; end = offs + size } ∷ last ∷ ranges

abbrev pub node_at : List CtreeNode → ℕ → Option CtreeNode
node_at [] i = none
node_at (n ∷ ns) zero = some n
node_at (n ∷ ns) (suc i) = node_at ns i

abbrev pub set_node : List CtreeNode → ℕ → CtreeNode → List CtreeNode
set_node [] i m = []
set_node (n ∷ ns) zero m = m ∷ ns
set_node (n ∷ ns) (suc i) m = n ∷ set_node ns i m

-- The builder with the disk and the allocator that it works on.
pub record Site (io : Io) (alloc : Alloc) : Type 0 where
  pub disk : io.Disk
  pub space : alloc.State
  pub builder : CtreeBuilder

-- A step that returns a code with the state, or crashes.
abbrev pub Step : (io : Io) (alloc : Alloc) → Type 0 → Type 0
Step io alloc A = Run (Site io alloc × Result A)

-- `if (rc < 0) return rc;`
abbrev pub on_ok :
    {io : Io} {alloc : Alloc} {A B : Type 0}
    → Step io alloc A
    → (Site io alloc → A → Step io alloc B)
    → Step io alloc B
on_ok (done (s, ok a)) f = f s a
on_ok (done (s, err e)) f = done (s, err e)
on_ok (fail e) f = fail e
on_ok fault f = fault
on_ok out_of_fuel f = out_of_fuel

-- A run of a node's operation, within a step.
abbrev pub on_run :
    {io : Io} {alloc : Alloc} {A B : Type 0}
    → Site io alloc
    → Run A
    → (A → Step io alloc B)
    → Step io alloc B
on_run s (done a) f = f a
on_run s (fail e) f = done (s, err e)
on_run s fault f = fault
on_run s out_of_fuel f = out_of_fuel

-- `ctree_builder_node`: an access past the array is a fault.
abbrev pub on_node :
    {io : Io} {alloc : Alloc} {A : Type 0}
    → Option CtreeNode
    → (CtreeNode → Step io alloc A)
    → Step io alloc A
on_node none f = fault
on_node (some n) f = f n

abbrev pub put_builder : {io : Io} {alloc : Alloc} → Site io alloc → CtreeBuilder → Site io alloc
put_builder s b = record s { builder = b }

abbrev pub put_node :
    {io : Io} {alloc : Alloc} → Site io alloc → (level : ℕ) → CtreeNode → Site io alloc
put_node s level n = record s {
  builder = record (s.builder) { node = set_node s.builder.node level n };
}
