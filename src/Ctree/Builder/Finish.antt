-- ===== src/Ctree/Builder/Finish.antt =====
-- `ctree_builder_finish` of lib/ctree.c on a builder that never had a second level.
use mathlib.Core.Path.{subst}
use fuse_example.Base.{
  ℕ, suc, ◌+◌, ◌*◌, ◌≤◌, ◌≡◌, refl, arith, Bool, length, ge→ltb, Bool-cases, inl, inr,
}
use fuse_example.Errors.{ok, err, Run, done, fail, fault, out_of_fuel}
use fuse_example.Alloc.{Alloc}
use fuse_example.Io.{Io}
use fuse_example.Lsm.Key.{Bytes}
use fuse_example.Ctree.Node.{CtreeNode, null_ptr}
use fuse_example.Ctree.Node.Ends.{Ends, ctree_node_append-Ends}
use fuse_example.Ctree.Builder.{
  Site, Step, on_run, on_ok, on_node, set_node, pointer_size, node_size, ctree_builder_setup,
}
use fuse_example.Ctree.Builder.Steps.{
  grow_nodes, add_nodes, ctree_builder_ensure_level, append_to, ctree_builder_append_at,
  ctree_builder_append, ctree_builder_finish, flush_levels,
}
use fuse_example.Ctree.Builder.Kept.{length-set_node, setup-cases, ctree_node_can_append-fresh}

module _ (malloc : ℕ → Bool) (io : Io) (alloc : Alloc) where
  -- With one level at most the loop ends at the leaves.
  ctree_builder_finish-null :
      (fuel : ℕ) (s : Site io alloc)
      → length s.builder.node ≤ 1
      → ctree_builder_finish malloc io alloc (suc fuel) s
        ≡ done (record s { builder = record (s.builder) { ptr = null_ptr; height = 0 } }, ok tt)
  unfolding ctree_builder_finish
  ctree_builder_finish-null fuel s h =
      rw (flush_levels, ge→ltb (0 + 1) (length s.builder.node) h) refl

  -- The builder as it is set up.
  abbrev pub empty_site : io.Disk → alloc.State → Site io alloc
  empty_site disk space = record { disk = disk; space = space; builder = ctree_builder_setup }

  -- After a success there is one level at most, and the disk was not touched.
  abbrev IsUnwritten : io.Disk → Step io alloc (Unit {0}) → Type 0
  IsUnwritten disk (done (t, ok u)) = (length t.builder.node ≤ 1) × (t.disk ≡ disk)
  IsUnwritten disk (done (t, err e)) = Unit {0}
  IsUnwritten disk (fail e) = Unit {0}
  IsUnwritten disk fault = Unit {0}
  IsUnwritten disk out_of_fuel = ⊥

  on_run-IsUnwritten :
      (s : Site io alloc) (n : CtreeNode) (r : Run CtreeNode)
      → length s.builder.node ≤ 1
      → Ends r
      → IsUnwritten s.disk (
          on_run s r λ m. done (
            record s { builder = record (s.builder) { node = set_node s.builder.node 0 m } },
            ok tt,
          ))
  on_run-IsUnwritten s n (done m) h e = (omega (arith, h, length-set_node s.builder.node 0 m), refl)
  on_run-IsUnwritten s n (fail c) h e = tt
  on_run-IsUnwritten s n fault h e = tt
  on_run-IsUnwritten s n out_of_fuel h e = elim e [ ]

  first_append :
      (disk : io.Disk) (space : alloc.State) (key val : Bytes)
      → IsUnwritten disk (ctree_builder_append malloc io alloc (empty_site disk space) key val)
  unfolding ctree_builder_append ctree_builder_append_at ctree_builder_ensure_level grow_nodes
      add_nodes append_to ctree_builder_setup
  first_append disk space key val = elim (Bool-cases (malloc (1 * pointer_size))) [
    | inr full ↦ rw full tt
    | inl grown ↦ elim (Bool-cases (malloc node_size)) [
      | inr crash ↦ rw (grown, crash) tt
      | inl room ↦ elim (setup-cases malloc io alloc) [
        | inl full ↦ rw (grown, room, full) tt
        | inr (n, made, fresh) ↦
            rw
              (
                grown,
                room,
                made,
                on_run,
                on_ok,
                on_node,
                ctree_node_can_append-fresh io.page_size (length key + length val) n fresh,
              )
              (on_run-IsUnwritten _ n _ (omega arith)
                (ctree_node_append-Ends malloc io.page_size n key val))
      ]
    ]
  ]

  -- After a first `ctree_builder_append` on a fresh builder succeeds, `ctree_builder_finish`
  -- returns success with a null pointer and height zero, and the disk is as it was before the
  -- append.
  pub ctree_builder_finish-ctree_builder_append :
      (fuel : ℕ) (disk : io.Disk) (space : alloc.State) (key val : Bytes) (t : Site io alloc)
      → ctree_builder_append malloc io alloc (empty_site disk space) key val ≡ done (t, ok tt)
      → (ctree_builder_finish malloc io alloc (suc fuel) t
          ≡ done (record t { builder = record (t.builder) { ptr = null_ptr; height = 0 } }, ok tt))
        × (t.disk ≡ disk)
  ctree_builder_finish-ctree_builder_append fuel disk space key val t e =
      let (levels, same) = subst (IsUnwritten disk) e (first_append disk space key val) in
      (ctree_builder_finish-null fuel t levels, same)
