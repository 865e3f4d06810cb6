-- ===== src/Ctree/Builder/Space.antt =====
-- `ctree_builder_alloc` and `ctree_builder_cancel` of lib/ctree.c: the pages that a builder reserves.
use fuse_example.Base.{ℕ, ◌+◌, ◌-◌, ◌*◌, Bool, List, [], ◌∷◌, length, ◌==◌, if◌then◌else◌}
use fuse_example.Errors.{enomem, ok, err, done}
use fuse_example.Alloc.{Alloc, alloc_reserve, alloc_cancel}
use fuse_example.Io.{Io}
use fuse_example.Ctree.Builder.{Range, Site, Step, on_ok, put_builder, add_range, range_size}

module _ (malloc : ℕ → Bool) (io : Io) (alloc : Alloc) where
  -- The growth of `reserved` in `ctree_builder_alloc`.
  unfoldable pub grow_ranges : Site io alloc → Step io alloc (Unit {0})
  grow_ranges s =
      let ranges = length s.builder.reserved in
      let next = if ranges == 0 then 16 else ranges * 2 in
      if ranges == s.builder.max_ranges
      then (if malloc (next * range_size)
          then done (put_builder s (record (s.builder) { max_ranges = next }), ok tt)
          else done (s, err enomem))
      else done (s, ok tt)

  -- The rest of it.
  unfoldable pub reserve_range : Site io alloc → (size : ℕ) → Step io alloc ℕ
  reserve_range s size = elim (alloc_reserve alloc s.space size) [
    | err e ↦ done (s, err e)
    | ok (space, offs) ↦ done (
      record s {
        space = space;
        builder = record (s.builder) {
          pages = s.builder.pages + size;
          reserved = add_range s.builder.reserved size offs;
        };
      },
      ok offs,
    )
  ]

  unfoldable pub ctree_builder_alloc : Site io alloc → (size : ℕ) → Step io alloc ℕ
  unfolding grow_ranges reserve_range
  ctree_builder_alloc s size = on_ok (grow_ranges s) λ s u. reserve_range s size

  -- `ctree_builder_cancel`, from the last range down.
  unfoldable pub cancel_ranges : alloc.State → List Range → alloc.State
  cancel_ranges space [] = space
  cancel_ranges space (r ∷ ranges) =
      alloc_cancel alloc (cancel_ranges space ranges) (r.end - r.begin) r.begin

  unfoldable pub ctree_builder_cancel : Site io alloc → Site io alloc
  unfolding cancel_ranges
  ctree_builder_cancel s = record s { space = cancel_ranges s.space s.builder.reserved }
