-- ===== src/Ctree/Builder/Steps.antt =====
-- The rest of the builder in lib/ctree.c: flushes, levels, appends and the end.
use fuse_example.Base.{
  ℕ, zero, suc, ◌+◌, ◌-◌, ◌*◌, Bool, true, false, [], ◌∷◌, ◌++◌, length, ltb, leb, if◌then◌else◌,
}
use fuse_example.Errors.{enomem, ok, err, done, fault, out_of_fuel}
use fuse_example.Alloc.{Alloc}
use fuse_example.Io.{Io, io_pages}
use fuse_example.Lsm.Key.{Bytes}
use fuse_example.Ctree.Node.{
  null_ptr, ctree_node_setup, ctree_node_reset, ctree_node_can_append, ctree_node_append,
  ctree_node_write, ctree_node_key,
}
use fuse_example.Ctree.Builder.{
  Site, Step, on_ok, on_run, on_node, put_builder, put_node, node_at, pointer_size, node_size,
  ptr_image,
}
use fuse_example.Ctree.Builder.Space.{ctree_builder_alloc}

module _ (malloc : ℕ → Bool) (io : Io) (alloc : Alloc) where
  -- `ctree_builder_flush`; `up` appends to the next level.
  unfoldable pub ctree_builder_flush :
      (up : Site io alloc → Bytes → Bytes → Step io alloc (Unit {0}))
      → Site io alloc
      → (level : ℕ) → Step io alloc (Unit {0})
  ctree_builder_flush up s level = on_node (node_at s.builder.node level) λ n. elim n.entry [
    | [] ↦ done (s, ok tt)
    | first ∷ slots ↦
        on_ok (ctree_builder_alloc malloc io alloc s (io_pages io.page_size n.bytes)) λ s offs.
          on_run s (ctree_node_write io s.disk n offs level) λ written.
            let s : Site io alloc = record (put_node s level written.1) { disk = written.0 } in
            on_run s (ctree_node_key written.1 first) λ key.
              on_ok (up s key (ptr_image written.1.ptr)) λ s u.
                on_node (node_at s.builder.node level)
                  λ n. done (put_node s level (ctree_node_reset n), ok tt)
  ]

  -- The loop of `ctree_builder_ensure_level`, for so many levels. `ctree_node_create` clears the
  -- node before it looks whether there is one.
  unfoldable pub add_nodes : (count : ℕ) → Site io alloc → Step io alloc (Unit {0})
  add_nodes zero s = done (s, ok tt)
  add_nodes (suc count) s =
      if malloc node_size
      then (on_run s (ctree_node_setup malloc io.page_size) λ n.
          add_nodes count (put_builder s (record (s.builder) { node = s.builder.node ++ n ∷ [] })))
      else fault

  -- The growth of the array of nodes.
  unfoldable pub grow_nodes : Site io alloc → (level : ℕ) → Step io alloc (Unit {0})
  grow_nodes s level =
      let b = s.builder in
      let next = if ltb (b.max_nodes * 2) (level + 1) then level + 1 else b.max_nodes * 2 in
      if leb b.max_nodes level
      then (if malloc (next * pointer_size)
          then done (put_builder s (record b { max_nodes = next }), ok tt)
          else done (s, err enomem))
      else done (s, ok tt)

  unfoldable pub ctree_builder_ensure_level : Site io alloc → (level : ℕ) → Step io alloc (Unit {0})
  unfolding add_nodes grow_nodes
  ctree_builder_ensure_level s level =
      if ltb level (length s.builder.node)
      then done (s, ok tt)
      else (on_ok (grow_nodes s level) λ s u. add_nodes (level + 1 - length s.builder.node) s)

  -- The end of `__ctree_builder_append`: the node may have been reset by the flush.
  unfoldable pub append_to : Site io alloc → (level : ℕ) → Bytes → Bytes → Step io alloc (Unit {0})
  append_to s level key val = on_node (node_at s.builder.node level) λ n.
      on_run s (ctree_node_append malloc io.page_size n key val)
        λ n. done (put_node s level n, ok tt)

  -- `__ctree_builder_append`, which calls itself for the next level by way of the flush.
  unfoldable pub ctree_builder_append_at :
      (fuel : ℕ) → Site io alloc → (level : ℕ) → Bytes → Bytes → Step io alloc (Unit {0})
  unfolding ctree_builder_ensure_level ctree_builder_flush append_to
  ctree_builder_append_at zero s level key val = out_of_fuel
  ctree_builder_append_at (suc fuel) s level key val =
      let up : Site io alloc → Bytes → Bytes → Step io alloc (Unit {0}) =
        λ s key val. ctree_builder_append_at fuel s (level + 1) key val in
      on_ok (ctree_builder_ensure_level s level) λ s u. on_node (node_at s.builder.node level) λ n.
        elim (ctree_node_can_append io.page_size n 1 (length key + length val)) [
          | true ↦ append_to s level key val
          | false ↦ on_ok (ctree_builder_flush up s level) λ s u. append_to s level key val
        ]

  -- `ctree_builder_append`: every level may be flushed once, and one more is added.
  unfoldable pub ctree_builder_append : Site io alloc → Bytes → Bytes → Step io alloc (Unit {0})
  ctree_builder_append s key val = ctree_builder_append_at (length s.builder.node + 2) s 0 key val

  -- The loop of `ctree_builder_finish` from a level on, with the level that it ends at.
  unfoldable pub flush_levels : (fuel : ℕ) → Site io alloc → (level : ℕ) → Step io alloc ℕ
  flush_levels zero s level = out_of_fuel
  flush_levels (suc fuel) s level =
      let up : Site io alloc → Bytes → Bytes → Step io alloc (Unit {0}) =
        λ s key val. ctree_builder_append_at (length s.builder.node + 2) s (level + 1) key val in
      elim (ltb (level + 1) (length s.builder.node)) [
        | false ↦ done (s, ok level)
        | true ↦ on_ok (ctree_builder_flush up s level) λ s u. flush_levels fuel s (level + 1)
      ]

  -- Its end, at a level above the leaves.
  unfoldable pub write_root : Site io alloc → (level : ℕ) → Step io alloc (Unit {0})
  write_root s level = on_node (node_at s.builder.node level) λ n.
      on_ok (ctree_builder_alloc malloc io alloc s (io_pages io.page_size n.bytes)) λ s offs.
        on_run s (ctree_node_write io s.disk n offs level) λ written.
          let s : Site io alloc = record (put_node s level (ctree_node_reset written.1)) {
            disk = written.0;
          } in
          done
            (put_builder s (record (s.builder) { ptr = written.1.ptr; height = level + 1 }), ok tt)

  unfoldable pub ctree_builder_finish : (fuel : ℕ) → Site io alloc → Step io alloc (Unit {0})
  unfolding flush_levels write_root
  ctree_builder_finish fuel s = on_ok (flush_levels fuel s 0) λ s level. elim level [
    | zero ↦ done (put_builder s (record (s.builder) { ptr = null_ptr; height = 0 }), ok tt)
    | suc lower ↦ write_root s (suc lower)
  ]
