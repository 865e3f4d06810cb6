-- ===== src/Lsm/Iter/Search.antt =====
-- The searches of lib/lsm.c: in one tree after the other, and then the smallest of the entries found.
use Prim.Native.Nat.Ordering.{eq}
use fuse_example.Base.{ℕ, Bool, true, false, none, some}
use fuse_example.Errors.{Result, ok, err, Run, done, ◌>>=◌}
use fuse_example.Io.{Io}
use fuse_example.Lsm.Key.{Bytes, KeyOrder}
use fuse_example.Mtree.{mtree_lower_bound, mtree_upper_bound}
use fuse_example.Ctree.Iter.{Moved}
use fuse_example.Ctree.Iter.Search.{ctree_lower_bound, ctree_upper_bound}
use fuse_example.Lsm.Iter.{
  Cursor, memory, disk, TreeSlot, LsmIter, each_tree, set_item, on_cursor, on_disk, put_trees,
  ◌then◌, lsm_set_the_smallest,
}

module _ (malloc : ℕ → Bool) (io : Io) (d : io.Disk) ⦃o : KeyOrder⦄ where
  open o use {cmp}

  unfoldable pub cursor_lower_bound : Bytes → Cursor → Moved Cursor
  cursor_lower_bound key (memory it) = done (memory (mtree_lower_bound it key), ok tt)
  cursor_lower_bound key (disk it) = on_disk (ctree_lower_bound malloc io d it key)

  unfoldable pub cursor_upper_bound : Bytes → Cursor → Moved Cursor
  cursor_upper_bound key (memory it) = done (memory (mtree_upper_bound it key), ok tt)
  cursor_upper_bound key (disk it) = on_disk (ctree_upper_bound malloc io d it key)

  -- `lsm_lower_bound` and `lsm_upper_bound` search one tree after the other.
  abbrev pub search : (Cursor → Moved Cursor) → TreeSlot → Moved TreeSlot
  search go s =
      on_cursor go s >>= λ moved. elim moved.1 [ err e ↦ done moved | ok u ↦ set_item moved.0 ]

  unfoldable pub lsm_lower_bound : LsmIter → Bytes → Moved LsmIter
  unfolding each_tree lsm_set_the_smallest cursor_lower_bound set_item
  lsm_lower_bound it key =
      (each_tree (search (cursor_lower_bound key)) it.from it.to 0 it.trees >>= λ moved.
      done (put_trees it moved))
      then lsm_set_the_smallest malloc io d

  unfoldable pub lsm_upper_bound : LsmIter → Bytes → Moved LsmIter
  unfolding each_tree lsm_set_the_smallest cursor_upper_bound set_item
  lsm_upper_bound it key =
      (each_tree (search (cursor_upper_bound key)) it.from it.to 0 it.trees >>= λ moved.
      done (put_trees it moved))
      then lsm_set_the_smallest malloc io d

  -- The return code is 1 where the key was found.
  unfoldable pub lsm_lookup : LsmIter → Bytes → Run (LsmIter × Result Bool)
  lsm_lookup it key = do
    (it, rc) ← lsm_lower_bound it key
    elim rc [
      | err e ↦ done (it, err e)
      | ok u ↦ elim it.item [
        | none ↦ done (it, ok false)
        | some e ↦ done (it, ok (elim (cmp e.key key) [ eq ↦ true | _ ↦ false ]))
      ]
    ]
