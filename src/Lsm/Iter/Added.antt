-- ===== src/Lsm/Iter/Added.antt =====
-- `lsm_lookup` of lib/lsm.c finds what `lsm_add` stored, over all trees.
use mathlib.Core.Path.{subst}
use fuse_example.Base.{
  sym, [], ◌∷◌, ◌<◌, arith, ℕ, ◌+◌, ◌≡◌, refl, ap, ◌∙◌, Bool, true, some, List, ◌∷◌, length,
}
use fuse_example.Errors.{ok}
use fuse_example.Io.{Io}
use fuse_example.Lsm.Key.{Bytes, Entry, KeyOrder}
use fuse_example.Lsm.State.{Lsm, max_disk_trees, lsm_add}
use fuse_example.Lsm.Over.{over, overlay, overlay-IsSorted}
use fuse_example.Lsm.Over.Put.{over-put}
use fuse_example.Mtree.{Mtree, mtree_node_size}
use fuse_example.Mtree.Lookup.{find, find-put, if_equal, mtree_add-Added}
use fuse_example.Mtree.Spec.{All, IsSorted, put}
use fuse_example.RbTree.Inorder.{inorder}
use fuse_example.RbTree.Insert.Balance.{IsRbTree}
use fuse_example.Lsm.Iter.{lsm_iter_setup}
use fuse_example.Lsm.Iter.Lookup.{LooksUp, lsm_lookup-find}
use fuse_example.Lsm.Iter.Merge.{HasBytes}
use fuse_example.Lsm.Iter.Search.{lsm_lookup}
use fuse_example.Lsm.Iter.Walk.{between, between-All, lists, HoldEach}

module _ ⦃o : KeyOrder⦄ where
  open o use {cmp}

  -- What all trees hold, the newest entry of each key.
  abbrev pub entries : Lsm → List (List Entry) → List Entry
  entries m xss = overlay (between 0 (max_disk_trees + 1) 0 (lists m xss))

  put-HasBytes :
      (new : Entry) (xs : List Entry) → HasBytes new → All HasBytes xs → All HasBytes (put new xs)
  unfolding put
  put-HasBytes new [] h filled = (h, tt)
  put-HasBytes new (x ∷ xs) h filled = ground (arith, put-HasBytes new xs h filled.1)

  entries-put :
      (m : Lsm) (c0 : Mtree) (new : Entry) (xss : List (List Entry))
      → inorder c0.root ≡ put new (inorder m.c0.root)
      → entries (record m { c0 = c0 }) xss ≡ put new (entries m xss)
  unfolding overlay
  entries-put m c0 new xss e =
      let older = overlay (between 0 (max_disk_trees + 1) 1 (inorder m.c1.root ∷ xss)) in
      ap (λ xs. over xs older) e ∙ over-put new (inorder m.c0.root) older

  -- `lsm_add` on trees whose keys increase, the first map a red-black tree and the nodes of the
  -- three trees on disk readable, with memory, and with no empty key whose value is empty,
  -- neither in the trees nor in the new pair, succeeds, and then `lsm_lookup` with a new iterator
  -- finds the new pair for a key that compares equal to the new one, and for any other key what
  -- the trees laid over each other held before, the entry of the tree with the lowest index.
  pub lsm_lookup-lsm_add :
      (malloc : ℕ → Bool) (io : Io) (d : io.Disk) (m : Lsm) (xss : List (List Entry))
      (key val other : Bytes)
      → ((size : ℕ) → malloc size ≡ true)
      → length xss ≡ max_disk_trees
      → IsRbTree m.c0.root
      → HoldEach malloc io d m.ci xss
      → All IsSorted (lists m xss)
      → All (All HasBytes) (lists m xss)
      → 0 < length key + length val
      → (m' : Lsm) × (lsm_add malloc m key val ≡ some (m', ok tt))
        × LooksUp
            (if_equal
              (cmp key other)
              (record { key = key; val = val })
              (find other (entries m xss)))
            (lsm_lookup malloc io d (lsm_iter_setup m') other)
  unfolding lsm_add lsm_iter_setup
  lsm_lookup-lsm_add malloc io d m xss key val other enough three rb holds sorted filled
        some_bytes =
      let new : Entry = record { key = key; val = val } in
      let (c0, stored, added) =
        mtree_add-Added malloc m.c0 key val (record { is_rb = rb; sorted = sorted.0 })
          (enough (length key + length val + mtree_node_size)) in
      let whole = between-All IsSorted 0 (max_disk_trees + 1) 0 (lists m xss) tt sorted in
      rw (lsm_add, stored)
        (
          record m { c0 = c0 },
          refl,
          subst
              (λ found.
                LooksUp found
                  (lsm_lookup malloc io d (lsm_iter_setup (record m { c0 = c0 })) other))
              (ap (find other) (entries-put m c0 new xss added.items)
                ∙ find-put other new (entries m xss) (overlay-IsSorted _ whole))
              (lsm_lookup-find malloc io d other 0 (max_disk_trees + 1) (record m { c0 = c0 }) xss
                enough three (omega arith) holds (added.valid.sorted, sorted.1)
                (
                  subst (All HasBytes) (sym added.items)
                      (put-HasBytes new (inorder m.c0.root) some_bytes filled.0),
                  filled.1,
                )),
        )
