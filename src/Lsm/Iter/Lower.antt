-- ===== src/Lsm/Iter/Lower.antt =====
-- `lsm_lower_bound` of lib/lsm.c with a new iterator stands before the entries from the key on.
use mathlib.Core.Path.{subst}
use fuse_example.Base.{ℕ, zero, suc, ◌*◌, ◌≡◌, refl, sym, Bool, true, List, [], inl, inr}
use fuse_example.Errors.{ok, done, ◌>>=◌}
use fuse_example.Io.{Io}
use fuse_example.Lsm.Key.{Bytes, Entry, KeyOrder}
use fuse_example.Mtree.{mtree_lower_bound}
use fuse_example.Mtree.Bounds.{mtree_lower_bound-Stands}
use fuse_example.Mtree.Spec.{All, IsSorted, take_below, drop_below}
use fuse_example.RbTree.Inorder.{inorder}
use fuse_example.RbTree.Walk.{Stands}
use fuse_example.Ctree.Builder.{pointer_size}
use fuse_example.Ctree.Node.{AulsmfsPtr}
use fuse_example.Ctree.Root.{Ctree}
use fuse_example.Ctree.Iter.{ctree_iter_setup}
use fuse_example.Ctree.Iter.Lower.{lower_bound-Lowered}
use fuse_example.Ctree.Iter.Search.{ctree_lower_bound}
use fuse_example.Ctree.Iter.Spec.{HoldsTree}
use fuse_example.Lsm.Iter.{Cursor, memory, disk, TreeSlot, LsmIter, on_disk}
use fuse_example.Lsm.Iter.Begin.{StandsBefore, IsOver, shows}
use fuse_example.Lsm.Iter.Cursors.{CursorAt, Shows}
use fuse_example.Lsm.Iter.Each.{Views, each_tree-works}
use fuse_example.Lsm.Iter.Merge.{HasBytes, Merged, set_the_smallest-Merged}
use fuse_example.Lsm.Iter.Search.{cursor_lower_bound, search, lsm_lower_bound}

module _ (malloc : ℕ → Bool) (io : Io) (d : io.Disk) ⦃o : KeyOrder⦄ (key : Bytes) where
  open o use {cmp}

  flat :
      (ptr : AulsmfsPtr) (pages : ℕ)
      → StandsBefore malloc io d (drop_below key []) (
          on_disk (
            ctree_lower_bound malloc io d
              (ctree_iter_setup (record { ptr = ptr; height = 0; pages = pages }))
              key))
  unfolding ctree_lower_bound ctree_iter_setup drop_below
  flat ptr pages = (_, refl, inl (refl, refl))

  disk_lower :
      (t : Ctree) (xs : List Entry)
      → ((size : ℕ) → malloc size ≡ true)
      → HoldsTree malloc io d t.height t.ptr xs
      → IsSorted xs
      → StandsBefore malloc io d
          (drop_below key xs)
          (on_disk (ctree_lower_bound malloc io d (ctree_iter_setup t) key))
  disk_lower t xs enough h sorted = at_height t.ptr t.height t.pages h
    where
      at_height :
          (ptr : AulsmfsPtr) (height pages : ℕ)
          → HoldsTree malloc io d height ptr xs
          → StandsBefore malloc io d (drop_below key xs) (
              on_disk (
                ctree_lower_bound malloc io d
                  (ctree_iter_setup (record { ptr = ptr; height = height; pages = pages }))
                  key))
      at_height ptr zero pages over =
          subst
            (λ ys. StandsBefore malloc io d (drop_below key ys) (
              on_disk (
                ctree_lower_bound malloc io d
                  (ctree_iter_setup (record { ptr = ptr; height = 0; pages = pages })) key)))
            (sym over) (flat ptr pages)
      at_height ptr (suc level) pages stored =
          let low =
            lower_bound-Lowered malloc io d key ptr level pages xs stored sorted
              (enough (suc level * pointer_size)) in
          rw (low.returned, ◌>>=◌)
            (
              _,
              refl,
              inr (record {
                ptr = ptr;
                level = level;
                slots = low.slots;
                seen = low.seen;
                is_it = refl;
                stands = low.stands;
              }),
            )

  cursor_lower_bound-StandsBefore :
      (c : Cursor) (xs : List Entry)
      → ((size : ℕ) → malloc size ≡ true)
      → IsOver malloc io d c xs
      → IsSorted xs
      → StandsBefore malloc io d (drop_below key xs) (cursor_lower_bound malloc io d key c)
  unfolding cursor_lower_bound mtree_lower_bound
  cursor_lower_bound-StandsBefore (memory it) xs enough h sorted = (
    memory (mtree_lower_bound it key),
    refl,
    (
      take_below key (inorder it.tree),
      subst
          (λ ys.
            Stands it.tree (take_below key (inorder it.tree)) (drop_below key ys)
              (mtree_lower_bound it key).current)
          (sym h) (mtree_lower_bound-Stands key it (subst IsSorted h sorted)),
    ),
  )
  cursor_lower_bound-StandsBefore (disk it) xs enough (t, is_it, h) sorted =
      subst
        (λ i.
          StandsBefore malloc io d (drop_below key xs)
            (on_disk (ctree_lower_bound malloc io d i key)))
        (sym is_it) (disk_lower t xs enough h sorted)

  -- A new cursor, and the entries from the key on.
  abbrev pub Sought : TreeSlot → List Entry → Type 0
  Sought s ys =
      (xs : List Entry) × IsOver malloc io d s.cursor xs × IsSorted xs × (ys ≡ drop_below key xs)

  searches :
      ((size : ℕ) → malloc size ≡ true)
      → (s : TreeSlot) (ys : List Entry) → Sought s ys
      → (t : TreeSlot) × (search malloc io d (cursor_lower_bound malloc io d key) s
          ≡ done (t, ok tt))
        × Shows malloc io d t ys
  searches enough s ys (xs, over, sorted, below) =
      let (c, moved, stands) = cursor_lower_bound-StandsBefore s.cursor xs enough over sorted in
      rw (moved, ◌>>=◌)
        (shows malloc io d (record { cursor = c; item = s.item }) ys
          (subst (λ zs. CursorAt malloc io d c zs) (sym below) stands))

  pub lsm_lower_bound-Merged :
      (it : LsmIter) (xss : List (List Entry))
      → ((size : ℕ) → malloc size ≡ true)
      → Views Sought it.from it.to 0 it.trees xss
      → All (All HasBytes) xss
      → Merged malloc io d xss (lsm_lower_bound malloc io d it key)
  unfolding lsm_lower_bound
  lsm_lower_bound-Merged it xss enough h filled =
      let (found, moved, views) =
        each_tree-works Sought (Shows malloc io d)
          (search malloc io d (cursor_lower_bound malloc io d key)) (searches enough) it.from it.to
          0 it.trees xss h in
      rw (moved, ◌>>=◌)
        (set_the_smallest-Merged malloc io d (record it { trees = found }) xss enough views filled)
