-- ===== src/Lsm/Iter/Begin.antt =====
-- `lsm_iter_setup` and `lsm_begin` of lib/lsm.c stand before all entries.
use mathlib.Core.Path.{subst}
use fuse_example.Base.{ℕ, zero, suc, ◌*◌, ◌≡◌, refl, sym, Bool, true, List, [], inl, inr}
use fuse_example.Errors.{ok, done, ◌>>=◌}
use fuse_example.Io.{Io}
use fuse_example.Lsm.Key.{Entry, KeyOrder}
use fuse_example.Mtree.{mtree_begin}
use fuse_example.Mtree.Spec.{All}
use fuse_example.RbTree.Inorder.{inorder}
use fuse_example.RbTree.{rb_leftmost}
use fuse_example.RbTree.Walk.{Stands, rb_leftmost-Stands}
use fuse_example.Lsm.Over.{head}
use fuse_example.Ctree.Builder.{pointer_size}
use fuse_example.Ctree.Node.{AulsmfsPtr}
use fuse_example.Ctree.Root.{Ctree}
use fuse_example.Ctree.Iter.{Moved, ctree_iter_setup, ctree_begin}
use fuse_example.Ctree.Iter.Spec.{HoldsTree}
use fuse_example.Ctree.Iter.Walk.{ctree_begin-Moves, on_prepared-fresh}
use fuse_example.Lsm.Iter.{
  Cursor, memory, disk, TreeSlot, LsmIter, set_item, cursor_begin, on_cursor, on_disk, lsm_begin,
  lsm_set_items,
}
use fuse_example.Lsm.Iter.Cursors.{CursorAt, Shows, cursor_item-head}
use fuse_example.Lsm.Iter.Each.{Views, each_tree-works}
use fuse_example.Lsm.Iter.Merge.{HasBytes, Merged, set_the_smallest-Merged}

module _ (malloc : ℕ → Bool) (io : Io) (d : io.Disk) where
  -- A new iterator over a tree that holds the entries.
  abbrev pub IsOver : Cursor → List Entry → Type 0
  IsOver (memory it) xs = xs ≡ inorder it.tree
  IsOver (disk it) xs =
      (t : Ctree) × (it ≡ ctree_iter_setup t) × HoldsTree malloc io d t.height t.ptr xs

  abbrev pub StandsBefore : List Entry → Moved Cursor → Type 0
  StandsBefore xs m = (c : Cursor) × (m ≡ done (c, ok tt)) × CursorAt malloc io d c xs

  disk_begin :
      (t : Ctree) (xs : List Entry)
      → ((size : ℕ) → malloc size ≡ true)
      → HoldsTree malloc io d t.height t.ptr xs
      → StandsBefore xs (on_disk (ctree_begin malloc io d (ctree_iter_setup t)))
  unfolding ctree_begin ctree_iter_setup
  disk_begin t xs enough h = at_height t.ptr t.height t.pages h
    where
      at_height :
          (ptr : AulsmfsPtr) (height pages : ℕ)
          → HoldsTree malloc io d height ptr xs
          → StandsBefore xs (
              on_disk (
                ctree_begin malloc io d
                  (ctree_iter_setup (record { ptr = ptr; height = height; pages = pages }))))
      at_height ptr zero pages over =
          rw (on_prepared-fresh malloc ptr 0 _ (enough (0 * pointer_size)))
            (_, refl, inl (refl, over))
      at_height ptr (suc level) pages stored =
          let (slots, moved, stands) =
            ctree_begin-Moves malloc io d ptr level pages xs stored
              (enough (suc level * pointer_size)) in
          rw (moved, ◌>>=◌)
            (
              _,
              refl,
              inr (record {
                ptr = ptr;
                level = level;
                slots = slots;
                seen = [];
                is_it = refl;
                stands = stands;
              }),
            )

  cursor_begin-StandsBefore :
      (c : Cursor) (xs : List Entry)
      → ((size : ℕ) → malloc size ≡ true)
      → IsOver c xs
      → StandsBefore xs (cursor_begin malloc io d c)
  unfolding cursor_begin mtree_begin
  cursor_begin-StandsBefore (memory it) xs enough h = (
    memory (mtree_begin it),
    refl,
    (
      [],
      subst (λ ys. Stands it.tree [] ys (rb_leftmost it.tree)) (sym h) (rb_leftmost-Stands it.tree),
    ),
  )
  cursor_begin-StandsBefore (disk it) xs enough (t, is_it, h) =
      subst (λ i. StandsBefore xs (on_disk (ctree_begin malloc io d i))) (sym is_it)
        (disk_begin t xs enough h)

  abbrev pub Fresh : TreeSlot → List Entry → Type 0
  Fresh s xs = IsOver s.cursor xs

  abbrev Placed : TreeSlot → List Entry → Type 0
  Placed s xs = CursorAt malloc io d s.cursor xs

  begins :
      ((size : ℕ) → malloc size ≡ true)
      → (s : TreeSlot) (xs : List Entry) → Fresh s xs
      → (t : TreeSlot) × (on_cursor (cursor_begin malloc io d) s ≡ done (t, ok tt)) × Placed t xs
  begins enough s xs h =
      let (c, moved, stands) = cursor_begin-StandsBefore s.cursor xs enough h in
      rw (moved, ◌>>=◌) (record { cursor = c; item = s.item }, refl, stands)

  pub shows :
      (s : TreeSlot) (xs : List Entry)
      → Placed s xs
      → (t : TreeSlot) × (set_item s ≡ done (t, ok tt)) × Shows malloc io d t xs
  unfolding set_item
  shows s xs h =
      rw (cursor_item-head malloc io d s.cursor xs h, ◌>>=◌)
        (record { cursor = s.cursor; item = head xs }, refl, record { stands = h; item = refl })

  module _ ⦃o : KeyOrder⦄ where
    pub lsm_begin-Merged :
        (it : LsmIter) (xss : List (List Entry))
        → ((size : ℕ) → malloc size ≡ true)
        → Views Fresh it.from it.to 0 it.trees xss
        → All (All HasBytes) xss
        → Merged malloc io d xss (lsm_begin malloc io d it)
    unfolding lsm_begin lsm_set_items
    lsm_begin-Merged it xss enough h filled =
        let (begun, moved, placed) =
          each_tree-works Fresh Placed (on_cursor (cursor_begin malloc io d)) (begins enough)
            it.from it.to 0 it.trees xss h in
        let (seen, set, views) =
          each_tree-works Placed (Shows malloc io d) set_item shows it.from it.to 0 begun xss
            placed in
        rw (moved, ◌>>=◌, set)
          (set_the_smallest-Merged malloc io d (record it { trees = seen }) xss enough views filled)
