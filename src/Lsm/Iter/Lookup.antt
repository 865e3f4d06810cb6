-- ===== src/Lsm/Iter/Lookup.antt =====
-- `lsm_lookup` of lib/lsm.c, and a walk from `lsm_lower_bound`, with a new iterator, against the lists of
-- the trees laid over each other.
use mathlib.Core.Path.{subst}
use Prim.Native.Nat.Ordering.{eq}
use fuse_example.Base.{
  ◌+◌, ℕ, suc, ◌≤◌, ◌<◌, ◌≡◌, refl, sym, ap, ◌∙◌, arith, Bool, true, false, Option, none, some,
  List, [], ◌∷◌, inl, inr, length, if◌then◌else◌,
}
use fuse_example.Errors.{Result, ok, err, Run, done, fail, ◌>>=◌}
use fuse_example.Io.{Io}
use fuse_example.Lsm.Key.{Bytes, Entry, KeyOrder}
use fuse_example.Lsm.State.{Lsm, max_disk_trees}
use fuse_example.Lsm.Over.{head, overlay, head-overlay, overlay-IsSorted}
use fuse_example.Lsm.Over.Below.{drop_each, overlay-drop_each, drop_each-IsSorted}
use fuse_example.Mtree.{mtree_iter_setup}
use fuse_example.Mtree.Bounds.{StartsHigh, drop_below-StartsHigh}
use fuse_example.Mtree.Lookup.{find, find-drop_below, find-sorted_gt, drop_below-IsSorted}
use fuse_example.Mtree.Spec.{All, IsSorted, drop_below}
use fuse_example.RbTree.Inorder.{inorder}
use fuse_example.Ctree.Root.{Ctree}
use fuse_example.Lsm.Iter.{TreeSlot, LsmIter, on_disk_trees, takes_part, lsm_iter_setup}
use fuse_example.Lsm.Iter.Each.{Sees, Views}
use fuse_example.Lsm.Iter.Lower.{Sought, lsm_lower_bound-Merged}
use fuse_example.Lsm.Iter.Merge.{HasBytes, Merged}
use fuse_example.Lsm.Iter.Search.{lsm_lower_bound, lsm_lookup}
use fuse_example.Lsm.Iter.Visit.{lsm_visit, lsm_visit-overlay}
use fuse_example.Lsm.Iter.Walk.{between, lists, between-All, leaves_not, HoldEach}

-- The answer of a lookup: the return code, and the item of the iterator.
abbrev pub LooksUp : Option Entry → Run (LsmIter × Result Bool) → Type 0
LooksUp none m = (it : LsmIter) × (m ≡ done (it, ok false))
LooksUp (some e) m = (it : LsmIter) × (m ≡ done (it, ok true)) × (it.item ≡ some e)

module _ (malloc : ℕ → Bool) (io : Io) (d : io.Disk) ⦃o : KeyOrder⦄ where
  open o use {cmp}

  -- `lsm_iter_setup`, `lsm_lower_bound` and a walk from there.
  unfoldable pub lsm_walk_from : (from to turns steps : ℕ) → Lsm → Bytes → Run (List Entry)
  unfolding lsm_lower_bound lsm_iter_setup lsm_visit
  lsm_walk_from from to turns steps m key = do
    (it, rc) ← lsm_lower_bound malloc io d (record (lsm_iter_setup m) { from = from; to = to }) key
    elim rc [ err e ↦ fail e | ok u ↦ lsm_visit malloc io d turns steps it ]

  module _ (key : Bytes) where
    sought :
        (p : Bool) (s : TreeSlot) (xs : List Entry)
        → Sought malloc io d key s (drop_below key xs)
        → Sees (Sought malloc io d key) p s (drop_below key (if p then xs else []))
    unfolding drop_below
    sought true s xs h = h
    sought false s xs h = refl

    disks-Views :
        (from to i : ℕ) (ts : List Ctree) (xss : List (List Entry))
        → HoldEach malloc io d ts xss
        → All IsSorted xss
        → to < i + length xss
        → Views
            (Sought malloc io d key)
            from
            to
            i
            (on_disk_trees ts)
            (drop_each key (between from to i xss))
    disks-Views from to i [] [] h s bound = leaves_not from to i 0 bound refl
    disks-Views from to i [] (xs ∷ xss) h s bound = elim h [ ]
    disks-Views from to i (t ∷ ts) [] h s bound = elim h [ ]
    disks-Views from to i (t ∷ ts) (xs ∷ xss) h s bound = (
      sought (takes_part from to i) _ xs (xs, (t, refl, h.0), s.0, refl),
      disks-Views from to (suc i) ts xss h.1 s.1 (omega (arith, bound)),
    )

    drop_below-HasBytes : (xs : List Entry) → All HasBytes xs → All HasBytes (drop_below key xs)
    unfolding drop_below
    drop_below-HasBytes [] h = tt
    drop_below-HasBytes (x ∷ xs) h = ground (arith, drop_below-HasBytes xs h.1)

    drop_each-HasBytes :
        (xss : List (List Entry)) → All (All HasBytes) xss → All (All HasBytes) (drop_each key xss)
    drop_each-HasBytes [] h = tt
    drop_each-HasBytes (xs ∷ xss) h = (drop_below-HasBytes xs h.0, drop_each-HasBytes xss h.1)

    lowered :
        (from to : ℕ) (m : Lsm) (xss : List (List Entry))
        → ((size : ℕ) → malloc size ≡ true)
        → length xss ≡ max_disk_trees
        → to < max_disk_trees + 2
        → HoldEach malloc io d m.ci xss
        → All IsSorted (lists m xss)
        → All (All HasBytes) (lists m xss)
        → Merged malloc io d
            (drop_each key (between from to 0 (lists m xss)))
            (lsm_lower_bound malloc io d (record (lsm_iter_setup m) { from = from; to = to }) key)
    unfolding lsm_iter_setup mtree_iter_setup
    lowered from to m xss enough three bound holds sorted filled =
        lsm_lower_bound-Merged malloc io d key (record (lsm_iter_setup m) { from = from; to = to })
          (drop_each key (between from to 0 (lists m xss))) enough
          (
            sought (takes_part from to 0) _ (inorder m.c0.root) (_, refl, sorted.0, refl),
            (
              sought (takes_part from to 1) _ (inorder m.c1.root) (_, refl, sorted.1.0, refl),
              disks-Views from to 2 m.ci xss holds sorted.1.1 (omega (arith, bound, three)),
            ),
          )
          (drop_each-HasBytes (between from to 0 (lists m xss))
            (between-All (All HasBytes) from to 0 (lists m xss) tt filled))

    -- The end of `lsm_lookup`.
    abbrev compare : LsmIter → Option Entry → Run (LsmIter × Result Bool)
    compare it item = elim item [
      | none ↦ done (it, ok false)
      | some e ↦ done (it, ok (elim (cmp e.key key) [ eq ↦ true | _ ↦ false ]))
    ]

    compare-LooksUp :
        (it : LsmIter) (item : Option Entry) (ys : List Entry)
        → it.item ≡ item
        → item ≡ head ys
        → StartsHigh key ys
        → IsSorted ys
        → LooksUp (find key ys) (compare it item)
    unfolding find
    compare-LooksUp it item [] k h high sorted = rw h (it, refl)
    compare-LooksUp it item (e ∷ ys) k h (inl same) sorted =
        rw (find, same, h, same) (it, refl, k ∙ h)
    compare-LooksUp it item (e ∷ ys) k h (inr above) sorted =
        rw (find-sorted_gt key e ys above sorted, h, above) (it, refl)

    -- Where the keys of each tree increase, no entry has both an empty key and an empty value,
    -- the nodes of the three trees on disk can be read and there is memory, `lsm_lookup` with a
    -- new iterator over a range of the trees up to the last one returns whether the chosen trees,
    -- laid over each other, have an entry with an equal key, and the iterator then has that
    -- entry.
    pub lsm_lookup-find :
        (from to : ℕ) (m : Lsm) (xss : List (List Entry))
        → ((size : ℕ) → malloc size ≡ true)
        → length xss ≡ max_disk_trees
        → to < max_disk_trees + 2
        → HoldEach malloc io d m.ci xss
        → All IsSorted (lists m xss)
        → All (All HasBytes) (lists m xss)
        → LooksUp
            (find key (overlay (between from to 0 (lists m xss))))
            (lsm_lookup malloc io d (record (lsm_iter_setup m) { from = from; to = to }) key)
    unfolding lsm_lookup
    lsm_lookup-find from to m xss enough three bound holds sorted filled =
        let whole = between from to 0 (lists m xss) in
        let (it, lower, merges) = lowered from to m xss enough three bound holds sorted filled in
        rw lower (
          subst (λ found. LooksUp found (compare it it.item)) (find-drop_below key (overlay whole))
            (compare-LooksUp it it.item (drop_below key (overlay whole)) refl
              (merges.item
                ∙ sym (head-overlay (drop_each key whole))
                ∙ ap head (overlay-drop_each key whole))
              (drop_below-StartsHigh key (overlay whole))
              (drop_below-IsSorted key (overlay whole)
                (overlay-IsSorted whole (between-All IsSorted from to 0 (lists m xss) tt sorted)))))

    length-drop_below : (xs : List Entry) → length (drop_below key xs) ≤ length xs
    unfolding drop_below
    length-drop_below [] = omega arith
    length-drop_below (x ∷ xs) = ground (arith, length-drop_below xs)

    drop_each-shorter :
        (steps : ℕ) (xss : List (List Entry))
        → All (λ xs. length xs < steps) xss
        → All (λ xs. length xs < steps) (drop_each key xss)
    drop_each-shorter steps [] h = tt
    drop_each-shorter steps (xs ∷ xss) h =
        (omega (arith, length-drop_below xs, h.0), drop_each-shorter steps xss h.1)

    -- `lsm_lower_bound` with a new iterator over a range of the trees up to the last one, then
    -- `lsm_next` for each item, give exactly the entries not below the key of the chosen trees
    -- laid over each other, and end. Conditions: the keys of each tree increase, no entry has
    -- both an empty key and an empty value, the nodes of the three trees on disk can be read,
    -- there is memory, and there are more turns than entries.
    pub lsm_walk_from-drop_below :
        (from to turns steps : ℕ) (m : Lsm) (xss : List (List Entry))
        → ((size : ℕ) → malloc size ≡ true)
        → length xss ≡ max_disk_trees
        → to < max_disk_trees + 2
        → HoldEach malloc io d m.ci xss
        → All IsSorted (lists m xss)
        → All (All HasBytes) (lists m xss)
        → All (λ xs. length xs < steps) (lists m xss)
        → length (drop_below key (overlay (between from to 0 (lists m xss)))) < turns
        → lsm_walk_from from to turns steps m key
          ≡ done (drop_below key (overlay (between from to 0 (lists m xss))))
    unfolding lsm_walk_from
    lsm_walk_from-drop_below from to turns steps m xss enough three bound holds sorted filled
          shorter more =
        let whole = between from to 0 (lists m xss) in
        let (it, lower, merges) = lowered from to m xss enough three bound holds sorted filled in
        let same = overlay-drop_each key whole in
        rw lower (
          lsm_visit-overlay malloc io d turns steps it (drop_each key whole) enough merges
            (drop_each-IsSorted key whole (between-All IsSorted from to 0 (lists m xss) tt sorted))
            (drop_each-shorter steps whole (
              between-All (λ xs. length xs < steps) from to 0 (lists m xss)
                (omega (arith, shorter.0)) shorter))
            (omega (arith, more, ap length same))
          ∙ ap done same)
