-- ===== src/Lsm/Iter/Walk.antt =====
-- `lsm_iter_setup`, `lsm_begin` and `lsm_next` of lib/lsm.c over the trees of `struct lsm`, as
-- `__lsm_merge` uses them: `from` and `to` choose the trees.
use fuse_example.Base.{
  ◌+◌, ℕ, suc, ◌<◌, ◌≡◌, refl, arith, Bool, true, false, List, [], ◌∷◌, length, if◌then◌else◌,
}
use fuse_example.Errors.{ok, err, Run, done, fail, ◌>>=◌}
use fuse_example.Io.{Io}
use fuse_example.Lsm.Key.{Entry, KeyOrder}
use fuse_example.Lsm.Over.{overlay}
use fuse_example.Lsm.State.{Lsm, max_disk_trees}
use fuse_example.Mtree.{mtree_iter_setup}
use fuse_example.Mtree.Spec.{All, IsSorted}
use fuse_example.RbTree.Inorder.{inorder}
use fuse_example.Ctree.Root.{Ctree}
use fuse_example.Ctree.Iter.Spec.{HoldsTree}
use fuse_example.Lsm.Iter.{TreeSlot, on_disk_trees, takes_part, leaves, lsm_iter_setup, lsm_begin}
use fuse_example.Lsm.Iter.Begin.{Fresh, lsm_begin-Merged}
use fuse_example.Lsm.Iter.Merge.{HasBytes}
use fuse_example.Lsm.Iter.Each.{Sees, Views}
use fuse_example.Lsm.Iter.Visit.{lsm_visit, lsm_visit-overlay}

-- The entries of the trees that take part.
abbrev pub between : (from to i : ℕ) → List (List Entry) → List (List Entry)
between from to i [] = []
between from to i (xs ∷ xss) =
    (if takes_part from to i then xs else []) ∷ between from to (suc i) xss

-- The entries of all trees by their index.
abbrev pub lists : Lsm → List (List Entry) → List (List Entry)
lists m xss = inorder m.c0.root ∷ inorder m.c1.root ∷ xss

pub between-All :
    (P : List Entry → Type 0) (from to i : ℕ) (xss : List (List Entry))
    → P []
    → All P xss
    → All P (between from to i xss)
between-All P from to i [] nil h = tt
between-All P from to i (xs ∷ xss) nil h =
    (ground (arith, h.0), between-All P from to (suc i) xss nil h.1)

-- No loop up to `to` leaves as many trees.
pub leaves_not : (from to i n : ℕ) → to < i + n → n ≡ 0 → leaves from to i ≡ false
leaves_not from to i n bound over = ground arith

module _ (malloc : ℕ → Bool) (io : Io) (d : io.Disk) where
  abbrev pub HoldEach : List Ctree → List (List Entry) → Type 0
  HoldEach [] [] = Unit
  HoldEach [] (xs ∷ xss) = ⊥
  HoldEach (t ∷ ts) [] = ⊥
  HoldEach (t ∷ ts) (xs ∷ xss) = HoldsTree malloc io d t.height t.ptr xs × HoldEach ts xss

  sees :
      (p : Bool) (s : TreeSlot) (xs : List Entry)
      → Fresh malloc io d s xs
      → Sees (Fresh malloc io d) p s (if p then xs else [])
  sees true s xs h = h
  sees false s xs h = refl

  disk-Views :
      (from to i : ℕ) (ts : List Ctree) (xss : List (List Entry))
      → HoldEach ts xss
      → to < i + length xss
      → Views (Fresh malloc io d) from to i (on_disk_trees ts) (between from to i xss)
  disk-Views from to i [] [] h bound = leaves_not from to i 0 bound refl
  disk-Views from to i [] (xs ∷ xss) h bound = elim h [ ]
  disk-Views from to i (t ∷ ts) [] h bound = elim h [ ]
  disk-Views from to i (t ∷ ts) (xs ∷ xss) h bound = (
    sees (takes_part from to i) _ xs (t, refl, h.0),
    disk-Views from to (suc i) ts xss h.1 (omega (arith, bound)),
  )

  module _ ⦃o : KeyOrder⦄ where
    unfoldable pub lsm_walk : (from to turns steps : ℕ) → Lsm → Run (List Entry)
    unfolding lsm_begin lsm_iter_setup lsm_visit
    lsm_walk from to turns steps m = do
      (it, rc) ← lsm_begin malloc io d (record (lsm_iter_setup m) { from = from; to = to })
      elim rc [ err e ↦ fail e | ok u ↦ lsm_visit malloc io d turns steps it ]

    -- `lsm_begin` on a new iterator over a range of the trees up to the last one, then `lsm_next`
    -- for each item, give the entries of the chosen trees laid over each other: in order, each
    -- key once, and of equal keys the entry of the tree with the lower index. Conditions: the
    -- keys of each tree increase, no entry has both an empty key and an empty value, the nodes of
    -- the three trees on disk can be read, there is memory, and there are more turns than
    -- entries.
    pub lsm_walk-overlay :
        (from to turns steps : ℕ) (m : Lsm) (xss : List (List Entry))
        → ((size : ℕ) → malloc size ≡ true)
        → length xss ≡ max_disk_trees
        → to < max_disk_trees + 2
        → HoldEach m.ci xss
        → All IsSorted (lists m xss)
        → All (All HasBytes) (lists m xss)
        → All (λ xs. length xs < steps) (lists m xss)
        → length (overlay (between from to 0 (lists m xss))) < turns
        → lsm_walk from to turns steps m ≡ done (overlay (between from to 0 (lists m xss)))
    unfolding lsm_walk lsm_iter_setup mtree_iter_setup
    lsm_walk-overlay from to turns steps m xss enough three bound holds sorted filled shorter more =
        let (it, begun, merges) =
          lsm_begin-Merged malloc io d (record (lsm_iter_setup m) { from = from; to = to })
            (between from to 0 (lists m xss)) enough
            (
              sees (takes_part from to 0) _ (inorder m.c0.root) refl,
              (
                sees (takes_part from to 1) _ (inorder m.c1.root) refl,
                disk-Views from to 2 m.ci xss holds (omega (arith, bound, three)),
              ),
            )
            (between-All (All HasBytes) from to 0 (lists m xss) tt filled) in
        rw begun (
          lsm_visit-overlay malloc io d turns steps it (between from to 0 (lists m xss)) enough
            merges (between-All IsSorted from to 0 (lists m xss) tt sorted)
            (between-All (λ xs. length xs < steps) from to 0 (lists m xss)
              (omega (arith, shorter.0)) shorter)
            more)
