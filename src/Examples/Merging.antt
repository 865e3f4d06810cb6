-- ===== src/Examples/Merging.antt =====
-- Instances for lib/lsm.c, at a map in memory over a tree of two leaves on disk.
use fuse_example.Base.{some, ◌≡◌, ◌<◌, ◌^◌, refl, arith, List, [], ◌∷◌, length}
use fuse_example.Errors.{done, ok}
use fuse_example.Lsm.Key.{Entry}
use fuse_example.Lsm.Over.{over, overlay}
use fuse_example.Lsm.State.{Lsm, lsm_add, lsm_setup, lsm_parse, lsm_dump, lsm_parse-lsm_dump}
use fuse_example.Mtree.Spec.{All, IsSorted, drop_below}
use fuse_example.RbTree.Insert.Balance.{IsRbTree}
use fuse_example.RbTree.{black, leaf, node}
use fuse_example.Ctree.Root.{Ctree, IsStorable}
use fuse_example.Lsm.Iter.Walk.{between, HoldEach, lists, lsm_walk, lsm_walk-overlay}
use fuse_example.Mtree.Lookup.{find, if_equal}
use fuse_example.Lsm.Iter.Lookup.{LooksUp, lsm_walk_from, lsm_lookup-find, lsm_walk_from-drop_below}
use fuse_example.Lsm.Iter.Added.{entries, lsm_lookup-lsm_add}
use fuse_example.Lsm.Iter.Merge.{HasBytes}
use fuse_example.Lsm.Iter.Search.{lsm_lookup}
use fuse_example.Lsm.Iter.{lsm_iter_setup}
use fuse_example.Examples.Orders.{by_number}
use fuse_example.Examples.Cursors.{item, flat, two_leaves, always, small_tree, small_tree-Stored}

-- A newer value for the key 5.
abbrev newer : Entry
newer = record { key = 5 ∷ []; val = [] }

abbrev empty_root : Ctree
empty_root = record { ptr = record { offs = 0; size = 0; csum = 0 }; height = 0; pages = 0 }

abbrev over_two : Lsm
over_two = record {
  c0 = record { bytes = 1; root = node black leaf newer leaf };
  c1 = record { bytes = 2; root = node black leaf (item 7) leaf };
  ci = small_tree ∷ empty_root ∷ empty_root ∷ [];
}

abbrev on_disk_lists : List (List Entry)
on_disk_lists = (item 2 ∷ item 5 ∷ []) ∷ [] ∷ [] ∷ []

over_two-HoldEach : HoldEach always flat two_leaves over_two.ci on_disk_lists
over_two-HoldEach = (small_tree-Stored, (refl, (refl, tt)))

over_two-IsSorted : All IsSorted (lists over_two on_disk_lists)
over_two-IsSorted = ground arith

over_two-HasBytes : All (All HasBytes) (lists over_two on_disk_lists)
over_two-HasBytes = ground arith

over_two-short : All (λ xs. length xs < 3) (lists over_two on_disk_lists)
over_two-short = ground arith

all_three : overlay (between 0 4 0 (lists over_two on_disk_lists)) ≡ item 2 ∷ newer ∷ item 7 ∷ []
unfolding overlay over
all_three = refl

few : length (overlay (between 0 4 0 (lists over_two on_disk_lists))) < 4
few = rw all_three (omega arith)

lsm_walk-overlay_example :
    lsm_walk always flat two_leaves 0 4 4 3 over_two
    ≡ done (overlay (between 0 4 0 (lists over_two on_disk_lists)))
lsm_walk-overlay_example =
    lsm_walk-overlay always flat two_leaves 0 4 4 3 over_two on_disk_lists (λ size. refl) refl
      (omega arith) over_two-HoldEach over_two-IsSorted over_two-HasBytes over_two-short few

storable :
    (t : Ctree)
    → t.ptr.offs < 2 ^ 64
    → t.ptr.size < 2 ^ 64
    → t.ptr.csum < 2 ^ 64
    → t.height < 2 ^ 32
    → t.pages < 2 ^ 32
    → IsStorable t
storable t a b c h p = record {
  offs_fits = a;
  size_fits = b;
  csum_fits = c;
  height_fits = h;
  pages_fits = p;
}

empty_root-IsStorable : IsStorable empty_root
empty_root-IsStorable =
    storable empty_root (omega arith) (omega arith) (omega arith) (omega arith) (omega arith)

lsm_parse-lsm_dump_example :
    lsm_parse lsm_setup (lsm_dump over_two)
    ≡ done (record { c0 = lsm_setup.c0; c1 = lsm_setup.c1; ci = over_two.ci })
lsm_parse-lsm_dump_example = lsm_parse-lsm_dump over_two lsm_setup refl (
  storable small_tree (omega arith) (omega arith) (omega arith) (omega arith) (omega arith),
  (empty_root-IsStorable, (empty_root-IsStorable, tt)),
)

lsm_lookup-find_example :
    LooksUp (find (5 ∷ []) (overlay (between 0 4 0 (lists over_two on_disk_lists)))) (
      lsm_lookup always flat two_leaves
        (record (lsm_iter_setup over_two) { from = 0; to = 4 })
        (5 ∷ []))
lsm_lookup-find_example =
    lsm_lookup-find always flat two_leaves (5 ∷ []) 0 4 over_two on_disk_lists (λ size. refl) refl
      (omega arith) over_two-HoldEach over_two-IsSorted over_two-HasBytes

from_three :
    length (drop_below (3 ∷ []) (overlay (between 0 4 0 (lists over_two on_disk_lists)))) < 3
unfolding drop_below
from_three = rw (drop_below, all_three) (omega arith)

lsm_walk_from-drop_below_example :
    lsm_walk_from always flat two_leaves 0 4 3 3 over_two (3 ∷ [])
    ≡ done (drop_below (3 ∷ []) (overlay (between 0 4 0 (lists over_two on_disk_lists))))
lsm_walk_from-drop_below_example =
    lsm_walk_from-drop_below always flat two_leaves (3 ∷ []) 0 4 3 3 over_two on_disk_lists
      (λ size. refl) refl (omega arith) over_two-HoldEach over_two-IsSorted over_two-HasBytes
      over_two-short from_three

newer-IsRbTree : IsRbTree over_two.c0.root
newer-IsRbTree = record { balanced = ground arith; black_root = refl }

-- The pair of 7 and 1 hides the value in the second map.
lsm_lookup-lsm_add_example :
    (m' : Lsm) × (lsm_add always over_two (7 ∷ []) (1 ∷ []) ≡ some (m', ok tt))
    × LooksUp
        (if_equal
          (by_number.cmp (7 ∷ []) (7 ∷ []))
          (record { key = 7 ∷ []; val = 1 ∷ [] })
          (find (7 ∷ []) (entries over_two on_disk_lists)))
        (lsm_lookup always flat two_leaves (lsm_iter_setup m') (7 ∷ []))
lsm_lookup-lsm_add_example =
    lsm_lookup-lsm_add always flat two_leaves over_two on_disk_lists (7 ∷ []) (1 ∷ []) (7 ∷ [])
      (λ size. refl) refl newer-IsRbTree over_two-HoldEach over_two-IsSorted over_two-HasBytes
      (omega arith)
