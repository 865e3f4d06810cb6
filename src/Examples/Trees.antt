-- ===== src/Examples/Trees.antt =====
-- Instances for util/rbtree.c and lib/mtree.c, at a tree of three entries.
use Prim.Native.Nat.Ordering.{eq}
use fuse_example.Base.{
  length, ◌≤◌, ℕ, ◌≡◌, refl, arith, Bool, true, none, some, List, [], ◌∷◌, ◌++◌,
}
use fuse_example.Errors.{ok, done}
use fuse_example.Lsm.Key.{Entry}
use fuse_example.RbTree.{
  red, black, Tree, leaf, node, Frame, from_left, from_right, Position, at, plug, rb_next, rb_prev,
}
use fuse_example.RbTree.Inorder.{inorder, tree_of, passed, item, ahead}
use fuse_example.RbTree.Walk.{Stands, StandsBefore, behind, rb_next-Stands, rb_prev-StandsBefore}
use fuse_example.RbTree.Erase.{rb_erase, rb_erase_fix, round_left}
use fuse_example.RbTree.Erase.Balance.{EndsErased, rb_erase-EndsErased}
use fuse_example.RbTree.Erase.Order.{inorder-rb_erase}
use fuse_example.RbTree.Insert.{rb_insert, mend_left}
use fuse_example.RbTree.Insert.Balance.{IsPath, IsRbTree, EndsBalanced, rb_insert-EndsBalanced}
use fuse_example.RbTree.Insert.Order.{inorder-rb_insert}
use fuse_example.Mtree.{
  Mtree, MtreeIter, mtree_begin, mtree_insert, mtree_add, mtree_lower_bound, mtree_upper_bound,
  mtree_lookup, mtree_iter_setup, entry_at?, is_some,
}
use fuse_example.Mtree.Spec.{IsSorted, put, take_below, drop_below, take_upto, drop_upto}
use fuse_example.Mtree.Insert.{mtree_insert-put}
use fuse_example.Mtree.Bounds.{mtree_lower_bound-Stands}
use fuse_example.Mtree.Upper.{mtree_upper_bound-StandsBefore}
use fuse_example.Mtree.Lookup.{
  find, if_equal, IsValid, Added, mtree_lookup-find, mtree_add-Added, mtree_lookup-mtree_add,
}
use fuse_example.Mtree.Iterate.{
  entries_from, entries_from-mtree_begin, entries_from-mtree_lower_bound,
}
use fuse_example.Examples.Orders.{by_number}

abbrev pair : ℕ → Entry
pair k = record { key = k ∷ []; val = k ∷ k ∷ [] }

abbrev three : Tree Entry
three = node black (node red leaf (pair 2) leaf) (pair 4) (node red leaf (pair 6) leaf)

three-IsRbTree : IsRbTree three
three-IsRbTree = record { balanced = ground arith; black_root = refl }

three-IsSorted : IsSorted (inorder three)
three-IsSorted = ground arith

-- The node that the descent links in for a key between two others.
abbrev place : List (Frame Entry)
place = from_right red leaf (pair 2) ∷ from_left black (pair 4) (node red leaf (pair 6) leaf) ∷ []

place-IsPath : IsPath 0 place
place-IsPath = ground arith

rb_insert-EndsBalanced_example : EndsBalanced (rb_insert (node red leaf (pair 3) leaf) place)
rb_insert-EndsBalanced_example =
    rb_insert-EndsBalanced leaf (pair 3) leaf place (ground arith) place-IsPath

-- A bent path under a black uncle: both rotations.
abbrev bent : List (Frame Entry)
bent = from_right red leaf (pair 2) ∷ from_left black (pair 4) leaf ∷ []

abbrev rotated : Tree Entry
rotated = node black (node red leaf (pair 2) leaf) (pair 3) (node red leaf (pair 4) leaf)

rb_insert-bent : rb_insert (node red leaf (pair 3) leaf) bent ≡ some rotated
unfolding rb_insert mend_left
rb_insert-bent = refl

inorder-rb_insert_example : inorder rotated ≡ inorder (plug (node red leaf (pair 3) leaf) bent)
inorder-rb_insert_example = inorder-rb_insert (node red leaf (pair 3) leaf) bent rb_insert-bent

-- The node of key 2, with the root as its parent.
abbrev second : Position Entry
second = at red leaf (pair 2) leaf (from_left black (pair 4) (node red leaf (pair 6) leaf) ∷ [])

rb_next-Stands_example :
    Stands
      (tree_of second)
      (passed second ++ item second ∷ [])
      (behind second)
      (rb_next (some second))
rb_next-Stands_example = rb_next-Stands second

rb_prev-StandsBefore_example :
    StandsBefore (tree_of second) (passed second) (ahead (some second)) (rb_prev (some second))
rb_prev-StandsBefore_example = rb_prev-StandsBefore second

-- The root has two children: the node of key 6 takes its place.
abbrev root_three : Position Entry
root_three = at black (node red leaf (pair 2) leaf) (pair 4) (node red leaf (pair 6) leaf) []

rb_erase-EndsErased_example : EndsErased (rb_erase root_three)
rb_erase-EndsErased_example = rb_erase-EndsErased root_three three-IsRbTree

-- A black leaf below a red parent's black sibling: the loop runs, and rotates.
abbrev short_side : Position Entry
short_side =
    at black leaf (pair 2) leaf
      (from_left black (pair 4) (node black leaf (pair 6) (node red leaf (pair 8) leaf)) ∷ [])

abbrev evened : Tree Entry
evened = node black (node black leaf (pair 4) leaf) (pair 6) (node black leaf (pair 8) leaf)

rb_erase-short_side : rb_erase short_side ≡ done evened
unfolding rb_erase rb_erase_fix round_left
rb_erase-short_side = refl

inorder-rb_erase_example : inorder evened ≡ passed short_side ++ behind short_side
inorder-rb_erase_example = inorder-rb_erase short_side rb_erase-short_side

abbrev map_three : Mtree
map_three = record { bytes = 9; root = three }

map_three-IsValid : IsValid map_three
map_three-IsValid = record { is_rb = three-IsRbTree; sorted = three-IsSorted }

abbrev it_three : MtreeIter
it_three = record { tree = three; current = none }

mtree_insert-put_example :
    (u : Tree Entry) × (mtree_insert three [] (pair 3) ≡ some u)
    × IsRbTree u
    × (inorder u ≡ put (pair 3) (inorder three))
    × IsSorted (inorder u)
mtree_insert-put_example = mtree_insert-put three (pair 3) three-IsRbTree three-IsSorted

mtree_lower_bound-Stands_example :
    Stands three
      (take_below (3 ∷ []) (inorder three))
      (drop_below (3 ∷ []) (inorder three))
      (mtree_lower_bound it_three (3 ∷ [])).current
mtree_lower_bound-Stands_example = mtree_lower_bound-Stands (3 ∷ []) it_three three-IsSorted

mtree_upper_bound-StandsBefore_example :
    StandsBefore three
      (take_upto (3 ∷ []) (inorder three))
      (drop_upto (3 ∷ []) (inorder three))
      (mtree_upper_bound it_three (3 ∷ [])).current
mtree_upper_bound-StandsBefore_example =
    mtree_upper_bound-StandsBefore (3 ∷ []) it_three three-IsSorted

mtree_lookup-find_example :
    (entry_at? (mtree_lookup it_three (4 ∷ [])).0.current ≡ find (4 ∷ []) (inorder three))
    × ((mtree_lookup it_three (4 ∷ [])).1 ≡ is_some (find (4 ∷ []) (inorder three)))
mtree_lookup-find_example = mtree_lookup-find it_three (4 ∷ []) three-IsSorted

abbrev always : ℕ → Bool
always size = true

mtree_add-Added_example :
    (m : Mtree) × (mtree_add always map_three (5 ∷ []) [] ≡ some (m, ok tt))
    × Added map_three (5 ∷ []) [] m
mtree_add-Added_example = mtree_add-Added always map_three (5 ∷ []) [] map_three-IsValid refl

-- The same, to look up in.
added_five :
    (m : Mtree) × (mtree_add always map_three (5 ∷ []) [] ≡ some (m, ok tt))
    × Added map_three (5 ∷ []) [] m
added_five = mtree_add-Added always map_three (5 ∷ []) [] map_three-IsValid refl

mtree_lookup-mtree_add_example :
    entry_at? (mtree_lookup (mtree_iter_setup added_five.0) (5 ∷ [])).0.current
    ≡ if_equal eq
        (record { key = 5 ∷ []; val = [] })
        (entry_at? (mtree_lookup (mtree_iter_setup map_three) (5 ∷ [])).0.current)
mtree_lookup-mtree_add_example =
    mtree_lookup-mtree_add always map_three added_five.0 (5 ∷ []) [] (5 ∷ []) map_three-IsValid
      added_five.1

entries_from-mtree_begin_example :
    entries_from 3 (mtree_begin (mtree_iter_setup map_three)) ≡ inorder three
entries_from-mtree_begin_example = entries_from-mtree_begin map_three 3 (omega arith)

-- Two of the three keys are not below 3.
two_above : length (drop_below (3 ∷ []) (inorder three)) ≤ 2
unfolding drop_below
two_above = omega arith

entries_from-mtree_lower_bound_example :
    entries_from 2 (mtree_lower_bound (mtree_iter_setup map_three) (3 ∷ []))
    ≡ drop_below (3 ∷ []) (inorder three)
entries_from-mtree_lower_bound_example =
    entries_from-mtree_lower_bound map_three (3 ∷ []) 2 three-IsSorted two_above
