-- ===== src/Mtree.antt =====
-- inc/mtree.h and lib/mtree.c: the in-memory ordered map, a red-black tree of key and value
-- copies. A pointer to a node is a position of RbTree. What the allocator answers is an argument.
pub mod Bounds
pub mod Insert
pub mod Iterate
pub mod Lookup
pub mod Upper
pub mod Spec
pub mod Release
pub mod Sorted
use Prim.Native.Nat.Ordering.{lt, eq, gt}
use fuse_example.Base.{
  ℕ, zero, suc, ◌+◌, ◌%◌, ◌^◌, Bool, true, false, Option, none, some, List, [], ◌∷◌, ◌++◌, length,
  if◌then◌else◌,
}
use fuse_example.Errors.{Errno, enomem, enoent, Result, ok, err}
use fuse_example.Lsm.Key.{Bytes, Entry, KeyOrder}
use fuse_example.RbTree.{
  Color, red, Tree, leaf, node, Frame, from_left, from_right, Position, at, rb_swap_nodes,
  rb_leftmost, rb_rightmost, rb_next, rb_prev,
}
use fuse_example.RbTree.Insert.{rb_insert}

-- `struct mtree`; the order `cmp` is the argument of the functions that compare.
pub record Mtree : Type 0 where
  pub bytes : ℕ
  pub root : Tree Entry

-- `struct mtree_iter`: the tree, and the node or the end.
pub record MtreeIter : Type 0 where
  pub tree : Tree Entry
  pub current : Option (Position Entry)

unfoldable pub mtree_setup : Mtree
mtree_setup = record { bytes = 0; root = leaf }

-- `__mtree_release`: the nodes in the order in which they are freed.
unfoldable pub release_nodes : Tree Entry → List Entry
release_nodes leaf = []
release_nodes (node c l a r) = release_nodes r ++ a ∷ release_nodes l

-- `mtree_release` and `mtree_reset`: the tree afterwards, and the freed nodes.
unfoldable pub mtree_release : Mtree → Mtree × List Entry
unfolding release_nodes
mtree_release m = (record { bytes = 0; root = leaf }, release_nodes m.root)

unfoldable pub mtree_reset : Mtree → Mtree × List Entry
unfolding release_nodes
mtree_reset m = (record { bytes = 0; root = leaf }, release_nodes m.root)

unfoldable pub mtree_is_empty : Mtree → Bool
mtree_is_empty m = elim m.root [ leaf ↦ true | node c l a r ↦ false ]

unfoldable pub mtree_swap : Mtree → Mtree → Mtree × Mtree
mtree_swap l r = (r, l)

-- `sizeof(struct mtree_node)`: three words for the tree links, two for the key, two for the value.
abbrev pub mtree_node_size : ℕ
mtree_node_size = 56

-- `mtree_node_create`: `malloc` says whether it has so many bytes. The copies follow the node.
unfoldable pub mtree_node_create : (malloc : ℕ → Bool) → Bytes → Bytes → Option Entry
mtree_node_create malloc key val =
    if malloc (length key + length val + mtree_node_size)
    then some (record { key = key; val = val })
    else none

unfoldable pub mtree_iter_setup : Mtree → MtreeIter
mtree_iter_setup m = record { tree = m.root; current = none }

unfoldable pub mtree_begin : MtreeIter → MtreeIter
mtree_begin it = record it { current = rb_leftmost it.tree }

unfoldable pub mtree_end : MtreeIter → MtreeIter
mtree_end it = record it { current = none }

unfoldable pub mtree_next : MtreeIter → MtreeIter × Result (Unit {0})
mtree_next it = elim it.current [
  | none ↦ (it, err enoent)
  | some p ↦ (record it { current = rb_next (some p) }, ok tt)
]

-- Whether two node pointers of one tree are equal: a node is told by the path to it.
abbrev pub same_path : {A : Type 0} → List (Frame A) → List (Frame A) → Bool
same_path [] [] = true
same_path (from_left c a r ∷ p) (from_left d b s ∷ q) = same_path p q
same_path (from_right c l a ∷ p) (from_right d m b ∷ q) = same_path p q
same_path _ _ = false

abbrev pub same_node : {A : Type 0} → Option (Position A) → Option (Position A) → Bool
same_node none none = true
same_node (some (at c l a r p)) (some (at d m b s q)) = same_path p q
same_node _ _ = false

unfoldable pub mtree_prev : MtreeIter → MtreeIter × Result (Unit {0})
mtree_prev it =
    if same_node it.current (rb_leftmost it.tree) then (it, err enoent) else elim it.current [
      | none ↦ (record it { current = rb_rightmost it.tree }, ok tt)
      | some p ↦ (record it { current = rb_prev (some p) }, ok tt)
    ]

abbrev pub entry_at : Position Entry → Entry
entry_at (at c l a r path) = a

abbrev pub entry_at? : Option (Position Entry) → Option Entry
entry_at? none = none
entry_at? (some p) = some (entry_at p)

-- The key is zeroed where there is none: `none` is the null pointer.
unfoldable pub mtree_key : MtreeIter → Option Bytes × Result (Unit {0})
mtree_key it = elim it.current [
  | none ↦ (none, err enoent)
  | some p ↦ (some (entry_at p).key, ok tt)
]

unfoldable pub mtree_val : MtreeIter → Option Bytes × Result (Unit {0})
mtree_val it = elim it.current [
  | none ↦ (none, err enoent)
  | some p ↦ (some (entry_at p).val, ok tt)
]

module _ ⦃o : KeyOrder⦄ where
  open o use {cmp}

  -- `__mtree_insert`, from the node at `plink` with its path: an equal key is replaced in place.
  unfoldable pub mtree_insert : Tree Entry → List (Frame Entry) → Entry → Option (Tree Entry)
  mtree_insert leaf path new = rb_insert (node red leaf new leaf) path
  mtree_insert (node c l old r) path new = elim (cmp old.key new.key) [
    | eq ↦ some (rb_swap_nodes (at c l old r path) new)
    | lt ↦ mtree_insert r (from_right c l old ∷ path) new
    | gt ↦ mtree_insert l (from_left c old r ∷ path) new
  ]

  -- `none` is the access through a null pointer in `rb_insert`.
  unfoldable pub mtree_add :
      (malloc : ℕ → Bool) → Mtree → Bytes → Bytes → Option (Mtree × Result (Unit {0}))
  unfolding mtree_node_create
  mtree_add malloc m key val = elim (mtree_node_create malloc key val) [
    | none ↦ some (m, err enomem)
    | some new ↦ elim (mtree_insert m.root [] new) [
      | none ↦ none
      | some t ↦
          some (record { bytes = (m.bytes + (length key + length val)) % 2 ^ 64; root = t }, ok tt)
    ]
  ]

  -- The loop of `mtree_lower_bound`, with `p` and its path, and `lower`.
  unfoldable pub lower_loop :
      Bytes → Tree Entry → List (Frame Entry) → Option (Position Entry) → Option (Position Entry)
  lower_loop key leaf path lower = lower
  lower_loop key (node c l a r) path lower = elim (cmp a.key key) [
    | lt ↦ lower_loop key r (from_right c l a ∷ path) lower
    | _ ↦ lower_loop key l (from_left c a r ∷ path) (some (at c l a r path))
  ]

  unfoldable pub mtree_lower_bound : MtreeIter → Bytes → MtreeIter
  unfolding lower_loop
  mtree_lower_bound it key = record it { current = lower_loop key it.tree [] none }

  unfoldable pub upper_loop :
      Bytes → Tree Entry → List (Frame Entry) → Option (Position Entry) → Option (Position Entry)
  upper_loop key leaf path upper = upper
  upper_loop key (node c l a r) path upper = elim (cmp a.key key) [
    | gt ↦ upper_loop key l (from_left c a r ∷ path) upper
    | _ ↦ upper_loop key r (from_right c l a ∷ path) (some (at c l a r path))
  ]

  unfoldable pub mtree_upper_bound : MtreeIter → Bytes → MtreeIter
  unfolding upper_loop
  mtree_upper_bound it key = record it { current = upper_loop key it.tree [] none }

  abbrev pub keep_equal : Bytes → Option (Position Entry) → Option (Position Entry)
  keep_equal key none = none
  keep_equal key (some p) = elim (cmp (entry_at p).key key) [ eq ↦ some p | _ ↦ none ]

  abbrev pub is_some {ℓ} : {A : Type ℓ} → Option A → Bool
  is_some none = false
  is_some (some a) = true

  unfoldable pub mtree_lookup : MtreeIter → Bytes → MtreeIter × Bool
  mtree_lookup it key =
      let found = keep_equal key (mtree_lower_bound it key).current in
      (record it { current = found }, is_some found)
