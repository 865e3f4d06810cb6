-- ===== src/Mtree/Release.antt =====
-- `mtree_release` and `mtree_reset` of lib/mtree.c give every node back once.
use mathlib.Core.List.{reverse, reverse-append, reverse-cons}
use mathlib.Core.Path.{ap₂}
use fuse_example.Base.{◌≡◌, refl, sym, ap, ◌∙◌, List, [], ◌∷◌, ◌++◌, append_assoc, true}
use fuse_example.Lsm.Key.{Entry}
use fuse_example.RbTree.{Tree, leaf, node}
use fuse_example.RbTree.Inorder.{inorder}
use fuse_example.Mtree.{Mtree, release_nodes, mtree_reset, mtree_is_empty}

release_nodes-reverse : (t : Tree Entry) → release_nodes t ≡ reverse (inorder t)
unfolding release_nodes
release_nodes-reverse leaf = refl
release_nodes-reverse (node c l a r) =
    ap₂ (λ xs ys. xs ++ a ∷ ys) (release_nodes-reverse r) (release_nodes-reverse l)
    ∙ sym (reverse_middle (inorder l) a (inorder r))
  where
    reverse_middle :
        (xs : List Entry) (x : Entry) (ys : List Entry)
        → reverse (xs ++ x ∷ ys) ≡ reverse ys ++ x ∷ reverse xs
    reverse_middle xs x ys =
        reverse-append xs (x ∷ ys)
        ∙ ap (λ zs. zs ++ reverse xs) (reverse-cons x ys)
        ∙ append_assoc (reverse ys) (x ∷ []) (reverse xs)

-- `mtree_reset` frees the nodes of the tree, each once, from the greatest key to the smallest,
-- and leaves an empty tree.
pub mtree_reset-reverse :
    (m : Mtree)
    → ((mtree_reset m).1 ≡ reverse (inorder m.root)) × (mtree_is_empty (mtree_reset m).0 ≡ true)
unfolding mtree_reset mtree_is_empty
mtree_reset-reverse m = (release_nodes-reverse m.root, refl)
