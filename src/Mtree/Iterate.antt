-- ===== src/Mtree/Iterate.antt =====
-- Iteration with `mtree_next` of lib/mtree.c, from `mtree_begin` or `mtree_lower_bound`.
use mathlib.Core.Path.{subst}
use fuse_example.Base.{
  ℕ, zero, suc, ◌≤◌, ◌≡◌, refl, sym, ap, ◌∙◌, arith, Option, none, some, List, [], ◌∷◌, ◌++◌,
  length,
}
use fuse_example.Lsm.Key.{Bytes, Entry, KeyOrder}
use fuse_example.RbTree.{Tree, Position, at, rb_next}
use fuse_example.RbTree.Inorder.{inorder, passed}
use fuse_example.RbTree.Walk.{Stands, behind, rb_next-Stands, rb_leftmost-Stands}
use fuse_example.Mtree.{
  Mtree, MtreeIter, mtree_iter_setup, mtree_begin, mtree_next, mtree_lower_bound, entry_at,
}
use fuse_example.Mtree.Spec.{IsSorted, drop_below}
use fuse_example.Mtree.Bounds.{mtree_lower_bound-Stands}

-- `while (iter.node) { use(iter.node); mtree_next(&iter); }`, for at most so many turns.
unfoldable pub entries_from : (turns : ℕ) → MtreeIter → List Entry
entries_from zero it = []
entries_from (suc turns) it = elim it.current [
  | none ↦ []
  | some p ↦ entry_at p ∷ entries_from turns (mtree_next it).0
]

entries_from-Stands :
    (turns : ℕ) (tree : Tree Entry) (found : Option (Position Entry)) (seen rest : List Entry)
    → Stands tree seen rest found
    → length rest ≤ turns
    → entries_from turns (record { tree = tree; current = found }) ≡ rest
unfolding entries_from mtree_next
entries_from-Stands zero tree found seen [] h k = refl
entries_from-Stands zero tree found seen (e ∷ rest) h k = absurd (omega (arith, k))
entries_from-Stands (suc turns) tree none seen rest h k = sym h
entries_from-Stands (suc turns) tree (some (at c l a r path)) seen rest h k =
    ap (λ xs. a ∷ xs)
      (entries_from-Stands turns tree (rb_next (some here)) (passed here ++ a ∷ []) (behind here)
        (subst (λ t. Stands t (passed here ++ a ∷ []) (behind here) (rb_next (some here))) h.0
          (rb_next-Stands here))
        (omega (arith, k, ap length h.2)))
    ∙ h.2
  where
    here : Position Entry
    here = at c l a r path

-- `mtree_begin` followed by calls of `mtree_next`, with as many turns as there are entries or
-- more, visits the entries of the map, each once and in order, and ends.
pub entries_from-mtree_begin :
    (m : Mtree) (turns : ℕ)
    → length (inorder m.root) ≤ turns
    → entries_from turns (mtree_begin (mtree_iter_setup m)) ≡ inorder m.root
unfolding mtree_begin mtree_iter_setup
entries_from-mtree_begin m turns k =
    entries_from-Stands turns m.root _ [] (inorder m.root) (rb_leftmost-Stands m.root) k

module _ ⦃o : KeyOrder⦄ where
  -- On a map with strictly increasing keys `mtree_lower_bound` followed by calls of `mtree_next`,
  -- with as many turns as there are entries or more, visits exactly the entries whose keys are
  -- not below the given one, in order.
  pub entries_from-mtree_lower_bound :
      (m : Mtree) (key : Bytes) (turns : ℕ)
      → IsSorted (inorder m.root)
      → length (drop_below key (inorder m.root)) ≤ turns
      → entries_from turns (mtree_lower_bound (mtree_iter_setup m) key)
        ≡ drop_below key (inorder m.root)
  unfolding mtree_lower_bound mtree_iter_setup
  entries_from-mtree_lower_bound m key turns s k =
      entries_from-Stands turns m.root _ _ (drop_below key (inorder m.root))
        (mtree_lower_bound-Stands key (mtree_iter_setup m) s) k
