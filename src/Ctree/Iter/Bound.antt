-- ===== src/Ctree/Iter/Bound.antt =====
-- `__ctree_lookup` of lib/ctree.c, against the sorted entries of the tree.
use mathlib.Core.Path.{subst}
use fuse_example.Base.{
  ℕ, zero, suc, ◌-◌, ◌≡◌, refl, sym, ap, ◌∙◌, arith, Bool, List, [], ◌∷◌, ◌++◌, length, replicate,
  length-replicate, append-nil, append_assoc, map,
}
use fuse_example.Errors.{ok, done}
use fuse_example.Io.{Io}
use fuse_example.Lsm.Key.{Bytes, Entry, KeyOrder}
use fuse_example.Mtree.Spec.{All, IsSorted, take_below, drop_below}
use fuse_example.Mtree.Sorted.{IsBelow, IsSorted-append, drop_below-append}
use fuse_example.Mtree.Bounds.{StartsHigh, drop_below-high}
use fuse_example.Ctree.Node.{AulsmfsPtr, CtreeNode}
use fuse_example.Ctree.Node.Reads.{Reads}
use fuse_example.Ctree.Iter.{Slot, empty_slot, read_node, Moved, ctree_node_ptr}
use fuse_example.Ctree.Iter.Search.{seek, ctree_get_node, ctree_node_upper_bound}
use fuse_example.Ctree.Iter.Spec.{
  Child, pair_of, entries_of, entries_of-append, All-middle, LeadsWith, Stored, IsChild, Above,
  Points,
}
use fuse_example.Ctree.Iter.Descend.{at_node, ctree_node_ptr-child}
use fuse_example.Ctree.Iter.Split.{
  take_below-drop_below, ctree_node_lower_bound-length, ctree_node_upper_bound-count, count_upto,
  pick,
}

module _ (malloc : ℕ → Bool) (io : Io) (disk : io.Disk) ⦃o : KeyOrder⦄ (key : Bytes) where
  -- Where the search ended: the leaf at the first entry that is not below the key, or at its end.
  pub record Found (expected : List Entry) (m : Moved (List Slot)) : Type 0 where
    pub slots : List Slot
    pub before : List Entry
    pub left : List Entry
    pub right : List Entry
    pub after : List Entry
    pub returned : m ≡ done (slots, ok tt)
    pub points : Points malloc io disk slots before left right after
    pub ahead : right ++ after ≡ expected

  drop_below-rest :
      (xs ys : List Entry) → StartsHigh key ys → drop_below key (xs ++ ys) ≡ drop_below key xs ++ ys
  unfolding drop_below
  drop_below-rest [] ys h = drop_below-high key ys h
  drop_below-rest (x ∷ xs) ys h = ground (arith, drop_below-rest xs ys h)

  IsSorted-right : (xs ys : List Entry) → IsSorted (xs ++ ys) → IsSorted ys
  IsSorted-right [] ys s = s
  IsSorted-right (x ∷ xs) ys s = IsSorted-right xs ys s.1

  IsSorted-left : (xs ys : List Entry) → IsSorted (xs ++ ys) → IsSorted xs
  IsSorted-left xs [] s = subst IsSorted (append-nil xs) s
  IsSorted-left xs (y ∷ ys) s = (IsSorted-append xs y ys s).0

  All-Leads :
      (level : ℕ) (cs : List Child)
      → All (IsChild malloc io disk level) cs
      → All (λ c. LeadsWith c.key c.entries) cs
  All-Leads level [] h = tt
  All-Leads level (c ∷ cs) h = (h.0.1, All-Leads level cs h.1)

  leaf-Found :
      (ptr : AulsmfsPtr) (mid : List Entry) (above : List Slot) (b a : List Entry)
      → Stored malloc io disk 0 ptr mid
      → Above malloc io disk 0 above b mid a
      → Found (drop_below key mid ++ a) (seek malloc io disk key (empty_slot ∷ []) ptr above)
  unfolding seek ctree_get_node
  leaf-Found ptr mid above b a (here, full) up =
      rw (here.read, ctree_node_lower_bound-length key here.node mid here.holds)
        (record {
          slots = at_node here.node (length (take_below key mid)) ∷ above;
          before = b;
          left = take_below key mid;
          right = drop_below key mid;
          after = a;
          returned = refl;
          points = (
            record {
              node = here.node;
              is_there = refl;
              holds =
                  subst (Reads here.node here.node.entry) (sym (take_below-drop_below key mid))
                    here.holds;
              stands = refl;
            },
            subst (λ es. Above malloc io disk 0 above b es a) (sym (take_below-drop_below key mid))
                up,
          );
          ahead = refl;
        })

  -- One level of the search.
  inner-Found :
      (level : ℕ) (ptr : AulsmfsPtr) (above : List Slot) (n : CtreeNode) (c : Child) (u pos : ℕ)
      {expected : List Entry}
      → read_node malloc io disk ptr (suc level) ≡ done n
      → ctree_node_upper_bound n key ≡ done u
      → u - 1 ≡ pos
      → ctree_node_ptr n pos ≡ done c.ptr
      → Found expected (
          seek malloc io disk key
            (empty_slot ∷ replicate level empty_slot)
            c.ptr
            (at_node n pos ∷ above))
      → Found expected
          (seek malloc io disk key (empty_slot ∷ replicate (suc level) empty_slot) ptr above)
  unfolding seek ctree_get_node
  inner-Found level ptr above n c u pos {expected} read bound at ptr_there found =
      rw (seek, length-replicate level empty_slot, read, bound, at, ptr_there) found

  module _ (level : ℕ) (left : List Child) (c : Child) (right : List Child) (mid : List Entry)
      (all : mid ≡ entries_of left ++ (c.entries ++ entries_of right)) where
    expected_below :
        (a : List Entry)
        → All (IsBelow key) (entries_of left)
        → StartsHigh key (entries_of right)
        → drop_below key c.entries ++ (entries_of right ++ a) ≡ drop_below key mid ++ a
    expected_below a low high =
        sym (append_assoc (drop_below key c.entries) (entries_of right) a)
        ∙ ap (λ es. es ++ a)
            (sym (drop_below-rest c.entries (entries_of right) high)
              ∙ sym (drop_below-append key (entries_of left) (c.entries ++ entries_of right) low)
              ∙ ap (drop_below key) (sym all))

    IsSorted-child : IsSorted mid → IsSorted c.entries
    IsSorted-child s =
        IsSorted-left c.entries (entries_of right)
          (IsSorted-right (entries_of left) (c.entries ++ entries_of right) (subst IsSorted all s))

    child-Above :
        (n : CtreeNode) (above : List Slot) (b a : List Entry)
        → Reads n n.entry (map pair_of (left ++ c ∷ right))
        → All (IsChild malloc io disk level) (left ++ c ∷ right)
        → Above malloc io disk (suc level) above b mid a
        → Above malloc io disk level
            (at_node n (length left) ∷ above)
            (b ++ entries_of left)
            c.entries
            (entries_of right ++ a)
    child-Above n above b a h kids up = (
      record {
        node = n;
        left = left;
        child = c;
        right = right;
        is_there = refl;
        holds = h;
        stands = refl;
        stored = kids;
        middle = refl;
      },
      b,
      a,
      subst (λ es. Above malloc io disk (suc level) above b es a)
          (all ∙ sym (entries_of-append left (c ∷ right))) up,
      refl,
      refl,
    )

  -- On new levels the search goes down to the leaf where the key belongs.
  pub seek-Found :
      (level : ℕ) (ptr : AulsmfsPtr) (mid : List Entry) (above : List Slot) (b a : List Entry)
      → Stored malloc io disk level ptr mid
      → IsSorted mid
      → Above malloc io disk level above b mid a
      → Found
          (drop_below key mid ++ a)
          (seek malloc io disk key (empty_slot ∷ replicate level empty_slot) ptr above)
  seek-Found zero ptr mid above b a stored sorted up = leaf-Found ptr mid above b a stored up
  seek-Found (suc level) ptr mid above b a ([], here, full, kids, all) sorted up =
      absurd (full refl)
  seek-Found (suc level) ptr mid above b a (k ∷ ks, here, full, kids, all) sorted up =
      let p = pick key k ks (subst IsSorted all sorted) (All-Leads level (k ∷ ks) kids) in
      let parts = all ∙ ap entries_of p.split ∙ entries_of-append p.left (p.child ∷ p.right) in
      let holds =
        subst (λ cs. Reads here.node here.node.entry (map pair_of cs)) p.split here.holds in
      let stored = subst (All (IsChild malloc io disk level)) p.split kids in
      let kid = All-middle (IsChild malloc io disk level) p.left p.child p.right stored in
      inner-Found level ptr above here.node p.child (count_upto key (k ∷ ks)) (length p.left)
        here.read (ctree_node_upper_bound-count key here.node (k ∷ ks) here.holds) p.pos
        (ctree_node_ptr-child here.node p.left p.child p.right (length p.left) holds refl kid.2)
        (subst
          (λ es. Found es (
            seek malloc io disk key (empty_slot ∷ replicate level empty_slot) p.child.ptr
              (at_node here.node (length p.left) ∷ above)))
          (expected_below level p.left p.child p.right mid parts a p.low p.high)
          (seek-Found level p.child.ptr p.child.entries (at_node here.node (length p.left) ∷ above)
            (b ++ entries_of p.left) (entries_of p.right ++ a) kid.0
            (IsSorted-child level p.left p.child p.right mid parts sorted)
            (child-Above level p.left p.child p.right mid parts here.node above b a holds stored
              up)))
