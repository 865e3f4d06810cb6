-- ===== src/Ctree/Iter/Split.antt =====
-- `__ctree_node_lower_bound` and `__ctree_node_upper_bound` of lib/ctree.c, against the sorted
-- entries of a leaf and of the subtrees of a node.
use Prim.Native.Nat.Ordering.{eq, gt}
use mathlib.Core.Path.{subst}
use fuse_example.Base.{
  ℕ, suc, ◌+◌, ◌-◌, ◌≡◌, refl, ap, ◌∙◌, arith, List, [], ◌∷◌, ◌++◌, ◌⊎◌, inl, inr, map, length,
}
use fuse_example.Errors.{done, ◌>>=◌}
use fuse_example.Lsm.Key.{Bytes, Entry, KeyOrder, opposite}
use fuse_example.Mtree.Spec.{All, All-append, IsSorted, ◌≺◌, take_below, drop_below}
use fuse_example.Mtree.Sorted.{
  Ordering-cases, IsBelow, IsSorted-append, IsBelow-equal, IsBelow-greater, lt_of_gt,
}
use fuse_example.Mtree.Bounds.{StartsHigh}
use fuse_example.Ctree.Node.{CtreeNode, CtreeEntry}
use fuse_example.Ctree.Node.Reads.{Reads}
use fuse_example.Ctree.Iter.Search.{
  lower_from, upper_from, ctree_node_lower_bound, ctree_node_upper_bound,
}
use fuse_example.Ctree.Iter.Spec.{
  Child, pair_of, entries_of, entries_of-append, All-middle, LeadsWith,
}

module _ ⦃o : KeyOrder⦄ (key : Bytes) where
  open o use {cmp, cmp_opposite, lt_trans}

  pub take_below-drop_below : (es : List Entry) → take_below key es ++ drop_below key es ≡ es
  unfolding take_below drop_below
  take_below-drop_below [] = refl
  take_below-drop_below (e ∷ es) = ground (arith, take_below-drop_below es)

  lower_from-length :
      (n : CtreeNode) (i : ℕ) (slots : List CtreeEntry) (es : List Entry)
      → Reads n slots es
      → lower_from key n i slots ≡ done (i + length (take_below key es))
  unfolding lower_from take_below
  lower_from-length n i [] [] h = ap done (omega arith)
  lower_from-length n i [] (e ∷ es) h = elim h [ ]
  lower_from-length n i (s ∷ slots) [] h = elim h [ ]
  lower_from-length n i (s ∷ slots) (e ∷ es) h = elim (Ordering-cases (cmp e.key key)) [
    | inl c ↦
        rw (h.0, ◌>>=◌, take_below, c)
          (lower_from-length n (suc i) slots es h.2 ∙ ap done (omega arith))
    | inr (inl c) ↦ rw (h.0, ◌>>=◌, take_below, c) (ap done (omega arith))
    | inr (inr c) ↦ rw (h.0, ◌>>=◌, take_below, c) (ap done (omega arith))
  ]

  -- On a leaf with these entries, the first one that is not below the key.
  pub ctree_node_lower_bound-length :
      (n : CtreeNode) (es : List Entry)
      → Reads n n.entry es
      → ctree_node_lower_bound n key ≡ done (length (take_below key es))
  unfolding ctree_node_lower_bound
  ctree_node_lower_bound-length n es h = lower_from-length n 0 n.entry es h ∙ ap done (omega arith)

  -- The subtrees up to the first whose key is above the given one.
  abbrev pub count_upto : List Child → ℕ
  count_upto [] = 0
  count_upto (c ∷ cs) = elim (cmp c.key key) [ gt ↦ 0 | _ ↦ suc (count_upto cs) ]

  upper_from-count :
      (n : CtreeNode) (i : ℕ) (slots : List CtreeEntry) (cs : List Child)
      → Reads n slots (map pair_of cs)
      → upper_from key n i slots ≡ done (i + count_upto cs)
  unfolding upper_from
  upper_from-count n i [] [] h = ap done (omega arith)
  upper_from-count n i [] (c ∷ cs) h = elim h [ ]
  upper_from-count n i (s ∷ slots) [] h = elim h [ ]
  upper_from-count n i (s ∷ slots) (c ∷ cs) h = elim (Ordering-cases (cmp c.key key)) [
    | inl e ↦
        rw (h.0, ◌>>=◌, count_upto, e)
          (upper_from-count n (suc i) slots cs h.2 ∙ ap done (omega arith))
    | inr (inl e) ↦
        rw (h.0, ◌>>=◌, count_upto, e)
          (upper_from-count n (suc i) slots cs h.2 ∙ ap done (omega arith))
    | inr (inr e) ↦ rw (h.0, ◌>>=◌, count_upto, e) (ap done (omega arith))
  ]

  pub ctree_node_upper_bound-count :
      (n : CtreeNode) (cs : List Child)
      → Reads n n.entry (map pair_of cs)
      → ctree_node_upper_bound n key ≡ done (count_upto cs)
  unfolding ctree_node_upper_bound
  ctree_node_upper_bound-count n cs h = upper_from-count n 0 n.entry cs h ∙ ap done (omega arith)

  -- Where the search goes down: the entries on the left are below the key, and those on the right
  -- are not.
  pub record Pick (cs : List Child) : Type 0 where
    pub left : List Child
    pub child : Child
    pub right : List Child
    pub split : cs ≡ left ++ child ∷ right
    pub pos : count_upto cs - 1 ≡ length left
    pub low : All (IsBelow key) (entries_of left)
    pub high : StartsHigh key (entries_of right)

  abbrev Leads : Child → Type 0
  Leads c = LeadsWith c.key c.entries

  abbrev NotAbove : Bytes → Type 0
  NotAbove k = (k ≺ key) ⊎ (cmp k key ≡ eq)

  -- The subtrees up to the key, as far as their own keys say.
  record Upto (cs : List Child) : Type 0 where
    left : List Child
    child : Child
    right : List Child
    split : cs ≡ left ++ child ∷ right
    pos : count_upto cs ≡ suc (length left)
    low : NotAbove child.key
    high : StartsHigh key (entries_of right)

  leads_high :
      (k : Bytes) (es more : List Entry)
      → LeadsWith k es
      → cmp k key ≡ gt
      → StartsHigh key (es ++ more)
  leads_high k [] more h e = elim h [ ]
  leads_high k (x ∷ es) more h e = inr (ap (λ y. cmp y key) h ∙ e)

  count_low :
      (k : Child) (ks : List Child) → NotAbove k.key → count_upto (k ∷ ks) ≡ suc (count_upto ks)
  count_low k ks (inl c) = rw (count_upto, c) refl
  count_low k ks (inr c) = rw (count_upto, c) refl

  count_high : (k : Child) (ks : List Child) → cmp k.key key ≡ gt → count_upto (k ∷ ks) ≡ 0
  count_high k ks c = rw (count_upto, c) refl

  Upto-next : (k r : Child) (rs : List Child) → NotAbove k.key → Upto (r ∷ rs) → Upto (k ∷ r ∷ rs)
  Upto-next k r rs low u = record {
    left = k ∷ u.left;
    child = u.child;
    right = u.right;
    split = ap (λ cs. k ∷ cs) u.split;
    pos = count_low k (r ∷ rs) low ∙ ap suc u.pos;
    low = u.low;
    high = u.high;
  }

  upto : (k : Child) (ks : List Child) → All Leads (k ∷ ks) → NotAbove k.key → Upto (k ∷ ks)
  upto k [] h low = record {
    left = [];
    child = k;
    right = [];
    split = refl;
    pos = count_low k [] low;
    low = low;
    high = tt;
  }
  upto k (r ∷ rs) h low = elim (Ordering-cases (cmp r.key key)) [
    | inl c ↦ Upto-next k r rs low (upto r rs h.1 (inl c))
    | inr (inl c) ↦ Upto-next k r rs low (upto r rs h.1 (inr c))
    | inr (inr c) ↦ record {
      left = [];
      child = k;
      right = r ∷ rs;
      split = refl;
      pos = count_low k (r ∷ rs) low ∙ ap suc (count_high r rs c);
      low = low;
      high = leads_high r.key r.entries (entries_of rs) h.1.0 c;
    }
  ]

  -- The entries before a subtree whose own key is not above the given one.
  low_before :
      (k : Bytes) (xs es more : List Entry)
      → IsSorted (xs ++ (es ++ more))
      → LeadsWith k es
      → NotAbove k
      → All (IsBelow key) xs
  low_before k xs [] more s h low = elim h [ ]
  low_before k xs (e ∷ es) more s h (inl c) =
      IsBelow-greater e (record { key = key; val = [] }) xs (ap (λ y. cmp y key) h ∙ c)
        (IsSorted-append xs e (es ++ more) s).1
  low_before k xs (e ∷ es) more s h (inr c) =
      IsBelow-equal e (record { key = key; val = [] }) xs (ap (λ y. cmp y key) h ∙ c)
        (IsSorted-append xs e (es ++ more) s).1

  above_high :
      (e : Entry) (es : List Entry)
      → cmp e.key key ≡ gt
      → All (λ f. e.key ≺ f.key) es
      → StartsHigh key es
  above_high e [] c h = tt
  above_high e (f ∷ es) c h =
      inr
        (cmp_opposite key f.key ∙ ap opposite (lt_trans key e.key f.key (lt_of_gt e.key key c) h.0))

  -- All subtrees after one whose key is above the given one.
  high_after :
      (k : Bytes) (es : List Entry) (cs : List Child)
      → IsSorted (es ++ entries_of cs)
      → LeadsWith k es
      → All Leads cs
      → cmp k key ≡ gt
      → StartsHigh key (entries_of cs)
  high_after k es [] s h leads c = tt
  high_after k [] (r ∷ rs) s h leads c = elim h [ ]
  high_after k (e ∷ es) (r ∷ rs) s h leads c =
      above_high e (entries_of (r ∷ rs)) (ap (λ y. cmp y key) h ∙ c)
        (All-append (λ f. e.key ≺ f.key) es (entries_of (r ∷ rs)) s.0).1

  pub pick :
      (k : Child) (ks : List Child)
      → IsSorted (entries_of (k ∷ ks))
      → All Leads (k ∷ ks)
      → Pick (k ∷ ks)
  pick k ks s h = elim (Ordering-cases (cmp k.key key)) [
    | inl c ↦ low_pick (inl c)
    | inr (inl c) ↦ low_pick (inr c)
    | inr (inr c) ↦ record {
      left = [];
      child = k;
      right = ks;
      split = refl;
      pos = rw (count_high k ks c) refl;
      low = tt;
      high = high_after k.key k.entries ks s h.0 h.1 c;
    }
  ]
    where
      before : (u : Upto (k ∷ ks)) → All (IsBelow key) (entries_of u.left)
      before u =
          low_before u.child.key (entries_of u.left) u.child.entries (entries_of u.right)
            (subst IsSorted (ap entries_of u.split ∙ entries_of-append u.left (u.child ∷ u.right))
              s)
            (All-middle Leads u.left u.child u.right (subst (All Leads) u.split h)) u.low

      low_pick : NotAbove k.key → Pick (k ∷ ks)
      low_pick low =
          let u = upto k ks h low in
          record {
            left = u.left;
            child = u.child;
            right = u.right;
            split = u.split;
            pos = omega (arith, u.pos);
            low = before u;
            high = u.high;
          }
