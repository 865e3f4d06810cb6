-- ===== src/Mtree/Lookup.antt =====
-- `mtree_lookup` of lib/mtree.c finds what `mtree_add` stored.
use Prim.Native.Nat.{Ordering}
use Prim.Native.Nat.Ordering.{lt, eq, gt}
use fuse_example.Base.{
  ℕ, ◌+◌, ◌%◌, ◌^◌, length, ◌≢◌, ◌≡◌, refl, sym, ap, ◌∙◌, Option, none, some, List, [], ◌∷◌, ◌++◌,
  inl, inr, arith, Bool, true, false, Bool-cases,
}
use fuse_example.Errors.{enomem, ok, err}
use fuse_example.Lsm.Key.{Bytes, Entry, KeyOrder}
use fuse_example.RbTree.{Position, at, Tree}
use fuse_example.RbTree.Inorder.{inorder, ahead, outside_right}
use fuse_example.RbTree.Walk.{Stands}
use fuse_example.RbTree.Insert.Balance.{IsRbTree}
use fuse_example.Mtree.{
  Mtree, MtreeIter, mtree_lower_bound, mtree_lookup, mtree_add, mtree_insert, mtree_node_create,
  mtree_node_size, mtree_iter_setup, keep_equal, is_some, entry_at?,
}
use fuse_example.Mtree.Spec.{All, ◌≺◌, IsSorted, put, drop_below}
use mathlib.Core.Path.{subst}
use fuse_example.Mtree.Sorted.{Ordering-cases, before}
use fuse_example.Mtree.Bounds.{probe, mtree_lower_bound-Stands}
use fuse_example.Mtree.Insert.{mtree_insert-put}

-- The new entry where the keys are equal.
abbrev pub if_equal : Ordering → Entry → Option Entry → Option Entry
if_equal eq new old = some new
if_equal lt new old = old
if_equal gt new old = old

module _ ⦃o : KeyOrder⦄ where
  open o use {cmp, cmp_opposite, lt_trans, eq_left}

  -- The entry with a key that compares equal.
  unfoldable pub find : Bytes → List Entry → Option Entry
  find key [] = none
  find key (e ∷ es) = elim (cmp e.key key) [ eq ↦ some e | _ ↦ find key es ]

  pub find-drop_below : (key : Bytes) (es : List Entry) → find key (drop_below key es) ≡ find key es
  unfolding find drop_below
  find-drop_below key [] = refl
  find-drop_below key (e ∷ es) = ground (arith, find-drop_below key es)

  find-above : (key : Bytes) (es : List Entry) → All (λ f. key ≺ f.key) es → find key es ≡ none
  unfolding find
  find-above key [] h = refl
  find-above key (e ∷ es) h = ground (arith, cmp_opposite key e.key, find-above key es)

  -- Among sorted entries only the first can be the one.
  pub find-sorted_gt :
      (key : Bytes) (e : Entry) (es : List Entry)
      → cmp e.key key ≡ gt
      → IsSorted (e ∷ es)
      → find key (e ∷ es) ≡ none
  unfolding find
  find-sorted_gt key e es h s = ground (arith, find-above key es (before e (probe key) es h s.0))

  pub find-put :
      (key : Bytes) (new : Entry) (es : List Entry)
      → IsSorted es
      → find key (put new es) ≡ if_equal (cmp new.key key) new (find key es)
  unfolding find put
  find-put key new [] s = ground arith
  find-put key new (e ∷ es) s = ground (
    arith,
    find-put key new es s.1,
    eq_left e.key key new.key,
    eq_left e.key new.key key,
    cmp_opposite new.key key,
  )

  pub drop_below-IsSorted :
      (key : Bytes) (es : List Entry) → IsSorted es → IsSorted (drop_below key es)
  unfolding drop_below
  drop_below-IsSorted key [] s = tt
  drop_below-IsSorted key (e ∷ es) s = ground (arith, drop_below-IsSorted key es s.1)

  drop_below-head :
      (key : Bytes) (es : List Entry) (a : Entry) (rest : List Entry)
      → a ∷ rest ≡ drop_below key es
      → cmp a.key key ≢ lt
  unfolding drop_below
  drop_below-head key [] a rest e h = cc
  drop_below-head key (x ∷ es) a rest e h = ground (arith, drop_below-head key es a rest)

  find_head :
      (key : Bytes) (e : Entry) (es : List Entry) → cmp e.key key ≡ eq → find key (e ∷ es) ≡ some e
  unfolding find
  find_head key e es h = rw (h, find)

  keep_equal-find :
      (key : Bytes) (found : Option (Position Entry)) (es rest : List Entry)
      → rest ≡ drop_below key es
      → IsSorted es
      → ahead found ≡ rest
      → entry_at? (keep_equal key found) ≡ find key rest
  unfolding find
  keep_equal-find key none es rest d s e = rw (← e)
  keep_equal-find key (some (at c l a r path)) es rest d s e =
      elim (Ordering-cases (cmp a.key key)) [
        | inl h ↦ absurd (drop_below-head key es a (inorder r ++ outside_right path) (e ∙ d) h)
        | inr (inl h) ↦
            rw (h, entry_at?)
              (sym (find_head key a (inorder r ++ outside_right path) h) ∙ ap (find key) e)
        | inr (inr h) ↦
            rw (h, entry_at?)
              (sym (
                  find-sorted_gt key a (inorder r ++ outside_right path) h
                    (subst IsSorted (sym (e ∙ d)) (drop_below-IsSorted key es s)))
                ∙ ap (find key) e)
      ]

  Stands-ahead :
      (t : Tree Entry) (seen rest : List Entry) (found : Option (Position Entry))
      → Stands t seen rest found
      → ahead found ≡ rest
  Stands-ahead t seen rest none e = sym e
  Stands-ahead t seen rest (some (at c l a r path)) h = h.2

  is_some-map : (p : Option (Position Entry)) → is_some p ≡ is_some (entry_at? p)
  is_some-map none = refl
  is_some-map (some p) = refl

  -- On a tree with strictly increasing keys `mtree_lookup` stands at the entry whose key compares
  -- equal to the given one, at the end if there is none, and returns whether there is one.
  pub mtree_lookup-find :
      (it : MtreeIter) (key : Bytes)
      → IsSorted (inorder it.tree)
      → (entry_at? (mtree_lookup it key).0.current ≡ find key (inorder it.tree))
        × ((mtree_lookup it key).1 ≡ is_some (find key (inorder it.tree)))
  unfolding mtree_lookup
  mtree_lookup-find it key s =
      (same, is_some-map (keep_equal key (mtree_lower_bound it key).current) ∙ ap is_some same)
    where
      same :
          entry_at? (keep_equal key (mtree_lower_bound it key).current) ≡ find key (inorder it.tree)
      same =
          keep_equal-find key (mtree_lower_bound it key).current (inorder it.tree)
            (drop_below key (inorder it.tree)) refl s
            (Stands-ahead it.tree _ _ (mtree_lower_bound it key).current
              (mtree_lower_bound-Stands key it s))
          ∙ find-drop_below key (inorder it.tree)

  -- A red-black tree whose keys increase strictly.
  pub record IsValid (m : Mtree) : Type 0 where
    pub is_rb : IsRbTree m.root
    pub sorted : IsSorted (inorder m.root)

  pub record Added (m : Mtree) (key val : Bytes) (m' : Mtree) : Type 0 where
    pub valid : IsValid m'
    pub items : inorder m'.root ≡ put (record { key = key; val = val }) (inorder m.root)
    pub bytes : m'.bytes ≡ (m.bytes + (length key + length val)) % 2 ^ 64

  abbrev pub has_room : (ℕ → Bool) → Bytes → Bytes → Bool
  has_room malloc key val = malloc (length key + length val + mtree_node_size)

  mtree_add-some :
      (malloc : ℕ → Bool) (m : Mtree) (key val : Bytes) {t : Tree Entry}
      → has_room malloc key val ≡ true
      → mtree_insert m.root [] (record { key = key; val = val }) ≡ some t
      → mtree_add malloc m key val
        ≡ some (record { bytes = (m.bytes + (length key + length val)) % 2 ^ 64; root = t }, ok tt)
  unfolding mtree_add
  mtree_add-some malloc m key val room e =
      rw (room, mtree_node_create, mtree_add) (rw (e, mtree_add))

  -- On a valid map, with memory for the node, `mtree_add` succeeds and leaves a valid map with
  -- the pair put in its place and `bytes` grown by the sizes of key and value modulo 2^64.
  pub mtree_add-Added :
      (malloc : ℕ → Bool) (m : Mtree) (key val : Bytes)
      → IsValid m
      → has_room malloc key val ≡ true
      → (m' : Mtree) × (mtree_add malloc m key val ≡ some (m', ok tt)) × Added m key val m'
  mtree_add-Added malloc m key val h room =
      let new : Entry = record { key = key; val = val } in
      let (t, e, rb, items, sorted) = mtree_insert-put m.root new h.is_rb h.sorted in
      (
        record { bytes = (m.bytes + (length key + length val)) % 2 ^ 64; root = t },
        mtree_add-some malloc m key val room e,
        record { valid = record { is_rb = rb; sorted = sorted }; items = items; bytes = refl },
      )

  -- Where memory is exhausted it says so and changes nothing.
  pub mtree_add_enomem :
      (malloc : ℕ → Bool) (m : Mtree) (key val : Bytes)
      → has_room malloc key val ≡ false
      → mtree_add malloc m key val ≡ some (m, err enomem)
  unfolding mtree_add mtree_node_create
  mtree_add_enomem malloc m key val room = rw (room, mtree_node_create, mtree_add)

  -- A successful `mtree_add` had its memory, so it is the one above.
  Added_of_ok :
      (malloc : ℕ → Bool) (m m' : Mtree) (key val : Bytes)
      → IsValid m
      → mtree_add malloc m key val ≡ some (m', ok tt)
      → Added m key val m'
  Added_of_ok malloc m m' key val h e = elim (Bool-cases (has_room malloc key val)) [
    | inl room ↦
        let (u, e', added) = mtree_add-Added malloc m key val h room in
        subst (Added m key val) (cc e') added
    | inr full ↦ cc (mtree_add_enomem malloc m key val full)
  ]

  -- After a successful `mtree_add` on a valid map, a lookup of a key that compares equal to the
  -- new one finds the new pair, and a lookup of any other key finds what it found before.
  pub mtree_lookup-mtree_add :
      (malloc : ℕ → Bool) (m m' : Mtree) (key val other : Bytes)
      → IsValid m
      → mtree_add malloc m key val ≡ some (m', ok tt)
      → entry_at? (mtree_lookup (mtree_iter_setup m') other).0.current
        ≡ if_equal
            (cmp key other)
            (record { key = key; val = val })
            (entry_at? (mtree_lookup (mtree_iter_setup m) other).0.current)
  unfolding mtree_iter_setup
  mtree_lookup-mtree_add malloc m m' key val other h e =
      let added = Added_of_ok malloc m m' key val h e in
      let new : Entry = record { key = key; val = val } in
      (mtree_lookup-find (mtree_iter_setup m') other added.valid.sorted).0
      ∙ ap (find other) added.items
      ∙ find-put other new (inorder m.root) h.sorted
      ∙ ap (if_equal (cmp key other) new)
          (sym (mtree_lookup-find (mtree_iter_setup m) other h.sorted).0)
