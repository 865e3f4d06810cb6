-- ===== src/Lsm/Iter/Cursors.antt =====
-- A tree's iterator in lib/lsm.c as a cursor in the sorted list of the tree's entries, in memory or on
-- disk.
use mathlib.Core.Path.{subst}
use fuse_example.Base.{
  ℕ, zero, suc, ◌<◌, ◌≡◌, refl, sym, ap, ◌∙◌, arith, Bool, true, false, Option, none, some, List,
  [], ◌∷◌, ◌++◌, ◌⊎◌, inl, inr, length, ◌==◌,
}
use fuse_example.Errors.{Result, ok, done, ◌>>=◌}
use fuse_example.Io.{Io}
use fuse_example.Lsm.Key.{Bytes, Entry, KeyOrder}
use fuse_example.Lsm.Over.{head}
use fuse_example.Mtree.{mtree_next, mtree_key, mtree_val}
use fuse_example.Mtree.Spec.{drop_upto}
use fuse_example.Mtree.Sorted.{Ordering-cases}
use fuse_example.RbTree.{Tree, Position, at, rb_next}
use fuse_example.RbTree.Inorder.{passed, tree_of}
use fuse_example.RbTree.Walk.{Stands, behind, rb_next-Stands}
use fuse_example.Ctree.Node.{AulsmfsPtr}
use fuse_example.Ctree.Iter.{Slot, CtreeIter, Moved, ctree_key, ctree_val}
use fuse_example.Ctree.Iter.Spec.{StandsAt}
use fuse_example.Ctree.Iter.Next.{next_code, cons_not_nil, tail_eq}
use fuse_example.Ctree.Iter.Walk.{with_slots, Points-Current, Points-end, ctree_next-Moves}
use fuse_example.Lsm.Iter.{
  Cursor, memory, disk, TreeSlot, cursor_item, cursor_next, is_failure, pass,
}

module _ (malloc : ℕ → Bool) (io : Io) (d : io.Disk) where
  -- An iterator on disk before the entries `rest`.
  pub record DiskAt (it : CtreeIter) (rest : List Entry) : Type 0 where
    pub ptr : AulsmfsPtr
    pub level : ℕ
    pub slots : List Slot
    pub seen : List Entry
    pub is_it : it ≡ with_slots ptr level slots
    pub stands : StandsAt malloc io d slots seen rest

  -- A cursor before the entries `rest` of its tree. A tree on disk may have no level.
  abbrev pub CursorAt : Cursor → List Entry → Type 0
  CursorAt (memory it) rest = (seen : List Entry) × Stands it.tree seen rest it.current
  CursorAt (disk it) rest = (((it.height == 0) ≡ true) × (rest ≡ [])) ⊎ DiskAt it rest

  memory_item :
      (tree : Tree Entry) (found : Option (Position Entry)) (seen rest : List Entry)
      → Stands tree seen rest found
      → cursor_item (memory (record { tree = tree; current = found })) ≡ done (head rest)
  unfolding cursor_item mtree_key mtree_val
  memory_item tree none seen rest h = ap (λ xs. done (head xs)) (sym h)
  memory_item tree (some (at c l a r path)) seen rest h = ap (λ xs. done (head xs)) h.2

  disk_item :
      (ptr : AulsmfsPtr) (level : ℕ) (slots : List Slot) (seen rest : List Entry)
      → StandsAt malloc io d slots seen rest
      → cursor_item (disk (with_slots ptr level slots)) ≡ done (head rest)
  unfolding cursor_item ctree_key ctree_val
  disk_item ptr level slots seen [] h =
      rw (Points-end malloc io d ptr level slots h.before h.left h.right h.after h.points h.ahead)
        refl
  disk_item ptr level slots seen (e ∷ rest) h =
      let c =
        Points-Current malloc io d ptr level slots h.before h.left h.right h.after rest e h.points
          h.settled h.ahead in
      rw (c.here, ◌>>=◌, c.slot.there, c.slot.key, c.slot.val) refl

  flat_item : (it : CtreeIter) → (it.height == 0) ≡ true → cursor_item (disk it) ≡ done none
  unfolding cursor_item ctree_key ctree_val
  flat_item it flat = rw flat refl

  pub cursor_item-head :
      (c : Cursor) (rest : List Entry) → CursorAt c rest → cursor_item c ≡ done (head rest)
  cursor_item-head (memory it) rest (seen, h) = memory_item it.tree it.current seen rest h
  cursor_item-head (disk it) rest (inl (flat, over)) =
      flat_item it flat ∙ ap (λ xs. done (head xs)) (sym over)
  cursor_item-head (disk it) rest (inr h) =
      ap (λ i. cursor_item (disk i)) h.is_it ∙ disk_item h.ptr h.level h.slots h.seen rest h.stands

  -- The next entry; the code may be -ENOENT.
  pub record Advanced (rest : List Entry) (m : Moved Cursor) : Type 0 where
    pub cursor : Cursor
    pub rc : Result (Unit {0})
    pub returned : m ≡ done (cursor, rc)
    pub fine : is_failure rc ≡ false
    pub stands : CursorAt cursor rest

  memory_next :
      (tree : Tree Entry) (found : Option (Position Entry)) (seen : List Entry) (e : Entry)
      (rest : List Entry)
      → Stands tree seen (e ∷ rest) found
      → Advanced rest (cursor_next malloc io d (memory (record { tree = tree; current = found })))
  unfolding cursor_next mtree_next
  memory_next tree none seen e rest h = absurd (cons_not_nil e rest h)
  memory_next tree (some (at c l a r path)) seen e rest h = record {
    cursor = memory (record { tree = tree; current = rb_next (some (at c l a r path)) });
    rc = ok tt;
    returned = refl;
    fine = refl;
    stands = (
      passed (at c l a r path) ++ a ∷ [],
      subst
          (λ t.
            Stands t (passed (at c l a r path) ++ a ∷ []) rest (rb_next (some (at c l a r path))))
          h.0
          (subst
            (λ xs.
              Stands (tree_of (at c l a r path)) (passed (at c l a r path) ++ a ∷ []) xs
                (rb_next (some (at c l a r path))))
            (tail_eq a e (behind (at c l a r path)) rest h.2) (rb_next-Stands (at c l a r path))),
    );
  }

  next_code-fine : (rest : List Entry) → is_failure (next_code malloc io d rest) ≡ false
  next_code-fine [] = refl
  next_code-fine (e ∷ rest) = refl

  disk_next :
      (ptr : AulsmfsPtr) (level : ℕ) (slots : List Slot) (seen : List Entry) (e : Entry)
      (rest : List Entry)
      → StandsAt malloc io d slots seen (e ∷ rest)
      → Advanced rest (cursor_next malloc io d (disk (with_slots ptr level slots)))
  unfolding cursor_next
  disk_next ptr level slots seen e rest h =
      let (next, moved, stands) = ctree_next-Moves malloc io d ptr level slots seen rest e h in
      record {
        cursor = disk (with_slots ptr level next);
        rc = next_code malloc io d rest;
        returned = rw moved refl;
        fine = next_code-fine rest;
        stands = inr (record {
          ptr = ptr;
          level = level;
          slots = next;
          seen = seen ++ e ∷ [];
          is_it = refl;
          stands = stands;
        });
      }

  pub cursor_next-Advanced :
      (c : Cursor) (e : Entry) (rest : List Entry)
      → CursorAt c (e ∷ rest)
      → Advanced rest (cursor_next malloc io d c)
  cursor_next-Advanced (memory it) e rest (seen, h) = memory_next it.tree it.current seen e rest h
  cursor_next-Advanced (disk it) e rest (inl (flat, over)) = absurd (cons_not_nil e rest over)
  cursor_next-Advanced (disk it) e rest (inr h) =
      subst (λ i. Advanced rest (cursor_next malloc io d (disk i))) (sym h.is_it)
        (disk_next h.ptr h.level h.slots h.seen e rest h.stands)

  -- A tree's part of the iterator, before the entries `rest` of the tree.
  pub record Shows (s : TreeSlot) (rest : List Entry) : Type 0 where
    pub stands : CursorAt s.cursor rest
    pub item : s.item ≡ head rest

  -- A finished action on a tree's part, and the entries that are left to it.
  abbrev pub Leaves : List Entry → Moved TreeSlot → Type 0
  Leaves rest m = (s : TreeSlot) × (m ≡ done (s, ok tt)) × Shows s rest

  module _ ⦃o : KeyOrder⦄ where
    open o use {cmp}

    -- The loop of `lsm_next` for one tree leaves the entries above the key.
    pub pass-Leaves :
        (turns : ℕ) (key : Bytes) (c : Cursor) (rest : List Entry)
        → CursorAt c rest
        → length rest < turns
        → Leaves
            (drop_upto key rest)
            (pass malloc io d turns key (record { cursor = c; item = head rest }))
    unfolding pass drop_upto
    pass-Leaves zero key c rest h more = absurd (omega (arith, more))
    pass-Leaves (suc turns) key c [] h more =
        (record { cursor = c; item = none }, refl, record { stands = h; item = refl })
    pass-Leaves (suc turns) key c (e ∷ rest) h more =
        let next = cursor_next-Advanced c e rest h in
        let go = pass-Leaves turns key next.cursor rest next.stands (omega (arith, more)) in
        elim (Ordering-cases (cmp e.key key)) [
          | inl b ↦
              rw
                (
                  drop_upto,
                  b,
                  next.returned,
                  ◌>>=◌,
                  next.fine,
                  cursor_item-head next.cursor rest next.stands,
                )
                go
          | inr (inl b) ↦
              rw
                (
                  drop_upto,
                  b,
                  next.returned,
                  ◌>>=◌,
                  next.fine,
                  cursor_item-head next.cursor rest next.stands,
                )
                go
          | inr (inr b) ↦
              rw (drop_upto, b)
                (record { cursor = c; item = some e }, refl, record { stands = h; item = refl })
        ]
