-- ===== src/Ctree/Iter/Lower.antt =====
-- `ctree_lower_bound` and `ctree_lookup` of lib/ctree.c: from the end of a leaf the search goes on to
-- the next one.
use Prim.Native.Nat.Ordering.{eq}
use mathlib.Core.Path.{subst}
use fuse_example.Base.{
  ℕ, zero, suc, ◌+◌, ◌*◌, ◌<◌, ◌≡◌, refl, sym, ap, ◌∙◌, arith, Bool, true, false, Option, none,
  some, List, [], ◌∷◌, ◌++◌, ◌⊎◌, inl, inr, length, replicate, append-nil,
}
use fuse_example.Errors.{Result, ok, err, enoent, Run, done, fail, ◌>>=◌}
use fuse_example.Io.{Io}
use fuse_example.Lsm.Key.{Bytes, Entry, KeyOrder}
use fuse_example.Mtree.Spec.{IsSorted, drop_below}
use fuse_example.Mtree.Lookup.{find, find-sorted_gt, find-drop_below, drop_below-IsSorted}
use fuse_example.Mtree.Bounds.{StartsHigh, drop_below-StartsHigh}
use fuse_example.Ctree.Builder.{pointer_size}
use fuse_example.Ctree.Node.{AulsmfsPtr, ctree_node_key}
use fuse_example.Ctree.Root.{Ctree}
use fuse_example.Ctree.Iter.{
  Slot, empty_slot, CtreeIter, Moved, unwind, ctree_iter_setup, ctree_next, current, ctree_key,
  ctree_val, entry_of,
}
use fuse_example.Ctree.Iter.Search.{unless_end, ctree_seek, ctree_lower_bound, ctree_lookup}
use fuse_example.Ctree.Iter.Spec.{Stored, HoldsTree, Points, StandsAt}
use fuse_example.Ctree.Iter.Next.{cons_not_nil}
use fuse_example.Ctree.Iter.Walk.{
  visit, with_slots, tall, Points-Current, Points-outside, Points-end, visit-ahead,
  on_prepared-fresh, unwind-replicate,
}
use fuse_example.Ctree.Iter.Bound.{seek-Found}
use fuse_example.Ctree.Iter.Settle.{next_outside}

-- The answer of a lookup: the return code, and the entry that `ctree_key` and `ctree_val` give.
abbrev pub LooksUp : Option Entry → Run (CtreeIter × Result Bool) → Type 0
LooksUp none m = (it : CtreeIter) × (m ≡ done (it, ok false))
LooksUp (some e) m =
    (it : CtreeIter) × (m ≡ done (it, ok true))
    × (ctree_key it ≡ done (some e.key, ok tt))
    × (ctree_val it ≡ done (some e.val, ok tt))

-- A tree without levels.
lookup_nothing :
    (malloc : ℕ → Bool) (io : Io) (disk : io.Disk) ⦃o : KeyOrder⦄ (key : Bytes) (ptr : AulsmfsPtr)
    (pages : ℕ)
    → LooksUp (find key []) (
        ctree_lookup malloc io disk
          (ctree_iter_setup (record { ptr = ptr; height = 0; pages = pages }))
          key)
unfolding ctree_lookup ctree_iter_setup find
lookup_nothing malloc io disk key ptr pages = (record { ptr = ptr; height = 0; slots = none }, refl)

module _ (malloc : ℕ → Bool) (io : Io) (disk : io.Disk) ⦃o : KeyOrder⦄ (key : Bytes)
    (ptr : AulsmfsPtr) (level : ℕ) where
  open o use {cmp}

  -- A search that ended before `rest`.
  pub record Lowered (rest : List Entry) (m : Moved CtreeIter) : Type 0 where
    pub slots : List Slot
    pub seen : List Entry
    pub returned : m ≡ done (with_slots ptr level slots, ok tt)
    pub stands : StandsAt malloc io disk slots seen rest

  -- `if (iter->pos[0] == iter->node[0]->entries)` at the end of `ctree_lower_bound`.
  abbrev settle : CtreeIter → Moved CtreeIter
  settle it = current it >>= λ here. elim here [
    | some h ↦ done (it, ok tt)
    | none ↦ ctree_next malloc io disk it >>= λ moved. done (unless_end moved)
  ]

  unless_end-fine :
      (it : CtreeIter) (rc : Result (Unit {0}))
      → (rc ≡ ok tt) ⊎ (rc ≡ err enoent)
      → unless_end (it, rc) ≡ (it, ok tt)
  unless_end-fine it rc (inl e) = rw e refl
  unless_end-fine it rc (inr e) = rw e refl

  settle-Lowered :
      (slots : List Slot) (b left right a : List Entry)
      → Points malloc io disk slots b left right a
      → Lowered (right ++ a) (settle (with_slots ptr level slots))
  unfolding ctree_next
  settle-Lowered slots b left (x ∷ right) a h =
      let c =
        Points-Current malloc io disk ptr level slots b left (x ∷ right) a (right ++ a) x h
          (λ over. absurd (cons_not_nil x right over)) refl in
      rw c.here (record {
        slots = slots;
        seen = b ++ left;
        returned = refl;
        stands = record {
          before = b;
          left = left;
          right = x ∷ right;
          after = a;
          points = h;
          passed = refl;
          ahead = refl;
          settled = λ over. absurd (cons_not_nil x right over);
        };
      })
  settle-Lowered slots b left [] a h =
      let next = next_outside malloc io disk slots b left a h in
      rw (Points-outside malloc io disk ptr level slots b left a h, next.returned)
        (record {
          slots = next.slots;
          seen = b ++ left;
          returned = ap done (unless_end-fine (with_slots ptr level next.slots) next.rc next.fine);
          stands = next.stands;
        })

  pub lower_bound-Lowered :
      (pages : ℕ) (es : List Entry)
      → Stored malloc io disk level ptr es
      → IsSorted es
      → malloc (suc level * pointer_size) ≡ true
      → Lowered (drop_below key es) (
          ctree_lower_bound malloc io disk
            (ctree_iter_setup (record { ptr = ptr; height = suc level; pages = pages }))
            key)
  unfolding ctree_lower_bound ctree_iter_setup ctree_seek
  lower_bound-Lowered pages es stored sorted enough =
      let f = seek-Found malloc io disk key level ptr es [] [] [] stored sorted (refl, refl) in
      rw
        (
          tall malloc io disk ptr level,
          on_prepared-fresh malloc ptr (suc level) _ enough,
          tall malloc io disk ptr level,
          levels,
          f.returned,
        )
        (subst (λ xs. Lowered xs (settle (with_slots ptr level f.slots)))
          (f.ahead ∙ append-nil (drop_below key es))
          (settle-Lowered f.slots f.before f.left f.right f.after f.points))
    where
      levels :
          unwind (replicate level empty_slot) (empty_slot ∷ [])
          ≡ empty_slot ∷ replicate level empty_slot
      levels =
          let e : level + 1 ≡ suc level = omega arith in
          unwind-replicate empty_slot level 1 ∙ ap (λ n. replicate n empty_slot) e

  -- The comparison at the end of `ctree_lookup`.
  abbrev compare : CtreeIter → Run (CtreeIter × Result Bool)
  compare it = current it >>= λ here. elim here [
    | none ↦ done (it, ok false)
    | some p ↦ entry_of p.0.entry p.1 >>= λ slot. ctree_node_key p.0 slot >>= λ node_key.
        done (it, ok (elim (cmp node_key key) [ eq ↦ true | _ ↦ false ]))
  ]

  compare-LooksUp :
      (slots : List Slot) (seen rest : List Entry)
      → StandsAt malloc io disk slots seen rest
      → StartsHigh key rest
      → IsSorted rest
      → LooksUp (find key rest) (compare (with_slots ptr level slots))
  unfolding find ctree_key ctree_val
  compare-LooksUp slots seen [] h high sorted =
      rw
        (Points-end malloc io disk ptr level slots h.before h.left h.right h.after h.points h.ahead)
        (with_slots ptr level slots, refl)
  compare-LooksUp slots seen (e ∷ rest) h (inl same) sorted =
      let c =
        Points-Current malloc io disk ptr level slots h.before h.left h.right h.after rest e
          h.points h.settled h.ahead in
      rw (find, same, c.here, ◌>>=◌, c.slot.there, c.slot.key, same)
        (
          with_slots ptr level slots,
          refl,
          rw (c.here, ◌>>=◌, c.slot.there, c.slot.key) refl,
          rw (c.here, ◌>>=◌, c.slot.there, c.slot.val) refl,
        )
  compare-LooksUp slots seen (e ∷ rest) h (inr above) sorted =
      let c =
        Points-Current malloc io disk ptr level slots h.before h.left h.right h.after rest e
          h.points h.settled h.ahead in
      rw (c.here, ◌>>=◌, c.slot.there, c.slot.key, above, find-sorted_gt key e rest above sorted)
        (with_slots ptr level slots, refl)

  lookup-LooksUp :
      (pages : ℕ) (es : List Entry)
      → Stored malloc io disk level ptr es
      → IsSorted es
      → malloc (suc level * pointer_size) ≡ true
      → LooksUp (find key es) (
          ctree_lookup malloc io disk
            (ctree_iter_setup (record { ptr = ptr; height = suc level; pages = pages }))
            key)
  unfolding ctree_lookup ctree_iter_setup
  lookup-LooksUp pages es stored sorted enough =
      let low = lower_bound-Lowered pages es stored sorted enough in
      rw (tall malloc io disk ptr level, low.returned)
        (subst (λ found. LooksUp found (compare (with_slots ptr level low.slots)))
          (find-drop_below key es)
          (compare-LooksUp low.slots low.seen (drop_below key es) low.stands
            (drop_below-StartsHigh key es) (drop_below-IsSorted key es sorted)))

-- `ctree_lower_bound` with a new iterator, and the walk from there.
unfoldable pub walk_from :
    (malloc : ℕ → Bool) (io : Io) (disk : io.Disk) ⦃o : KeyOrder⦄ (turns : ℕ)
    → Ctree
    → Bytes
    → Run (List Entry)
walk_from malloc io disk turns t key = do
  (it, rc) ← ctree_lower_bound malloc io disk (ctree_iter_setup t) key
  elim rc [ err e ↦ fail e | ok u ↦ visit malloc io disk turns it ]

visit_nothing :
    (malloc : ℕ → Bool) (io : Io) (disk : io.Disk) ⦃o : KeyOrder⦄ (key : Bytes) (ptr : AulsmfsPtr)
    (pages turns : ℕ)
    → 0 < turns
    → walk_from malloc io disk turns (record { ptr = ptr; height = 0; pages = pages }) key
      ≡ done (drop_below key [])
unfolding walk_from ctree_lower_bound ctree_iter_setup visit ctree_key ctree_val drop_below
visit_nothing malloc io disk key ptr pages zero more = absurd (omega (arith, more))
visit_nothing malloc io disk key ptr pages (suc turns) more = refl

module _ (malloc : ℕ → Bool) (io : Io) (disk : io.Disk) ⦃o : KeyOrder⦄ (key : Bytes) (t : Ctree)
    (es : List Entry) (sorted : IsSorted es) where
  -- On a tree whose nodes can be read and whose keys increase, where there is memory for the
  -- arrays of the iterator, `ctree_lookup` with a new iterator returns whether there is an entry
  -- with an equal key, and `ctree_key` and `ctree_val` then give that entry.
  pub ctree_lookup-find :
      HoldsTree malloc io disk t.height t.ptr es
      → malloc (t.height * pointer_size) ≡ true
      → LooksUp (find key es) (ctree_lookup malloc io disk (ctree_iter_setup t) key)
  ctree_lookup-find h enough = at_height t.ptr t.height t.pages h enough
    where
      at_height :
          (ptr : AulsmfsPtr) (height pages : ℕ)
          → HoldsTree malloc io disk height ptr es
          → malloc (height * pointer_size) ≡ true
          → LooksUp (find key es) (
              ctree_lookup malloc io disk
                (ctree_iter_setup (record { ptr = ptr; height = height; pages = pages }))
                key)
      at_height ptr zero pages over enough =
          subst
            (λ xs. LooksUp (find key xs) (
              ctree_lookup malloc io disk
                (ctree_iter_setup (record { ptr = ptr; height = 0; pages = pages })) key))
            (sym over) (lookup_nothing malloc io disk key ptr pages)
      at_height ptr (suc level) pages stored enough =
          lookup-LooksUp malloc io disk key ptr level pages es stored sorted enough

  -- On a tree whose nodes can be read and whose keys increase, where there is memory for the
  -- arrays of the iterator, `ctree_lower_bound` with a new iterator, then `ctree_key`,
  -- `ctree_val` and `ctree_next` in turn, with more turns than there are entries not below the
  -- key, visit exactly those entries, in order, and end.
  pub walk_from-drop_below :
      (turns : ℕ)
      → HoldsTree malloc io disk t.height t.ptr es
      → malloc (t.height * pointer_size) ≡ true
      → length (drop_below key es) < turns
      → walk_from malloc io disk turns t key ≡ done (drop_below key es)
  unfolding walk_from
  walk_from-drop_below turns h enough more = at_height t.ptr t.height t.pages h enough
    where
      at_height :
          (ptr : AulsmfsPtr) (height pages : ℕ)
          → HoldsTree malloc io disk height ptr es
          → malloc (height * pointer_size) ≡ true
          → walk_from malloc io disk turns
              (record { ptr = ptr; height = height; pages = pages })
              key
            ≡ done (drop_below key es)
      at_height ptr zero pages over enough =
          subst
            (λ xs.
              walk_from malloc io disk turns (record { ptr = ptr; height = 0; pages = pages }) key
              ≡ done (drop_below key xs))
            (sym over) (visit_nothing malloc io disk key ptr pages turns (omega (arith, more)))
      at_height ptr (suc level) pages stored enough =
          let low =
            lower_bound-Lowered malloc io disk key ptr level pages es stored sorted enough in
          rw (low.returned, ◌>>=◌)
            (visit-ahead malloc io disk ptr level turns low.slots low.seen (drop_below key es)
              low.stands more)
