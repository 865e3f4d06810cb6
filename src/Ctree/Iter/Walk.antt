-- ===== src/Ctree/Iter/Walk.antt =====
-- Iteration with `ctree_begin`, `ctree_next`, `ctree_key` and `ctree_val` of lib/ctree.c.
use mathlib.Core.Path.{subst}
use fuse_example.Base.{
  ℕ, zero, suc, ◌+◌, ◌*◌, ◌<◌, ◌≡◌, refl, sym, ap, ◌∙◌, arith, Bool, true, false, Option, none,
  some, List, [], ◌∷◌, ◌++◌, length, replicate, length-replicate, append-nil, append_assoc, ◌==◌,
}
use fuse_example.Errors.{Result, ok, err, Run, done, fail, out_of_fuel, ◌>>=◌}
use fuse_example.Io.{Io}
use fuse_example.Lsm.Key.{Entry}
use fuse_example.Ctree.Builder.{pointer_size}
use fuse_example.Ctree.Node.{AulsmfsPtr, CtreeNode}
use fuse_example.Ctree.Root.{Ctree}
use fuse_example.Ctree.Iter.{
  Slot, empty_slot, CtreeIter, Moved, unwind, first_pos, descend, read_down, ctree_iter_setup,
  ctree_iter_prepare, ctree_begin, on_prepared, if_prepared, ctree_next, ctree_key, ctree_val,
  current,
}
use fuse_example.Ctree.Iter.Spec.{entries_of, Stored, HoldsTree, Points, StandsAt}
use fuse_example.Ctree.Iter.Descend.{
  length-Reads, SlotOf, Reads-SlotOf, ctree_node_ptr-child, Arrives, first-Above, descend-first,
}
use fuse_example.Ctree.Iter.Next.{next_code, next_slots-Steps, cons_not_nil, head_eq, entry_count}

-- `for (; ctree_key(&it, &key) >= 0; ctree_next(&it))` with the value at each turn, for at most so
-- many turns.
unfoldable pub visit :
    (malloc : ℕ → Bool) (io : Io) (disk : io.Disk) → (turns : ℕ) → CtreeIter → Run (List Entry)
unfolding ctree_key ctree_val ctree_next
visit malloc io disk zero it = out_of_fuel
visit malloc io disk (suc turns) it = do
  (key, rc) ← ctree_key it
  (val, rc) ← ctree_val it
  elim key [
    | none ↦ done []
    | some k ↦ elim val [
      | none ↦ done []
      | some v ↦ do
        (it, rc) ← ctree_next malloc io disk it
        rest ← visit malloc io disk turns it
        done (record { key = k; val = v } ∷ rest)
    ]
  ]

unfoldable pub walk :
    (malloc : ℕ → Bool) (io : Io) (disk : io.Disk) → (turns : ℕ) → Ctree → Run (List Entry)
unfolding ctree_begin ctree_iter_setup visit
walk malloc io disk turns t = do
  (it, rc) ← ctree_begin malloc io disk (ctree_iter_setup t)
  elim rc [ err e ↦ fail e | ok u ↦ visit malloc io disk turns it ]

pub unwind-replicate {ℓ} :
    {A : Type ℓ} (x : A) (k j : ℕ) → unwind (replicate k x) (replicate j x) ≡ replicate (k + j) x
unwind-replicate x zero j = ap (λ n. replicate n x) (omega arith)
unwind-replicate x (suc k) j = unwind-replicate x k (suc j) ∙ ap (λ n. replicate n x) (omega arith)

-- The arrays of a new iterator.
prepared :
    (malloc : ℕ → Bool) (ptr : AulsmfsPtr) (height : ℕ)
    → malloc (height * pointer_size) ≡ true
    → ctree_iter_prepare malloc (record { ptr = ptr; height = height; slots = none })
      ≡ (record { ptr = ptr; height = height; slots = some (replicate height empty_slot) }, ok tt)
unfolding ctree_iter_prepare
prepared malloc ptr height enough = rw enough refl

-- A new iterator gets its arrays.
pub on_prepared-fresh :
    (malloc : ℕ → Bool) (ptr : AulsmfsPtr) (height : ℕ) (go : CtreeIter → Moved CtreeIter)
    → malloc (height * pointer_size) ≡ true
    → on_prepared malloc (record { ptr = ptr; height = height; slots = none }) go
      ≡ go (record { ptr = ptr; height = height; slots = some (replicate height empty_slot) })
on_prepared-fresh malloc ptr height go enough =
    ap (λ p. if_prepared p go) (prepared malloc ptr height enough)

-- An iterator over a tree that is not empty.
abbrev pub with_slots : AulsmfsPtr → (level : ℕ) → List Slot → CtreeIter
with_slots ptr level slots = record { ptr = ptr; height = suc level; slots = some slots }

module _ (malloc : ℕ → Bool) (io : Io) (disk : io.Disk) where
  read_down-Arrives :
      (s : Slot) (below : List Slot) (ptr : AulsmfsPtr) (es : List Entry)
      → Stored malloc io disk (length below) ptr es
      → Arrives malloc io disk [] es (read_down malloc io disk first_pos ptr (s ∷ below))
  unfolding read_down
  read_down-Arrives s [] ptr es (here, full) = rw here.read (
    record { node = some here.node; pos = 0 } ∷ [],
    refl,
    record {
      before = [];
      left = [];
      right = es;
      after = [];
      points = (
        record { node = here.node; is_there = refl; holds = here.holds; stands = refl },
        (refl, refl),
      );
      passed = refl;
      ahead = sym (append-nil es);
      settled = λ over. absurd (full over);
    },
  )
  read_down-Arrives s (t ∷ below) ptr es ([], here, full, kids, all) = absurd (full refl)
  read_down-Arrives s (t ∷ below) ptr es (k ∷ ks, here, full, kids, all) = rw here.read (
      subst
        (λ xs. Arrives malloc io disk [] xs (
          descend malloc io disk first_pos (t ∷ below) (record { node = some here.node; pos = 0 })
            []))
        (sym (append_assoc k.entries (entries_of ks) [])
          ∙ append-nil (entries_of (k ∷ ks))
          ∙ sym all)
        (descend-first malloc io disk t below here.node 0 [] k [] (entries_of ks ++ [])
          (ctree_node_ptr-child here.node [] k ks 0 here.holds refl kids.0.2) kids.0.0
          (first-Above malloc io disk (length below) here.node k ks [] [] es [] here.holds kids all
            (refl, refl))))

module _ (malloc : ℕ → Bool) (io : Io) (disk : io.Disk) (ptr : AulsmfsPtr) (level : ℕ) where
  pub tall : (suc level == 0) ≡ false
  tall = ground arith

  -- The iterator has moved between `seen` and `rest`.
  abbrev pub Moves : Result (Unit {0}) → (seen rest : List Entry) → Moved CtreeIter → Type 0
  Moves rc seen rest m =
      (slots : List Slot) × (m ≡ done (with_slots ptr level slots, rc))
      × StandsAt malloc io disk slots seen rest

  pub ctree_begin-Moves :
      (pages : ℕ) (es : List Entry)
      → Stored malloc io disk level ptr es
      → malloc (suc level * pointer_size) ≡ true
      → Moves (ok tt) [] es (
          ctree_begin malloc io disk
            (ctree_iter_setup (record { ptr = ptr; height = suc level; pages = pages })))
  unfolding ctree_begin ctree_iter_setup
  ctree_begin-Moves pages es stored enough =
      rw (on_prepared-fresh malloc ptr (suc level) _ enough, levels, first.1)
        (first.0, refl, first.2)
    where
      levels :
          unwind (replicate level empty_slot) (empty_slot ∷ [])
          ≡ empty_slot ∷ replicate level empty_slot
      levels =
          let e : level + 1 ≡ suc level = omega arith in
          unwind-replicate empty_slot level 1 ∙ ap (λ n. replicate n empty_slot) e

      first :
          Arrives malloc io disk [] es
            (read_down malloc io disk first_pos ptr (empty_slot ∷ replicate level empty_slot))
      first = read_down-Arrives malloc io disk empty_slot (replicate level empty_slot) ptr es (
          subst (λ n. Stored malloc io disk n ptr es) (sym (length-replicate level empty_slot))
            stored)

  pub ctree_next-Moves :
      (slots : List Slot) (seen rest : List Entry) (e : Entry)
      → StandsAt malloc io disk slots seen (e ∷ rest)
      → Moves
          (next_code malloc io disk rest)
          (seen ++ e ∷ [])
          rest
          (ctree_next malloc io disk (with_slots ptr level slots))
  unfolding ctree_next
  ctree_next-Moves slots seen rest e h =
      let (next, eq, stands) = next_slots-Steps malloc io disk slots seen rest e h in
      rw eq (next, refl, stands)

  -- The slot of an entry in the leaf where the iterator stands.
  pub record Current (m : Run (Option (CtreeNode × ℕ))) (e : Entry) : Type 0 where
    pub node : CtreeNode
    pub pos : ℕ
    pub here : m ≡ done (some (node, pos))
    pub slot : SlotOf node node.entry pos e

  pub Points-Current :
      (slots : List Slot) (b left right a rest : List Entry) (e : Entry)
      → Points malloc io disk slots b left right a
      → (right ≡ [] → a ≡ [])
      → e ∷ rest ≡ right ++ a
      → Current (current (with_slots ptr level slots)) e
  Points-Current [] b left right a rest e h settled ahead = elim h [ ]
  Points-Current (s ∷ up) b left [] a rest e h settled ahead =
      absurd (cons_not_nil e rest (ahead ∙ settled refl))
  Points-Current (s ∷ up) b left (x ∷ right) a rest e (leaf, above) settled ahead =
      subst (λ v. Current (current (with_slots ptr level (v ∷ up))) e)
        (λ i. record { node = sym leaf.is_there i; pos = sym leaf.stands i })
        (record {
          node = leaf.node;
          pos = length left;
          here = rw (tall, inside) refl;
          slot =
              subst (λ y. SlotOf leaf.node leaf.node.entry (length left) y)
                (sym (head_eq e x rest (right ++ a) ahead))
                (Reads-SlotOf leaf.node leaf.node.entry left x right leaf.holds);
        })
    where
      inside : (length left == length leaf.node.entry) ≡ false
      inside = ground (arith, entry_count malloc io disk leaf.node left x right leaf.holds)

  -- At the end of a leaf.
  pub Points-outside :
      (slots : List Slot) (b left a : List Entry)
      → Points malloc io disk slots b left [] a
      → current (with_slots ptr level slots) ≡ done none
  Points-outside [] b left a h = elim h [ ]
  Points-outside (s ∷ up) b left a (leaf, above) =
      subst (λ v. current (with_slots ptr level (v ∷ up)) ≡ done none)
        (λ i. record { node = sym leaf.is_there i; pos = sym leaf.stands i })
        (rw (tall, outside) refl)
    where
      outside : (length left == length leaf.node.entry) ≡ true
      outside = ground (
        arith,
        length-Reads leaf.node leaf.node.entry (left ++ []) leaf.holds,
        ap length (append-nil left),
      )

  pub Points-end :
      (slots : List Slot) (b left right a : List Entry)
      → Points malloc io disk slots b left right a
      → [] ≡ right ++ a
      → current (with_slots ptr level slots) ≡ done none
  Points-end slots b left (x ∷ right) a h ahead = absurd (cons_not_nil x (right ++ a) (sym ahead))
  Points-end slots b left [] a h ahead = Points-outside slots b left a h

  -- From an entry on, the walk visits what is ahead.
  pub visit-ahead :
      (turns : ℕ) (slots : List Slot) (seen rest : List Entry)
      → StandsAt malloc io disk slots seen rest
      → length rest < turns
      → visit malloc io disk turns (with_slots ptr level slots) ≡ done rest
  unfolding visit ctree_key ctree_val
  visit-ahead zero slots seen rest h enough = absurd (omega (arith, enough))
  visit-ahead (suc turns) slots seen [] h enough =
      rw (Points-end slots h.before h.left h.right h.after h.points h.ahead) refl
  visit-ahead (suc turns) slots seen (e ∷ rest) h enough =
      let c =
        Points-Current slots h.before h.left h.right h.after rest e h.points h.settled h.ahead in
      let (next, eq, stands) = ctree_next-Moves slots seen rest e h in
      rw
        (
          c.here,
          ◌>>=◌,
          c.slot.there,
          c.slot.key,
          c.slot.val,
          eq,
          visit-ahead turns next (seen ++ e ∷ []) rest stands (omega (arith, enough)),
        )
        refl

module _ (malloc : ℕ → Bool) (io : Io) (disk : io.Disk) (t : Ctree) (es : List Entry) where
  visit-nothing :
      (turns : ℕ) (ptr : AulsmfsPtr)
      → es ≡ []
      → length es < turns
      → visit malloc io disk turns (record { ptr = ptr; height = 0; slots = some [] }) ≡ done es
  unfolding visit ctree_key ctree_val
  visit-nothing zero ptr over more = absurd (omega (arith, more))
  visit-nothing (suc turns) ptr over more = ap done (sym over)

  -- `ctree_begin`, then `ctree_key`, `ctree_val` and `ctree_next` in turn, with more turns than
  -- the tree has entries, visit the entries of a tree whose nodes can be read, where there is
  -- memory for the arrays of the iterator, each once and in order, and end.
  pub walk-entries :
      (turns : ℕ)
      → HoldsTree malloc io disk t.height t.ptr es
      → malloc (t.height * pointer_size) ≡ true
      → length es < turns
      → walk malloc io disk turns t ≡ done es
  unfolding walk
  walk-entries turns h enough more = at_height t.ptr t.height t.pages h enough
    where
      at_height :
          (ptr : AulsmfsPtr) (height pages : ℕ)
          → HoldsTree malloc io disk height ptr es
          → malloc (height * pointer_size) ≡ true
          → walk malloc io disk turns (record { ptr = ptr; height = height; pages = pages })
            ≡ done es
      at_height ptr zero pages over enough =
          rw (ctree_begin, on_prepared-fresh malloc ptr 0 _ enough)
            (visit-nothing turns ptr over more)
      at_height ptr (suc level) pages stored enough =
          let (slots, eq, stands) =
            ctree_begin-Moves malloc io disk ptr level pages es stored enough in
          rw (eq, ◌>>=◌) (visit-ahead malloc io disk ptr level turns slots [] es stands more)
