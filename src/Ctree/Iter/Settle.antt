-- ===== src/Ctree/Iter/Settle.antt =====
-- From the end of a leaf `ctree_next` of lib/ctree.c goes to the first entry after it.
use mathlib.Core.Path.{subst}
use fuse_example.Base.{
  ℕ, ◌+◌, ◌≡◌, refl, sym, ap, ◌∙◌, arith, Bool, true, none, List, [], ◌∷◌, ◌++◌, ◌⊎◌, inl, inr,
  length, append-nil, ◌==◌, ge→ltb,
}
use fuse_example.Errors.{Result, ok, err, enoent, done}
use fuse_example.Io.{Io}
use fuse_example.Lsm.Key.{Entry}
use fuse_example.Ctree.Node.{CtreeNode}
use fuse_example.Ctree.Node.Reads.{Reads}
use fuse_example.Ctree.Iter.{Slot, Moved, find_level, next_slots, step_off}
use fuse_example.Ctree.Iter.Spec.{Above, Points, StandsAt}
use fuse_example.Ctree.Iter.Descend.{length-Reads, at_node}
use fuse_example.Ctree.Iter.Next.{Climbs, climb-Climbs}

module _ (malloc : ℕ → Bool) (io : Io) (disk : io.Disk) where
  -- From the end of a leaf to the entries after it, if there are any.
  pub record Settled (seen rest : List Entry) (m : Moved (List Slot)) : Type 0 where
    pub slots : List Slot
    pub rc : Result (Unit {0})
    pub returned : m ≡ done (slots, rc)
    pub fine : (rc ≡ ok tt) ⊎ (rc ≡ err enoent)
    pub stands : StandsAt malloc io disk slots seen rest

  climbed-Settled :
      (n : CtreeNode) (up slots : List Slot) (left b a : List Entry) (m : Moved (List Slot))
      → Reads n n.entry (left ++ [])
      → Above malloc io disk 0 up b (left ++ []) a
      → slots ≡ at_node n (length left) ∷ up
      → Climbs malloc io disk slots (b ++ (left ++ [])) a m
      → Settled (b ++ left) a m
  climbed-Settled n up slots left b a m h above same (inl (over, returned)) = record {
    slots = slots;
    rc = err enoent;
    returned = returned;
    fine = inr refl;
    stands =
        subst (λ ss. StandsAt malloc io disk ss (b ++ left) a) (sym same)
          (record {
            before = b;
            left = left;
            right = [];
            after = a;
            points = (record { node = n; is_there = refl; holds = h; stands = refl }, above);
            passed = refl;
            ahead = refl;
            settled = λ _. over;
          });
  }
  climbed-Settled n up slots left b a m h above same (inr (more, next)) = record {
    slots = next.0;
    rc = ok tt;
    returned = next.1;
    fine = inl refl;
    stands = subst (λ es. StandsAt malloc io disk next.0 (b ++ es) a) (append-nil left) next.2;
  }

  leaf_end :
      (n : CtreeNode) (up : List Slot) (left b a : List Entry)
      → Reads n n.entry (left ++ [])
      → Above malloc io disk 0 up b (left ++ []) a
      → Settled (b ++ left) a (next_slots malloc io disk (at_node n (length left) ∷ up))
  unfolding next_slots
  leaf_end n up left b a h above =
      let count = length-Reads n n.entry (left ++ []) h ∙ ap length (append-nil left) in
      let same : (length left == length n.entry) ≡ true = ground (arith, count) in
      rw (find_level, ge→ltb (length left + 1) (length n.entry) (omega (arith, count)))
        (climbed-Settled n up (step_off (at_node n (length left) ∷ up)) left b a _ h above
          (rw same refl)
          (climb-Climbs malloc io disk (step_off (at_node n (length left) ∷ up))
            (record { node = none; pos = length left }) [] up b (left ++ []) a above))

  pub next_outside :
      (slots : List Slot) (b left a : List Entry)
      → Points malloc io disk slots b left [] a
      → Settled (b ++ left) a (next_slots malloc io disk slots)
  next_outside [] b left a h = elim h [ ]
  next_outside (s ∷ up) b left a (leaf, above) =
      subst (λ v. Settled (b ++ left) a (next_slots malloc io disk (v ∷ up)))
        (λ i. record { node = sym leaf.is_there i; pos = sym leaf.stands i })
        (leaf_end leaf.node up left b a leaf.holds above)
