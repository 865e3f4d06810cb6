-- ===== src/Ctree/Iter/Descend.antt =====
-- The last loop of `ctree_next` and `ctree_begin` in lib/ctree.c: down to the first entry of a subtree.
use mathlib.Core.Path.{subst}
use fuse_example.Base.{
  ℕ, suc, ◌≡◌, refl, sym, ap, ◌∙◌, Bool, some, List, [], ◌∷◌, ◌++◌, map, length, append_assoc,
  append-nil,
}
use fuse_example.Errors.{ok, done, ◌>>=◌}
use fuse_example.Memory.{load-encode}
use fuse_example.Io.{Io}
use fuse_example.Lsm.Key.{Entry}
use fuse_example.Mtree.Spec.{All}
use fuse_example.Ctree.Builder.{ptr_image}
use fuse_example.Ctree.Node.{AulsmfsPtr, CtreeEntry, CtreeNode, ctree_node_key, ctree_node_val}
use fuse_example.Ctree.Node.Reads.{Reads}
use fuse_example.Ctree.Iter.{Slot, Moved, entry_of, ptr_of, ctree_node_ptr, descend, first_pos}
use fuse_example.Ctree.Iter.Spec.{
  Child, pair_of, entries_of, PtrFits, Stored, IsChild, Above, StandsAt,
}

pub length-Reads :
    (n : CtreeNode) (slots : List CtreeEntry) (es : List Entry)
    → Reads n slots es
    → length slots ≡ length es
length-Reads n [] [] h = refl
length-Reads n [] (e ∷ es) h = elim h [ ]
length-Reads n (s ∷ slots) [] h = elim h [ ]
length-Reads n (s ∷ slots) (e ∷ es) h = ap suc (length-Reads n slots es h.2)

-- The slot of one of the entries that a node reads.
pub record SlotOf (n : CtreeNode) (slots : List CtreeEntry) (pos : ℕ) (e : Entry) : Type 0 where
  pub slot : CtreeEntry
  pub there : entry_of slots pos ≡ done slot
  pub key : ctree_node_key n slot ≡ done e.key
  pub val : ctree_node_val n slot ≡ done e.val

pub Reads-SlotOf :
    (n : CtreeNode) (slots : List CtreeEntry) (left : List Entry) (e : Entry) (right : List Entry)
    → Reads n slots (left ++ e ∷ right)
    → SlotOf n slots (length left) e
Reads-SlotOf n [] [] e right h = elim h [ ]
Reads-SlotOf n [] (x ∷ left) e right h = elim h [ ]
Reads-SlotOf n (s ∷ slots) [] e right h = record { slot = s; there = refl; key = h.0; val = h.1 }
Reads-SlotOf n (s ∷ slots) (x ∷ left) e right h =
    let r = Reads-SlotOf n slots left e right h.2 in
    record { slot = r.slot; there = r.there; key = r.key; val = r.val }

pub map-split :
    (left : List Child) (c : Child) (right : List Child)
    → map pair_of (left ++ c ∷ right) ≡ map pair_of left ++ pair_of c ∷ map pair_of right
map-split [] c right = refl
map-split (x ∷ left) c right = ap (λ xs. pair_of x ∷ xs) (map-split left c right)

pub length-map_pair : (cs : List Child) → length (map pair_of cs) ≡ length cs
length-map_pair [] = refl
length-map_pair (c ∷ cs) = ap suc (length-map_pair cs)

pub ptr_of-ptr_image : (p : AulsmfsPtr) → PtrFits p → ptr_of (ptr_image p) ≡ p
ptr_of-ptr_image p h = λ i. record {
  offs = load-encode 8 p.offs h.offs_fits i;
  size = load-encode 8 p.size h.size_fits i;
  csum = load-encode 8 p.csum h.csum_fits i;
}

-- The pointer that a parent keeps for a subtree.
pub ctree_node_ptr-child :
    (n : CtreeNode) (left : List Child) (c : Child) (right : List Child) (pos : ℕ)
    → Reads n n.entry (map pair_of (left ++ c ∷ right))
    → pos ≡ length left
    → PtrFits c.ptr
    → ctree_node_ptr n pos ≡ done c.ptr
unfolding ctree_node_ptr
ctree_node_ptr-child n left c right pos h e f =
    let s = child_slot in rw (s.there, ◌>>=◌, s.val) (ap done (ptr_of-ptr_image c.ptr f))
  where
    child_slot : SlotOf n n.entry pos (pair_of c)
    child_slot =
        subst (λ k. SlotOf n n.entry k (pair_of c)) (length-map_pair left ∙ sym e)
          (Reads-SlotOf n n.entry (map pair_of left) (pair_of c) (map pair_of right)
            (subst (λ es. Reads n n.entry es) (map-split left c right) h))

-- A level at a position of its node.
abbrev pub at_node : CtreeNode → ℕ → Slot
at_node n pos = record { node = some n; pos = pos }

module _ (malloc : ℕ → Bool) (io : Io) (disk : io.Disk) where
  -- Going down from a parent at a subtree leads to the first entry of that subtree.
  abbrev pub Arrives : List Entry → List Entry → Moved (List Slot) → Type 0
  Arrives seen rest m =
      (slots : List Slot) × (m ≡ done (slots, ok tt)) × StandsAt malloc io disk slots seen rest

  -- The first of the subtrees of a node that was just read.
  pub first-Above :
      (level : ℕ) (n : CtreeNode) (k : Child) (ks : List Child) (above : List Slot)
      (b mid a : List Entry)
      → Reads n n.entry (map pair_of (k ∷ ks))
      → All (IsChild malloc io disk level) (k ∷ ks)
      → mid ≡ entries_of (k ∷ ks)
      → Above malloc io disk (suc level) above b mid a
      → Above malloc io disk level (at_node n 0 ∷ above) b k.entries (entries_of ks ++ a)
  first-Above level n k ks above b mid a h kids all up = (
    record {
      node = n;
      left = [];
      child = k;
      right = ks;
      is_there = refl;
      holds = h;
      stands = refl;
      stored = kids;
      middle = refl;
    },
    b,
    a,
    subst (λ es. Above malloc io disk (suc level) above b es a) all up,
    sym (append-nil b),
    refl,
  )

  pub descend-first :
      (s : Slot) (below : List Slot) (n : CtreeNode) (pos : ℕ) (above : List Slot) (c : Child)
      (b a : List Entry)
      → ctree_node_ptr n pos ≡ done c.ptr
      → Stored malloc io disk (length below) c.ptr c.entries
      → Above malloc io disk (length below) (at_node n pos ∷ above) b c.entries a
      → Arrives b
          (c.entries ++ a)
          (descend malloc io disk first_pos (s ∷ below) (at_node n pos) above)
  unfolding descend
  descend-first s [] n pos above c b a ptr (here, full) up =
      rw (ptr, here.read)
        (
          at_node here.node 0 ∷ at_node n pos ∷ above,
          refl,
          record {
            before = b;
            left = [];
            right = c.entries;
            after = a;
            points = (
              record { node = here.node; is_there = refl; holds = here.holds; stands = refl },
              up,
            );
            passed = sym (append-nil b);
            ahead = refl;
            settled = λ over. absurd (full over);
          },
        )
  descend-first s (t ∷ below) n pos above c b a ptr ([], here, full, kids, all) up =
      absurd (full refl)
  descend-first s (t ∷ below) n pos above c b a ptr (k ∷ ks, here, full, kids, all) up =
      rw (ptr, here.read)
        (subst
          (λ es. Arrives b es (
            descend malloc io disk first_pos (t ∷ below) (at_node here.node 0)
              (at_node n pos ∷ above)))
          (sym (append_assoc k.entries (entries_of ks) a) ∙ ap (λ es. es ++ a) (sym all))
          (descend-first t below here.node 0 (at_node n pos ∷ above) k b (entries_of ks ++ a)
            (ctree_node_ptr-child here.node [] k ks 0 here.holds refl kids.0.2) kids.0.0
            (first-Above (length below) here.node k ks (at_node n pos ∷ above) b c.entries a
              here.holds kids all up)))
