-- ===== src/Ctree/Iter/Next.antt =====
-- `ctree_next` of lib/ctree.c: one entry on in the leaf, or up to the first level that can move.
use mathlib.Core.Path.{subst, ap₂}
use fuse_example.Base.{
  ℕ, suc, ◌+◌, ◌≡◌, ◌≢◌, refl, sym, ap, ◌∙◌, arith, Bool, false, Option, none, some, List, [], ◌∷◌,
  ◌++◌, ◌⊎◌, inl, inr, map, length, length-append, append_assoc, append-nil, ◌==◌, ge→ltb, lt→ltb,
}
use fuse_example.Errors.{Result, ok, err, enoent, Run, done, ◌>>=◌}
use fuse_example.Io.{Io}
use fuse_example.Lsm.Key.{Bytes, Entry}
use fuse_example.Mtree.Spec.{All}
use fuse_example.Ctree.Node.{CtreeNode}
use fuse_example.Ctree.Node.Reads.{Reads}
use fuse_example.Ctree.Iter.{
  Slot, Moved, descend, first_pos, find_level, has_next, next_slots, step_off,
}
use fuse_example.Ctree.Iter.Spec.{
  entries_of-append, All-middle, Child, pair_of, entries_of, LeadsWith, IsChild, Above, Points,
  StandsAt,
}
use fuse_example.Ctree.Iter.Descend.{
  length-Reads, length-map_pair, ctree_node_ptr-child, Arrives, at_node, descend-first,
}

pub cons_not_nil : (e : Entry) (es : List Entry) → e ∷ es ≢ []
cons_not_nil e es h = cc

pub head_eq : (a b : Entry) (xs ys : List Entry) → a ∷ xs ≡ b ∷ ys → a ≡ b
head_eq a b xs ys h = cc

pub tail_eq : (a b : Entry) (xs ys : List Entry) → a ∷ xs ≡ b ∷ ys → xs ≡ ys
tail_eq a b xs ys h = cc

module _ (malloc : ℕ → Bool) (io : Io) (disk : io.Disk) where
  length-snoc {ℓ} : {A : Type ℓ} (xs : List A) (x : A) → length xs + 1 ≡ length (xs ++ x ∷ [])
  length-snoc [] x = refl
  length-snoc (y ∷ ys) x = omega (arith, length-snoc ys x)

  children_count :
      (n : CtreeNode) (left : List Child) (c : Child) (right : List Child)
      → Reads n n.entry (map pair_of (left ++ c ∷ right))
      → length n.entry ≡ length left + suc (length right)
  children_count n left c right h =
      length-Reads n n.entry (map pair_of (left ++ c ∷ right)) h
      ∙ length-map_pair (left ++ c ∷ right)
      ∙ length-append left (c ∷ right)

  -- The rest of `next_slots` once the level is found, or `slots` after the last entry.
  abbrev pub resume_next :
      List Slot → Run (Option (List Slot × Slot × List Slot)) → Moved (List Slot)
  resume_next slots found = found >>= λ found. elim found [
    | none ↦ done (slots, err enoent)
    | some (below, s, up) ↦ descend malloc io disk first_pos below (record s { pos = s.pos + 1 }) up
  ]

  -- Above a finished subtree: either no entry is left, or the first one after it is reached.
  abbrev pub Climbs : (slots : List Slot) (seen rest : List Entry) → Moved (List Slot) → Type 0
  Climbs slots seen rest m =
      ((rest ≡ []) × (m ≡ done (slots, err enoent)))
      ⊎ ((rest ≢ []) × Arrives malloc io disk seen rest m)

  child_entries : (key : Bytes) (es more : List Entry) → LeadsWith key es → es ++ more ≢ []
  child_entries key [] more h e = elim h [ ]
  child_entries key (x ∷ es) more h e = cc

  -- The next subtree of the same node.
  next-Above :
      (level : ℕ) (n : CtreeNode) (left : List Child) (c k : Child) (ks : List Child)
      (up : List Slot) (b a : List Entry)
      → Reads n n.entry (map pair_of (left ++ c ∷ k ∷ ks))
      → All (IsChild malloc io disk level) (left ++ c ∷ k ∷ ks)
      → Above malloc io disk (suc level) up b (entries_of (left ++ c ∷ k ∷ ks)) a
      → Above malloc io disk level
          (at_node n (length left + 1) ∷ up)
          (b ++ (entries_of left ++ c.entries))
          k.entries
          (entries_of ks ++ a)
  next-Above level n left c k ks up b a h kids above =
      let e = sym (append_assoc left (c ∷ []) (k ∷ ks)) in
      (
        record {
          node = n;
          left = left ++ c ∷ [];
          child = k;
          right = ks;
          is_there = refl;
          holds = subst (λ cs. Reads n n.entry (map pair_of cs)) e h;
          stands = length-snoc left c;
          stored = subst (All (IsChild malloc io disk level)) e kids;
          middle = refl;
        },
        b,
        a,
        subst (λ cs. Above malloc io disk (suc level) up b (entries_of cs) a) e above,
        ap (λ es. b ++ es) (sym (entries_of-append left (c ∷ []) ∙ simp append-nil)),
        refl,
      )

  next_child :
      (level : ℕ) (left : List Child) (c k : Child) (ks : List Child)
      → All (IsChild malloc io disk level) (left ++ c ∷ k ∷ ks)
      → IsChild malloc io disk level k
  next_child level left c k ks kids =
      All-middle (IsChild malloc io disk level) (left ++ c ∷ []) k ks (
        subst (All (IsChild malloc io disk level)) (sym (append_assoc left (c ∷ []) (k ∷ ks))) kids)

  climb_turn :
      (slots : List Slot) (s : Slot) (below up : List Slot) (n : CtreeNode) (left : List Child)
      (c : Child) (right : List Child) (b a : List Entry)
      → Reads n n.entry (map pair_of (left ++ c ∷ right))
      → All (IsChild malloc io disk (length below)) (left ++ c ∷ right)
      → Above malloc io disk (suc (length below)) up b (entries_of (left ++ c ∷ right)) a
      → Climbs slots (b ++ entries_of (left ++ c ∷ right)) a (
          resume_next slots
            (find_level has_next (record { node = none; pos = length left } ∷ s ∷ below) up))
      → Climbs slots
          (b ++ (entries_of left ++ c.entries))
          (entries_of right ++ a)
          (resume_next slots (find_level has_next (s ∷ below) (at_node n (length left) ∷ up)))
  unfolding find_level
  climb_turn slots s below up n left c [] b a h kids above climbed =
      rw
        (
          find_level,
          ge→ltb (length left + 1) (length n.entry) (omega (arith, children_count n left c [] h)),
        )
        (subst
          (λ es. Climbs slots (b ++ es) a (
            resume_next slots
              (find_level has_next (record { node = none; pos = length left } ∷ s ∷ below) up)))
          (entries_of-append left (c ∷ []) ∙ simp append-nil) climbed)
  climb_turn slots s below up n left c (k ∷ ks) b a h kids above climbed =
      rw
        (
          find_level,
          lt→ltb (length left + 1) (length n.entry)
              (omega (arith, children_count n left c (k ∷ ks) h)),
        )
        (inr (
          rest_left,
          subst
              (λ es.
                Arrives malloc io disk (b ++ (entries_of left ++ c.entries)) es
                  (descend malloc io disk first_pos (s ∷ below) (at_node n (length left + 1)) up))
              (sym (append_assoc k.entries (entries_of ks) a))
              (descend-first malloc io disk s below n (length left + 1) up k
                (b ++ (entries_of left ++ c.entries)) (entries_of ks ++ a)
                (ctree_node_ptr-child n (left ++ c ∷ []) k ks (length left + 1)
                  (subst (λ cs. Reads n n.entry (map pair_of cs))
                    (sym (append_assoc left (c ∷ []) (k ∷ ks))) h)
                  (length-snoc left c) (next_child (length below) left c k ks kids).2)
                (next_child (length below) left c k ks kids).0
                (next-Above (length below) n left c k ks up b a h kids above)),
        ))
    where
      rest_left : entries_of (k ∷ ks) ++ a ≢ []
      rest_left e =
          child_entries k.key k.entries (entries_of ks ++ a)
            (next_child (length below) left c k ks kids).1
            (sym (append_assoc k.entries (entries_of ks) a) ∙ e)

  pub climb-Climbs :
      (slots : List Slot) (s : Slot) (below up : List Slot) (b mid a : List Entry)
      → Above malloc io disk (length below) up b mid a
      → Climbs slots (b ++ mid) a (resume_next slots (find_level has_next (s ∷ below) up))
  unfolding find_level
  climb-Climbs slots s below [] b mid a h = inl (h.1, refl)
  climb-Climbs slots s below (u ∷ up) b mid a (t, b', a', h, fore, rear) =
      subst
        (λ v.
          Climbs slots (b ++ mid) a (resume_next slots (find_level has_next (s ∷ below) (v ∷ up))))
        (λ i. record { node = sym t.is_there i; pos = sym t.stands i })
        (subst
          (λ es. Climbs slots es a (
            resume_next slots
              (find_level has_next (s ∷ below) (at_node t.node (length t.left) ∷ up))))
          (sym (append_assoc b' (entries_of t.left) t.child.entries)
            ∙ ap₂ (λ xs ys. xs ++ ys) (sym fore) t.middle)
          (subst
            (λ es. Climbs slots (b' ++ (entries_of t.left ++ t.child.entries)) es (
              resume_next slots
                (find_level has_next (s ∷ below) (at_node t.node (length t.left) ∷ up))))
            (sym rear)
            (climb_turn slots s below up t.node t.left t.child t.right b' a' t.holds t.stored h (
              climb-Climbs slots (record { node = none; pos = length t.left }) (s ∷ below) up b'
                (entries_of (t.left ++ t.child ∷ t.right)) a' h))))

  -- `ctree_next` returns -ENOENT from the last entry.
  abbrev pub next_code : List Entry → Result (Unit {0})
  next_code [] = err enoent
  next_code (e ∷ rest) = ok tt

  abbrev pub Steps : List Entry → List Entry → Moved (List Slot) → Type 0
  Steps seen rest m =
      (slots : List Slot) × (m ≡ done (slots, next_code rest))
      × StandsAt malloc io disk slots seen rest

  pub entry_count :
      (n : CtreeNode) (left : List Entry) (e : Entry) (right : List Entry)
      → Reads n n.entry (left ++ e ∷ right)
      → length n.entry ≡ length left + suc (length right)
  entry_count n left e right h =
      length-Reads n n.entry (left ++ e ∷ right) h ∙ length-append left (e ∷ right)

  -- One entry on in the leaf.
  leaf_step :
      (n : CtreeNode) (up : List Slot) (left : List Entry) (e : Entry) (right b a : List Entry)
      → Reads n n.entry (left ++ e ∷ right)
      → Above malloc io disk 0 up b (left ++ e ∷ right) a
      → (right ≡ [] → a ≡ [])
      → StandsAt malloc io disk
          (at_node n (length left + 1) ∷ up)
          ((b ++ left) ++ e ∷ [])
          (right ++ a)
  leaf_step n up left e right b a h above settled =
      let path = sym (append_assoc left (e ∷ []) right) in
      record {
        before = b;
        left = left ++ e ∷ [];
        right = right;
        after = a;
        points = (
          record {
            node = n;
            is_there = refl;
            holds = subst (λ es. Reads n n.entry es) path h;
            stands = length-snoc left e;
          },
          subst (λ es. Above malloc io disk 0 up b es a) path above,
        );
        passed = append_assoc b left (e ∷ []);
        ahead = refl;
        settled = settled;
      }

  -- Past the last entry of the last leaf.
  step_off_last :
      (n : CtreeNode) (up : List Slot) (left : List Entry) (e : Entry)
      → Reads n n.entry (left ++ e ∷ [])
      → step_off (at_node n (length left) ∷ up) ≡ at_node n (length left + 1) ∷ up
  step_off_last n up left e h =
      let neq : (length left == length n.entry) ≡ false =
        ground (arith, entry_count n left e [] h) in
      rw neq refl

  climbed-Steps :
      (n : CtreeNode) (up : List Slot) (left : List Entry) (e : Entry) (b a : List Entry)
      (slots : List Slot)
      → Reads n n.entry (left ++ e ∷ [])
      → Above malloc io disk 0 up b (left ++ e ∷ []) a
      → slots ≡ at_node n (length left + 1) ∷ up
      → (m : Moved (List Slot)) → Climbs slots (b ++ (left ++ e ∷ [])) a m
      → Steps ((b ++ left) ++ e ∷ []) a m
  climbed-Steps n up left e b a slots h above off m (inl (over, eq)) = (
    slots,
    eq ∙ ap (λ es. done (slots, next_code es)) (sym over),
    subst (λ ss. StandsAt malloc io disk ss ((b ++ left) ++ e ∷ []) a) (sym off)
        (leaf_step n up left e [] b a h above (λ _. over)),
  )
  climbed-Steps n up left e b [] slots h above off m (inr (more, arrives)) = absurd (more refl)
  climbed-Steps n up left e b (x ∷ a) slots h above off m (inr (more, arrives)) =
      subst (λ es. Steps es (x ∷ a) m) (sym (append_assoc b left (e ∷ []))) arrives

  leaf-Steps :
      (n : CtreeNode) (up : List Slot) (left : List Entry) (e : Entry) (right b a : List Entry)
      → Reads n n.entry (left ++ e ∷ right)
      → Above malloc io disk 0 up b (left ++ e ∷ right) a
      → Steps
          ((b ++ left) ++ e ∷ [])
          (right ++ a)
          (next_slots malloc io disk (at_node n (length left) ∷ up))
  unfolding next_slots descend
  leaf-Steps n up left e (x ∷ right) b a h above =
      rw
        (
          find_level,
          lt→ltb (length left + 1) (length n.entry)
              (omega (arith, entry_count n left e (x ∷ right) h)),
        )
        (
          at_node n (length left + 1) ∷ up,
          refl,
          leaf_step n up left e (x ∷ right) b a h above
              (λ over. absurd (cons_not_nil x right over)),
        )
  leaf-Steps n up left e [] b a h above =
      rw
        (
          find_level,
          ge→ltb (length left + 1) (length n.entry) (omega (arith, entry_count n left e [] h)),
        )
        (climbed-Steps n up left e b a (step_off (at_node n (length left) ∷ up)) h above
          (step_off_last n up left e h) _
          (climb-Climbs (step_off (at_node n (length left) ∷ up))
            (record { node = none; pos = length left }) [] up b (left ++ e ∷ []) a above))

  Points-Steps :
      (slots : List Slot) (b left right a rest : List Entry) (e : Entry)
      → Points malloc io disk slots b left right a
      → (right ≡ [] → a ≡ [])
      → e ∷ rest ≡ right ++ a
      → Steps ((b ++ left) ++ e ∷ []) rest (next_slots malloc io disk slots)
  Points-Steps [] b left right a rest e h settled ahead = elim h [ ]
  Points-Steps (s ∷ up) b left [] a rest e h settled ahead =
      absurd (cons_not_nil e rest (ahead ∙ settled refl))
  Points-Steps (s ∷ up) b left (x ∷ right) a rest e (leaf, above) settled ahead =
      subst (λ v. Steps ((b ++ left) ++ e ∷ []) rest (next_slots malloc io disk (v ∷ up)))
        (λ i. record { node = sym leaf.is_there i; pos = sym leaf.stands i })
        (subst
          (λ es.
            Steps ((b ++ left) ++ e ∷ []) es
              (next_slots malloc io disk (at_node leaf.node (length left) ∷ up)))
          (sym (tail_eq e x rest (right ++ a) ahead))
          (leaf-Steps leaf.node up left e right b a
            (subst (λ y. Reads leaf.node leaf.node.entry (left ++ y ∷ right)) same leaf.holds)
            (subst (λ y. Above malloc io disk 0 up b (left ++ y ∷ right) a) same above)))
    where
      same : x ≡ e
      same = sym (head_eq e x rest (right ++ a) ahead)

  -- The slots of an iterator at an entry move to the next one.
  pub next_slots-Steps :
      (slots : List Slot) (seen rest : List Entry) (e : Entry)
      → StandsAt malloc io disk slots seen (e ∷ rest)
      → Steps (seen ++ e ∷ []) rest (next_slots malloc io disk slots)
  next_slots-Steps slots seen rest e h =
      subst (λ es. Steps (es ++ e ∷ []) rest (next_slots malloc io disk slots)) (sym h.passed)
        (Points-Steps slots h.before h.left h.right h.after rest e h.points h.settled h.ahead)
