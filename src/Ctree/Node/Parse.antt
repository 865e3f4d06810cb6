-- ===== src/Ctree/Node/Parse.antt =====
-- `ctree_node_parse` of lib/ctree.c on the buffer of a node that holds entries.
use mathlib.Core.Path.{subst, ap₂}
use fuse_example.Base.{
  ℕ, zero, suc, ◌+◌, ◌*◌, ◌^◌, ◌≤◌, ◌<◌, ◌≡◌, refl, sym, ap, ◌∙◌, arith, Bool, true, false, List,
  [], ◌∷◌, ◌++◌, append_assoc, append-nil, length, length-append, Bool-cases, ◌⊎◌, inl, inr, ◌==◌,
  if◌then◌else◌, ltb, lt→ltb, ge→ltb,
}
use fuse_example.Errors.{enomem, Run, done, fail, fault, out_of_fuel, ◌>>=◌}
use fuse_example.Memory.{encode, load-encode, peek, peek_at}
use fuse_example.Lsm.Key.{Entry}
use fuse_example.Ctree.Node.{
  CtreeNode, CtreeEntry, min_fanout, entry_size, slot_size, grow_slots, push_slot, parse_loop,
  read_sizes,
}
use fuse_example.Ctree.Node.Image.{entry_image, image, slot, layout, length-entry_image, Fits}

-- What a parse comes to: the node with these slots in its array, or memory was exhausted.
abbrev pub Parsed : CtreeNode → List CtreeEntry → Run CtreeNode → Type 0
Parsed n slots (done m) =
    (k : ℕ) × (m ≡ record n { entry = slots; max_entries = k }) × (length slots ≤ k)
Parsed n slots (fail e) = e ≡ enomem
Parsed n slots fault = ⊥
Parsed n slots out_of_fuel = ⊥

-- There is always a free slot after `grow_slots`.
pub grow_slots-cases :
    (malloc : ℕ → Bool) (n : CtreeNode)
    → length n.entry ≤ n.max_entries
    → (grow_slots malloc n ≡ fail enomem)
      ⊎ ((k : ℕ) × (grow_slots malloc n ≡ done (record n { max_entries = k }))
          × (length n.entry < k))
unfolding grow_slots
grow_slots-cases malloc n fit = elim (Bool-cases (length n.entry == n.max_entries)) [
  | inr e ↦ inr (n.max_entries, rw e refl, ground arith)
  | inl e ↦ elim (Bool-cases (malloc (next n * slot_size))) [
    | inr f ↦ inl (rw (e, f) refl)
    | inl f ↦ inr (next n, rw (e, f) refl, ground arith)
  ]
]
  where
    next : CtreeNode → ℕ
    next n = if n.max_entries == 0 then min_fanout else n.max_entries * 2

-- The four steps of the loop on the entry `e` at the end of `pre`.
module _ (m : CtreeNode) (offs bytes : ℕ) (pre : List ℕ) (e : Entry) (es : List Entry)
    (spare : List ℕ) (contents : m.buf ≡ pre ++ (image (e ∷ es) ++ spare))
    (start : offs ≡ length pre) (end : bytes ≡ offs + length (image (e ∷ es))) where
  key_field : peek m.buf offs 2 ≡ done (encode 2 (length e.key))
  key_field =
      peek_at m.buf pre (encode 2 (length e.key))
        (encode 2 (length e.val) ++ (e.key ++ (e.val ++ (image es ++ spare)))) offs 2
        (contents ∙ simp append_assoc) start refl

  val_field : peek m.buf (offs + 2) 2 ≡ done (encode 2 (length e.val))
  val_field =
      peek_at m.buf (pre ++ encode 2 (length e.key)) (encode 2 (length e.val))
        (e.key ++ (e.val ++ (image es ++ spare))) (offs + 2) 2 (contents ∙ simp append_assoc)
        (omega (arith, start, length-append pre (encode 2 (length e.key)))) refl

  total : bytes ≡ offs + entry_size + length e.key + length e.val + length (image es)
  total = omega (arith, end, length-append (entry_image e) (image es), length-entry_image e)

  sizes :
      length e.key < 2 ^ 16
      → length e.val < 2 ^ 16
      → read_sizes m.buf offs ≡ done (length e.key, length e.val)
  unfolding read_sizes
  sizes k v =
      rw (key_field, val_field)
        (ap₂ (λ a b. done (a, b)) (load-encode 2 (length e.key) k) (load-encode 2 (length e.val) v))

  parse_loop-step :
      (malloc : ℕ → Bool) (fuel : ℕ)
      → length e.key < 2 ^ 16
      → length e.val < 2 ^ 16
      → parse_loop malloc (suc fuel) m bytes offs ≡ (
          grow_slots malloc m >>= λ n. push_slot n (slot offs e) >>= λ n.
          parse_loop malloc fuel n bytes (offs + entry_size + length e.key + length e.val))
  unfolding parse_loop
  parse_loop-step malloc fuel k v = rw (parse_loop, more, room, sizes k v, ◌>>=◌, inside) refl
    where
      more : (offs == bytes) ≡ false
      more = ground (arith, total)

      room : ltb bytes (offs + entry_size) ≡ false
      room = ge→ltb _ _ (omega (arith, total))

      inside : ltb bytes (offs + entry_size + length e.key + length e.val) ≡ false
      inside = ge→ltb _ _ (omega (arith, total))

Parsed-record :
    (m : CtreeNode) (k : ℕ) (seen slots : List CtreeEntry) (r : Run CtreeNode)
    → Parsed (record m { entry = seen; max_entries = k }) slots r
    → Parsed m slots r
Parsed-record m k seen slots (done n) h = h
Parsed-record m k seen slots (fail e) h = h
Parsed-record m k seen slots fault h = elim h [ ]
Parsed-record m k seen slots out_of_fuel h = elim h [ ]

pub parse_loop-Parsed :
    (malloc : ℕ → Bool) (fuel : ℕ) (m : CtreeNode) (offs bytes : ℕ) (pre : List ℕ) (es : List Entry)
    (spare : List ℕ)
    → Fits es
    → m.buf ≡ pre ++ (image es ++ spare)
    → offs ≡ length pre
    → bytes ≡ offs + length (image es)
    → length es < fuel
    → length m.entry ≤ m.max_entries
    → Parsed m (m.entry ++ layout offs es) (parse_loop malloc fuel m bytes offs)
unfolding parse_loop push_slot
parse_loop-Parsed malloc zero m offs bytes pre es spare f c s t k fit = omega arith
parse_loop-Parsed malloc (suc fuel) m offs bytes pre [] spare f c s t k fit =
    rw (parse_loop, at_end)
      (
        m.max_entries,
        ap (λ xs. record m { entry = xs }) (sym (append-nil m.entry)),
        omega (arith, ap length (append-nil m.entry)),
      )
  where
    at_end : (offs == bytes) ≡ true
    at_end = ground (arith, t)
parse_loop-Parsed malloc (suc fuel) m offs bytes pre (e ∷ es) spare f c s t k fit =
    rw (parse_loop-step m offs bytes pre e es spare c s t malloc fuel f.0 f.1)
      (elim (grow_slots-cases malloc m fit) [
        | inl full ↦ rw full refl
        | inr (n, g, free) ↦
            rw (g, lt→ltb (length m.entry) n free)
              (Parsed-record m n (m.entry ++ slot offs e ∷ []) _ _ (
                subst (λ slots. Parsed (next n) slots (parse_loop malloc fuel (next n) bytes after))
                  (append_assoc m.entry (slot offs e ∷ []) (layout after es))
                  (parse_loop-Parsed malloc fuel (next n) after bytes (pre ++ entry_image e) es
                    spare f.2 (c ∙ simp append_assoc)
                    (omega (arith, s, length-append pre (entry_image e), length-entry_image e))
                    (total m offs bytes pre e es spare c s t) (omega arith)
                    (omega (arith, free, length-append m.entry (slot offs e ∷ []))))))
      ])
  where
    after : ℕ
    after = offs + entry_size + length e.key + length e.val

    next : ℕ → CtreeNode
    next n = record m { entry = m.entry ++ slot offs e ∷ []; max_entries = n }
