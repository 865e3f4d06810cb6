-- ===== src/Ctree/Node/Append.antt =====
-- `ctree_node_append` of lib/ctree.c.
use mathlib.Core.Path.{ap₂}
use fuse_example.Base.{
  ℕ, ◌+◌, ◌-◌, ◌*◌, ◌≤◌, ◌<◌, ◌≡◌, refl, sym, ap, ◌∙◌, arith, Bool, true, List, [], ◌∷◌, ◌++◌,
  append_assoc, append-nil, length, length-append, drop, replicate, length-replicate, Bool-cases,
  inl, inr, ◌⊎◌, ltb, lt→ltb, length-drop,
}
use fuse_example.Errors.{enomem, Run, done, fail, fault, out_of_fuel}
use fuse_example.Memory.{poke, poke_at}
use fuse_example.Io.{io_pages, io_bytes, io_bytes-io_pages}
use fuse_example.Lsm.Key.{Entry}
use fuse_example.Ctree.Node.{
  CtreeNode, header_size, entry_size, slot_size, grown, ensure_slots, ensure_bytes,
  ctree_ensure_entries, store_entry, ctree_node_append,
}
use fuse_example.Ctree.Node.Image.{
  fields, entry_image, image, slot, length-entry_image, image-append, layout-append, Holds,
  HasPages,
}

module _ (n : CtreeNode) (es : List Entry) (e : Entry) (h : Holds n es)
    (room : length (entry_image e) ≤ length h.spare) (free : length n.entry < n.max_entries) where
  used : List ℕ
  used = h.header ++ image es

  -- The spare bytes after each of the three copies.
  spare1 : List ℕ
  spare1 = drop entry_size h.spare

  spare2 : List ℕ
  spare2 = drop (length e.key) spare1

  spare3 : List ℕ
  spare3 = drop (length e.val) spare2

  stored : CtreeNode
  stored = record n {
    buf = ((used ++ fields e) ++ e.key) ++ (e.val ++ spare3);
    bytes = n.bytes + (length e.key + length e.val + entry_size);
    entry = n.entry ++ slot n.bytes e ∷ [];
  }

  store_entry-stored : store_entry n e.key e.val ≡ done stored
  unfolding store_entry stored spare3 spare2 spare1 used
  store_entry-stored = rw (one, two, three, lt→ltb _ _ free) refl
    where
      one : poke n.buf n.bytes (fields e) ≡ done (used ++ (fields e ++ spare1))
      one =
          poke_at n.buf used h.spare (fields e) n.bytes h.contents h.size
            (omega (arith, room, length-entry_image e))

      two :
          poke (used ++ (fields e ++ spare1)) (n.bytes + entry_size) e.key
          ≡ done ((used ++ fields e) ++ (e.key ++ spare2))
      two =
          poke_at _ (used ++ fields e) spare1 e.key (n.bytes + entry_size)
            (sym (append_assoc used (fields e) spare1))
            (omega (arith, h.size, length-append used (fields e)))
            (omega (arith, room, length-entry_image e, length-drop entry_size h.spare))

      three :
          poke ((used ++ fields e) ++ (e.key ++ spare2)) (n.bytes + entry_size + length e.key) e.val
          ≡ done (((used ++ fields e) ++ e.key) ++ (e.val ++ spare3))
      three =
          poke_at _ ((used ++ fields e) ++ e.key) spare2 e.val (n.bytes + entry_size + length e.key)
            (sym (append_assoc (used ++ fields e) e.key spare2))
            (omega (
              arith,
              h.size,
              length-append used (fields e),
              length-append (used ++ fields e) e.key,
            ))
            (omega (
              arith,
              room,
              length-entry_image e,
              length-drop entry_size h.spare,
              length-drop (length e.key) spare1,
            ))

  stored-Holds : Holds stored (es ++ e ∷ [])
  unfolding stored spare3 spare2 spare1 used
  stored-Holds = record {
    header = h.header;
    spare = spare3;
    header_length = h.header_length;
    contents = simp (image-append, append_assoc, append-nil);
    size = omega (
      arith,
      h.size,
      h.header_length,
      ap length (image-append es (e ∷ [])),
      length-append (image es) (entry_image e ++ []),
      ap length (append-nil (entry_image e)),
      length-entry_image e,
      length-append h.header (image es),
      length-append h.header (image (es ++ e ∷ [])),
    );
    slots =
        ap₂ (λ xs k. xs ++ slot k e ∷ []) h.slots start
        ∙ sym (layout-append header_size es (e ∷ []));
    allocated = omega (
      arith,
      h.allocated,
      ap length h.contents,
      room,
      length-entry_image e,
      length-append used h.spare,
      length-append ((used ++ fields e) ++ e.key) (e.val ++ spare3),
      length-append (used ++ fields e) e.key,
      length-append used (fields e),
      length-append e.val spare3,
      length-drop entry_size h.spare,
      length-drop (length e.key) spare1,
      length-drop (length e.val) spare2,
    );
    slots_fit = omega (arith, free, length-append n.entry (slot n.bytes e ∷ []));
  }
    where
      start : n.bytes ≡ header_size + length (image es)
      start = omega (arith, h.size, h.header_length, length-append h.header (image es))

ensure_slots-cases :
    (malloc : ℕ → Bool) (n : CtreeNode)
    → length n.entry ≤ n.max_entries
    → 1 ≤ n.max_entries
    → (ensure_slots malloc n (length n.entry + 1) ≡ fail enomem)
      ⊎ ((k : ℕ) × (ensure_slots malloc n (length n.entry + 1)
            ≡ done (record n { max_entries = k }))
          × (length n.entry < k))
unfolding ensure_slots
ensure_slots-cases malloc n fit some_slots =
    elim (Bool-cases (ltb n.max_entries (length n.entry + 1))) [
      | inr e ↦ inr (n.max_entries, rw e refl, ground arith)
      | inl e ↦ elim (Bool-cases (malloc (grown n.max_entries (length n.entry + 1) * slot_size))) [
        | inl k ↦ inr (grown n.max_entries (length n.entry + 1), rw (e, k) refl, ground arith)
        | inr k ↦ inl (rw (e, k) refl)
      ]
    ]

-- The buffer grows to what is needed, where that is at most its double.
ensure_bytes-cases :
    (malloc : ℕ → Bool) (n : CtreeNode) (need : ℕ)
    → need ≤ n.max_bytes * 2
    → (ensure_bytes malloc n need ≡ fail enomem)
      ⊎ ((extra : List ℕ) × (k : ℕ) × (ensure_bytes malloc n need
            ≡ done (record n { buf = n.buf ++ extra; max_bytes = k }))
          × (k ≡ n.max_bytes + length extra)
          × (need ≤ k))
unfolding ensure_bytes
ensure_bytes-cases malloc n need most = elim (Bool-cases (ltb n.max_bytes need)) [
  | inr e ↦ inr (
    [],
    n.max_bytes,
    rw e (ap (λ b. done (record n { buf = b })) (sym (append-nil n.buf))),
    omega arith,
    ground arith,
  )
  | inl e ↦ elim (Bool-cases (malloc (grown n.max_bytes need))) [
    | inl k ↦ inr (
      replicate (grown n.max_bytes need - n.max_bytes) 0,
      grown n.max_bytes need,
      rw (e, k) refl,
      grew e,
      ground arith,
    )
    | inr k ↦ inl (rw (e, k) refl)
  ]
]
  where
    grew :
        ltb n.max_bytes need ≡ true
        → grown n.max_bytes need
          ≡ n.max_bytes + length {A = ℕ} (replicate (grown n.max_bytes need - n.max_bytes) 0)
    grew e = ground (arith, length-replicate {A = ℕ} (grown n.max_bytes need - n.max_bytes) 0)

-- A node with spare bytes added still holds its entries.
grown-Holds :
    (n : CtreeNode) (es : List Entry) (slots bytes : ℕ) (extra : List ℕ)
    → Holds n es
    → length n.entry ≤ slots
    → bytes ≡ n.max_bytes + length extra
    → Holds (record n { max_entries = slots; buf = n.buf ++ extra; max_bytes = bytes }) es
grown-Holds n es slots bytes extra h fit e = record {
  header = h.header;
  spare = h.spare ++ extra;
  header_length = h.header_length;
  contents = ap (λ b. b ++ extra) h.contents ∙ append_assoc (h.header ++ image es) h.spare extra;
  size = h.size;
  slots = h.slots;
  allocated = omega (arith, h.allocated, length-append n.buf extra);
  slots_fit = fit;
}

-- The spare bytes are those of the buffer that are not in use.
spare_room :
    (m : CtreeNode) (es : List Entry) (e : Entry) (h : Holds m es)
    → m.bytes + (length e.key + length e.val + entry_size) ≤ m.max_bytes
    → length (entry_image e) ≤ length h.spare
spare_room m es e h fits = omega (
  arith,
  h.allocated,
  ap length h.contents,
  h.size,
  length-append (h.header ++ image es) h.spare,
  length-entry_image e,
)

-- What `ctree_node_append` comes to: the entry is last in the node, or memory was exhausted.
abbrev pub Appended : (page_size : ℕ) → List Entry → Entry → Run CtreeNode → Type 0
Appended page_size es e (done m) = Holds m (es ++ e ∷ []) × HasPages page_size m
Appended page_size es e (fail k) = k ≡ enomem
Appended page_size es e fault = ⊥
Appended page_size es e out_of_fuel = ⊥

-- The bytes that a node must have for an entry: whole pages.
abbrev pub needed : (page_size : ℕ) → CtreeNode → Entry → ℕ
needed page_size n e =
    io_bytes page_size (io_pages page_size (n.bytes + (length e.key + length e.val + entry_size)))

module _ (malloc : ℕ → Bool) (page_size : ℕ) (n : CtreeNode) (es : List Entry) (e : Entry) where
  -- On a node that holds entries, with at least one slot, where the whole pages that the new
  -- entry needs are at most twice the buffer, `ctree_node_append` stores the entry last, with the
  -- used pages still allocated, or returns -ENOMEM; it never writes outside the buffer or the
  -- slots.
  pub ctree_node_append-Appended :
      0 < page_size
      → Holds n es
      → 1 ≤ n.max_entries
      → needed page_size n e ≤ n.max_bytes * 2
      → Appended page_size es e (ctree_node_append malloc page_size n e.key e.val)
  unfolding ctree_node_append ctree_ensure_entries stored
  ctree_node_append-Appended pages h some_slots most =
      elim (ensure_slots-cases malloc n h.slots_fit some_slots) [
        | inl no_slots ↦ rw no_slots refl
        | inr (k, slots, free) ↦
            let m : CtreeNode = record n { max_entries = k } in
            elim (ensure_bytes-cases malloc m (needed page_size n e) most) [
              | inl no_bytes ↦ rw (slots, no_bytes) refl
              | inr (extra, b, bytes, grew, enough) ↦
                  let fits : length n.entry ≤ k = omega (arith, free) in
                  let h' = grown-Holds n es k b extra h fits grew in
                  let fitting : n.bytes + (length e.key + length e.val + entry_size) ≤ b = omega (
                    arith,
                    enough,
                    (io_bytes-io_pages page_size
                        (n.bytes + (length e.key + length e.val + entry_size)) pages).0,
                  ) in
                  rw
                    (slots, bytes, store_entry-stored _ es e h' (spare_room _ es e h' fitting) free)
                    (stored-Holds _ es e h' (spare_room _ es e h' fitting) free, enough)
            ]
      ]
