-- ===== src/Ctree/Node/Overflow.antt =====
-- The growth of the buffer in lib/ctree.c: `ctree_ensure_entries` takes the smaller of twice the
-- buffer and what is needed.
use fuse_example.Base.{
  ℕ, ◌+◌, ◌-◌, ◌*◌, ◌<◌, ◌≡◌, refl, arith, Bool, true, List, ◌++◌, length, length-append, take,
  drop, length-take, length-drop, replicate, length-replicate, Bool-cases, ◌⊎◌, inl, inr, ltb, leb,
  leb→le, lt→ltb, ge→ltb,
}
use fuse_example.Errors.{done, fault}
use fuse_example.Memory.{encode, poke, poke_overflow}
use fuse_example.Io.{io_pages, io_bytes, io_bytes-io_pages}
use fuse_example.Lsm.Key.{Bytes}
use fuse_example.Ctree.Node.{
  CtreeNode, entry_size, grown, ensure_slots, ensure_bytes, ctree_ensure_entries, store_entry,
  ctree_node_append,
}

poke-cases :
    (buf bytes : List ℕ) (offs : ℕ)
    → (poke buf offs bytes ≡ fault)
      ⊎ ((b : List ℕ) × (poke buf offs bytes ≡ done b) × (length b ≡ length buf))
unfolding poke
poke-cases buf bytes offs = elim (Bool-cases (leb (offs + length bytes) (length buf))) [
  | inr e ↦ inl (rw e refl)
  | inl e ↦ inr (
    take offs buf ++ (bytes ++ drop (offs + length bytes) buf),
    rw e refl,
    omega (
      arith,
      leb→le _ _ e,
      length-append (take offs buf) (bytes ++ drop (offs + length bytes) buf),
      length-append bytes (drop (offs + length bytes) buf),
      length-take offs buf (omega (arith, leb→le _ _ e)),
      length-drop (offs + length bytes) buf,
    ),
  )
]

-- An entry that ends past the buffer is a fault in one of the copies.
store_entry_overflow :
    (n : CtreeNode) (key val : Bytes)
    → length n.buf < n.bytes + (length key + length val + entry_size)
    → store_entry n key val ≡ fault
unfolding store_entry
store_entry_overflow n key val h =
    elim (poke-cases n.buf (encode 2 (length key) ++ encode 2 (length val)) n.bytes) [
      | inl e ↦ rw e refl
      | inr (b, e, same) ↦ elim (poke-cases b key (n.bytes + entry_size)) [
        | inl f ↦ rw (e, f) refl
        | inr (c, f, same') ↦
            rw
              (
                e,
                f,
                poke_overflow c val (n.bytes + entry_size + length key)
                    (omega (arith, h, same, same')),
              )
              refl
      ]
    ]

-- Where an entry ends beyond twice the buffer, and every allocation succeeds and a slot is free,
-- `ctree_node_append` copies the entry past the end of the grown buffer.
pub ctree_node_append-fault :
    (malloc : ℕ → Bool) (page_size : ℕ) (n : CtreeNode) (key val : Bytes)
    → 0 < page_size
    → ((size : ℕ) → malloc size ≡ true)
    → length n.entry < n.max_entries
    → n.max_bytes ≡ length n.buf
    → n.max_bytes * 2 < n.bytes + (length key + length val + entry_size)
    → ctree_node_append malloc page_size n key val ≡ fault
unfolding ctree_node_append ctree_ensure_entries ensure_slots ensure_bytes
ctree_node_append-fault malloc page_size n key val pages memory free allocated big =
    rw
      (
        ge→ltb n.max_entries (length n.entry + 1) (omega (arith, free)),
        short,
        memory (grown n.max_bytes need),
        doubled,
      )
      (store_entry_overflow _ key val (
        omega (
          arith,
          big,
          allocated,
          length-append n.buf zeroes,
          length-replicate {A = ℕ} (n.max_bytes * 2 - n.max_bytes) 0,
        )))
  where
    zeroes : List ℕ
    zeroes = replicate (n.max_bytes * 2 - n.max_bytes) 0

    need : ℕ
    need =
        io_bytes page_size (io_pages page_size (n.bytes + (length key + length val + entry_size)))

    over : n.max_bytes * 2 < need
    over = omega (
      arith,
      big,
      (io_bytes-io_pages page_size (n.bytes + (length key + length val + entry_size)) pages).0,
    )

    doubled : ltb (n.max_bytes * 2) need ≡ true
    doubled = lt→ltb _ _ over

    short : ltb n.max_bytes need ≡ true
    short = lt→ltb _ _ (omega (arith, over))
