-- ===== src/Ctree/Node/Total.antt =====
-- `ctree_node_parse` of lib/ctree.c on any bytes: it stays inside the buffer and ends.
use mathlib.Core.Path.{subst}
use fuse_example.Base.{
  ℕ, zero, suc, ◌+◌, ◌^◌, ◌≤◌, ◌<◌, ◌≡◌, refl, sym, ap, arith, Bool, false, List, [], ◌∷◌, ◌++◌,
  length, take, drop, Bool-cases, inl, inr, ◌==◌, ltb, lt→ltb, ltb→ge, length-append, ◌%◌,
}
use fuse_example.Errors.{Run, done, fail, fault, out_of_fuel, ◌>>=◌}
use fuse_example.Memory.{peek, leb_of_le}
use fuse_example.Io.{io_bytes}
use fuse_example.Crc64.{load}
use fuse_example.Ctree.Node.{
  CtreeNode, CtreeEntry, header_size, entry_size, push_slot, read_sizes, parse_loop,
  ctree_node_parse,
}
use fuse_example.Ctree.Node.Parse.{grow_slots-cases}

-- The key and the value of every slot lie inside `size` bytes.
abbrev pub InBounds : (size : ℕ) → List CtreeEntry → Type 0
InBounds size [] = Unit {0}
InBounds size (s ∷ slots) =
    (s.key_offs + s.key_size ≤ size) × (s.val_offs + s.val_size ≤ size) × InBounds size slots

-- What a parse may come to: slots inside the buffer, or an error code.
abbrev pub Contained : Run CtreeNode → Type 0
Contained (done n) = InBounds (length n.buf) n.entry
Contained (fail e) = Unit {0}
Contained fault = ⊥
Contained out_of_fuel = ⊥

peek_total :
    (buf : List ℕ) (offs size : ℕ)
    → offs + size ≤ length buf
    → peek buf offs size ≡ done (take size (drop offs buf))
unfolding peek
peek_total buf offs size h = rw (leb_of_le _ _ h) refl

read_sizes_total :
    (buf : List ℕ) (offs : ℕ)
    → offs + entry_size ≤ length buf
    → (key_size : ℕ) × (val_size : ℕ) × (read_sizes buf offs ≡ done (key_size, val_size))
unfolding read_sizes
read_sizes_total buf offs h = (
  load (take 2 (drop offs buf)),
  load (take 2 (drop (offs + 2) buf)),
  rw (peek_total buf offs 2 (omega (arith, h)), peek_total buf (offs + 2) 2 (omega (arith, h)))
      refl,
)

InBounds-append :
    (size : ℕ) (slots : List CtreeEntry) (s : CtreeEntry)
    → InBounds size slots
    → (s.key_offs + s.key_size ≤ size) × (s.val_offs + s.val_size ≤ size)
    → InBounds size (slots ++ s ∷ [])
InBounds-append size [] s h k = (k.0, k.1, tt)
InBounds-append size (t ∷ slots) s h k = (h.0, h.1, InBounds-append size slots s h.2 k)

-- One turn of the loop, given the sizes it reads.
module _ (malloc : ℕ → Bool) (n : CtreeNode) (bytes offs key_size val_size : ℕ) where
  entry_end : ℕ
  entry_end = offs + entry_size + key_size + val_size

  read_slot : CtreeEntry
  read_slot = record {
    key_offs = offs + entry_size;
    key_size = key_size;
    val_offs = offs + entry_size + key_size;
    val_size = val_size;
  }

  with_slot : ℕ → CtreeNode
  with_slot k = record n { entry = n.entry ++ read_slot ∷ []; max_entries = k }

  parse_loop-turn :
      (fuel : ℕ)
      → (offs == bytes) ≡ false
      → ltb bytes (offs + entry_size) ≡ false
      → read_sizes n.buf offs ≡ done (key_size, val_size)
      → length n.entry ≤ n.max_entries
      → ((k : ℕ)
          → entry_end ≤ bytes
          → length n.entry < k
          → Contained (parse_loop malloc fuel (with_slot k) bytes entry_end))
      → Contained (parse_loop malloc (suc fuel) n bytes offs)
  unfolding parse_loop push_slot entry_end with_slot read_slot
  parse_loop-turn fuel e f sizes fit next = elim (Bool-cases (ltb bytes entry_end)) [
    | inl g ↦ rw (parse_loop, e, f, sizes, ◌>>=◌, g) tt
    | inr g ↦ elim (grow_slots-cases malloc n fit) [
      | inl full ↦ rw (parse_loop, e, f, sizes, ◌>>=◌, g, full) tt
      | inr (k, grown, free) ↦
          rw (parse_loop, e, f, sizes, ◌>>=◌, g, grown, ◌>>=◌, lt→ltb (length n.entry) k free)
            (next k (ltb→ge _ _ g) free)
    ]
  ]

  with_slot-InBounds :
      (k : ℕ)
      → InBounds (length n.buf) n.entry
      → entry_end ≤ length n.buf
      → InBounds (length (with_slot k).buf) (with_slot k).entry
  unfolding entry_end with_slot read_slot
  with_slot-InBounds k inside h =
      InBounds-append (length n.buf) n.entry read_slot inside (omega (arith, h), omega (arith, h))

  with_slot-fit :
      (k : ℕ) → length n.entry < k → length (with_slot k).entry ≤ (with_slot k).max_entries
  unfolding with_slot
  with_slot-fit k free = omega (arith, free, length-append n.entry (read_slot ∷ []))

  with_slot-room : (k : ℕ) → bytes ≤ length n.buf → bytes ≤ length (with_slot k).buf
  unfolding with_slot
  with_slot-room k b = b

  entry_end_lem : entry_end ≡ offs + entry_size + key_size + val_size
  unfolding entry_end
  entry_end_lem = refl

parse_loop-Contained :
    (malloc : ℕ → Bool) (fuel : ℕ) (n : CtreeNode) (bytes offs : ℕ)
    → InBounds (length n.buf) n.entry
    → length n.entry ≤ n.max_entries
    → bytes ≤ length n.buf
    → 0 < fuel
    → bytes < fuel + offs
    → Contained (parse_loop malloc fuel n bytes offs)
unfolding parse_loop
parse_loop-Contained malloc zero n bytes offs inside fit b pos more = omega arith
parse_loop-Contained malloc (suc fuel) n bytes offs inside fit b pos more =
    elim (Bool-cases (offs == bytes)) [
      | inl e ↦ rw (parse_loop, e) inside
      | inr e ↦ elim (Bool-cases (ltb bytes (offs + entry_size))) [
        | inl f ↦ rw (parse_loop, e, f) tt
        | inr f ↦
            let (k, v, sizes) = read_sizes_total n.buf offs (omega (arith, b, ltb→ge _ _ f)) in
            let stop = entry_end_lem malloc n bytes offs k v in
            parse_loop-turn malloc n bytes offs k v fuel e f sizes fit λ slots g free.
              parse_loop-Contained malloc fuel _ bytes _
                (with_slot-InBounds malloc n bytes offs k v slots inside (omega (arith, b, g)))
                (with_slot-fit malloc n bytes offs k v slots free)
                (with_slot-room malloc n bytes offs k v slots b) (omega (arith, more, g, stop))
                (omega (arith, more, stop))
      ]
    ]

-- On any bytes, as long as the node's header and its pages lie in the buffer and no slot is used
-- yet, `ctree_node_parse` ends, reads nothing outside the buffer, and on success every slot's key
-- and value lie inside the buffer.
pub ctree_node_parse-Contained :
    (malloc : ℕ → Bool) (page_size : ℕ) (n : CtreeNode)
    → header_size ≤ length n.buf
    → io_bytes page_size n.ptr.size ≤ length n.buf
    → n.entry ≡ []
    → Contained (ctree_node_parse malloc page_size n)
unfolding ctree_node_parse
ctree_node_parse-Contained malloc page_size n head size fresh =
    rw
      (
        peek_total n.buf 0 8 (omega (arith, head)),
        peek_total n.buf 8 8 (omega (arith, head)),
        ◌>>=◌,
      )
      (elim (Bool-cases (ltb (io_bytes page_size n.ptr.size) (load (take 8 n.buf)))) [
        | inl e ↦ rw e tt
        | inr e ↦ elim (Bool-cases (load (take 8 (drop 8 n.buf)) % 2 ^ 32 == n.level)) [
          | inr f ↦ rw (e, f) tt
          | inl f ↦
              rw (e, f)
                (parse_loop-Contained malloc (load (take 8 n.buf) + 1) n (load (take 8 n.buf))
                  header_size (subst (InBounds (length n.buf)) (sym fresh) tt)
                  (omega (arith, ap length fresh)) (omega (arith, size, ltb→ge _ _ e)) (omega arith)
                  (omega arith))
        ]
      ])
