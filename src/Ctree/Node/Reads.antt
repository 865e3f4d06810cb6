-- ===== src/Ctree/Node/Reads.antt =====
-- `ctree_node_key`, `ctree_node_val` and `ctree_node_parse` of lib/ctree.c, against the entries
-- that a node holds.
use mathlib.Core.Path.{subst}
use fuse_example.Base.{
  ℕ, ◌+◌, ◌%◌, ◌^◌, ◌≤◌, ◌<◌, ◌≡◌, refl, sym, ap, ◌∙◌, arith, Bool, true, List, [], ◌∷◌, ◌++◌,
  append_assoc, length, length-append, ◌==◌, ge→ltb,
}
use fuse_example.Errors.{done, ◌>>=◌}
use fuse_example.Memory.{encode, load-encode, peek, peek_at}
use fuse_example.Io.{io_bytes}
use fuse_example.Lsm.Key.{Entry}
use fuse_example.Ctree.Node.{
  CtreeNode, CtreeEntry, header_size, entry_size, parse_loop, ctree_node_parse, ctree_node_key,
  ctree_node_val,
}
use fuse_example.Ctree.Node.Image.{
  fields, entry_image, image, layout, length-entry_image, Fits, Holds,
}
use fuse_example.Ctree.Node.Parse.{Parsed, parse_loop-Parsed}

-- The slots read these entries out of the buffer.
abbrev pub Reads : CtreeNode → List CtreeEntry → List Entry → Type 0
Reads n [] [] = Unit
Reads n [] (e ∷ es) = ⊥
Reads n (s ∷ slots) [] = ⊥
Reads n (s ∷ slots) (e ∷ es) =
    (ctree_node_key n s ≡ done e.key) × (ctree_node_val n s ≡ done e.val) × Reads n slots es

pub layout-Reads :
    (n : CtreeNode) (offs : ℕ) (pre : List ℕ) (es : List Entry) (spare : List ℕ)
    → n.buf ≡ pre ++ (image es ++ spare)
    → offs ≡ length pre
    → Reads n (layout offs es) es
unfolding ctree_node_key ctree_node_val
layout-Reads n offs pre [] spare c s = tt
layout-Reads n offs pre (e ∷ es) spare c s = (
  peek_at n.buf (pre ++ fields e) e.key (e.val ++ (image es ++ spare)) (offs + entry_size)
      (length e.key) (c ∙ simp append_assoc) (omega (arith, s, length-append pre (fields e))) refl,
  peek_at n.buf (pre ++ (fields e ++ e.key)) e.val (image es ++ spare)
      (offs + entry_size + length e.key) (length e.val) (c ∙ simp append_assoc)
      (omega (arith, s, length-append pre (fields e ++ e.key), length-append (fields e) e.key))
      refl,
  layout-Reads n (offs + entry_size + length e.key + length e.val) (pre ++ entry_image e) es spare
      (c ∙ simp append_assoc)
      (omega (arith, s, length-append pre (entry_image e), length-entry_image e)),
)

-- The slots of a node that holds entries read them.
pub Holds-Reads : (n : CtreeNode) (es : List Entry) → Holds n es → Reads n n.entry es
Holds-Reads n es h =
    subst (λ slots. Reads n slots es) (sym h.slots)
      (layout-Reads n header_size h.header es h.spare
        (h.contents ∙ append_assoc h.header (image es) h.spare) (sym h.header_length))

image_bound : (es : List Entry) → length es ≤ length (image es)
image_bound [] = omega arith
image_bound (e ∷ es) =
    omega (arith, image_bound es, length-append (entry_image e) (image es), length-entry_image e)

-- `struct aulsmfs_node_header`
abbrev pub header_image : (bytes level : ℕ) → List ℕ
header_image bytes level = encode 8 bytes ++ encode 8 level

-- On a buffer with a header that states the size of the entries and the node's level, below 2^64
-- and 2^31, then entries with 16-bit sizes, all inside the pages of the pointer,
-- `ctree_node_parse` fills one slot for each entry, in order and at its place, or returns
-- -ENOMEM.
pub ctree_node_parse-Parsed :
    (malloc : ℕ → Bool) (page_size : ℕ) (n : CtreeNode) (bytes : ℕ) (es : List Entry)
    (spare : List ℕ)
    → Fits es
    → n.buf ≡ header_image bytes n.level ++ (image es ++ spare)
    → bytes ≡ header_size + length (image es)
    → bytes < 2 ^ 64
    → n.level < 2 ^ 31
    → bytes ≤ io_bytes page_size n.ptr.size
    → n.entry ≡ []
    → Parsed n (layout header_size es) (ctree_node_parse malloc page_size n)
unfolding ctree_node_parse
ctree_node_parse-Parsed malloc page_size n bytes es spare f c b small level pages fresh =
    rw
      (
        size_field,
        level_field,
        ◌>>=◌,
        load-encode 8 bytes small,
        load-encode 8 n.level (omega (arith, level)),
        ge→ltb (io_bytes page_size n.ptr.size) bytes pages,
        same,
      )
      (subst (λ slots. Parsed n slots (parse_loop malloc (bytes + 1) n bytes header_size))
        (ap (λ xs. xs ++ layout header_size es) fresh)
        (parse_loop-Parsed malloc (bytes + 1) n header_size bytes (header_image bytes n.level) es
          spare f c refl b (omega (arith, b, image_bound es)) (omega (arith, ap length fresh))))
  where
    size_field : peek n.buf 0 8 ≡ done (encode 8 bytes)
    size_field =
        peek_at n.buf [] (encode 8 bytes) (encode 8 n.level ++ (image es ++ spare)) 0 8 c refl refl

    level_field : peek n.buf 8 8 ≡ done (encode 8 n.level)
    level_field =
        peek_at n.buf (encode 8 bytes) (encode 8 n.level) (image es ++ spare) 8 8 c refl refl

    same : (n.level % 2 ^ 32 == n.level) ≡ true
    same = ground (arith, level)
