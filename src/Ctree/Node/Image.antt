-- ===== src/Ctree/Node/Image.antt =====
-- What the buffer of a node holds: a header, the packed entries, and spare bytes.
use fuse_example.Base.{
  ℕ, suc, ◌+◌, ◌^◌, ◌≤◌, ◌<◌, ◌≡◌, refl, sym, ap, ◌∙◌, arith, List, [], ◌∷◌, ◌++◌, append_assoc,
  length, length-append,
}
use fuse_example.Memory.{encode}
use fuse_example.Io.{io_bytes, io_pages}
use fuse_example.Lsm.Key.{Entry}
use fuse_example.Ctree.Node.{CtreeNode, CtreeEntry, header_size, entry_size}

-- `struct aulsmfs_node_entry`, the key and the value.
abbrev pub fields : Entry → List ℕ
fields e = encode 2 (length e.key) ++ encode 2 (length e.val)

abbrev pub entry_image : Entry → List ℕ
entry_image e = fields e ++ (e.key ++ e.val)

abbrev pub image : List Entry → List ℕ
image [] = []
image (e ∷ es) = entry_image e ++ image es

abbrev pub slot : ℕ → Entry → CtreeEntry
slot offs e = record {
  key_offs = offs + entry_size;
  key_size = length e.key;
  val_offs = offs + entry_size + length e.key;
  val_size = length e.val;
}

-- The slots of entries packed from an offset on.
abbrev pub layout : ℕ → List Entry → List CtreeEntry
layout offs [] = []
layout offs (e ∷ es) = slot offs e ∷ layout (offs + entry_size + length e.key + length e.val) es

pub length-entry_image :
    (e : Entry) → length (entry_image e) ≡ entry_size + length e.key + length e.val
length-entry_image e =
    omega (arith, length-append (fields e) (e.key ++ e.val), length-append e.key e.val)

pub image-append : (es fs : List Entry) → image (es ++ fs) ≡ image es ++ image fs
image-append [] fs = refl
image-append (e ∷ es) fs =
    ap (λ xs. entry_image e ++ xs) (image-append es fs)
    ∙ sym (append_assoc (entry_image e) (image es) (image fs))

pub layout-append :
    (offs : ℕ) (es fs : List Entry)
    → layout offs (es ++ fs) ≡ layout offs es ++ layout (offs + length (image es)) fs
layout-append offs [] fs = let e : offs ≡ offs + 0 = omega arith in ap (λ n. layout n fs) e
layout-append offs (e ∷ es) fs =
    ap (λ xs. slot offs e ∷ xs)
      (layout-append (offs + entry_size + length e.key + length e.val) es fs
        ∙ ap (λ n. layout (offs + entry_size + length e.key + length e.val) es ++ layout n fs) end)
  where
    end :
        offs + entry_size + length e.key + length e.val + length (image es)
        ≡ offs + length (entry_image e ++ image es)
    end = omega (arith, length-append (entry_image e) (image es), length-entry_image e)

pub length-layout : (offs : ℕ) (es : List Entry) → length (layout offs es) ≡ length es
length-layout offs [] = refl
length-layout offs (e ∷ es) =
    ap suc (length-layout (offs + entry_size + length e.key + length e.val) es)

-- A node that holds `es`: its buffer, its size and its slots agree.
pub record Holds (n : CtreeNode) (es : List Entry) : Type 0 where
  pub header : List ℕ
  pub spare : List ℕ
  pub header_length : length header ≡ header_size
  pub contents : n.buf ≡ (header ++ image es) ++ spare
  pub size : n.bytes ≡ length (header ++ image es)
  pub slots : n.entry ≡ layout header_size es
  pub allocated : n.max_bytes ≡ length n.buf
  pub slots_fit : length n.entry ≤ n.max_entries

-- The pages that the used part of the buffer lies on are allocated.
abbrev pub HasPages : (page_size : ℕ) → CtreeNode → Type 0
HasPages page_size n = io_bytes page_size (io_pages page_size n.bytes) ≤ n.max_bytes

-- Sizes that the 16-bit fields of an entry can state.
abbrev pub Fits : List Entry → Type 0
Fits [] = Unit {0}
Fits (e ∷ es) = (length e.key < 2 ^ 16) × (length e.val < 2 ^ 16) × Fits es
