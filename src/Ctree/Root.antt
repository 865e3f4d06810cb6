-- ===== src/Ctree/Root.antt =====
-- `struct ctree` of lib/ctree.c: the pointer to a root node, and `struct aulsmfs_ctree` of
-- inc/aulsmfs.h, which keeps it on disk.
use fuse_example.Base.{ℕ, ◌^◌, ◌<◌, ◌≡◌, refl, ◌∙◌, [], Bool, List, ◌++◌, ◌==◌, Option, none, some}
use fuse_example.Errors.{Run, done, ◌>>=◌}
use fuse_example.Memory.{encode, load-encode, peek, peek_at}
use fuse_example.Crc64.{load}
use fuse_example.Ctree.Node.{AulsmfsPtr, null_ptr}
use fuse_example.Ctree.Builder.{ptr_image}

-- Without `io` and `cmp`, which its user keeps.
pub record Ctree : Type 0 where
  pub ptr : AulsmfsPtr
  pub height : ℕ
  pub pages : ℕ

-- `ctree_setup` and `ctree_release`
unfoldable pub ctree_setup : Ctree
ctree_setup = record { ptr = null_ptr; height = 0; pages = 0 }

-- `ctree_reset`: without a pointer the tree is empty.
unfoldable pub ctree_reset : Option AulsmfsPtr → (height pages : ℕ) → Ctree
ctree_reset none height pages = record { ptr = null_ptr; height = 0; pages = pages }
ctree_reset (some ptr) height pages = record { ptr = ptr; height = height; pages = pages }

unfoldable pub ctree_is_empty : Ctree → Bool
ctree_is_empty t = t.height == 0

unfoldable pub ctree_swap : Ctree → Ctree → Ctree × Ctree
ctree_swap l r = (r, l)

-- `ctree_dump`: the pointer, then the pages, then the height.
unfoldable pub ctree_dump : Ctree → List ℕ
ctree_dump t = ptr_image t.ptr ++ (encode 4 t.pages ++ encode 4 t.height)

-- `ctree_parse`
unfoldable pub ctree_parse : (ondisk : List ℕ) → Run Ctree
ctree_parse ondisk = do
  offs ← peek ondisk 0 8
  size ← peek ondisk 8 8
  csum ← peek ondisk 16 8
  pages ← peek ondisk 24 4
  height ← peek ondisk 28 4
  done (record {
    ptr = record { offs = load offs; size = load size; csum = load csum };
    height = load height;
    pages = load pages;
  })

-- The numbers fit the fields.
pub record IsStorable (t : Ctree) : Type 0 where
  pub offs_fits : t.ptr.offs < 2 ^ 64
  pub size_fits : t.ptr.size < 2 ^ 64
  pub csum_fits : t.ptr.csum < 2 ^ 64
  pub height_fits : t.height < 2 ^ 32
  pub pages_fits : t.pages < 2 ^ 32

module _ (t : Ctree) (rest : List ℕ) where
  low : List ℕ
  low = encode 8 t.ptr.offs ++ encode 8 t.ptr.size

  tail : List ℕ
  tail = encode 4 t.pages ++ (encode 4 t.height ++ rest)

  -- What the five reads find.
  reads :
      ctree_parse (ctree_dump t ++ rest)
      ≡ done (record {
        ptr = record {
          offs = load (encode 8 t.ptr.offs);
          size = load (encode 8 t.ptr.size);
          csum = load (encode 8 t.ptr.csum);
        };
        height = load (encode 4 t.height);
        pages = load (encode 4 t.pages);
      })
  unfolding ctree_parse ctree_dump low tail
  reads =
      rw
        (
          peek_at (ctree_dump t ++ rest) [] (encode 8 t.ptr.offs)
              (encode 8 t.ptr.size ++ (encode 8 t.ptr.csum ++ tail)) 0 8 refl refl refl,
          peek_at (ctree_dump t ++ rest) (encode 8 t.ptr.offs) (encode 8 t.ptr.size)
              (encode 8 t.ptr.csum ++ tail) 8 8 refl refl refl,
          peek_at (ctree_dump t ++ rest) low (encode 8 t.ptr.csum) tail 16 8 refl refl refl,
          peek_at (ctree_dump t ++ rest) (low ++ encode 8 t.ptr.csum) (encode 4 t.pages)
              (encode 4 t.height ++ rest) 24 4 refl refl refl,
          peek_at (ctree_dump t ++ rest) (low ++ (encode 8 t.ptr.csum ++ encode 4 t.pages))
              (encode 4 t.height) rest 28 4 refl refl refl,
        )
        refl

  -- A root pointer whose offset, size and sum are below 2^64 and whose height and pages are below
  -- 2^32 is read back from what `ctree_dump` writes, whatever follows it.
  pub ctree_parse-ctree_dump : IsStorable t → ctree_parse (ctree_dump t ++ rest) ≡ done t
  ctree_parse-ctree_dump h = reads ∙ λ i. done (record {
    ptr = record {
      offs = load-encode 8 t.ptr.offs h.offs_fits i;
      size = load-encode 8 t.ptr.size h.size_fits i;
      csum = load-encode 8 t.ptr.csum h.csum_fits i;
    };
    height = load-encode 4 t.height h.height_fits i;
    pages = load-encode 4 t.pages h.pages_fits i;
  })
