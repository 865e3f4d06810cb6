-- ===== src/Super/RoundTrip.antt =====
-- The superblock that mkfs/main.c writes is the one that fuse/main.c accepts.
use fuse_example.Base.{
  ℕ, zero, suc, ◌^◌, ◌<◌, ◌≡◌, refl, ap, arith, true, List, ◌++◌, length, take, replicate, Option,
  some, ◌==◌,
}
use fuse_example.Errors.{done}
use fuse_example.Memory.{encode, load-encode, encode-IsBytes}
use fuse_example.Crc64.{crc64}
use fuse_example.Crc64.Slices.{IsBytes, IsBytes-append, crc64_from-lt}
use fuse_example.FileWrappers.{File}
use fuse_example.FileWrappers.Regular.{IsRegular, file_write_at-content, file_read_at_start}
use fuse_example.Super.{
  magic, version, super_size, super_image, MkfsConfig, FuseConfig, field, super_parse, aulsmfs_mkfs,
  aulsmfs_super_read,
}

super_image-IsBytes : (page_size pages csum : ℕ) → IsBytes (super_image page_size pages csum)
super_image-IsBytes page_size pages csum =
    IsBytes-append (encode 8 magic) (encode 8 version ++ (encode 8 page_size ++ low))
      (encode-IsBytes 8 magic)
      (IsBytes-append (encode 8 version) (encode 8 page_size ++ low) (encode-IsBytes 8 version) (
        IsBytes-append (encode 8 page_size) low (encode-IsBytes 8 page_size) (
          IsBytes-append (encode 8 pages) (replicate 240 0 ++ encode 8 csum)
            (encode-IsBytes 8 pages)
            (IsBytes-append (replicate 240 0) (encode 8 csum) (zeroes 240)
              (encode-IsBytes 8 csum)))))
  where
    low : List ℕ
    low = encode 8 pages ++ (replicate 240 0 ++ encode 8 csum)

    zeroes : (n : ℕ) → IsBytes (replicate n 0)
    zeroes zero = tt
    zeroes (suc n) = (omega arith, zeroes n)

crc64-lt : (bs : List ℕ) → IsBytes bs → crc64 bs < 2 ^ 64
unfolding crc64
crc64-lt bs h = crc64_from-lt 0 bs h (omega arith)

super_parse-some :
    (super : List ℕ) (page_size pages : ℕ)
    → field super 0 ≡ magic
    → field super 272 ≡ crc64 (take 272 super ++ encode 8 0)
    → field super 8 ≡ version
    → field super 16 ≡ page_size
    → field super 24 ≡ pages
    → super_parse super
      ≡ some (record { minor = 1; major = 0; page_size = page_size; pages = pages })
unfolding super_parse
super_parse-some super page_size pages m c v s p =
    rw (super_parse, m, c, eq_self (crc64 (take 272 super ++ encode 8 0)), v, s, p) refl
  where
    eq_self : (a : ℕ) → (a == a) ≡ true
    eq_self a = ground arith

pub super_parse-super_image :
    (page_size pages : ℕ)
    → page_size < 2 ^ 64
    → pages < 2 ^ 64
    → super_parse (super_image page_size pages (crc64 (super_image page_size pages 0)))
      ≡ some (record { minor = 1; major = 0; page_size = page_size; pages = pages })
super_parse-super_image page_size pages s p =
    super_parse-some _ page_size pages refl
      (load-encode 8 _
        (crc64-lt (super_image page_size pages 0) (super_image-IsBytes page_size pages 0)))
      refl (load-encode 8 page_size s) (load-encode 8 pages p)

module _ (file : File) (regular : IsRegular file) where
  aulsmfs_super_read-content :
      (t : file.State) (super rest : List ℕ) (config : Option FuseConfig)
      → super_size ≡ length super
      → regular.content t ≡ super ++ rest
      → super_parse super ≡ config
      → aulsmfs_super_read file t ≡ done config
  unfolding aulsmfs_super_read
  aulsmfs_super_read-content t super rest config l same parsed =
      rw
        (
          aulsmfs_super_read,
          file_read_at_start file regular t super rest super_size l (omega arith) (omega arith)
              same,
        )
        (ap done parsed)

  -- On a regular file whose calls below 2^30 bytes succeed and transfer all that there is, with a
  -- page size and a number of pages below 2^64, mkfs writes a superblock that the driver accepts,
  -- and reads back with the same page size and pages, major version 0 and minor version 1.
  pub aulsmfs_super_read-aulsmfs_mkfs :
      (s : file.State) (config : MkfsConfig)
      → config.page_size < 2 ^ 64
      → config.pages < 2 ^ 64
      → (t : file.State) × (aulsmfs_mkfs file s config ≡ done t)
        × (aulsmfs_super_read file t
            ≡ done (
                some (record {
                  minor = 1;
                  major = 0;
                  page_size = config.page_size;
                  pages = config.pages;
                })))
  unfolding aulsmfs_mkfs
  aulsmfs_super_read-aulsmfs_mkfs s config p q =
      let (t, wrote, same) = file_write_at-content file regular s _ _ (omega arith) in
      (
        t,
        wrote,
        aulsmfs_super_read-content t _ _ _ refl same
            (super_parse-super_image config.page_size config.pages p q),
      )
