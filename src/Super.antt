-- ===== src/Super.antt =====
-- The superblock of inc/aulsmfs.h: mkfs/main.c writes it, fuse/main.c reads it. Its csum is the
-- last field, and it is zero while the sum is taken.
pub mod Config
pub mod RoundTrip
use fuse_example.Base.{
  ℕ, ◌+◌, ◌-◌, ◌*◌, ◌/◌, ◌%◌, ◌^◌, Bool, true, false, List, [], ◌∷◌, ◌++◌, replicate, take, drop,
  ◌&&◌, leb, Option, none, some, ◌==◌, if◌then◌else◌,
}
use fuse_example.Bits.And.{bit_and}
use fuse_example.Errors.{Run, done, fail, fault, out_of_fuel}
use fuse_example.Memory.{encode}
use fuse_example.Crc64.{load, crc64}
use fuse_example.FileWrappers.{File, file_write_at, file_read_at}

abbrev pub magic : ℕ
magic = 0x0a0153f5

-- `AULSMFS_VERSION`: major 0 above minor 1.
abbrev pub version : ℕ
version = 0 * 2 ^ 32 + 1

abbrev pub super_size : ℕ
super_size = 280

-- `struct aulsmfs_super` with two empty trees of 96 bytes and two null pointers of 24.
abbrev pub super_image : (page_size pages csum : ℕ) → List ℕ
super_image page_size pages csum =
    encode 8 magic
    ++ (encode 8 version
        ++ (encode 8 page_size ++ (encode 8 pages ++ (replicate 240 0 ++ encode 8 csum))))

-- `struct aulsmfs_config` of mkfs, without the file.
pub record MkfsConfig : Type 0 where
  pub bytes : ℕ
  pub pages : ℕ
  pub page_size : ℕ

unfoldable pub aulsmfs_config_default : MkfsConfig
aulsmfs_config_default = record { bytes = 0; pages = 0; page_size = 4096 }

-- The rest of `aulsmfs_config_check`, for a file of `file_bytes`: what was not given follows from
-- the rest, and `none` is the failure where they disagree.
unfoldable pub settle_sizes : (file_bytes : ℕ) → MkfsConfig → Option MkfsConfig
settle_sizes file_bytes config =
    let given =
      if config.bytes == 0 then (if config.pages == 0 then file_bytes else 0) else config.bytes in
    let masked = bit_and given (2 ^ 64 - 1 - (config.page_size - 1)) in
    let bytes = if masked == 0 then config.pages * config.page_size % 2 ^ 64 else masked in
    let pages = if config.pages == 0 then bytes / config.page_size else config.pages in
    if pages * config.page_size % 2 ^ 64 == bytes
    then some (record { bytes = bytes; pages = pages; page_size = config.page_size })
    else none

-- The sizes in `aulsmfs_config_check`, where the file can be opened and measured. A failed assertion
-- on the page size is a fault.
unfoldable pub aulsmfs_config_check : (file_bytes : ℕ) → MkfsConfig → Run (Option MkfsConfig)
unfolding settle_sizes
aulsmfs_config_check file_bytes config =
    if leb 512 config.page_size && bit_and config.page_size (config.page_size - 1) == 0
    then done (settle_sizes file_bytes config)
    else fault

-- `struct aulsmfs_config` of fuse, what it reads from the superblock.
pub record FuseConfig : Type 0 where
  pub minor : ℕ
  pub major : ℕ
  pub page_size : ℕ
  pub pages : ℕ

abbrev pub field : List ℕ → (offs : ℕ) → ℕ
field super offs = load (take 8 (drop offs super))

-- The checks of `aulsmfs_super_read` on the bytes of a superblock; `none` is -1.
unfoldable pub super_parse : (super : List ℕ) → Option FuseConfig
super_parse super =
    if field super 0 == magic
    then (if field super 272 == crc64 (take 272 super ++ encode 8 0)
        then some (record {
          minor = field super 8 % 2 ^ 32;
          major = field super 8 / 2 ^ 32;
          page_size = field super 16;
          pages = field super 24;
        })
        else none)
    else none

module _ (file : File) where
  unfoldable pub aulsmfs_mkfs : file.State → MkfsConfig → Run file.State
  aulsmfs_mkfs s config =
      let csum = crc64 (super_image config.page_size config.pages 0) in
      file_write_at file s (super_image config.page_size config.pages csum) 0

  unfoldable pub aulsmfs_super_read : file.State → Run (Option FuseConfig)
  unfolding super_parse
  aulsmfs_super_read s = elim (file_read_at file s super_size 0) [
    | done (super, r) ↦ if r == super_size then done (super_parse super) else done none
    | fail e ↦ done none
    | fault ↦ fault
    | out_of_fuel ↦ out_of_fuel
  ]
