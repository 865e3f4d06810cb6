-- ===== src/Examples/Disks.antt =====
-- Instances for the builder and the root pointers of lib/ctree.c, lib/file_wrappers.c and the
-- superblock.
use mathlib.Core.Path.{subst}
use fuse_example.Base.{
  ℕ, ◌+◌, ◌≤◌, length-take_le, ◌≡◌, refl, arith, Bool, true, List, [], ◌∷◌, ◌++◌, length, take,
  drop, some,
}
use fuse_example.Errors.{eio, err, ok, done, fail, fault, out_of_fuel}
use fuse_example.Alloc.{Alloc}
use fuse_example.Io.{Io, io_align, io_bytes, io_pages}
use fuse_example.Memory.{poke}
use fuse_example.Ctree.Node.{
  null_ptr, ctree_node_setup, ctree_node_can_append, ctree_node_append, ctree_ensure_entries,
  store_entry,
}
use fuse_example.Ctree.Builder.{Site, Step, ctree_builder_setup}
use fuse_example.Ctree.Builder.Space.{ctree_builder_alloc}
use fuse_example.Ctree.Builder.Steps.{
  ctree_builder_append, ctree_builder_append_at, ctree_builder_finish,
}
use fuse_example.Ctree.Builder.Ranges.{IsTracked, Reserved, ctree_builder_alloc-Reserved}
use fuse_example.Ctree.Builder.Finish.{ctree_builder_finish-ctree_builder_append}
use fuse_example.Ctree.Root.{Ctree, IsStorable, ctree_dump, ctree_parse, ctree_parse-ctree_dump}
use fuse_example.FileWrappers.{File, file_write_at, file_read_at}
use fuse_example.FileWrappers.Whole.{
  Ends, ReadsAtMost, WritesSome, file_write_at-Ends, file_read_at-Ends, file_read_at-half,
}
use fuse_example.FileWrappers.Regular.{IsRegular, upto}
use fuse_example.Super.{MkfsConfig, aulsmfs_config_check, aulsmfs_mkfs, aulsmfs_super_read}
use fuse_example.Super.RoundTrip.{aulsmfs_super_read-aulsmfs_mkfs}
use fuse_example.Super.Config.{aulsmfs_config_check-pages}

-- A disk that forgets, and an allocator that hands out one page after the other.
abbrev plain : Io
plain = record {
  Disk = Unit {0};
  page_size = 4096;
  read = λ disk size offs. err eio;
  write = λ disk bytes offs. ok tt;
}

abbrev pub counter : Alloc
counter = record {
  State = ℕ;
  reserve = λ next size. ok (next + size, next);
  cancel = λ next size offs. next;
}

abbrev always : ℕ → Bool
always size = true

abbrev start : Site plain counter
start = record { disk = tt; space = 7; builder = ctree_builder_setup }

start-IsTracked : IsTracked start.builder
unfolding ctree_builder_setup
start-IsTracked = (tt, refl)

ctree_builder_alloc-Reserved_example :
    Reserved start 2 (ctree_builder_alloc always plain counter start 2)
ctree_builder_alloc-Reserved_example =
    ctree_builder_alloc-Reserved always plain counter start 2 start-IsTracked

-- The site after one pair was appended.
abbrev site_of : {A : Type 0} → Step plain counter A → Site plain counter
site_of (done (t, r)) = t
site_of (fail e) = start
site_of fault = start
site_of out_of_fuel = start

one_pair : Site plain counter
one_pair = site_of (ctree_builder_append always plain counter start (1 ∷ []) (2 ∷ []))

append_one_pair :
    ctree_builder_append always plain counter start (1 ∷ []) (2 ∷ []) ≡ done (one_pair, ok tt)
unfolding one_pair ctree_builder_append ctree_builder_setup ctree_builder_append_at ctree_node_setup
    ctree_node_can_append ctree_node_append ctree_ensure_entries io_align io_bytes io_pages
    store_entry poke
append_one_pair = refl

ctree_builder_finish-ctree_builder_append_example :
    (ctree_builder_finish always plain counter 1 one_pair
      ≡ done (
        record one_pair { builder = record (one_pair.builder) { ptr = null_ptr; height = 0 } },
        ok tt,
      ))
    × (one_pair.disk ≡ tt)
ctree_builder_finish-ctree_builder_append_example =
    ctree_builder_finish-ctree_builder_append always plain counter 0 tt 7 (1 ∷ []) (2 ∷ []) one_pair
      append_one_pair

abbrev root : Ctree
root = record { ptr = record { offs = 9; size = 1; csum = 0x1234 }; height = 2; pages = 17 }

root-IsStorable : IsStorable root
root-IsStorable = record {
  offs_fits = omega arith;
  size_fits = omega arith;
  csum_fits = omega arith;
  height_fits = omega arith;
  pages_fits = omega arith;
}

ctree_parse-ctree_dump_example : ctree_parse (ctree_dump root ++ 5 ∷ []) ≡ done root
ctree_parse-ctree_dump_example = ctree_parse-ctree_dump root (5 ∷ []) root-IsStorable

-- A file in memory.
abbrev image : File
image = record {
  State = List ℕ;
  pread = λ content size offs. ok (take size (drop offs content));
  pwrite = λ content bytes offs.
      ok (upto offs content ++ (bytes ++ drop (offs + length bytes) content), length bytes);
}

image-IsRegular : IsRegular image
image-IsRegular = record {
  content = λ content. content;
  reads = λ s size offs fits. refl;
  writes = λ s bytes offs some_bytes fits. (_, refl, refl);
}

image-ReadsAtMost : ReadsAtMost image
image-ReadsAtMost s size offs bytes got =
    let taken : take size (drop offs s) ≡ bytes = cc got in
    subst (λ xs. length xs ≤ size) taken (length-take_le size (drop offs s))

image-WritesSome : WritesSome image
image-WritesSome s t bytes offs rc wrote some_bytes =
    let counted : length bytes ≡ rc = cc wrote in
    (omega (arith, counted, some_bytes), omega (arith, counted))

file_write_at-Ends_example : Ends (file_write_at image [] (1 ∷ 2 ∷ []) 0)
file_write_at-Ends_example = file_write_at-Ends image [] (1 ∷ 2 ∷ []) 0 image-WritesSome

file_read_at-Ends_example : Ends (file_read_at image (1 ∷ 2 ∷ []) 5 0)
file_read_at-Ends_example = file_read_at-Ends image (1 ∷ 2 ∷ []) 5 0 image-ReadsAtMost

-- A file whose calls transfer one byte.
abbrev slow : File
slow = record {
  State = List ℕ;
  pread = λ content size offs. ok (take 1 (drop offs content));
  pwrite = λ content bytes offs. err eio;
}

file_read_at-half_example : file_read_at slow (1 ∷ 2 ∷ []) 2 0 ≡ done (1 ∷ [], 1)
file_read_at-half_example = file_read_at-half slow (1 ∷ 2 ∷ []) (1 ∷ []) 2 0 (omega arith) refl refl

abbrev config : MkfsConfig
config = record { bytes = 40960; pages = 10; page_size = 4096 }

aulsmfs_super_read-aulsmfs_mkfs_example :
    (t : List ℕ) × (aulsmfs_mkfs image [] config ≡ done t)
    × (aulsmfs_super_read image t
        ≡ done (some (record { minor = 1; major = 0; page_size = 4096; pages = 10 })))
aulsmfs_super_read-aulsmfs_mkfs_example =
    aulsmfs_super_read-aulsmfs_mkfs image image-IsRegular [] config (omega arith) (omega arith)

aulsmfs_config_check-pages_example :
    aulsmfs_config_check 10000 (record { bytes = 0; pages = 0; page_size = 4096 })
    ≡ done (some (record { bytes = 8192; pages = 2; page_size = 4096 }))
aulsmfs_config_check-pages_example =
    aulsmfs_config_check-pages 12 52 10000 refl (omega arith) (omega arith) (omega arith)
