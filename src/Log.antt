-- ===== src/Log.antt =====
-- inc/log.h and lib/log.c: the log of a transaction. Items are collected in a chunk, full chunks are
-- written, and a header with the pointers to them is written at the end.
pub mod Append
pub mod Flush
pub mod Holds
use fuse_example.Base.{
  ℕ, ◌+◌, ◌-◌, ◌*◌, Bool, true, false, ◌&&◌, List, [], ◌∷◌, ◌++◌, length, take, replicate, ltb, leb,
  ◌==◌, if◌then◌else◌,
}
use fuse_example.Errors.{Errno, enomem, Result, ok, err, Run, done, fail, fault, out_of_fuel}
use fuse_example.Memory.{encode, peek, poke}
use fuse_example.Alloc.{Alloc, alloc_reserve, alloc_cancel}
use fuse_example.Io.{Io, io_align, io_pages, io_bytes, io_write}
use fuse_example.Crc64.{crc64}
use fuse_example.Lsm.Key.{Bytes}
use fuse_example.Ctree.Node.{AulsmfsPtr, null_ptr}
use fuse_example.Ctree.Builder.{ptr_image}

-- `struct trans_log`: `header_bytes` is the size of the allocation of `header`, 0 before there is
-- one, and `chunk` lists the `chunks` pointers behind the header.
pub record TransLog : Type 0 where
  pub header_bytes : ℕ
  pub chunk : List AulsmfsPtr
  pub max_chunks : ℕ
  pub chunk_data : Bytes
  pub chunk_size : ℕ
  pub chunk_max_size : ℕ
  pub pages : ℕ
  pub ptr : AulsmfsPtr

-- `trans_log_setup`, and what `trasn_log_release` leaves.
unfoldable pub trans_log_setup : TransLog
trans_log_setup = record {
  header_bytes = 0;
  chunk = [];
  max_chunks = 0;
  chunk_data = [];
  chunk_size = 0;
  chunk_max_size = 0;
  pages = 0;
  ptr = null_ptr;
}

abbrev pub trans_chunk_max_size : ℕ
trans_chunk_max_size = 131072

-- The sizes of `struct aulsmfs_ptr` and `struct aulsmfs_log_header`.
abbrev pub ptr_size : ℕ
ptr_size = 24

abbrev pub log_header_size : ℕ
log_header_size = 8

-- The log with the disk and the allocator that it works on.
pub record LogSite (io : Io) (alloc : Alloc) : Type 0 where
  pub disk : io.Disk
  pub space : alloc.State
  pub log : TransLog

abbrev pub LogStep : (io : Io) (alloc : Alloc) → Type 0 → Type 0
LogStep io alloc A = Run (LogSite io alloc × Result A)

-- `if (rc < 0) return rc;`
abbrev pub or_return :
    {io : Io} {alloc : Alloc} {A B : Type 0}
    → LogStep io alloc A
    → (LogSite io alloc → A → LogStep io alloc B)
    → LogStep io alloc B
or_return (done (s, ok a)) f = f s a
or_return (done (s, err e)) f = done (s, err e)
or_return (fail e) f = fail e
or_return fault f = fault
or_return out_of_fuel f = out_of_fuel

-- The bytes of an item in a chunk.
abbrev pub log_entry : Bytes → Bytes
log_entry item = encode 2 (length item) ++ item

abbrev pub ptr_images : List AulsmfsPtr → Bytes
ptr_images [] = []
ptr_images (p ∷ ps) = ptr_image p ++ ptr_images ps

abbrev pub put_log : {io : Io} {alloc : Alloc} → LogSite io alloc → TransLog → LogSite io alloc
put_log s log = record s { log = log }

-- A copy into a buffer of the log, within a step.
abbrev pub on_copy :
    {io : Io} {alloc : Alloc} {A : Type 0}
    → Run Bytes
    → (Bytes → LogStep io alloc A)
    → LogStep io alloc A
on_copy (done b) f = f b
on_copy (fail e) f = fail e
on_copy fault f = fault
on_copy out_of_fuel f = out_of_fuel

unfoldable pub next_chunks : (max_chunks need : ℕ) → ℕ
next_chunks max_chunks need =
    let chunks = if max_chunks * 2 == 0 then 16 else max_chunks * 2 in
    if ltb chunks need then need else chunks

module _ (malloc : ℕ → Bool) (io : Io) (alloc : Alloc) where
  -- `realloc` gets the pointer behind the header, which is a fault once there is one.
  unfoldable pub trans_log_reserve_chunk :
      LogSite io alloc → (count : ℕ) → LogStep io alloc (Unit {0})
  trans_log_reserve_chunk s count =
      let need = length s.log.chunk + count in
      let chunks = next_chunks s.log.max_chunks need in
      let size = io_align io.page_size (chunks * ptr_size + log_header_size) in
      if leb need s.log.max_chunks
      then done (s, ok tt)
      else (if s.log.header_bytes == 0
          then (if malloc size
              then done
                  (put_log s (record (s.log) { header_bytes = size; max_chunks = chunks }), ok tt)
              else done (s, err enomem))
          else fault)

  -- `trans_log_write` of so many pages of `buf`.
  unfoldable pub trans_log_write :
      LogSite io alloc → (buf : Bytes) (size : ℕ) → LogStep io alloc AulsmfsPtr
  trans_log_write s buf size = elim (alloc_reserve alloc s.space size) [
    | err e ↦ done (s, err e)
    | ok (space, offs) ↦ on_copy (peek buf 0 (io_bytes io.page_size size)) λ image.
        elim (io_write io s.disk image offs) [
          | err e ↦ done (record s { space = alloc_cancel alloc space size offs }, err e)
          | ok disk ↦ done (
            record s { disk = disk; space = space },
            ok (record { offs = offs; size = size; csum = crc64 image }),
          )
        ]
  ]

  unfoldable pub trans_log_flush : LogSite io alloc → LogStep io alloc (Unit {0})
  unfolding trans_log_reserve_chunk trans_log_write
  trans_log_flush s =
      if s.log.chunk_size == 0
      then done (s, ok tt)
      else or_return (trans_log_reserve_chunk s 1) λ s u.
        let pages = io_pages io.page_size s.log.chunk_size in
        let bytes = io_bytes io.page_size pages in
        on_copy (poke s.log.chunk_data s.log.chunk_size (replicate (bytes - s.log.chunk_size) 0))
          λ buf.
            or_return (trans_log_write (put_log s (record (s.log) { chunk_data = buf })) buf pages)
              λ s ptr. done (
                put_log s (record (s.log) {
                  chunk = s.log.chunk ++ ptr ∷ [];
                  chunk_size = 0;
                  pages = s.log.pages + pages;
                }),
                ok tt,
              )

  -- The size to which `trans_log_reserve` lets the chunk grow.
  unfoldable pub chunk_goal : (chunk_max_size need : ℕ) → ℕ
  chunk_goal chunk_max_size need =
      let size = io_align io.page_size (chunk_max_size * 2) in
      if ltb need trans_chunk_max_size && (leb size trans_chunk_max_size && leb need size)
      then size
      else io_align io.page_size need

  -- The growth of the chunk; `need` is what was needed before a flush.
  unfoldable pub grow_chunk : LogSite io alloc → (need : ℕ) → LogStep io alloc (Unit {0})
  grow_chunk s need =
      let goal = chunk_goal s.log.chunk_max_size need in
      if leb need s.log.chunk_max_size
      then done (s, ok tt)
      else (if malloc goal
          then done (
            put_log s (record (s.log) {
              chunk_data = s.log.chunk_data ++ replicate (goal - s.log.chunk_max_size) 0;
              chunk_max_size = goal;
            }),
            ok tt,
          )
          else done (s, err enomem))

  unfoldable pub trans_log_reserve : LogSite io alloc → (size : ℕ) → LogStep io alloc (Unit {0})
  unfolding trans_log_flush grow_chunk
  trans_log_reserve s size =
      let need = s.log.chunk_size + size in
      or_return (if ltb trans_chunk_max_size need then trans_log_flush s else done (s, ok tt))
        λ s u. grow_chunk s need

  unfoldable pub trans_log_append : LogSite io alloc → (item : Bytes) → LogStep io alloc (Unit {0})
  unfolding trans_log_reserve
  trans_log_append s item = or_return (trans_log_reserve s (length item + 2)) λ s u.
      on_copy (poke s.log.chunk_data s.log.chunk_size (log_entry item)) λ buf. done (
        put_log s (record (s.log) {
          chunk_data = buf;
          chunk_size = s.log.chunk_size + (length item + 2);
        }),
        ok tt,
      )

  -- Without a header it is written through a null pointer.
  unfoldable pub trans_log_finish : LogSite io alloc → LogStep io alloc (Unit {0})
  unfolding trans_log_flush trans_log_write
  trans_log_finish s = or_return (trans_log_flush s) λ s u.
      let size = log_header_size + length s.log.chunk * ptr_size in
      let pages = io_pages io.page_size size in
      let bytes = io_bytes io.page_size pages in
      let header =
        encode 4 (length s.log.chunk) ++ (encode 4 s.log.pages ++ ptr_images s.log.chunk) in
      if leb bytes s.log.header_bytes
      then (or_return (trans_log_write s (header ++ replicate (bytes - size) 0) pages)
          λ s ptr. done (put_log s (record (s.log) { ptr = ptr }), ok tt))
      else fault

  unfoldable pub cancel_chunks : alloc.State → List AulsmfsPtr → alloc.State
  cancel_chunks space [] = space
  cancel_chunks space (p ∷ ps) = cancel_chunks (alloc_cancel alloc space p.size p.offs) ps

  -- `trans_log_cancel`
  unfoldable pub trans_log_cancel : LogSite io alloc → LogSite io alloc
  unfolding cancel_chunks
  trans_log_cancel s = record s { space = cancel_chunks s.space s.log.chunk }
