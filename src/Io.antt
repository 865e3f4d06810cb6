-- ===== src/Io.antt =====
-- inc/io.h: sizes in bytes and in pages. Offsets and sizes are 64-bit; sums here stay below that.
pub mod Align
use fuse_example.Base.{ℕ, ◌+◌, ◌-◌, ◌*◌, ◌/◌, ◌^◌, ◌≤◌, ◌<◌, ◌≡◌, arith, List}
use fuse_example.Errors.{Result}
use Prim.Native.Nat.{bit_and}

-- `(size + page_size - 1) & ~(page_size - 1)`
unfoldable pub io_align : (page_size size : ℕ) → ℕ
io_align page_size size = bit_and (size + page_size - 1) (2 ^ 64 - 1 - (page_size - 1))

unfoldable pub io_pages : (page_size size : ℕ) → ℕ
io_pages page_size size = (size + page_size - 1) / page_size

unfoldable pub io_bytes : (page_size pages : ℕ) → ℕ
io_bytes page_size pages = pages * page_size

-- `struct io` with the callbacks of `struct io_ops`, which the user of the library supplies. They
-- work on bytes; the state behind them is `Disk`.
pub record Io : Type 1 where
  pub Disk : Type 0
  pub page_size : ℕ
  pub read : Disk → (size offs : ℕ) → Result (List ℕ)
  pub write : Disk → (bytes : List ℕ) → (offs : ℕ) → Result Disk

module _ (io : Io) where
  open io use {Disk, page_size}

  unfoldable pub io_read : Disk → (pages offs : ℕ) → Result (List ℕ)
  io_read disk pages offs = io.read disk (pages * page_size) (offs * page_size)

  -- The buffer is cut to the pages that are written by the caller, which owns its bounds.
  unfoldable pub io_write : Disk → (bytes : List ℕ) → (offs : ℕ) → Result Disk
  io_write disk bytes offs = io.write disk bytes (offs * page_size)

-- With pages of at least one byte, the pages of `size` bytes hold them, and with less than a page
-- to spare.
pub io_bytes-io_pages :
    (page_size size : ℕ)
    → 0 < page_size
    → (size ≤ io_bytes page_size (io_pages page_size size))
      × (io_bytes page_size (io_pages page_size size) < size + page_size)
unfolding io_pages io_bytes
io_bytes-io_pages p size h = (grind arith, grind arith)

-- Whole pages are their own size.
pub io_pages-io_bytes :
    (page_size pages : ℕ) → 0 < page_size → io_pages page_size (io_bytes page_size pages) ≡ pages
unfolding io_pages io_bytes
io_pages-io_bytes p pages h = grind arith
