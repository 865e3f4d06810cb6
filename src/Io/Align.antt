-- ===== src/Io/Align.antt =====
-- `io_align` of inc/io.h is a round trip through pages, at a page size that is a power of two.
use fuse_example.Base.{ℕ, ◌+◌, ◌-◌, ◌^◌, ◌<◌, ◌≡◌, ap, ◌∙◌, arith}
use fuse_example.Bits.{shl}
use fuse_example.Bits.And.{bit_and, shl-pos, and_high}
use fuse_example.Io.{io_align, io_pages, io_bytes}

-- For pages of 2^k bytes, on sizes that do not overflow 64 bits, the mask of `io_align` rounds up
-- to the same size as a division into pages and back.
pub io_align-io_bytes :
    (k j size : ℕ)
    → k + j ≡ 64
    → size + shl k 1 - 1 < 2 ^ 64
    → io_align (shl k 1) size ≡ io_bytes (shl k 1) (io_pages (shl k 1) size)
unfolding io_align io_pages io_bytes
io_align-io_bytes k j size width small =
    ap (bit_and (size + shl k 1 - 1)) mask ∙ and_high k j (size + shl k 1 - 1) (omega (arith, top))
  where
    top : shl (k + j) 1 ≡ 2 ^ 64
    top = ap (λ n. shl n 1) width

    mask : 2 ^ 64 - 1 - (shl k 1 - 1) ≡ shl (k + j) 1 - shl k 1
    mask = omega (arith, top, shl-pos k)
