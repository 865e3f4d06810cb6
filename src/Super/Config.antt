-- ===== src/Super/Config.antt =====
-- The sizes that mkfs/main.c works out.
use native.Mathlib.Nat.{div-mul-le_self}
use fuse_example.Base.{
  ℕ, ◌+◌, ◌-◌, ◌*◌, ◌/◌, ◌%◌, ◌^◌, ◌≤◌, ◌<◌, ◌≡◌, refl, ap, ◌∙◌, arith, true, some, zero, suc, leb,
  ◌==◌, if◌then◌else◌,
}
use fuse_example.Bits.{shl}
use fuse_example.Errors.{done}
use fuse_example.Memory.{leb_of_le}
use fuse_example.Bits.And.{and_below, bit_and, and_high, shl-pos}
use fuse_example.Super.{settle_sizes, aulsmfs_config_check}

shl-le_add : (m n : ℕ) → shl n 1 ≤ shl (m + n) 1
shl-le_add zero n = let e : n ≡ 0 + n = omega arith in rw (← e) (omega arith)
shl-le_add (suc m) n =
    let e : suc (m + n) ≡ suc m + n = omega arith in rw (← e) (omega (arith, shl-le_add m n))

settle_sizes-pages :
    (k j file_bytes : ℕ)
    → k + j ≡ 64
    → file_bytes < 2 ^ 64
    → settle_sizes file_bytes (record { bytes = 0; pages = 0; page_size = shl k 1 })
      ≡ some (record {
        bytes = file_bytes / shl k 1 * shl k 1;
        pages = file_bytes / shl k 1;
        page_size = shl k 1;
      })
unfolding settle_sizes
settle_sizes-pages k j file_bytes e h =
    rw (settle_sizes, masked, sized pages_bytes zero_bytes (omega arith), back, agrees) refl
  where
    pages_bytes : ℕ
    pages_bytes = file_bytes / shl k 1 * shl k 1

    zero_bytes : ℕ
    zero_bytes = 0 * shl k 1

    top : shl (k + j) 1 ≡ 2 ^ 64
    top = ap (λ n. shl n 1) e

    masked : bit_and file_bytes (2 ^ 64 - 1 - (shl k 1 - 1)) ≡ pages_bytes
    masked = ap (bit_and file_bytes) mask ∙ and_high k j file_bytes (omega (arith, top))
      where
        mask : 2 ^ 64 - 1 - (shl k 1 - 1) ≡ shl (k + j) 1 - shl k 1
        mask = omega (arith, top, shl-pos k)

    sized : (m z : ℕ) → z ≡ 0 → (if m == 0 then z % 2 ^ 64 else m) ≡ m
    sized m z p = ground arith

    back : pages_bytes / shl k 1 ≡ file_bytes / shl k 1
    back = grind (arith, shl-pos k)

    fits : (m : ℕ) → m < 2 ^ 64 → (m % 2 ^ 64 == m) ≡ true
    fits m small = ground arith

    agrees : (pages_bytes % 2 ^ 64 == pages_bytes) ≡ true
    agrees = fits pages_bytes (omega (arith, h, div-mul-le_self file_bytes (shl k 1)))

-- Where neither bytes nor pages are given, the page size is a power of two from 512 up to 2^63
-- and the file has fewer than 2^64 bytes, no assertion of mkfs fails and it takes the whole pages
-- of the file.
pub aulsmfs_config_check-pages :
    (k j file_bytes : ℕ)
    → k + j ≡ 64
    → 9 ≤ k
    → 0 < j
    → file_bytes < 2 ^ 64
    → aulsmfs_config_check file_bytes (record { bytes = 0; pages = 0; page_size = shl k 1 })
      ≡ done (
          some (record {
            bytes = file_bytes / shl k 1 * shl k 1;
            pages = file_bytes / shl k 1;
            page_size = shl k 1;
          }))
unfolding aulsmfs_config_check
aulsmfs_config_check-pages k j file_bytes e low high h =
    rw (aulsmfs_config_check, large, and_below k) (ap done (settle_sizes-pages k j file_bytes e h))
  where
    least : shl 9 1 ≤ shl (k - 9 + 9) 1
    least = shl-le_add (k - 9) 9

    whole : k - 9 + 9 ≡ k
    whole = omega (arith, low)

    large : leb 512 (shl k 1) ≡ true
    large = leb_of_le 512 (shl k 1) (omega (arith, least, ap (λ n. shl n 1) whole))
