-- ===== src/Examples/Checksum.antt =====
-- Tests and instances for util/crc64.c.
use fuse_example.Base.{ℕ, ◌^◌, ◌<◌, ◌≡◌, refl, arith, List, [], ◌∷◌, ◌++◌}
use fuse_example.Crc64.{
  crc64, crc64_from, crc_word, crc_byte, entry, crc_bytes, crc64_ctx_update, crc64_ctx_csum,
  Crc64Ctx,
}
use fuse_example.Crc64.Slices.{IsBytes, bit_serial, crc64_from-bit_serial, crc64_ctx_update-append}

-- "123456789", whose sum under this polynomial is the check value of CRC-64/Jones.
abbrev digits : List ℕ
digits = 0x31 ∷ 0x32 ∷ 0x33 ∷ 0x34 ∷ 0x35 ∷ 0x36 ∷ 0x37 ∷ 0x38 ∷ 0x39 ∷ []

check_value : crc64 digits ≡ 0xe9c6d914c4b8d9ca
unfolding crc64 crc64_from crc_word crc_bytes crc_byte entry
check_value = refl

digits-IsBytes : IsBytes digits
digits-IsBytes = ground arith

in_range : 0 < 2 ^ 64
in_range = omega arith

crc64_from-bit_serial_example : crc64_from 0 digits ≡ bit_serial 0 digits
crc64_from-bit_serial_example = crc64_from-bit_serial 0 digits digits-IsBytes in_range

abbrev fresh : Crc64Ctx
fresh = record { crc = 0 }

crc64_ctx_update-append_example :
    crc64_ctx_csum (crc64_ctx_update (crc64_ctx_update fresh digits) digits)
    ≡ crc64_from 0 (digits ++ digits)
crc64_ctx_update-append_example =
    crc64_ctx_update-append fresh digits digits digits-IsBytes digits-IsBytes in_range
