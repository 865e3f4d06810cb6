-- ===== src/Crc64.antt =====
-- util/crc64.c and gen_crc64_table.py: the control sum over eight tables, and the loop over
-- single bytes that it replaces. Data is a list of bytes, the crc a number below 2^64.
pub mod Linear
pub mod Slices
use fuse_example.Base.{
  ℕ, zero, suc, ◌+◌, ◌-◌, ◌*◌, ◌/◌, ◌%◌, ◌^◌, List, [], ◌∷◌, map, get_or, ◌==◌, if◌then◌else◌,
}
use fuse_example.Bits.{bit_xor}

-- The "Jones" polynomial, reversed.
abbrev pub polynomial : ℕ
polynomial = 0x95ac9329ac4bc9b5

-- One round of the inner loop of `gen_table`.
unfoldable pub crc_round : ℕ → ℕ
crc_round crc = if crc % 2 == 1 then bit_xor polynomial (crc / 2) else crc / 2

-- The eight rounds for one byte.
unfoldable pub crc_rounds : ℕ → ℕ → ℕ
crc_rounds zero crc = crc
crc_rounds (suc n) crc = crc_rounds n (crc_round crc)

-- The first table, from the entry `b` on.
unfoldable pub first_table : ℕ → ℕ → List ℕ
first_table zero b = []
first_table (suc n) b = crc_rounds 8 b ∷ first_table n (b + 1)

-- `(x >> 8) ^ table[0][x & 0xff]`
unfoldable pub next_entry : List ℕ → ℕ → ℕ
next_entry first x = bit_xor (x / 256) (get_or first (x % 256) 0)

-- The table of this number: each after the first is computed from the one before it.
unfoldable pub crc_table : ℕ → List ℕ
unfolding first_table crc_rounds crc_round next_entry
crc_table zero = first_table 256 0
crc_table (suc i) = map (next_entry (first_table 256 0)) (crc_table i)

-- `crc_table[i][j]`
unfoldable pub entry : ℕ → ℕ → ℕ
unfolding crc_table
entry i j = get_or (crc_table i) j 0

-- The number that a little endian machine loads from these bytes.
abbrev pub load : List ℕ → ℕ
load [] = 0
load (b ∷ bs) = 256 * load bs + b

-- The step of the loop over words.
unfoldable pub crc_word : ℕ → ℕ
crc_word word =
    bit_xor
      (bit_xor
        (bit_xor
          (bit_xor
            (bit_xor
              (bit_xor (bit_xor (entry 0 (word / 2 ^ 56 % 256)) (entry 1 (word / 2 ^ 48 % 256)))
                (entry 2 (word / 2 ^ 40 % 256)))
              (entry 3 (word / 2 ^ 32 % 256)))
            (entry 4 (word / 2 ^ 24 % 256)))
          (entry 5 (word / 2 ^ 16 % 256)))
        (entry 6 (word / 2 ^ 8 % 256)))
      (entry 7 (word % 256))

-- The step of the loop over bytes.
unfoldable pub crc_byte : ℕ → ℕ → ℕ
crc_byte crc b = bit_xor (entry 0 (bit_xor (crc % 256) b % 256)) (crc / 256)

-- `while (size--)`: the loop for the last bytes, and the whole of the commented out version.
unfoldable pub crc_bytes : ℕ → List ℕ → ℕ
crc_bytes crc [] = crc
crc_bytes crc (b ∷ bs) = crc_bytes (crc_byte crc b) bs

-- `__crc64`: words of eight bytes while there are so many, then bytes.
unfoldable pub crc64_from : ℕ → List ℕ → ℕ
crc64_from crc (b0 ∷ b1 ∷ b2 ∷ b3 ∷ b4 ∷ b5 ∷ b6 ∷ b7 ∷ rest) =
    crc64_from (crc_word (bit_xor (load (b0 ∷ b1 ∷ b2 ∷ b3 ∷ b4 ∷ b5 ∷ b6 ∷ b7 ∷ [])) crc)) rest
crc64_from crc rest = crc_bytes crc rest

-- `CRC64_INIT`
abbrev pub crc64_init : ℕ
crc64_init = 0

unfoldable pub crc64 : List ℕ → ℕ
crc64 = crc64_from crc64_init

-- `struct crc64_ctx` and its operations: a sum over data that comes in pieces.
pub record Crc64Ctx : Type 0 where
  pub crc : ℕ

unfoldable pub crc64_ctx_setup : Crc64Ctx
crc64_ctx_setup = record { crc = crc64_init }

unfoldable pub crc64_ctx_update : Crc64Ctx → List ℕ → Crc64Ctx
crc64_ctx_update ctx bytes = record { crc = crc64_from ctx.crc bytes }

unfoldable pub crc64_ctx_csum : Crc64Ctx → ℕ
crc64_ctx_csum ctx = ctx.crc
