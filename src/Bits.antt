-- ===== src/Bits.antt =====
-- `bit_xor` at variables: the equation of its lowest digit and the laws that follow from it.
-- The control sum of util/crc64.c is a linear map for this operation.
pub mod And
pub mod Digits
use Prim.Native.Nat.{differ, digits, bit_xor-bitwise}
pub use Prim.Native.Nat.{bit_xor}
use native.Mathlib.Nat.{le_refl}
use fuse_example.Bits.Digits.{step_of_digits}
use fuse_example.Base.{ℕ, zero, suc, ◌+◌, ◌*◌, ◌/◌, ◌%◌, ◌≤◌, ◌<◌, ◌≡◌, refl, sym, ap, ◌∙◌, arith}

pub zero-xor : (b : ℕ) → bit_xor 0 b ≡ b
zero-xor b = bit_xor-bitwise 0 b

xor_step : (a b : ℕ) → bit_xor a b ≡ bit_xor (a / 2) (b / 2) * 2 + differ (a % 2) (b % 2)
xor_step zero b = omega (arith, zero-xor b, zero-xor (b / 2))
xor_step (suc a) b = step_of_digits (λ b. b) differ bit_xor bit_xor-bitwise a b

differ_bits : (x y : ℕ) → x < 2 → y < 2 → differ x y ≡ (x + y) % 2
differ_bits zero y p q = omega arith
differ_bits (suc zero) zero p q = refl
differ_bits (suc zero) (suc zero) p q = refl
differ_bits (suc zero) (suc (suc y)) p q = absurd (omega arith)
differ_bits (suc (suc x)) y p q = absurd (omega arith)

xor_digit : (a b : ℕ) → bit_xor a b ≡ bit_xor (a / 2) (b / 2) * 2 + (a + b) % 2
xor_digit a b = omega (arith, xor_step a b, differ_bits (a % 2) (b % 2) (omega arith) (omega arith))

pub xor_half : (a b : ℕ) → bit_xor a b / 2 ≡ bit_xor (a / 2) (b / 2)
xor_half a b = omega (arith, xor_digit a b)

pub xor_parity : (a b : ℕ) → bit_xor a b % 2 ≡ (a + b) % 2
xor_parity a b = omega (arith, xor_digit a b)

-- Two numbers with the same halves and the same lowest digits are equal.
eq_of_digits : (a b : ℕ) → a / 2 ≡ b / 2 → a % 2 ≡ b % 2 → a ≡ b
eq_of_digits a b p q = omega arith

xor_comm_fuel : (n a b : ℕ) → a ≤ n → b ≤ n → bit_xor a b ≡ bit_xor b a
xor_comm_fuel zero a b p q =
    let ea : a ≡ 0 = omega arith in let eb : b ≡ 0 = omega arith in rw (ea, eb)
xor_comm_fuel (suc n) a b p q = omega (
  arith,
  xor_digit a b,
  xor_digit b a,
  xor_comm_fuel n (a / 2) (b / 2) (omega arith) (omega arith),
)

pub xor_comm : (a b : ℕ) → bit_xor a b ≡ bit_xor b a
xor_comm a b = xor_comm_fuel (a + b) a b (omega arith) (omega arith)

xor_assoc_fuel :
    (n a b c : ℕ) → a ≤ n → b ≤ n → c ≤ n → bit_xor (bit_xor a b) c ≡ bit_xor a (bit_xor b c)
xor_assoc_fuel zero a b c p q r =
    let ea : a ≡ 0 = omega arith in
    let eb : b ≡ 0 = omega arith in let ec : c ≡ 0 = omega arith in rw (ea, eb, ec)
xor_assoc_fuel (suc n) a b c p q r =
    eq_of_digits _ _
      (xor_half (bit_xor a b) c
        ∙ ap (λ t. bit_xor t (c / 2)) (xor_half a b)
        ∙ xor_assoc_fuel n (a / 2) (b / 2) (c / 2) (omega arith) (omega arith) (omega arith)
        ∙ sym (ap (λ t. bit_xor (a / 2) t) (xor_half b c))
        ∙ sym (xor_half a (bit_xor b c)))
      (omega (
        arith,
        xor_parity (bit_xor a b) c,
        xor_parity a b,
        xor_parity a (bit_xor b c),
        xor_parity b c,
      ))

pub xor_assoc : (a b c : ℕ) → bit_xor (bit_xor a b) c ≡ bit_xor a (bit_xor b c)
xor_assoc a b c = xor_assoc_fuel (a + b + c) a b c (omega arith) (omega arith) (omega arith)

pub xor-zero : (a : ℕ) → bit_xor a 0 ≡ a
xor-zero a = xor_comm a 0 ∙ zero-xor a

-- The four operands of two sums change places in pairs.
pub xor_swap :
    (a b c d : ℕ) → bit_xor (bit_xor a b) (bit_xor c d) ≡ bit_xor (bit_xor a c) (bit_xor b d)
xor_swap a b c d =
    xor_assoc a b (bit_xor c d)
    ∙ ap (λ t. bit_xor a t)
        (sym (xor_assoc b c d) ∙ ap (λ t. bit_xor t d) (xor_comm b c) ∙ xor_assoc c b d)
    ∙ sym (xor_assoc a c (bit_xor b d))

xor_self_fuel : (n a : ℕ) → a ≤ n → bit_xor a a ≡ 0
xor_self_fuel zero a p = let ea : a ≡ 0 = omega arith in rw ea
xor_self_fuel (suc n) a p = omega (arith, xor_digit a a, xor_self_fuel n (a / 2) (omega arith))

pub xor_self : (a : ℕ) → bit_xor a a ≡ 0
xor_self a = xor_self_fuel a a (le_refl _)

-- `shl n c` is `c << n`.
abbrev pub shl : ℕ → ℕ → ℕ
shl zero c = c
shl (suc n) c = 2 * shl n c

-- A sum of a shifted number and one that fits the freed digits is their sum.
pub xor_fields : (n r q : ℕ) → r < shl n 1 → bit_xor r (shl n q) ≡ shl n q + r
xor_fields zero r q h = let e : r ≡ 0 = omega arith in rw (e, zero-xor) (omega arith)
xor_fields (suc n) r q h = omega (
  arith,
  xor_digit r (2 * shl n q),
  xor_fields n (r / 2) q (omega arith),
  ap (λ (t : ℕ). bit_xor (r / 2) t) half_of_double,
)
  where
    half_of_double : 2 * shl n q / 2 ≡ shl n q
    half_of_double = omega arith

pub xor_bytes : (r q : ℕ) → r < 256 → bit_xor r (256 * q) ≡ 256 * q + r
xor_bytes r q h = let e : 256 * q ≡ shl 8 q = omega arith in rw e (xor_fields 8 r q (omega arith))

-- A number is the sum of its lowest byte and the rest.
pub xor_split : (x : ℕ) → bit_xor (x % 256) (256 * (x / 256)) ≡ x
xor_split x = omega (arith, xor_bytes (x % 256) (x / 256) (omega arith))

pub xor-lt_shl : (n a b : ℕ) → a < shl n 1 → b < shl n 1 → bit_xor a b < shl n 1
xor-lt_shl zero a b p q =
    let ea : a ≡ 0 = omega arith in let eb : b ≡ 0 = omega arith in rw (ea, eb) (omega arith)
xor-lt_shl (suc n) a b p q =
    omega (arith, xor_digit a b, xor-lt_shl n (a / 2) (b / 2) (omega arith) (omega arith))

pub xor-lt_byte : (a b : ℕ) → a < 256 → b < 256 → bit_xor a b < 256
xor-lt_byte a b p q = omega (arith, xor-lt_shl 8 a b (omega arith) (omega arith))
