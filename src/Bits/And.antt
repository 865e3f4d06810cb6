-- ===== src/Bits/And.antt =====
-- `bit_and` with a mask whose low digits are zero, as division.
use mathlib.Core.Path.{ap₂}
use Prim.Native.Nat.{min, bit_and-bitwise}
pub use Prim.Native.Nat.{bit_and}
use native.Mathlib.Nat.{div-div-eq-div-mul, div-lt_iff_lt-mul}
use fuse_example.Bits.Digits.{step_of_digits}
use fuse_example.Base.{ℕ, zero, suc, ◌+◌, ◌-◌, ◌*◌, ◌/◌, ◌%◌, ◌<◌, ◌≡◌, refl, sym, ap, ◌∙◌, arith}
use fuse_example.Bits.{shl}

zero-and : (b : ℕ) → bit_and 0 b ≡ 0
zero-and b = bit_and-bitwise 0 b

and_step : (a b : ℕ) → bit_and a b ≡ bit_and (a / 2) (b / 2) * 2 + min (a % 2) (b % 2)
and_step zero b = omega (arith, zero-and b, zero-and (b / 2))
and_step (suc a) b = step_of_digits (λ b. zero) min bit_and bit_and-bitwise a b

pub shl-pos : (n : ℕ) → 0 < shl n 1
shl-pos zero = omega arith
shl-pos (suc n) = omega (arith, shl-pos n)

-- A number below a mask of ones passes it whole.
and_ones : (n a : ℕ) → a < shl n 1 → bit_and a (shl n 1 - 1) ≡ a
and_ones zero a h = let e : a ≡ 0 = omega arith in rw e refl
and_ones (suc n) a h = omega (
  arith,
  shl-pos n,
  and_step a (2 * shl n 1 - 1),
  and_ones n (a / 2) (omega arith),
  ap (bit_and (a / 2)) low,
)
  where
    low : (2 * shl n 1 - 1) / 2 ≡ shl n 1 - 1
    low = omega (arith, shl-pos n)

halve : ℕ → ℕ → ℕ
halve zero a = a
halve (suc n) a = halve n (a / 2)

halve-div : (n a : ℕ) → halve n a ≡ a / shl n 1
unfolding halve
halve-div zero a = omega arith
halve-div (suc n) a = halve-div n (a / 2) ∙ div-div-eq-div-mul a 2 (shl n 1)

and_shl : (k a m : ℕ) → bit_and a (shl k m) ≡ shl k (bit_and (halve k a) m)
unfolding halve
and_shl zero a m = refl
and_shl (suc k) a m =
    omega (arith, and_step a (2 * shl k m), and_shl k (a / 2) m, ap (bit_and (a / 2)) half)
  where
    half : 2 * shl k m / 2 ≡ shl k m
    half = omega arith

shl-mul : (k c : ℕ) → shl k c ≡ c * shl k 1
shl-mul zero c = omega arith
shl-mul (suc k) c = omega (arith, shl-mul k c)

shl-add : (k j c : ℕ) → shl k (shl j c) ≡ shl (k + j) c
shl-add zero j c = let e : j ≡ 0 + j = omega arith in ap (λ n. shl n c) e
shl-add (suc k) j c =
    let e : suc (k + j) ≡ suc k + j = omega arith in
    ap (λ (t : ℕ). 2 * t) (shl-add k j c) ∙ ap (λ n. shl n c) e

shl-pred : (k c : ℕ) → shl k c - shl k 1 ≡ shl k (c - 1)
shl-pred zero c = refl
shl-pred (suc k) c = omega (arith, shl-pred k c)

-- Clearing the `k` low digits of a number of `k + j` digits rounds it down.
pub and_high :
    (k j a : ℕ) → a < shl (k + j) 1 → bit_and a (shl (k + j) 1 - shl k 1) ≡ a / shl k 1 * shl k 1
and_high k j a h =
    ap (bit_and a) mask
    ∙ and_shl k a (shl j 1 - 1)
    ∙ ap (shl k) (ap (λ t. bit_and t (shl j 1 - 1)) (halve-div k a) ∙ and_ones j (a / shl k 1) high)
    ∙ shl-mul k (a / shl k 1)
  where
    mask : shl (k + j) 1 - shl k 1 ≡ shl k (shl j 1 - 1)
    mask = ap (λ (t : ℕ). t - shl k 1) (sym (shl-add k j 1)) ∙ shl-pred k (shl j 1)

    high : a / shl k 1 < shl j 1
    high = (div-lt_iff_lt-mul (shl-pos k)).1 (omega (arith, shl-add k j 1, shl-mul k (shl j 1)))

-- A power of two has no digit in common with the numbers below it.
pub and_below : (k : ℕ) → bit_and (shl k 1) (shl k 1 - 1) ≡ 0
and_below zero = refl
and_below (suc k) = omega (
  arith,
  shl-pos k,
  and_step (2 * shl k 1) (2 * shl k 1 - 1),
  and_below k,
  ap₂ (λ (a b : ℕ). bit_and a b) halves low,
)
  where
    halves : 2 * shl k 1 / 2 ≡ shl k 1
    halves = omega arith

    low : (2 * shl k 1 - 1) / 2 ≡ shl k 1 - 1
    low = omega (arith, shl-pos k)
