-- ===== src/Lsm/Key.antt =====
-- `struct lsm_key` and `struct lsm_val` of inc/lsm_fwd.h, and the order `cmp` that a tree is given.
use Prim.Native.Nat.{Ordering}
use Prim.Native.Nat.Ordering.{lt, eq, gt}
use fuse_example.Base.{ℕ, ◌≡◌, List}

-- The `size` bytes at `ptr`.
abbrev pub Bytes : Type 0
Bytes = List ℕ

pub record Entry : Type 0 where
  pub key : Bytes
  pub val : Bytes

abbrev pub opposite : Ordering → Ordering
opposite lt = gt
opposite eq = eq
opposite gt = lt

-- A `cmp` that orders the keys. Keys that compare equal may differ as bytes.
pub record KeyOrder : Type 0 where
  pub cmp : Bytes → Bytes → Ordering
  pub cmp_refl : (a : Bytes) → cmp a a ≡ eq
  pub cmp_opposite : (a b : Bytes) → cmp b a ≡ opposite (cmp a b)
  pub lt_trans : (a b c : Bytes) → cmp a b ≡ lt → cmp b c ≡ lt → cmp a c ≡ lt
  pub eq_left : (a b c : Bytes) → cmp a b ≡ eq → cmp a c ≡ cmp b c
