-- ===== src/Examples/Orders.antt =====
-- An order of keys to run the trees with: by the numbers that their bytes spell.
use Prim.Native.Nat.{compare}
use fuse_example.Base.{arith}
use fuse_example.Crc64.{load}
use fuse_example.Lsm.Key.{KeyOrder}

instance abbrev pub by_number : KeyOrder
by_number = record {
  cmp = λ a b. compare (load a) (load b);
  cmp_refl = λ a. ground arith;
  cmp_opposite = λ a b. ground arith;
  lt_trans = λ a b c h k. ground arith;
  eq_left = λ a b c h. ground arith;
}
