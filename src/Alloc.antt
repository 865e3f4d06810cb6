-- ===== src/Alloc.antt =====
-- inc/alloc.h: the allocator of disk pages, which the user of the library supplies.
use fuse_example.Base.{ℕ}
use fuse_example.Errors.{Result}

-- `struct alloc` with the callbacks of `struct alloc_ops` that the library calls. The state behind
-- them is `State`; `cancel` has a return code that no caller reads.
pub record Alloc : Type 1 where
  pub State : Type 0
  pub reserve : State → (size : ℕ) → Result (State × ℕ)
  pub cancel : State → (size offs : ℕ) → State

module _ (alloc : Alloc) where
  unfoldable pub alloc_reserve : alloc.State → (size : ℕ) → Result (alloc.State × ℕ)
  alloc_reserve s size = alloc.reserve s size

  unfoldable pub alloc_cancel : alloc.State → (size offs : ℕ) → alloc.State
  alloc_cancel s size offs = alloc.cancel s size offs
