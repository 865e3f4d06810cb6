-- ===== src/FileWrappers.antt =====
-- lib/file_wrappers.c: whole transfers out of the partial ones of pread and pwrite. An error code
-- stands for any negative result.
pub mod Regular
pub mod Whole
use fuse_example.Base.{
  ℕ, zero, suc, ◌+◌, ◌-◌, List, [], ◌∷◌, ◌++◌, length, drop, true, false, ◌==◌, leb, if◌then◌else◌,
}
use fuse_example.Errors.{Result, ok, err, Run, done, fail, fault, out_of_fuel}

-- The system calls on an open file, over the states of the file.
pub record File : Type 1 where
  pub State : Type 0
  pub pread : State → (size offs : ℕ) → Result (List ℕ)
  pub pwrite : State → (bytes : List ℕ) → (offs : ℕ) → Result (State × ℕ)

module _ (file : File) where
  -- Where more bytes were written than were left, `size` becomes negative and the next call reads
  -- outside the buffer.
  unfoldable pub write_loop :
      (fuel : ℕ) → file.State → (bytes : List ℕ) → (offs : ℕ) → Run file.State
  write_loop zero s bytes offs = out_of_fuel
  write_loop (suc fuel) s [] offs = done s
  write_loop (suc fuel) s (b ∷ bytes) offs = elim (file.pwrite s (b ∷ bytes) offs) [
    | err e ↦ fail e
    | ok (t, rc) ↦
        let rest = write_loop fuel t (drop rc (b ∷ bytes)) (offs + rc) in
        if leb rc (length (b ∷ bytes)) then rest else fault
  ]

  -- Every turn of the loop writes a byte or more.
  unfoldable pub file_write_at : file.State → (bytes : List ℕ) → (offs : ℕ) → Run file.State
  unfolding write_loop
  file_write_at s bytes offs = write_loop (length bytes + 1) s bytes offs

  -- `buf` is what was read so far and `r` its length; `size` is what is still asked for.
  unfoldable pub read_loop :
      (fuel : ℕ) → file.State → (buf : List ℕ) → (r size offs : ℕ) → Run (List ℕ × ℕ)
  read_loop zero s buf r size offs = out_of_fuel
  read_loop (suc fuel) s buf r size offs = elim (r == size) [
    | true ↦ done (buf, r)
    | false ↦ elim (file.pread s size offs) [
      | err e ↦ fail e
      | ok [] ↦ done (buf, r)
      | ok (b ∷ bytes) ↦
          let rc = length (b ∷ bytes) in
          read_loop fuel s (buf ++ b ∷ bytes) (r + rc) (size - rc) (offs + rc)
    ]
  ]

  -- Every turn but the last reads a byte or more.
  unfoldable pub file_read_at : file.State → (size offs : ℕ) → Run (List ℕ × ℕ)
  unfolding read_loop
  file_read_at s size offs = read_loop (size + 2) s [] 0 size offs
