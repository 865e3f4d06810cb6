-- ===== src/FileWrappers/Whole.antt =====
-- lib/file_wrappers.c on a file whose calls transfer all that was asked for, and on any file.
use fuse_example.Base.{
  ℕ, zero, suc, ◌+◌, ◌-◌, ◌≤◌, ◌<◌, ◌≡◌, ap, ◌∙◌, arith, true, false, List, [], ◌∷◌, ◌++◌, length,
  drop, Bool-cases, inl, inr, ◌==◌, length-drop,
}
use fuse_example.Memory.{leb_of_le}
use fuse_example.Errors.{ok, Run, done, fail, fault, out_of_fuel, Result-cases}
use fuse_example.FileWrappers.{File, write_loop, file_write_at, read_loop, file_read_at}

-- A run within its fuel.
abbrev pub Ends : {A : Type 0} → Run A → Type 0
Ends (done a) = Unit
Ends (fail e) = Unit
Ends fault = ⊥
Ends out_of_fuel = ⊥

-- `pread` returns no more than asked for.
abbrev pub ReadsAtMost : File → Type 0
ReadsAtMost file =
    (s : file.State) (size offs : ℕ) (bytes : List ℕ)
    → file.pread s size offs ≡ ok bytes
    → length bytes ≤ size

-- `pwrite` of some bytes writes one or more, and no more than given.
abbrev pub WritesSome : File → Type 0
WritesSome file =
    (s t : file.State) (bytes : List ℕ) (offs rc : ℕ)
    → file.pwrite s bytes offs ≡ ok (t, rc)
    → 0 < length bytes
    → (0 < rc) × (rc ≤ length bytes)

module _ (file : File) where
  write_loop-Ends :
      (fuel : ℕ) (s : file.State) (bytes : List ℕ) (offs : ℕ)
      → WritesSome file
      → length bytes < fuel
      → Ends (write_loop file fuel s bytes offs)
  unfolding write_loop
  write_loop-Ends zero s bytes offs law fit = omega arith
  write_loop-Ends (suc fuel) s [] offs law fit = tt
  write_loop-Ends (suc fuel) s (b ∷ bytes) offs law fit =
      elim (Result-cases (file.pwrite s (b ∷ bytes) offs)) [
        | inl (e, failed) ↦ rw (write_loop, failed) tt
        | inr (found, wrote) ↦
            let (some_written, no_more) =
              law s found.0 (b ∷ bytes) offs found.1 wrote (omega arith) in
            rw (write_loop, wrote, leb_of_le found.1 (length (b ∷ bytes)) no_more)
              (write_loop-Ends fuel found.0 (drop found.1 (b ∷ bytes)) (offs + found.1) law
                (omega (arith, fit, length-drop found.1 (b ∷ bytes), some_written)))
      ]

  -- Where each write of some bytes that succeeds writes one or more and no more than given, the
  -- loop of `file_write_at` ends, with the bytes left never below zero.
  pub file_write_at-Ends :
      (s : file.State) (bytes : List ℕ) (offs : ℕ)
      → WritesSome file
      → Ends (file_write_at file s bytes offs)
  unfolding file_write_at
  file_write_at-Ends s bytes offs law =
      write_loop-Ends (length bytes + 1) s bytes offs law (omega arith)

  read_loop-Ends :
      (fuel : ℕ) (s : file.State) (buf : List ℕ) (r size offs : ℕ)
      → ReadsAtMost file
      → size + 1 < fuel
      → Ends (read_loop file fuel s buf r size offs)
  unfolding read_loop
  read_loop-Ends zero s buf r size offs law fit = omega arith
  read_loop-Ends (suc fuel) s buf r size offs law fit = elim (Bool-cases (r == size)) [
    | inl e ↦ rw (read_loop, e) tt
    | inr e ↦ elim (Result-cases (file.pread s size offs)) [
      | inl (c, failed) ↦ rw (read_loop, e, failed) tt
      | inr ([], got) ↦ rw (read_loop, e, got) tt
      | inr (b ∷ bytes, got) ↦
          rw (read_loop, e, got)
            (read_loop-Ends fuel s (buf ++ b ∷ bytes) (r + length (b ∷ bytes))
              (size - length (b ∷ bytes)) (offs + length (b ∷ bytes)) law
              (omega (arith, fit, law s size offs (b ∷ bytes) got)))
    ]
  ]

  -- Where no read returns more bytes than asked for, the loop of `file_read_at` ends.
  pub file_read_at-Ends :
      (s : file.State) (size offs : ℕ) → ReadsAtMost file → Ends (file_read_at file s size offs)
  unfolding file_read_at
  file_read_at-Ends s size offs law = read_loop-Ends (size + 2) s [] 0 size offs law (omega arith)

  -- Where the first call reads one byte or more and exactly half of what was asked for,
  -- `file_read_at` stops there and returns that half.
  pub file_read_at-half :
      (s : file.State) (bytes : List ℕ) (size offs : ℕ)
      → 0 < length bytes
      → size ≡ length bytes + length bytes
      → file.pread s size offs ≡ ok bytes
      → file_read_at file s size offs ≡ done (bytes, length bytes)
  unfolding file_read_at read_loop
  file_read_at-half s [] size offs some_read half got = absurd (omega (arith, some_read))
  file_read_at-half s (b ∷ bytes) size offs some_read half got =
      ap (λ k. read_loop file k s [] 0 size offs) fuel
      ∙ rw (read_loop, first, got, read_loop, last) (ap (λ k. done (b ∷ bytes, k)) counted)
    where
      fuel : size + 2 ≡ suc (suc size)
      fuel = omega arith

      first : (0 == size) ≡ false
      first = ground (arith, half)

      last : (0 + suc (length bytes) == size - suc (length bytes)) ≡ true
      last = ground (arith, half)

      counted : 0 + suc (length bytes) ≡ suc (length bytes)
      counted = omega arith
