-- ===== src/FileWrappers/Regular.antt =====
-- lib/file_wrappers.c on a regular file with room, no other writer and no errors: one call transfers
-- all bytes that there are.
use mathlib.Core.Path.{subst}
use fuse_example.Base.{
  replicate, leb, true, ◌^◌, ℕ, suc, ◌+◌, ◌-◌, ◌<◌, ◌≡◌, refl, sym, ap, ◌∙◌, arith, false, List, [],
  ◌∷◌, ◌++◌, append-nil, length, take, drop, ◌==◌, take-append, drop-append,
}
use fuse_example.Errors.{ok, done}
use fuse_example.FileWrappers.{File, write_loop, file_write_at, read_loop, file_read_at}

-- The bytes below which a file has room and calls are not cut short.
abbrev pub room : ℕ
room = 2 ^ 30

-- The content up to `offs`, with the gap behind the end of the file as zeros.
abbrev pub upto : (offs : ℕ) → List ℕ → List ℕ
upto offs content = take offs (content ++ replicate (offs - length content) 0)

pub record IsRegular (file : File) : Type 0 where
  pub content : file.State → List ℕ
  pub reads :
      (s : file.State) (size offs : ℕ)
      → offs + size < room
      → file.pread s size offs ≡ ok (take size (drop offs (content s)))
  pub writes :
      (s : file.State) (bytes : List ℕ) (offs : ℕ)
      → 0 < length bytes
      → offs + length bytes < room
      → (t : file.State) × (file.pwrite s bytes offs ≡ ok (t, length bytes))
        × (content t ≡ upto offs (content s) ++ (bytes ++ drop (offs + length bytes) (content s)))

module _ (file : File) (regular : IsRegular file) where
  -- A write at the start replaces the first bytes.
  pub file_write_at-content :
      (s : file.State) (b : ℕ) (bytes : List ℕ)
      → length (b ∷ bytes) < room
      → (t : file.State) × (file_write_at file s (b ∷ bytes) 0 ≡ done t)
        × (regular.content t ≡ (b ∷ bytes) ++ drop (0 + length (b ∷ bytes)) (regular.content s))
  unfolding file_write_at write_loop
  file_write_at-content s b bytes small =
      let (t, wrote, same) = regular.writes s (b ∷ bytes) 0 (omega arith) (omega (arith, small)) in
      (
        t,
        ap (λ k. write_loop file k s (b ∷ bytes) 0) fuel
            ∙ rw (write_loop, wrote, whole, rest, write_loop) refl,
        same,
      )
    where
      fuel : length (b ∷ bytes) + 1 ≡ suc (suc (length bytes))
      fuel = omega arith

      whole : leb (suc (length bytes)) (suc (length bytes)) ≡ true
      whole = ground arith

      rest : drop (length bytes) bytes ≡ []
      rest = ap (drop (length bytes)) (sym (append-nil bytes)) ∙ drop-append bytes []

  -- A read of all that is at the start reads it, and a second call finds the end.
  file_read_at-content :
      (s : file.State) (b : ℕ) (bytes rest : List ℕ)
      → length (b ∷ bytes) < room
      → regular.content s ≡ (b ∷ bytes) ++ rest
      → file_read_at file s (length (b ∷ bytes)) 0 ≡ done (b ∷ bytes, length (b ∷ bytes))
  unfolding file_read_at read_loop
  file_read_at-content s b bytes rest small same =
      ap (λ k. read_loop file k s [] 0 (suc (length bytes)) 0) fuel
      ∙ rw (read_loop, first, got, read_loop, last, none) (ap (λ k. done (b ∷ bytes, k)) counted)
    where
      fuel : suc (length bytes) + 2 ≡ suc (suc (suc (length bytes)))
      fuel = omega arith

      first : (0 == suc (length bytes)) ≡ false
      first = ground arith

      got : file.pread s (suc (length bytes)) 0 ≡ ok (b ∷ bytes)
      got =
          regular.reads s (suc (length bytes)) 0 (omega (arith, small))
          ∙ ap (λ c. ok (take (suc (length bytes)) c)) same
          ∙ ap ok (take-append (b ∷ bytes) rest)

      last : (0 + suc (length bytes) == suc (length bytes) - suc (length bytes)) ≡ false
      last = ground arith

      nothing : suc (length bytes) - suc (length bytes) ≡ 0
      nothing = omega arith

      none : file.pread s (suc (length bytes) - suc (length bytes)) (0 + suc (length bytes)) ≡ ok []
      none =
          regular.reads s _ _ (omega (arith, small))
          ∙ ap (λ k. ok (take k (drop (0 + suc (length bytes)) (regular.content s)))) nothing

      counted : 0 + suc (length bytes) ≡ suc (length bytes)
      counted = omega arith

  pub file_read_at_start :
      (s : file.State) (bytes rest : List ℕ) (size : ℕ)
      → size ≡ length bytes
      → 0 < size
      → size < room
      → regular.content s ≡ bytes ++ rest
      → file_read_at file s size 0 ≡ done (bytes, size)
  file_read_at_start s [] rest size l p small same = absurd (omega (arith, l, p))
  file_read_at_start s (b ∷ bytes) rest size l p small same =
      subst (λ k. file_read_at file s k 0 ≡ done (b ∷ bytes, k)) (sym l)
        (file_read_at-content s b bytes rest (omega (arith, small, l)) same)
