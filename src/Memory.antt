-- ===== src/Memory.antt =====
-- Allocated bytes: copies in and out with their bounds, and little endian fields.
use mathlib.Core.Path.{ap₂}
use fuse_example.Base.{
  ℕ, zero, suc, ◌+◌, ◌*◌, ◌/◌, ◌%◌, ◌≤◌, ◌<◌, ◌≡◌, refl, ap, ◌∙◌, arith, List, [], ◌∷◌, ◌++◌,
  length, take, drop, leb, true, if◌then◌else◌, length-append, take-append, drop-append,
}
use fuse_example.Errors.{Run, done, fault}
use fuse_example.Crc64.{load}
use fuse_example.Crc64.Slices.{IsBytes}

-- `htole16` and its kin, with the field stored: the low bytes of a number, lowest first.
abbrev pub encode : (width value : ℕ) → List ℕ
encode zero n = []
encode (suc w) n = (n % 256) ∷ encode w (n / 256)

-- The numbers that fit `width` bytes.
abbrev pub limit : ℕ → ℕ
limit zero = 1
limit (suc w) = 256 * limit w

pub length-encode : (w n : ℕ) → length (encode w n) ≡ w
length-encode zero n = refl
length-encode (suc w) n = ap suc (length-encode w (n / 256))

-- A field reads back the number modulo its width.
pub load-encode : (w n : ℕ) → n < limit w → load (encode w n) ≡ n
load-encode zero n h = omega arith
load-encode (suc w) n h = omega (arith, load-encode w (n / 256) (omega arith))

pub encode-IsBytes : (w n : ℕ) → IsBytes (encode w n)
encode-IsBytes zero n = tt
encode-IsBytes (suc w) n = (omega arith, encode-IsBytes w (n / 256))

pub leb_of_le : (a b : ℕ) → a ≤ b → leb a b ≡ true
leb_of_le a b h = ground arith

-- `memcpy(_, buf + offs, size)`
unfoldable pub peek : (buf : List ℕ) (offs size : ℕ) → Run (List ℕ)
peek buf offs size =
    if leb (offs + size) (length buf) then done (take size (drop offs buf)) else fault

-- `memcpy(buf + offs, bytes, _)`
unfoldable pub poke : (buf : List ℕ) (offs : ℕ) (bytes : List ℕ) → Run (List ℕ)
poke buf offs bytes =
    if leb (offs + length bytes) (length buf)
    then done (take offs buf ++ (bytes ++ drop (offs + length bytes) buf))
    else fault

drop-append_add : (pre rest : List ℕ) (m : ℕ) → drop (length pre + m) (pre ++ rest) ≡ drop m rest
drop-append_add [] rest m = let e : 0 + m ≡ m = omega arith in ap (λ n. drop n rest) e
drop-append_add (x ∷ pre) rest m =
    let e : suc (length pre) + m ≡ suc (length pre + m) = omega arith in
    ap (λ n. drop n (x ∷ (pre ++ rest))) e ∙ drop-append_add pre rest m

-- At the end of a part, the next part is what is read.
pub peek-append :
    (pre mid post : List ℕ) → peek (pre ++ (mid ++ post)) (length pre) (length mid) ≡ done mid
unfolding peek
peek-append pre mid post =
    rw (leb_of_le (length pre + length mid) (length (pre ++ (mid ++ post))) fits) (
      ap (λ xs. done (take (length mid) xs)) (drop-append pre (mid ++ post))
      ∙ ap done (take-append mid post))
  where
    fits : length pre + length mid ≤ length (pre ++ (mid ++ post))
    fits = omega (arith, length-append pre (mid ++ post), length-append mid post)

-- And the write replaces the first bytes of the rest.
pub poke-append :
    (pre rest bytes : List ℕ)
    → length bytes ≤ length rest
    → poke (pre ++ rest) (length pre) bytes ≡ done (pre ++ (bytes ++ drop (length bytes) rest))
unfolding poke
poke-append pre rest bytes h =
    rw (leb_of_le (length pre + length bytes) (length (pre ++ rest)) fits) (
      ap done (
        ap₂ (λ xs ys. xs ++ (bytes ++ ys)) (take-append pre rest)
          (drop-append_add pre rest (length bytes))))
  where
    fits : length pre + length bytes ≤ length (pre ++ rest)
    fits = omega (arith, length-append pre rest)

pub poke_overflow :
    (buf bytes : List ℕ) (offs : ℕ) → length buf < offs + length bytes → poke buf offs bytes ≡ fault
unfolding poke
poke_overflow buf bytes offs h = ground arith

-- The same, for a buffer that is known to split there.
pub poke_at :
    (buf pre rest bytes : List ℕ) (offs : ℕ)
    → buf ≡ pre ++ rest
    → offs ≡ length pre
    → length bytes ≤ length rest
    → poke buf offs bytes ≡ done (pre ++ (bytes ++ drop (length bytes) rest))
poke_at buf pre rest bytes offs e k h =
    ap₂ (λ b n. poke b n bytes) e k ∙ poke-append pre rest bytes h

pub peek_at :
    (buf pre mid post : List ℕ) (offs size : ℕ)
    → buf ≡ pre ++ (mid ++ post)
    → offs ≡ length pre
    → size ≡ length mid
    → peek buf offs size ≡ done mid
peek_at buf pre mid post offs size e k h =
    ap₂ (λ b n. peek b n size) e k
    ∙ ap (peek (pre ++ (mid ++ post)) (length pre)) h
    ∙ peek-append pre mid post
