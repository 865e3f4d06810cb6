-- ===== src/Crc64/Slices.antt =====
-- `__crc64` by words of eight bytes, against the loop over bytes and the rounds over bits.
use fuse_example.Base.{
  ℕ, zero, suc, ◌+◌, ◌*◌, ◌/◌, ◌%◌, ◌^◌, ◌<◌, ◌≡◌, refl, sym, ap, ◌∙◌, arith, List, [], ◌∷◌, ◌++◌,
  length,
}
use fuse_example.Bits.{
  bit_xor, xor_comm, xor_assoc, zero-xor, xor-zero, xor_split, xor_bytes, xor-lt_byte, xor-lt_shl,
}
use fuse_example.Crc64.{
  crc_rounds, entry, load, crc_word, crc_byte, crc_bytes, crc64_from, Crc64Ctx, crc64_ctx_update,
  crc64_ctx_csum,
}
use fuse_example.Crc64.Linear.{
  advance, crc_rounds-xor, advance-xor, advance-rounds, rounds_split, rounds_byte, entry-advance,
  crc_rounds-lt,
}

abbrev pub IsBytes : List ℕ → Type 0
IsBytes [] = Unit
IsBytes (b ∷ bs) = (b < 256) × IsBytes bs

pub IsBytes-append : (bs cs : List ℕ) → IsBytes bs → IsBytes cs → IsBytes (bs ++ cs)
IsBytes-append [] cs hb hc = hc
IsBytes-append (b ∷ bs) cs hb hc = (hb.0, IsBytes-append bs cs hb.1 hc)

-- The definition of the checksum that involves no table: each byte is added, then eight rounds.
unfoldable pub bit_serial : ℕ → List ℕ → ℕ
bit_serial crc [] = crc
bit_serial crc (b ∷ bs) = bit_serial (crc_rounds 8 (bit_xor crc b)) bs

-- What the loop over words computes, over any number of bytes.
slices : ℕ → ℕ → ℕ
slices zero w = 0
slices (suc n) w = bit_xor (slices n (w / 256)) (entry n (w % 256))

advance_step : (n w : ℕ) → advance (suc n) w ≡ bit_xor (advance n (w / 256)) (entry n (w % 256))
unfolding advance
advance_step n w =
    sym (advance-rounds n w)
    ∙ ap (advance n) (rounds_split w)
    ∙ advance-xor n (crc_rounds 8 (w % 256)) (w / 256)
    ∙ ap (λ t. bit_xor t (advance n (w / 256)))
        (advance-rounds n (w % 256) ∙ sym (entry-advance n (w % 256) (omega arith)))
    ∙ xor_comm (entry n (w % 256)) (advance n (w / 256))

bytes_below : ℕ → ℕ
bytes_below zero = 1
bytes_below (suc n) = 256 * bytes_below n

advance-slices : (n w : ℕ) → w < bytes_below n → advance n w ≡ slices n w
unfolding slices bytes_below advance
advance-slices zero w h = omega arith
advance-slices (suc n) w h =
    advance_step n w
    ∙ ap (λ t. bit_xor t (entry n (w % 256))) (advance-slices n (w / 256) (omega arith))

crc_word-slices : (w : ℕ) → crc_word w ≡ slices 8 w
unfolding crc_word slices
crc_word-slices w = rw (zero-xor, e7, e6, e5, e4, e3, e2)
  where
    e7 : w / 256 / 256 / 256 / 256 / 256 / 256 / 256 ≡ w / 2 ^ 56
    e7 = omega arith

    e6 : w / 256 / 256 / 256 / 256 / 256 / 256 ≡ w / 2 ^ 48
    e6 = omega arith

    e5 : w / 256 / 256 / 256 / 256 / 256 ≡ w / 2 ^ 40
    e5 = omega arith

    e4 : w / 256 / 256 / 256 / 256 ≡ w / 2 ^ 32
    e4 = omega arith

    e3 : w / 256 / 256 / 256 ≡ w / 2 ^ 24
    e3 = omega arith

    e2 : w / 256 / 256 ≡ w / 2 ^ 16
    e2 = omega arith

crc_word-advance : (w : ℕ) → w < 2 ^ 64 → crc_word w ≡ advance 8 w
unfolding bytes_below
crc_word-advance w h = crc_word-slices w ∙ sym (advance-slices 8 w (omega arith))

xor_low_byte : (crc b : ℕ) → b < 256 → bit_xor crc b ≡ 256 * (crc / 256) + bit_xor (crc % 256) b
xor_low_byte crc b h =
    ap (λ t. bit_xor t b) (sym (xor_split crc))
    ∙ xor_assoc (crc % 256) (256 * (crc / 256)) b
    ∙ ap (λ t. bit_xor (crc % 256) t) (xor_comm (256 * (crc / 256)) b)
    ∙ sym (xor_assoc (crc % 256) b (256 * (crc / 256)))
    ∙ xor_bytes (bit_xor (crc % 256) b) (crc / 256) (xor-lt_byte (crc % 256) b (omega arith) h)

-- The step over a byte is its addition and eight rounds.
pub crc_byte-rounds : (crc b : ℕ) → b < 256 → crc_byte crc b ≡ crc_rounds 8 (bit_xor crc b)
unfolding crc_byte advance crc_rounds
crc_byte-rounds crc b h =
    ap (λ t. bit_xor (entry 0 t) (crc / 256)) low
    ∙ ap (λ t. bit_xor t (crc / 256)) (entry-advance 0 (bit_xor crc b % 256) (omega arith))
    ∙ ap (λ t. bit_xor (crc_rounds 8 (bit_xor crc b % 256)) t) high
    ∙ sym (rounds_split (bit_xor crc b))
  where
    fits : bit_xor (crc % 256) b < 256
    fits = xor-lt_byte (crc % 256) b (omega arith) h

    low : bit_xor (crc % 256) b % 256 ≡ bit_xor crc b % 256
    low = omega (arith, fits, xor_low_byte crc b h)

    high : crc / 256 ≡ bit_xor crc b / 256
    high = omega (arith, fits, xor_low_byte crc b h)

load-rounds :
    (crc b n : ℕ)
    → b < 256
    → crc_rounds 8 (bit_xor crc (256 * n + b)) ≡ bit_xor (crc_rounds 8 (bit_xor crc b)) n
load-rounds crc b n h =
    ap (λ t. crc_rounds 8 (bit_xor crc t)) (sym (xor_bytes b n h))
    ∙ ap (crc_rounds 8) (sym (xor_assoc crc b (256 * n)))
    ∙ crc_rounds-xor 8 (bit_xor crc b) (256 * n)
    ∙ ap (λ t. bit_xor (crc_rounds 8 (bit_xor crc b)) t) (rounds_byte n)

bit_serial-advance :
    (crc : ℕ) (bs : List ℕ)
    → IsBytes bs
    → bit_serial crc bs ≡ advance (length bs) (bit_xor crc (load bs))
unfolding bit_serial advance
bit_serial-advance crc [] h = sym (xor-zero crc)
bit_serial-advance crc (b ∷ bs) h =
    bit_serial-advance (crc_rounds 8 (bit_xor crc b)) bs h.1
    ∙ ap (advance (length bs)) (sym (load-rounds crc b (load bs) h.0))
    ∙ advance-rounds (length bs) (bit_xor crc (load (b ∷ bs)))

-- The loop over bytes, which the source keeps as a comment, is the checksum without tables.
pub crc_bytes-bit_serial :
    (crc : ℕ) (bs : List ℕ) → IsBytes bs → crc_bytes crc bs ≡ bit_serial crc bs
unfolding crc_bytes bit_serial
crc_bytes-bit_serial crc [] h = refl
crc_bytes-bit_serial crc (b ∷ bs) h =
    ap (λ t. crc_bytes t bs) (crc_byte-rounds crc b h.0)
    ∙ crc_bytes-bit_serial (crc_rounds 8 (bit_xor crc b)) bs h.1

load-lt : (bs : List ℕ) → IsBytes bs → load bs < bytes_below (length bs)
unfolding bytes_below
load-lt [] h = omega arith
load-lt (b ∷ bs) h = omega (arith, load-lt bs h.1)

load-lt_word : (bs : List ℕ) → IsBytes bs → length bs ≡ 8 → load bs < 2 ^ 64
unfolding bytes_below
load-lt_word bs h n = omega (arith, load-lt bs h, ap bytes_below n)

-- A word of eight bytes at once is the eight bytes one after the other.
crc_word-bit_serial :
    (crc : ℕ) (bs : List ℕ)
    → IsBytes bs
    → length bs ≡ 8
    → crc < 2 ^ 64
    → crc_word (bit_xor (load bs) crc) ≡ bit_serial crc bs
crc_word-bit_serial crc bs h n small =
    crc_word-advance (bit_xor (load bs) crc) (
      omega (arith, xor-lt_shl 64 (load bs) crc (omega (arith, load-lt_word bs h n)) (omega arith)))
    ∙ ap (advance 8) (xor_comm (load bs) crc)
    ∙ ap (λ k. advance k (bit_xor crc (load bs))) (sym n)
    ∙ sym (bit_serial-advance crc bs h)

bit_serial-lt : (crc : ℕ) (bs : List ℕ) → IsBytes bs → crc < 2 ^ 64 → bit_serial crc bs < 2 ^ 64
unfolding bit_serial
bit_serial-lt crc [] h small = small
bit_serial-lt crc (b ∷ bs) h small = bit_serial-lt (crc_rounds 8 (bit_xor crc b)) bs h.1 (
    crc_rounds-lt 8 (bit_xor crc b)
      (omega (arith, h.0, xor-lt_shl 64 crc b (omega arith) (omega arith))))

bit_serial-append :
    (crc : ℕ) (bs cs : List ℕ) → bit_serial crc (bs ++ cs) ≡ bit_serial (bit_serial crc bs) cs
unfolding bit_serial
bit_serial-append crc [] cs = refl
bit_serial-append crc (b ∷ bs) cs = bit_serial-append (crc_rounds 8 (bit_xor crc b)) bs cs

-- A whole word in front of the rest, with the rest already known.
word-append :
    (crc : ℕ) (bs rest : List ℕ)
    → IsBytes bs
    → length bs ≡ 8
    → crc < 2 ^ 64
    → crc64_from (crc_word (bit_xor (load bs) crc)) rest
      ≡ bit_serial (crc_word (bit_xor (load bs) crc)) rest
    → crc64_from (crc_word (bit_xor (load bs) crc)) rest ≡ bit_serial crc (bs ++ rest)
word-append crc bs rest h n small ih =
    ih
    ∙ ap (λ t. bit_serial t rest) (crc_word-bit_serial crc bs h n small)
    ∙ sym (bit_serial-append crc bs rest)

crc_word-lt :
    (crc : ℕ) (bs : List ℕ)
    → IsBytes bs
    → length bs ≡ 8
    → crc < 2 ^ 64
    → crc_word (bit_xor (load bs) crc) < 2 ^ 64
crc_word-lt crc bs h n small =
    omega (arith, crc_word-bit_serial crc bs h n small, bit_serial-lt crc bs h small)

-- On bytes of any length, from a start value below 2^64, `__crc64` by eight-byte words and eight
-- tables is the checksum that adds each byte and does eight rounds of the polynomial, without
-- tables.
pub crc64_from-bit_serial :
    (crc : ℕ) (bs : List ℕ) → IsBytes bs → crc < 2 ^ 64 → crc64_from crc bs ≡ bit_serial crc bs
unfolding crc64_from
crc64_from-bit_serial crc (b0 ∷ b1 ∷ b2 ∷ b3 ∷ b4 ∷ b5 ∷ b6 ∷ b7 ∷ rest)
      (h0, (h1, (h2, (h3, (h4, (h5, (h6, (h7, hs)))))))) small =
    let word : List ℕ = b0 ∷ b1 ∷ b2 ∷ b3 ∷ b4 ∷ b5 ∷ b6 ∷ b7 ∷ [] in
    let bytes : IsBytes word = (h0, (h1, (h2, (h3, (h4, (h5, (h6, (h7, tt)))))))) in
    word-append crc word rest bytes refl small (
      crc64_from-bit_serial (crc_word (bit_xor (load word) crc)) rest hs
        (crc_word-lt crc word bytes refl small))
crc64_from-bit_serial crc bs h small = crc_bytes-bit_serial crc bs h

-- On bytes, from a start value below 2^64, the loop over words in `__crc64` gives the sum of the
-- loop over bytes that the source keeps beside it as a comment.
pub crc64_from-crc_bytes :
    (crc : ℕ) (bs : List ℕ) → IsBytes bs → crc < 2 ^ 64 → crc64_from crc bs ≡ crc_bytes crc bs
crc64_from-crc_bytes crc bs h small =
    crc64_from-bit_serial crc bs h small ∙ sym (crc_bytes-bit_serial crc bs h)

-- On bytes, from a context below 2^64, two updates of a context, split anywhere, give the sum of
-- the joined data.
pub crc64_ctx_update-append :
    (ctx : Crc64Ctx) (bs cs : List ℕ)
    → IsBytes bs
    → IsBytes cs
    → ctx.crc < 2 ^ 64
    → crc64_ctx_csum (crc64_ctx_update (crc64_ctx_update ctx bs) cs) ≡ crc64_from ctx.crc (bs ++ cs)
unfolding crc64_ctx_update crc64_ctx_csum
crc64_ctx_update-append ctx bs cs hb hc small =
    crc64_from-bit_serial (crc64_from ctx.crc bs) cs hc
      (omega (arith, first, bit_serial-lt ctx.crc bs hb small))
    ∙ ap (λ t. bit_serial t cs) first
    ∙ sym (bit_serial-append ctx.crc bs cs)
    ∙ sym (crc64_from-bit_serial ctx.crc (bs ++ cs) (IsBytes-append bs cs hb hc) small)
  where
    first : crc64_from ctx.crc bs ≡ bit_serial ctx.crc bs
    first = crc64_from-bit_serial ctx.crc bs hb small

pub crc64_from-lt : (crc : ℕ) (bs : List ℕ) → IsBytes bs → crc < 2 ^ 64 → crc64_from crc bs < 2 ^ 64
crc64_from-lt crc bs h small =
    omega (arith, crc64_from-bit_serial crc bs h small, bit_serial-lt crc bs h small)
