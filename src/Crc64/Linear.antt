-- ===== src/Crc64/Linear.antt =====
-- The rounds of the generator are linear for `bit_xor`, and the tables hold whole bytes of rounds.
use fuse_example.Base.{
  ℕ, zero, suc, ◌+◌, ◌*◌, ◌/◌, ◌%◌, ◌^◌, ◌<◌, ◌≡◌, refl, sym, ap, ◌∙◌, arith, List, [], ◌∷◌, map,
  length, get_or, ◌⊎◌, inl, inr,
}
use fuse_example.Bits.{
  bit_xor, xor_half, xor_parity, xor_swap, xor_comm, xor-zero, xor_split, shl, xor-lt_shl,
}
use fuse_example.Crc64.{
  polynomial, crc_round, crc_rounds, first_table, next_entry, crc_table, entry,
}

-- What a round adds for a lowest digit.
feedback : ℕ → ℕ
feedback zero = 0
feedback (suc _) = polynomial

parity-cases : (a : ℕ) → (a % 2 ≡ 0) ⊎ (a % 2 ≡ 1)
parity-cases a = omega arith

crc_round-feedback : (a : ℕ) → crc_round a ≡ bit_xor (a / 2) (feedback (a % 2))
unfolding crc_round feedback
crc_round-feedback a = elim (parity-cases a) [
  | inl even ↦ rw even (sym (xor-zero (a / 2)))
  | inr odd ↦ rw odd (xor_comm polynomial (a / 2))
]

feedback-xor :
    (x y : ℕ) → x < 2 → y < 2 → feedback ((x + y) % 2) ≡ bit_xor (feedback x) (feedback y)
unfolding feedback
feedback-xor zero zero p q = refl
feedback-xor zero (suc zero) p q = refl
feedback-xor (suc zero) zero p q = refl
feedback-xor (suc zero) (suc zero) p q = refl
feedback-xor zero (suc (suc y)) p q = absurd (omega arith)
feedback-xor (suc zero) (suc (suc y)) p q = absurd (omega arith)
feedback-xor (suc (suc x)) y p q = absurd (omega arith)

crc_round-xor : (a b : ℕ) → crc_round (bit_xor a b) ≡ bit_xor (crc_round a) (crc_round b)
crc_round-xor a b =
    crc_round-feedback (bit_xor a b)
    ∙ ap (λ t. bit_xor t (feedback (bit_xor a b % 2))) (xor_half a b)
    ∙ ap (λ t. bit_xor (bit_xor (a / 2) (b / 2)) t) parts
    ∙ xor_swap (a / 2) (b / 2) (feedback (a % 2)) (feedback (b % 2))
    ∙ sym (
        ap (λ t. bit_xor t (crc_round b)) (crc_round-feedback a)
        ∙ ap (λ t. bit_xor (bit_xor (a / 2) (feedback (a % 2))) t) (crc_round-feedback b))
  where
    low : bit_xor a b % 2 ≡ (a % 2 + b % 2) % 2
    low = omega (arith, xor_parity a b)

    parts : feedback (bit_xor a b % 2) ≡ bit_xor (feedback (a % 2)) (feedback (b % 2))
    parts = ap feedback low ∙ feedback-xor (a % 2) (b % 2) (omega arith) (omega arith)

pub crc_rounds-xor :
    (n a b : ℕ) → crc_rounds n (bit_xor a b) ≡ bit_xor (crc_rounds n a) (crc_rounds n b)
unfolding crc_rounds
crc_rounds-xor zero a b = refl
crc_rounds-xor (suc n) a b =
    ap (crc_rounds n) (crc_round-xor a b) ∙ crc_rounds-xor n (crc_round a) (crc_round b)

crc_round_double : (c : ℕ) → crc_round (2 * c) ≡ c
crc_round_double c =
    crc_round-feedback (2 * c)
    ∙ ap (λ t. bit_xor t (feedback (2 * c % 2))) half
    ∙ ap (λ t. bit_xor c (feedback t)) even
    ∙ xor-feedback_zero
  where
    half : 2 * c / 2 ≡ c
    half = omega arith

    even : 2 * c % 2 ≡ 0
    even = omega arith

    xor-feedback_zero : bit_xor c (feedback 0) ≡ c
    xor-feedback_zero = unfold feedback in xor-zero c

crc_rounds-shl : (n c : ℕ) → crc_rounds n (shl n c) ≡ c
unfolding crc_rounds
crc_rounds-shl zero c = refl
crc_rounds-shl (suc n) c = ap (crc_rounds n) (crc_round_double (shl n c)) ∙ crc_rounds-shl n c

-- The rounds for `n` bytes.
unfoldable pub advance : ℕ → ℕ → ℕ
advance zero x = x
advance (suc n) x = crc_rounds 8 (advance n x)

pub advance-rounds : (n x : ℕ) → advance n (crc_rounds 8 x) ≡ crc_rounds 8 (advance n x)
unfolding advance
advance-rounds zero x = refl
advance-rounds (suc n) x = ap (crc_rounds 8) (advance-rounds n x)

pub advance-xor : (n a b : ℕ) → advance n (bit_xor a b) ≡ bit_xor (advance n a) (advance n b)
unfolding advance
advance-xor zero a b = refl
advance-xor (suc n) a b =
    ap (crc_rounds 8) (advance-xor n a b) ∙ crc_rounds-xor 8 (advance n a) (advance n b)

-- Eight rounds undo a shift by a byte.
pub rounds_byte : (c : ℕ) → crc_rounds 8 (256 * c) ≡ c
rounds_byte c = let e : 256 * c ≡ shl 8 c = omega arith in ap (crc_rounds 8) e ∙ crc_rounds-shl 8 c

-- Eight rounds, by the lowest byte and the rest.
pub rounds_split : (x : ℕ) → crc_rounds 8 x ≡ bit_xor (crc_rounds 8 (x % 256)) (x / 256)
rounds_split x =
    ap (crc_rounds 8) (sym (xor_split x))
    ∙ crc_rounds-xor 8 (x % 256) (256 * (x / 256))
    ∙ ap (λ t. bit_xor (crc_rounds 8 (x % 256)) t) (rounds_byte (x / 256))

get_or-first_table : (n b j d : ℕ) → j < n → get_or (first_table n b) j d ≡ crc_rounds 8 (b + j)
unfolding first_table
get_or-first_table zero b j d h = absurd (omega arith)
get_or-first_table (suc n) b zero d h = let e : b ≡ b + 0 = omega arith in ap (crc_rounds 8) e
get_or-first_table (suc n) b (suc j) d h =
    let e : b + 1 + j ≡ b + suc j = omega arith in
    get_or-first_table n (b + 1) j d (omega arith) ∙ ap (crc_rounds 8) e

get_or-first : (j : ℕ) → j < 256 → get_or (first_table 256 0) j 0 ≡ crc_rounds 8 j
get_or-first j h =
    let e : 0 + j ≡ j = omega arith in get_or-first_table 256 0 j 0 h ∙ ap (crc_rounds 8) e

next_entry-rounds : (x : ℕ) → next_entry (first_table 256 0) x ≡ crc_rounds 8 x
unfolding next_entry
next_entry-rounds x =
    ap (λ t. bit_xor (x / 256) t) (get_or-first (x % 256) (omega arith))
    ∙ xor_comm (x / 256) (crc_rounds 8 (x % 256))
    ∙ sym (rounds_split x)

get_or-map :
    (f : ℕ → ℕ) (xs : List ℕ) (j d : ℕ) → j < length xs → get_or (map f xs) j d ≡ f (get_or xs j d)
get_or-map f [] j d h = absurd (omega arith)
get_or-map f (x ∷ xs) zero d h = refl
get_or-map f (x ∷ xs) (suc j) d h = get_or-map f xs j d (omega arith)

length-map : (f : ℕ → ℕ) (xs : List ℕ) → length (map f xs) ≡ length xs
length-map f [] = refl
length-map f (x ∷ xs) = ap suc (length-map f xs)

length-first_table : (n b : ℕ) → length (first_table n b) ≡ n
unfolding first_table
length-first_table zero b = refl
length-first_table (suc n) b = ap suc (length-first_table n (b + 1))

pub length-crc_table : (i : ℕ) → length (crc_table i) ≡ 256
unfolding crc_table
length-crc_table zero = length-first_table 256 0
length-crc_table (suc i) =
    length-map (next_entry (first_table 256 0)) (crc_table i) ∙ length-crc_table i

-- Table `i` holds, for each byte, the rounds for `i + 1` bytes.
pub entry-advance : (i j : ℕ) → j < 256 → entry i j ≡ advance (suc i) j
unfolding entry advance
entry-advance zero j h = get_or-first j h
entry-advance (suc i) j h =
    get_or-map (next_entry (first_table 256 0)) (crc_table i) j 0
      (omega (arith, length-crc_table i))
    ∙ next_entry-rounds (get_or (crc_table i) j 0)
    ∙ ap (crc_rounds 8) (entry-advance i j h)

feedback-lt : (x : ℕ) → feedback x < 2 ^ 64
unfolding feedback
feedback-lt zero = omega arith
feedback-lt (suc x) = omega arith

-- A register of 64 bits stays one.
pub crc_rounds-lt : (n a : ℕ) → a < 2 ^ 64 → crc_rounds n a < 2 ^ 64
unfolding crc_rounds
crc_rounds-lt zero a h = h
crc_rounds-lt (suc n) a h = crc_rounds-lt n (crc_round a) (
    omega (
      arith,
      crc_round-feedback a,
      xor-lt_shl 64 (a / 2) (feedback (a % 2)) (omega arith) (omega (arith, feedback-lt (a % 2))),
    ))
