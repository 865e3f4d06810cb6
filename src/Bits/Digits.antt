-- ===== src/Bits/Digits.antt =====
-- The recursion over binary digits that the native bit operations stand for.
use Prim.Native.Nat.{digits}
use fuse_example.Base.{ℕ, zero, suc, ◌*◌, ◌+◌, ◌/◌, ◌%◌, ◌≤◌, ◌≡◌, refl, sym, ap, ◌∙◌, arith}

module _ (rest : ℕ → ℕ) (op : ℕ → ℕ → ℕ) where
  -- More steps than the first operand has digits change nothing.
  digits_enough :
      (a b steps more : ℕ)
      → a ≤ steps
      → steps ≤ more
      → digits rest op steps a b ≡ digits rest op more a b
  digits_enough zero b zero zero h k = refl
  digits_enough zero b zero (suc more) h k = refl
  digits_enough zero b (suc steps) (suc more) h k = refl
  digits_enough (suc a) b (suc steps) (suc more) h k =
      ap (λ t. t * 2 + op (suc a % 2) (b % 2))
        (digits_enough (suc a / 2) (b / 2) steps more (omega arith) (omega arith))
  digits_enough (suc a) b zero more h k = absurd (omega arith)
  digits_enough a b (suc steps) zero h k = absurd (omega arith)

  -- One step takes the lowest digits; the halves take as many as they have.
  digits-half :
      (a b : ℕ)
      → digits rest op (suc a) (suc a) b
        ≡ digits rest op (suc a / 2) (suc a / 2) (b / 2) * 2 + op (suc a % 2) (b % 2)
  digits-half a b =
      ap (λ t. t * 2 + op (suc a % 2) (b % 2))
        (sym (digits_enough (suc a / 2) (b / 2) (suc a / 2) a (omega arith) (omega arith)))

  -- The native operation that agrees with the recursion takes one digit at a time.
  pub step_of_digits :
      (f : ℕ → ℕ → ℕ)
      → ((a b : ℕ) → f a b ≡ digits rest op a a b)
      → (a b : ℕ) → f (suc a) b ≡ f (suc a / 2) (b / 2) * 2 + op (suc a % 2) (b % 2)
  step_of_digits f e a b =
      e (suc a) b
      ∙ digits-half a b
      ∙ ap (λ t. t * 2 + op (suc a % 2) (b % 2)) (sym (e (suc a / 2) (b / 2)))
