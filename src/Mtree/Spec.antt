-- ===== src/Mtree/Spec.antt =====
-- What lib/mtree.c promises: a list of entries in strictly increasing order of their keys.
use Prim.Native.Nat.Ordering.{lt, eq, gt}
use fuse_example.Base.{◌≡◌, List, [], ◌∷◌, ◌++◌}
use fuse_example.Lsm.Key.{Bytes, Entry, KeyOrder}

abbrev pub All {ℓ κ} : {A : Type ℓ} → (A → Type κ) → List A → Type κ
All P [] = Unit
All P (x ∷ xs) = P x × All P xs

pub All-append {ℓ κ} :
    {A : Type ℓ} (P : A → Type κ) (xs ys : List A) → All P (xs ++ ys) → All P xs × All P ys
All-append P [] ys h = (tt, h)
All-append P (x ∷ xs) ys h = let (a, b) = All-append P xs ys h.1 in ((h.0, a), b)

pub append-All {ℓ κ} :
    {A : Type ℓ} (P : A → Type κ) (xs ys : List A) → All P xs → All P ys → All P (xs ++ ys)
append-All P [] ys h k = k
append-All P (x ∷ xs) ys h k = (h.0, append-All P xs ys h.1 k)

pub All-imp {ℓ κ ν} :
    {A : Type ℓ} (P : A → Type κ) (Q : A → Type ν) (xs : List A)
    → ((x : A) → P x → Q x)
    → All P xs
    → All Q xs
All-imp P Q [] f h = tt
All-imp P Q (x ∷ xs) f h = (f x h.0, All-imp P Q xs f h.1)

module _ ⦃o : KeyOrder⦄ where
  open o use {cmp}

  infix 50 ◌≺◌
  abbrev pub ◌≺◌ : Bytes → Bytes → Type 0
  a ≺ b = cmp a b ≡ lt

  abbrev pub IsSorted : List Entry → Type 0
  IsSorted [] = Unit
  IsSorted (e ∷ es) = All (λ f. e.key ≺ f.key) es × IsSorted es

  -- The map with one more entry, in the place of one with an equal key.
  unfoldable pub put : Entry → List Entry → List Entry
  put new [] = new ∷ []
  put new (e ∷ es) = elim (cmp e.key new.key) [
    | lt ↦ e ∷ put new es
    | eq ↦ new ∷ es
    | gt ↦ new ∷ e ∷ es
  ]

  -- The entries below a key, and those from it on.
  unfoldable pub take_below : Bytes → List Entry → List Entry
  take_below key [] = []
  take_below key (e ∷ es) = elim (cmp e.key key) [ lt ↦ e ∷ take_below key es | _ ↦ [] ]

  unfoldable pub drop_below : Bytes → List Entry → List Entry
  drop_below key [] = []
  drop_below key (e ∷ es) = elim (cmp e.key key) [ lt ↦ drop_below key es | _ ↦ e ∷ es ]

  -- The entries up to a key, and those above it.
  unfoldable pub take_upto : Bytes → List Entry → List Entry
  take_upto key [] = []
  take_upto key (e ∷ es) = elim (cmp e.key key) [ gt ↦ [] | _ ↦ e ∷ take_upto key es ]

  unfoldable pub drop_upto : Bytes → List Entry → List Entry
  drop_upto key [] = []
  drop_upto key (e ∷ es) = elim (cmp e.key key) [ gt ↦ e ∷ es | _ ↦ drop_upto key es ]
