-- ===== src/Ctree/Builder/Kept.antt =====
-- The builder of lib/ctree.c with its nodes within their buffers, and the steps that keep it so.
use mathlib.Core.Path.{subst}
use fuse_example.Base.{
  ℕ, zero, suc, ◌+◌, ◌≤◌, ◌<◌, ◌≡◌, refl, sym, ap, ◌∙◌, arith, Bool, true, List, [], ◌∷◌, ◌++◌,
  some, length, length-append, Bool-cases, ◌⊎◌, inl, inr, ◌*◌, if◌then◌else◌, ◌==◌,
}
use fuse_example.Errors.{Result-cases, enomem, ok, err, Run, done, fail, fault, out_of_fuel}
use fuse_example.Alloc.{Alloc, alloc_reserve}
use fuse_example.Io.{Io}
use fuse_example.Ctree.Node.{CtreeNode, ctree_node_setup, ctree_node_reset, ctree_node_can_append}
use fuse_example.Mtree.Spec.{All}
use fuse_example.Ctree.Builder.Nodes.{IsSound, Gives}
use fuse_example.Ctree.Builder.Space.{grow_ranges, reserve_range, ctree_builder_alloc}
use fuse_example.Ctree.Builder.{
  CtreeBuilder, range_size, Site, Step, on_ok, on_run, on_node, node_at, set_node,
}
use fuse_example.Ctree.Builder.Ranges.{IsTracked, Reserved}

-- A builder that counts the pages of its reserved ranges, with its nodes in their buffers.
abbrev pub IsKept : (page_size : ℕ) → CtreeBuilder → Type 0
IsKept page_size b = IsTracked b × All (IsSound page_size) b.node

-- A step that ends with a result or an error code, on a builder kept so, with `least` levels or more.
abbrev pub Settles : {io : Io} {alloc : Alloc} {A : Type 0} → (least : ℕ) → Step io alloc A → Type 0
Settles {io = io} least (done (s, r)) =
    IsKept io.page_size s.builder × (least ≤ length s.builder.node)
Settles least (fail e) = ⊥
Settles least fault = ⊥
Settles least out_of_fuel = ⊥

pub length-set_node :
    (ns : List CtreeNode) (i : ℕ) (m : CtreeNode) → length (set_node ns i m) ≡ length ns
length-set_node [] i m = refl
length-set_node (n ∷ ns) zero m = refl
length-set_node (n ∷ ns) (suc i) m = ap suc (length-set_node ns i m)

pub node_at-append :
    (ns : List CtreeNode) (n : CtreeNode) → node_at (ns ++ n ∷ []) (length ns) ≡ some n
node_at-append [] n = refl
node_at-append (m ∷ ns) n = node_at-append ns n

pub List-cases : {A : Type 0} (xs : List A) → (xs ≡ []) ⊎ ((x : A) × (ys : List A) × (xs ≡ x ∷ ys))
List-cases [] = inl refl
List-cases (x ∷ xs) = inr (x, xs, refl)

-- A node without entries, or no memory for one.
abbrev IsFresh : Run CtreeNode → Type 0
IsFresh (done n) = n.entry ≡ []
IsFresh (fail e) = e ≡ enomem
IsFresh fault = ⊥
IsFresh out_of_fuel = ⊥

fresh-cases :
    (r : Run CtreeNode)
    → IsFresh r
    → (r ≡ fail enomem) ⊎ ((n : CtreeNode) × (r ≡ done n) × (n.entry ≡ []))
fresh-cases (done n) h = inr (n, refl, h)
fresh-cases (fail e) h = inl (ap fail h)
fresh-cases fault h = elim h [ ]
fresh-cases out_of_fuel h = elim h [ ]

-- A node without entries takes any entry.
pub ctree_node_can_append-fresh :
    (page_size size : ℕ) (n : CtreeNode)
    → n.entry ≡ []
    → ctree_node_can_append page_size n 1 size ≡ true
unfolding ctree_node_can_append
ctree_node_can_append-fresh page_size size n e = rw e refl

set_node-All :
    (P : CtreeNode → Type 0) (ns : List CtreeNode) (i : ℕ) (m : CtreeNode)
    → All P ns
    → P m
    → All P (set_node ns i m)
set_node-All P [] i m h p = tt
set_node-All P (n ∷ ns) zero m h p = (p, h.1)
set_node-All P (n ∷ ns) (suc i) m h p = (h.0, set_node-All P ns i m h.1 p)

pub not-lt0 : (i : ℕ) → i < 0 → ⊥
not-lt0 i k = omega (arith, k)

node_at-All :
    (P : CtreeNode → Type 0) (ns : List CtreeNode) (i : ℕ)
    → All P ns
    → i < length ns
    → (n : CtreeNode) × (node_at ns i ≡ some n) × P n
node_at-All P [] i h k = elim (not-lt0 i k) [ ]
node_at-All P (n ∷ ns) zero h k = (n, refl, h.0)
node_at-All P (n ∷ ns) (suc i) h k = node_at-All P ns i h.1 (omega (arith, k))

-- A reservation leaves the nodes alone, also where it fails.
abbrev SameNodes : {io : Io} {alloc : Alloc} {A : Type 0} → Site io alloc → Step io alloc A → Type 0
SameNodes s (done (t, r)) = t.builder.node ≡ s.builder.node
SameNodes s (fail e) = Unit {0}
SameNodes s fault = Unit {0}
SameNodes s out_of_fuel = Unit {0}

pub put_node-IsKept :
    (page_size : ℕ) (b : CtreeBuilder) (level : ℕ) (n : CtreeNode)
    → IsKept page_size b
    → IsSound page_size n
    → IsKept page_size (record b { node = set_node b.node level n })
put_node-IsKept page_size b level n h sound =
    (h.0, set_node-All (IsSound page_size) b.node level n h.1 sound)

module _ (malloc : ℕ → Bool) (io : Io) (alloc : Alloc) where
  pub setup-cases :
      (ctree_node_setup malloc io.page_size ≡ fail enomem)
      ⊎ ((n : CtreeNode) × (ctree_node_setup malloc io.page_size ≡ done n) × (n.entry ≡ []))
  unfolding ctree_node_setup ctree_node_reset
  setup-cases = fresh-cases (ctree_node_setup malloc io.page_size) (ground arith)

  reserve_range-SameNodes :
      (s : Site io alloc) (size : ℕ) → SameNodes s (reserve_range malloc io alloc s size)
  unfolding reserve_range
  reserve_range-SameNodes s size = elim (Result-cases (alloc_reserve alloc s.space size)) [
    | inl (e, full) ↦ rw (reserve_range, full) refl
    | inr (found, given) ↦ rw (reserve_range, given) refl
  ]

  pub ctree_builder_alloc-SameNodes :
      (s : Site io alloc) (size : ℕ) → SameNodes s (ctree_builder_alloc malloc io alloc s size)
  unfolding ctree_builder_alloc grow_ranges
  ctree_builder_alloc-SameNodes s size =
      elim (Bool-cases (length s.builder.reserved == s.builder.max_ranges)) [
        | inr e ↦ rw e (reserve_range-SameNodes s size)
        | inl e ↦ elim (Bool-cases (malloc (next * range_size))) [
          | inr full ↦ rw (e, full) refl
          | inl more ↦ rw (e, more) (reserve_range-SameNodes _ size)
        ]
      ]
    where
      next : ℕ
      next = if length s.builder.reserved == 0 then 16 else length s.builder.reserved * 2

module _ {io : Io} {alloc : Alloc} where
  pub on_node-Settles :
      {A : Type 0} (least : ℕ) (ns : List CtreeNode) (level : ℕ) (f : CtreeNode → Step io alloc A)
      → All (IsSound io.page_size) ns
      → level < length ns
      → ((n : CtreeNode) → IsSound io.page_size n → Settles least (f n))
      → Settles least (on_node (node_at ns level) f)
  on_node-Settles least ns level f h k g =
      let (n, found, sound) = node_at-All (IsSound io.page_size) ns level h k in
      rw found (g n sound)

  pub on_run-Settles :
      {A B : Type 0} (least : ℕ) (P : A → Type 0) (s : Site io alloc) (r : Run A)
      (f : A → Step io alloc B)
      → IsKept io.page_size s.builder
      → least ≤ length s.builder.node
      → Gives P r
      → ((a : A) → P a → Settles least (f a))
      → Settles least (on_run s r f)
  on_run-Settles least P s (done a) f h k p g = g a p
  on_run-Settles least P s (fail e) f h k p g = (h, k)
  on_run-Settles least P s fault f h k p g = elim p [ ]
  on_run-Settles least P s out_of_fuel f h k p g = elim p [ ]

  pub on_ok-Settles :
      {A B : Type 0} (least : ℕ) (m : Step io alloc A) (f : Site io alloc → A → Step io alloc B)
      → Settles least m
      → ((s : Site io alloc) (a : A)
          → IsKept io.page_size s.builder
          → least ≤ length s.builder.node
          → Settles least (f s a))
      → Settles least (on_ok m f)
  on_ok-Settles least (done (s, ok a)) f t h = h s a t.0 t.1
  on_ok-Settles least (done (s, err e)) f t h = t
  on_ok-Settles least (fail e) f t h = elim t [ ]
  on_ok-Settles least fault f t h = elim t [ ]
  on_ok-Settles least out_of_fuel f t h = elim t [ ]

  pub Reserved-Settles :
      {B : Type 0} (s : Site io alloc) (size : ℕ) (m : Step io alloc ℕ)
      (f : Site io alloc → ℕ → Step io alloc B)
      → All (IsSound io.page_size) s.builder.node
      → Reserved s size m
      → SameNodes s m
      → ((t : Site io alloc) (offs : ℕ)
          → IsKept io.page_size t.builder
          → t.builder.node ≡ s.builder.node
          → Settles (length s.builder.node) (f t offs))
      → Settles (length s.builder.node) (on_ok m f)
  Reserved-Settles s size (done (t, ok offs)) f sound r same g =
      g t offs (r.0, subst (All (IsSound io.page_size)) (sym same) sound) same
  Reserved-Settles s size (done (t, err e)) f sound r same g =
      ((r.0, subst (All (IsSound io.page_size)) (sym same) sound), omega (arith, ap length same))
  Reserved-Settles s size (fail e) f sound r same g = elim r [ ]
  Reserved-Settles s size fault f sound r same g = elim r [ ]
  Reserved-Settles s size out_of_fuel f sound r same g = elim r [ ]

  pub fewer :
      {A : Type 0} (least more : ℕ) (m : Step io alloc A)
      → least ≤ more
      → Settles more m
      → Settles least m
  fewer least more (done (s, r)) le h = (h.0, omega (arith, le, h.1))
  fewer least more (fail e) le h = h
  fewer least more fault le h = h
  fewer least more out_of_fuel le h = h

  pub longer :
      (s : Site io alloc) (n : CtreeNode) (t : Site io alloc)
      → t.builder.node ≡ s.builder.node ++ n ∷ []
      → length t.builder.node ≡ length s.builder.node + 1
  longer s n t e = ap length e ∙ length-append s.builder.node (n ∷ [])
