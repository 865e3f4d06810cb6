-- ===== src/Ctree/Builder/Ranges.antt =====
-- The ranges of pages that the builder of lib/ctree.c reserves.
use fuse_example.Base.{
  ℕ, ◌+◌, ◌-◌, ◌*◌, Bool, length, if◌then◌else◌, ◌≤◌, ◌<◌, ◌≡◌, refl, ◌↔◌, ◌⊎◌, inl, inr, arith,
  List, [], ◌∷◌, Bool-cases, ◌==◌, ==_iff, ltb, ltb→lt, ltb→ge,
}
use fuse_example.Errors.{Result-cases, ok, err, done, fail, fault, out_of_fuel}
use fuse_example.Alloc.{Alloc, alloc_reserve}
use fuse_example.Io.{Io}
use fuse_example.Ctree.Builder.{Range, CtreeBuilder, Site, Step, add_range, range_size}
use fuse_example.Ctree.Builder.Space.{grow_ranges, reserve_range, ctree_builder_alloc}

-- The pages in a list of ranges.
abbrev pub total : List Range → ℕ
total [] = 0
total (r ∷ ranges) = r.end - r.begin + total ranges

abbrev pub IsOrdered : List Range → Type 0
IsOrdered [] = Unit {0}
IsOrdered (r ∷ ranges) = (r.begin ≤ r.end) × IsOrdered ranges

abbrev pub IsWithin : ℕ → (begin end : ℕ) → Type 0
IsWithin p begin end = (begin ≤ p) × (p < end)

-- A page in one of the ranges.
abbrev pub Covers : List Range → ℕ → Type 0
Covers [] p = ⊥
Covers (r ∷ ranges) p = IsWithin p r.begin r.end ⊎ Covers ranges p

add_range-IsOrdered :
    (ranges : List Range) (size offs : ℕ)
    → IsOrdered ranges
    → IsOrdered (add_range ranges size offs)
add_range-IsOrdered [] size offs h = (omega arith, tt)
add_range-IsOrdered (r ∷ ranges) size offs h = elim (Bool-cases (r.end == offs)) [
  | inl e ↦ rw e (omega (arith, h.0, (==_iff r.end offs).0 e), h.1)
  | inr e ↦ rw e (omega arith, h)
]

total-add_range :
    (ranges : List Range) (size offs : ℕ)
    → IsOrdered ranges
    → total (add_range ranges size offs) ≡ total ranges + size
total-add_range [] size offs h = omega arith
total-add_range (r ∷ ranges) size offs h = ground arith

Covers-add_range :
    (ranges : List Range) (size offs p : ℕ)
    → IsOrdered ranges
    → Covers (add_range ranges size offs) p ↔ (Covers ranges p ⊎ IsWithin p offs (offs + size))
Covers-add_range [] size offs p h = ground arith
Covers-add_range (r ∷ ranges) size offs p h = elim (Bool-cases (r.end == offs)) [
  | inr e ↦ rw e (ground arith)
  | inl e ↦ rw e (joined (Covers ranges p) r.begin r.end (h.0) ((==_iff r.end offs).0 e))
]
  where
    joined :
        (C : Type 0) (begin end : ℕ)
        → begin ≤ end
        → end ≡ offs
        → (IsWithin p begin (offs + size) ⊎ C)
          ↔ ((IsWithin p begin end ⊎ C) ⊎ IsWithin p offs (offs + size))
    joined C begin end h e = (split, ground arith)
      where
        split :
            IsWithin p begin (offs + size) ⊎ C
            → (IsWithin p begin end ⊎ C) ⊎ IsWithin p offs (offs + size)
        split (inr c) = inl (inr c)
        split (inl w) = elim (Bool-cases (ltb p offs)) [
          | inl k ↦ inl (inl (w.0, omega (arith, ltb→lt _ _ k)))
          | inr k ↦ inr (ltb→ge _ _ k, w.1)
        ]

-- The builder counts the pages of its ranges.
abbrev pub IsTracked : CtreeBuilder → Type 0
IsTracked b = IsOrdered b.reserved × (b.pages ≡ total b.reserved)

-- What `ctree_builder_alloc` comes to: the pages it returns are covered on top of what was, or it
-- failed and covers what it did.
abbrev pub Reserved :
    {io : Io} {alloc : Alloc} → Site io alloc → (size : ℕ) → Step io alloc ℕ → Type 0
Reserved s size (done (t, ok offs)) =
    IsTracked t.builder
    × (t.builder.node ≡ s.builder.node)
    × ((p : ℕ)
        → Covers t.builder.reserved p
          ↔ (Covers s.builder.reserved p ⊎ IsWithin p offs (offs + size)))
Reserved s size (done (t, err e)) = IsTracked t.builder × (t.builder.reserved ≡ s.builder.reserved)
Reserved s size (fail e) = ⊥
Reserved s size fault = ⊥
Reserved s size out_of_fuel = ⊥

module _ (malloc : ℕ → Bool) (io : Io) (alloc : Alloc) where
  reserve_range-Reserved :
      (s : Site io alloc) (size : ℕ)
      → IsTracked s.builder
      → Reserved s size (reserve_range malloc io alloc s size)
  unfolding reserve_range
  reserve_range-Reserved s size h = elim (Result-cases (alloc_reserve alloc s.space size)) [
    | inl (e, full) ↦ rw (reserve_range, full) (h, refl)
    | inr (found, given) ↦
        rw (reserve_range, given)
          (
            (
              add_range-IsOrdered s.builder.reserved size found.1 h.0,
              omega (arith, h.1, total-add_range s.builder.reserved size found.1 h.0),
            ),
            refl,
            λ p. Covers-add_range s.builder.reserved size found.1 p h.0,
          )
  ]

  -- On a builder that counts the pages of its reserved ranges, `ctree_builder_alloc` counts them
  -- still; on success its ranges cover the pages from the returned offset on and the pages that
  -- they covered before, and no others, and on an error the ranges are as they were.
  pub ctree_builder_alloc-Reserved :
      (s : Site io alloc) (size : ℕ)
      → IsTracked s.builder
      → Reserved s size (ctree_builder_alloc malloc io alloc s size)
  unfolding ctree_builder_alloc grow_ranges
  ctree_builder_alloc-Reserved s size h =
      elim (Bool-cases (length s.builder.reserved == s.builder.max_ranges)) [
        | inr e ↦ rw e (reserve_range-Reserved s size h)
        | inl e ↦ elim (Bool-cases (malloc (next * range_size))) [
          | inr full ↦ rw (e, full) (h, refl)
          | inl more ↦ rw (e, more) (reserve_range-Reserved _ size h)
        ]
      ]
    where
      next : ℕ
      next = if length s.builder.reserved == 0 then 16 else length s.builder.reserved * 2
