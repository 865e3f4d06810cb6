-- ===== src/Lsm/Iter/Merge.antt =====
-- `lsm_next` of lib/lsm.c, against the lists of the trees laid over each other.
use mathlib.Core.Path.{subst}
use fuse_example.Base.{
  ℕ, suc, ◌+◌, ◌<◌, ◌≡◌, refl, sym, ap, ◌∙◌, arith, Bool, true, false, Option, none, some, List, [],
  ◌∷◌, ◌⊎◌, inl, inr, length, if◌then◌else◌, Bool-cases, ltb, ◌==◌,
}
use fuse_example.Errors.{Result, ok, Run, done, ◌>>=◌}
use fuse_example.Io.{Io}
use fuse_example.Lsm.Key.{Bytes, Entry, KeyOrder}
use fuse_example.Lsm.Over.{head, least, least_assoc, least_of, drop_all}
use fuse_example.Mtree.Spec.{All, drop_upto}
use fuse_example.Ctree.Iter.{Moved}
use fuse_example.Lsm.Iter.{
  TreeSlot, LsmIter, takes_part, any_item, smaller, smallest, keep_item, is_failure, pass,
  lsm_set_the_smallest,
}
use fuse_example.Lsm.Iter.Cursors.{Shows, Leaves, pass-Leaves}
use fuse_example.Lsm.Iter.Each.{Sees, LeavesIf, EachLeaves, Views}

-- A key and a value that are not both empty.
abbrev pub HasBytes : Entry → Type 0
HasBytes e = 0 < length e.key + length e.val

module _ (malloc : ℕ → Bool) (io : Io) (d : io.Disk) ⦃o : KeyOrder⦄ where
  open o use {cmp}

  least_one : (a b : Option Entry) (e : Entry) → least a b ≡ some e → (a ≡ some e) ⊎ (b ≡ some e)
  least_one none b e h = inr h
  least_one (some a) none e h = inl h
  least_one (some a) (some b) e h = ground arith

  head-HasBytes : (xs : List Entry) (e : Entry) → head xs ≡ some e → All HasBytes xs → HasBytes e
  head-HasBytes [] e h filled = cc h
  head-HasBytes (x ∷ xs) e h filled = let same : x ≡ e = cc h in subst HasBytes same filled.0

  least_of-HasBytes :
      (xss : List (List Entry)) (e : Entry)
      → least_of xss ≡ some e
      → All (All HasBytes) xss
      → HasBytes e
  least_of-HasBytes [] e h filled = cc h
  least_of-HasBytes (xs ∷ xss) e h filled = elim (least_one (head xs) (least_of xss) e h) [
    | inl first ↦ head-HasBytes xs e first filled.0
    | inr rest ↦ least_of-HasBytes xss e rest filled.1
  ]

  smaller-least : (a b : Option Entry) → smaller malloc io d a b ≡ least a b
  smaller-least none none = refl
  smaller-least none (some b) = refl
  smaller-least (some a) none = refl
  smaller-least (some a) (some b) = refl

  least-none : (a : Option Entry) → a ≡ least a none
  least-none none = refl
  least-none (some a) = refl

  smallest_part :
      (p : Bool) (best : Option Entry) (from to i : ℕ) (s : TreeSlot) (ss : List TreeSlot)
      (xs : List Entry) (xss : List (List Entry))
      → Sees (Shows malloc io d) p s xs
      → ((b : Option Entry) → smallest malloc io d b from to i ss ≡ done (least b (least_of xss)))
      → smallest malloc io d (if p then smaller malloc io d best s.item else best) from to i ss
        ≡ done (least best (least_of (xs ∷ xss)))
  smallest_part true best from to i s ss xs xss sees rest =
      rest (smaller malloc io d best s.item)
      ∙ ap (λ b. done (least b (least_of xss)))
          (smaller-least best s.item ∙ ap (least best) sees.item)
      ∙ ap done (least_assoc best (head xs) (least_of xss))
  smallest_part false best from to i s ss xs xss sees rest =
      rest best ∙ ap (λ ys. done (least best (least (head ys) (least_of xss)))) (sym sees)

  smallest-least :
      (best : Option Entry) (from to i : ℕ) (ss : List TreeSlot) (xss : List (List Entry))
      → Views (Shows malloc io d) from to i ss xss
      → smallest malloc io d best from to i ss ≡ done (least best (least_of xss))
  smallest-least best from to i [] [] h = rw h (ap done (least-none best))
  smallest-least best from to i [] (xs ∷ xss) h = elim h [ ]
  smallest-least best from to i (s ∷ ss) [] h = elim h [ ]
  smallest-least best from to i (s ∷ ss) (xs ∷ xss) h =
      smallest_part (takes_part from to i) best from to (suc i) s ss xs xss h.0
        λ b. smallest-least b from to (suc i) ss xss h.1

  abbrev pub has : Option Entry → Bool
  has none = false
  has (some e) = true

  any_part :
      (p : Bool) (s : TreeSlot) (xs : List Entry) (xss : List (List Entry)) (rest : Run Bool)
      → Sees (Shows malloc io d) p s xs
      → rest ≡ done (has (least_of xss))
      → (if p then elim s.item [ none ↦ rest | some e ↦ done true ] else rest)
        ≡ done (has (least (head xs) (least_of xss)))
  any_part true s [] xss rest sees h = rw sees.item h
  any_part true s (x ∷ xs) xss rest sees h = rw sees.item (ap done (has_least x (least_of xss)))
    where
      has_least : (x : Entry) (o : Option Entry) → true ≡ has (least (some x) o)
      has_least x none = refl
      has_least x (some y) = ground arith
  any_part false s xs xss rest sees h = rw sees h

  pub any_item-has :
      (from to i : ℕ) (ss : List TreeSlot) (xss : List (List Entry))
      → Views (Shows malloc io d) from to i ss xss
      → any_item from to i ss ≡ done (has (least_of xss))
  any_item-has from to i [] [] h = rw h refl
  any_item-has from to i [] (xs ∷ xss) h = elim h [ ]
  any_item-has from to i (s ∷ ss) [] h = elim h [ ]
  any_item-has from to i (s ∷ ss) (xs ∷ xss) h =
      any_part (takes_part from to i) s xs xss (any_item from to (suc i) ss) h.0
        (any_item-has from to (suc i) ss xss h.1)

  -- The loops of `lsm_next` on all trees.
  pass_part :
      (p : Bool) (steps : ℕ) (key : Bytes) (s : TreeSlot) (xs : List Entry)
      → Sees (Shows malloc io d) p s xs
      → length xs < steps
      → LeavesIf (Shows malloc io d) p (drop_upto key xs) (pass malloc io d steps key s)
  unfolding drop_upto
  pass_part true steps key s xs sees more =
      subst (λ t. Leaves malloc io d (drop_upto key xs) (pass malloc io d steps key t))
        (λ i. record { cursor = s.cursor; item = sym sees.item i })
        (pass-Leaves malloc io d steps key s.cursor xs sees.stands more)
  pass_part false steps key s xs sees more = ap (drop_upto key) sees

  pub pass-EachLeaves :
      (steps : ℕ) (key : Bytes) (from to i : ℕ) (ss : List TreeSlot) (xss : List (List Entry))
      → Views (Shows malloc io d) from to i ss xss
      → All (λ xs. length xs < steps) xss
      → EachLeaves (Shows malloc io d) (pass malloc io d steps key) from to i ss (drop_all key xss)
  pass-EachLeaves steps key from to i [] [] h more = h
  pass-EachLeaves steps key from to i [] (xs ∷ xss) h more = elim h [ ]
  pass-EachLeaves steps key from to i (s ∷ ss) [] h more = elim h [ ]
  pass-EachLeaves steps key from to i (s ∷ ss) (xs ∷ xss) h more = (
    pass_part (takes_part from to i) steps key s xs h.0 more.0,
    pass-EachLeaves steps key from to (suc i) ss xss h.1 more.1,
  )

  -- The iterator with the trees' lists, and the smallest entry kept.
  pub record Merges (it : LsmIter) (xss : List (List Entry)) : Type 0 where
    pub views : Views (Shows malloc io d) it.from it.to 0 it.trees xss
    pub item : it.item ≡ least_of xss
    pub filled : All (All HasBytes) xss

  -- A later step of a merge: the code may be -ENOENT.
  pub record MergesOn (xss : List (List Entry)) (m : Moved LsmIter) : Type 0 where
    pub next : LsmIter
    pub rc : Result (Unit {0})
    pub returned : m ≡ done (next, rc)
    pub fine : is_failure rc ≡ false
    pub merges : Merges next xss

  -- The first step of a merge.
  abbrev pub Merged : List (List Entry) → Moved LsmIter → Type 0
  Merged xss m = (next : LsmIter) × (m ≡ done (next, ok tt)) × Merges next xss

  keep-Merged :
      (it : LsmIter) (best : Option Entry) (xss : List (List Entry))
      → ((size : ℕ) → malloc size ≡ true)
      → Views (Shows malloc io d) it.from it.to 0 it.trees xss
      → best ≡ least_of xss
      → All (All HasBytes) xss
      → Merged xss (done (keep_item malloc it best))
  unfolding keep_item
  keep-Merged it none xss enough views e filled =
      (record it { item = none }, refl, record { views = views; item = e; filled = filled })
  keep-Merged it (some b) xss enough views e filled =
      let size = length b.key + length b.val in
      elim (Bool-cases (ltb it.buf_size size)) [
        | inl grow ↦
            rw (keep_item, grow, enough size)
              (
                record it { item = some b; buf_size = size },
                refl,
                record { views = views; item = e; filled = filled },
              )
        | inr fits ↦
            let buffered : (it.buf_size == 0) ≡ false =
              ground (arith, fits, least_of-HasBytes xss b (sym e) filled) in
            rw (keep_item, fits, buffered)
              (
                record it { item = some b },
                refl,
                record { views = views; item = e; filled = filled },
              )
      ]

  pub set_the_smallest-Merged :
      (it : LsmIter) (xss : List (List Entry))
      → ((size : ℕ) → malloc size ≡ true)
      → Views (Shows malloc io d) it.from it.to 0 it.trees xss
      → All (All HasBytes) xss
      → Merged xss (lsm_set_the_smallest malloc io d it)
  unfolding lsm_set_the_smallest
  set_the_smallest-Merged it xss enough views filled =
      rw (smallest-least none it.from it.to 0 it.trees xss views, ◌>>=◌)
        (keep-Merged it (least none (least_of xss)) xss enough views refl filled)
