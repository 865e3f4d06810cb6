-- ===== src/Lsm/Iter/Visit.antt =====
-- A walk with `lsm_next` of lib/lsm.c through all entries, against the lists of the trees laid over
-- each other.
use fuse_example.Base.{
  ℕ, zero, suc, ◌≤◌, ◌<◌, ◌≡◌, refl, sym, ap, ◌∙◌, arith, Bool, true, false, none, some, List, [],
  ◌∷◌, inl, inr, length, if◌then◌else◌, Option-cases,
}
use fuse_example.Errors.{Result, ok, err, enoent, Run, done, fail, out_of_fuel, ◌>>=◌}
use fuse_example.Io.{Io}
use fuse_example.Lsm.Key.{Bytes, Entry, KeyOrder}
use fuse_example.Lsm.Over.{
  least_of, overlay, overlay_step, overlay_over, drop_all, drop_all-IsSorted,
}
use fuse_example.Mtree.Spec.{All, IsSorted, drop_upto}
use fuse_example.Ctree.Iter.{Moved}
use fuse_example.Lsm.Iter.{
  LsmIter, any_item, is_failure, pass, lsm_set_the_smallest, lsm_next, ◌then◌,
}
use fuse_example.Lsm.Iter.Cursors.{Shows}
use fuse_example.Lsm.Iter.Each.{Views, each_tree-EachViews}
use fuse_example.Lsm.Iter.Merge.{
  HasBytes, Merges, MergesOn, any_item-has, pass-EachLeaves, set_the_smallest-Merged,
}

-- `while (lsm_has_item(iter)) { use(iter->key, iter->val); lsm_next(iter); }`, for so many turns at
-- most, as `lsm_build_default` does.
abbrev pub unless_failure {ℓ} : {A : Type ℓ} → Result (Unit {0}) → Run A → Run A
unless_failure (ok u) m = m
unless_failure (err enoent) m = m
unless_failure (err e) m = fail e

unless_failure-fine :
    {A : Type 0}
    → (rc : Result (Unit {0})) (m : Run A) → is_failure rc ≡ false
    → unless_failure rc m ≡ m
unless_failure-fine (ok u) m h = refl
unless_failure-fine (err e) m h = ground arith

module _ (malloc : ℕ → Bool) (io : Io) (d : io.Disk) ⦃o : KeyOrder⦄ where
  unfoldable pub lsm_visit : (turns steps : ℕ) → LsmIter → Run (List Entry)
  lsm_visit zero steps it = out_of_fuel
  lsm_visit (suc turns) steps it = elim it.item [
    | none ↦ done []
    | some e ↦ do
      (it, rc) ← lsm_next malloc io d steps it
      unless_failure rc (lsm_visit turns steps it >>= λ rest. done (e ∷ rest))
  ]

  drop_upto-HasBytes :
      (key : Bytes) (xs : List Entry) → All HasBytes xs → All HasBytes (drop_upto key xs)
  unfolding drop_upto
  drop_upto-HasBytes key [] h = tt
  drop_upto-HasBytes key (x ∷ xs) h = ground (arith, drop_upto-HasBytes key xs h.1)

  drop_all-HasBytes :
      (key : Bytes) (xss : List (List Entry))
      → All (All HasBytes) xss
      → All (All HasBytes) (drop_all key xss)
  drop_all-HasBytes key [] h = tt
  drop_all-HasBytes key (xs ∷ xss) h =
      (drop_upto-HasBytes key xs h.0, drop_all-HasBytes key xss h.1)

  -- The end of `lsm_next`.
  abbrev rest_of_next : LsmIter → Moved LsmIter
  rest_of_next it = any_item it.from it.to 0 it.trees >>= λ any.
      if any
      then lsm_set_the_smallest malloc io d it
      else done (record it { item = none }, err enoent)

  rest_of_next-MergesOn :
      (it : LsmIter) (xss : List (List Entry))
      → ((size : ℕ) → malloc size ≡ true)
      → Views (Shows malloc io d) it.from it.to 0 it.trees xss
      → All (All HasBytes) xss
      → MergesOn malloc io d xss (rest_of_next it)
  rest_of_next-MergesOn it xss enough views filled =
      let any = any_item-has malloc io d it.from it.to 0 it.trees xss views in
      elim (Option-cases (least_of xss)) [
        | inl over ↦
            rw (any, ◌>>=◌, over)
              (record {
                next = record it { item = none };
                rc = err enoent;
                returned = refl;
                fine = refl;
                merges = record { views = views; item = sym over; filled = filled };
              })
        | inr (e, is_e) ↦
            let (next, returned, merges) =
              set_the_smallest-Merged malloc io d it xss enough views filled in
            rw (any, ◌>>=◌, is_e)
              (record {
                next = next;
                rc = ok tt;
                returned = returned;
                fine = refl;
                merges = merges;
              })
      ]

  pub lsm_next-MergesOn :
      (steps : ℕ) (it : LsmIter) (xss : List (List Entry)) (e : Entry)
      → ((size : ℕ) → malloc size ≡ true)
      → Views (Shows malloc io d) it.from it.to 0 it.trees xss
      → All (λ xs. length xs < steps) xss
      → All (All HasBytes) xss
      → it.item ≡ some e
      → MergesOn malloc io d (drop_all e.key xss) (lsm_next malloc io d steps it)
  unfolding lsm_next
  lsm_next-MergesOn steps it xss e enough views more filled is_e =
      let (after, moved, seen) =
        each_tree-EachViews (Shows malloc io d) (pass malloc io d steps e.key) it.from it.to 0
          it.trees (drop_all e.key xss)
          (pass-EachLeaves malloc io d steps e.key it.from it.to 0 it.trees xss views more) in
      rw (lsm_next, is_e, moved, ◌>>=◌)
        (rest_of_next-MergesOn (record it { trees = after }) (drop_all e.key xss) enough seen
          (drop_all-HasBytes e.key xss filled))

  length-drop_upto : (key : Bytes) (xs : List Entry) → length (drop_upto key xs) ≤ length xs
  unfolding drop_upto
  length-drop_upto key [] = omega arith
  length-drop_upto key (x ∷ xs) = ground (arith, length-drop_upto key xs)

  drop_all-shorter :
      (steps : ℕ) (key : Bytes) (xss : List (List Entry))
      → All (λ xs. length xs < steps) xss
      → All (λ xs. length xs < steps) (drop_all key xss)
  drop_all-shorter steps key [] h = tt
  drop_all-shorter steps key (xs ∷ xss) h =
      (omega (arith, length-drop_upto key xs, h.0), drop_all-shorter steps key xss h.1)

  -- The walk gives the lists laid over each other.
  pub lsm_visit-overlay :
      (turns steps : ℕ) (it : LsmIter) (xss : List (List Entry))
      → ((size : ℕ) → malloc size ≡ true)
      → Merges malloc io d it xss
      → All IsSorted xss
      → All (λ xs. length xs < steps) xss
      → length (overlay xss) < turns
      → lsm_visit turns steps it ≡ done (overlay xss)
  unfolding lsm_visit
  lsm_visit-overlay zero steps it xss enough h sorted shorter more = absurd (omega (arith, more))
  lsm_visit-overlay (suc turns) steps it xss enough h sorted shorter more =
      elim (Option-cases (least_of xss)) [
        | inl over ↦ rw (lsm_visit, h.item, over, overlay_over xss over) refl
        | inr (e, is_e) ↦
            let split = overlay_step xss e sorted is_e in
            let next =
              lsm_next-MergesOn steps it xss e enough h.views shorter h.filled (h.item ∙ is_e) in
            let rest =
              lsm_visit-overlay turns steps next.next (drop_all e.key xss) enough next.merges
                (drop_all-IsSorted e.key xss sorted) (drop_all-shorter steps e.key xss shorter)
                (omega (arith, more, ap length split)) in
            rw
              (
                lsm_visit,
                h.item,
                is_e,
                next.returned,
                ◌>>=◌,
                unless_failure-fine next.rc
                    (lsm_visit turns steps next.next >>= λ rest. done (e ∷ rest)) next.fine,
                rest,
                split,
              )
              refl
      ]
