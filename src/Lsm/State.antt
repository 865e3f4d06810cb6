-- ===== src/Lsm/State.antt =====
-- `struct lsm` of inc/lsm.h and lib/lsm.c: two maps in memory and the trees on disk, and `struct
-- aulsmfs_tree` of inc/aulsmfs.h, which keeps the roots of those.
use fuse_example.Base.{
  ℕ, zero, suc, ◌≡◌, refl, sym, ap, ◌∙◌, Bool, Option, none, some, List, [], ◌∷◌, ◌++◌, length,
  replicate, drop, append_assoc, append-nil,
}
use fuse_example.Errors.{Result, Run, done, ◌>>=◌}
use fuse_example.Lsm.Key.{Bytes, Entry, KeyOrder}
use fuse_example.Mtree.{Mtree, mtree_setup, mtree_release, mtree_add}
use fuse_example.Mtree.Spec.{All}
use fuse_example.Ctree.Root.{
  Ctree, ctree_setup, ctree_parse, ctree_dump, IsStorable, ctree_parse-ctree_dump,
}

-- Without `io`, `alloc` and `cmp`, which its user keeps. `ci` has `max_disk_trees` trees.
pub record Lsm : Type 0 where
  pub c0 : Mtree
  pub c1 : Mtree
  pub ci : List Ctree

abbrev pub max_disk_trees : ℕ
max_disk_trees = 3

-- The size of `struct aulsmfs_ctree`.
abbrev pub ctree_size : ℕ
ctree_size = 32

unfoldable pub lsm_setup : Lsm
unfolding mtree_setup ctree_setup
lsm_setup = record { c0 = mtree_setup; c1 = mtree_setup; ci = replicate max_disk_trees ctree_setup }

-- `lsm_release`: what is left, and the freed nodes of both maps.
unfoldable pub lsm_release : Lsm → Lsm × List Entry
unfolding mtree_release lsm_setup
lsm_release m = (lsm_setup, (mtree_release m.c1).1 ++ (mtree_release m.c0).1)

-- `lsm_parse`: so many roots, one behind the other.
unfoldable pub parse_roots : (trees : ℕ) → (ondisk : List ℕ) → Run (List Ctree)
unfolding ctree_parse
parse_roots zero ondisk = done []
parse_roots (suc trees) ondisk = do
  t ← ctree_parse ondisk
  ts ← parse_roots trees (drop ctree_size ondisk)
  done (t ∷ ts)

unfoldable pub lsm_parse : Lsm → (ondisk : List ℕ) → Run Lsm
unfolding parse_roots
lsm_parse m ondisk = parse_roots max_disk_trees ondisk >>= λ ci. done (record m { ci = ci })

-- `lsm_dump`
unfoldable pub dump_roots : List Ctree → List ℕ
unfolding ctree_dump
dump_roots [] = []
dump_roots (t ∷ ts) = ctree_dump t ++ dump_roots ts

unfoldable pub lsm_dump : Lsm → List ℕ
unfolding dump_roots
lsm_dump m = dump_roots m.ci

-- `none` is the access through a null pointer in `rb_insert`.
unfoldable pub lsm_add :
    ⦃o : KeyOrder⦄ → (malloc : ℕ → Bool) → Lsm → Bytes → Bytes → Option (Lsm × Result (Unit {0}))
unfolding mtree_add
lsm_add malloc m key val = elim (mtree_add malloc m.c0 key val) [
  | none ↦ none
  | some (c0, rc) ↦ some (record m { c0 = c0 }, rc)
]

drop-ctree_dump : (t : Ctree) (rest : List ℕ) → drop ctree_size (ctree_dump t ++ rest) ≡ rest
unfolding ctree_dump
drop-ctree_dump t rest = refl

parse_roots-dump_roots :
    (ts : List Ctree) (rest : List ℕ)
    → All IsStorable ts
    → parse_roots (length ts) (dump_roots ts ++ rest) ≡ done ts
unfolding parse_roots dump_roots
parse_roots-dump_roots [] rest h = refl
parse_roots-dump_roots (t ∷ ts) rest h =
    rw
      (
        parse_roots,
        append_assoc (ctree_dump t) (dump_roots ts) rest,
        ctree_parse-ctree_dump t (dump_roots ts ++ rest) h.0,
        ◌>>=◌,
        drop-ctree_dump t (dump_roots ts ++ rest),
        parse_roots-dump_roots ts rest h.1,
      )
      refl

-- The roots that `lsm_dump` writes, of as many trees as `struct lsm` has and with fields that
-- fit, are read back by `lsm_parse` into any other `struct lsm`, whose maps in memory stay.
pub lsm_parse-lsm_dump :
    (l r : Lsm)
    → length l.ci ≡ max_disk_trees
    → All IsStorable l.ci
    → lsm_parse r (lsm_dump l) ≡ done (record { c0 = r.c0; c1 = r.c1; ci = l.ci })
unfolding lsm_parse lsm_dump
lsm_parse-lsm_dump l r three h =
    ap (λ ci. ci >>= λ ts. done (record r { ci = ts }))
      (ap (parse_roots max_disk_trees) (sym (append-nil (dump_roots l.ci)))
        ∙ ap (λ n. parse_roots n (dump_roots l.ci ++ [])) (sym three)
        ∙ parse_roots-dump_roots l.ci [] h)
