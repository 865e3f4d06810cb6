-- ===== src/Lsm/Iter.antt =====
-- `struct lsm_iter` of inc/lsm.h and lib/lsm.c: one iterator for each tree, and the smallest of the
-- entries at which they stand. Of equal keys the entry of the newer tree counts.
pub mod Cursors
pub mod Each
pub mod Added
pub mod Begin
pub mod Lookup
pub mod Lower
pub mod Merge
pub mod Search
pub mod Visit
pub mod Walk
use Prim.Native.Nat.Ordering.{lt, eq, gt}
use fuse_example.Base.{
  ◌==◌, ℕ, zero, suc, ◌+◌, Bool, true, false, ◌&&◌, Option, none, some, List, [], ◌∷◌, length, leb,
  ltb, if◌then◌else◌,
}
use fuse_example.Errors.{
  Errno, enoent, enomem, Result, ok, err, Run, done, fail, fault, out_of_fuel, ◌>>=◌,
}
use fuse_example.Io.{Io}
use fuse_example.Lsm.Key.{Bytes, Entry, KeyOrder}
use fuse_example.Mtree.{
  MtreeIter, mtree_iter_setup, mtree_begin, mtree_end, mtree_next, mtree_key, mtree_val,
}
use fuse_example.Lsm.State.{Lsm, max_disk_trees}
use fuse_example.Ctree.Root.{Ctree}
use fuse_example.Ctree.Iter.{
  CtreeIter, Moved, ctree_iter_setup, ctree_begin, ctree_end, ctree_next, ctree_key, ctree_val,
}

-- An iterator of a tree in memory or on disk.
pub data Cursor : Type 0 where
  memory : MtreeIter → Cursor
  disk : CtreeIter → Cursor

-- A tree's part of the iterator: `it0`, `it1` or one of `iti`, and what `keyi` and `vali` hold for
-- it; without a key there is no item.
pub record TreeSlot : Type 0 where
  pub cursor : Cursor
  pub item : Option Entry

-- `struct lsm_iter`: `trees` lists the trees by index, and `item` is `key` with `val`.
pub record LsmIter : Type 0 where
  pub from : ℕ
  pub to : ℕ
  pub trees : List TreeSlot
  pub item : Option Entry
  pub buf_size : ℕ

-- The trees of `lsm`, without an item.
abbrev pub start : Cursor → TreeSlot
start c = record { cursor = c; item = none }

abbrev pub on_disk_trees : List Ctree → List TreeSlot
on_disk_trees [] = []
on_disk_trees (t ∷ ts) = start (disk (ctree_iter_setup t)) ∷ on_disk_trees ts

-- `lsm_iter_setup`
unfoldable pub lsm_iter_setup : Lsm → LsmIter
unfolding mtree_iter_setup ctree_iter_setup
lsm_iter_setup m = record {
  from = 0;
  to = max_disk_trees + 1;
  trees =
      start (memory (mtree_iter_setup m.c0))
      ∷ start (memory (mtree_iter_setup m.c1))
      ∷ on_disk_trees m.ci;
  item = none;
  buf_size = 0;
}

-- The key and the value that a cursor gives.
abbrev pub item_of : Option Bytes → Option Bytes → Option Entry
item_of (some k) (some v) = some (record { key = k; val = v })
item_of _ _ = none

unfoldable pub cursor_item : Cursor → Run (Option Entry)
cursor_item (memory it) = done (item_of (mtree_key it).0 (mtree_val it).0)
cursor_item (disk it) = do
  (key, rc) ← ctree_key it
  (val, rc) ← ctree_val it
  done (item_of key val)

-- Whether a tree takes part, as the conditions on `from` and `to` say for each kind of tree.
abbrev pub takes_part : (from to i : ℕ) → Bool
takes_part from to i = leb from i && leb i to

-- Whether a loop over `from` to `to` leaves an array of `i` trees.
abbrev pub leaves : (from to i : ℕ) → Bool
leaves from to i = leb from to && leb i to

-- An action on each tree that takes part, in turn, up to the first error, or the access behind the
-- last tree.
unfoldable pub each_tree :
    (go : TreeSlot → Moved TreeSlot) → (from to i : ℕ) → List TreeSlot → Moved (List TreeSlot)
each_tree go from to i [] = if leaves from to i then fault else done ([], ok tt)
each_tree go from to i (s ∷ ss) = elim (takes_part from to i) [
  | false ↦ do (ss, rc) ← each_tree go from to (suc i) ss; done (s ∷ ss, rc)
  | true ↦ do
    (s, rc) ← go s
    elim rc [
      | err e ↦ done (s ∷ ss, err e)
      | ok u ↦ do (ss, rc) ← each_tree go from to (suc i) ss; done (s ∷ ss, rc)
    ]
]

-- `keyi[i]` and `vali[i]` from the tree's iterator.
unfoldable pub set_item : TreeSlot → Moved TreeSlot
unfolding cursor_item
set_item s = cursor_item s.cursor >>= λ item. done (record s { item = item }, ok tt)

-- Through the cursor of a tree only.
abbrev pub on_cursor : (Cursor → Moved Cursor) → TreeSlot → Moved TreeSlot
on_cursor go s = go s.cursor >>= λ moved. done (record s { cursor = moved.0 }, moved.1)

abbrev pub on_disk : Moved CtreeIter → Moved Cursor
on_disk m = m >>= λ moved. done (disk moved.0, moved.1)

abbrev pub put_trees : LsmIter → List TreeSlot × Result (Unit {0}) → LsmIter × Result (Unit {0})
put_trees it (trees, rc) = (record it { trees = trees }, rc)

-- `lsm_set_items`
unfoldable pub lsm_set_items : LsmIter → Moved LsmIter
unfolding each_tree set_item
lsm_set_items it =
    each_tree set_item it.from it.to 0 it.trees >>= λ moved. done (put_trees it moved)

-- `if (rc < 0) return rc;` between two steps.
infixl 5 ◌then◌
abbrev pub ◌then◌ : Moved LsmIter → (LsmIter → Moved LsmIter) → Moved LsmIter
m then go = m >>= λ moved. elim moved.1 [ err e ↦ done moved | ok u ↦ go moved.0 ]

-- `rc < 0 && rc != -ENOENT`
abbrev pub is_failure : Result (Unit {0}) → Bool
is_failure (ok u) = false
is_failure (err enoent) = false
is_failure (err e) = true

-- `lsm_has_item`
abbrev pub lsm_has_item : LsmIter → Bool
lsm_has_item it = elim it.item [ none ↦ false | some e ↦ true ]

-- The copy at the end of `lsm_set_the_smallest`, into a buffer that grows. An empty key and value need
-- no buffer: where there is none yet, of size 0, the key that points into it is null.
unfoldable pub keep_item :
    (malloc : ℕ → Bool) → LsmIter → Option Entry → LsmIter × Result (Unit {0})
keep_item malloc it none = (record it { item = none }, ok tt)
keep_item malloc it (some e) =
    let size = length e.key + length e.val in
    if ltb it.buf_size size
    then (if malloc size
        then (record it { item = some e; buf_size = size }, ok tt)
        else (record it { item = none }, err enomem))
    else (if it.buf_size == 0
        then (record it { item = none }, ok tt)
        else (record it { item = some e }, ok tt))

-- Whether one of the trees that take part has an item.
abbrev pub any_item : (from to i : ℕ) → List TreeSlot → Run Bool
any_item from to i [] = if leaves from to i then fault else done false
any_item from to i (s ∷ ss) =
    let rest = any_item from to (suc i) ss in
    if takes_part from to i then elim s.item [ none ↦ rest | some e ↦ done true ] else rest

module _ (malloc : ℕ → Bool) (io : Io) (d : io.Disk) where
  unfoldable pub cursor_begin : Cursor → Moved Cursor
  cursor_begin (memory it) = done (memory (mtree_begin it), ok tt)
  cursor_begin (disk it) = on_disk (ctree_begin malloc io d it)

  unfoldable pub cursor_end : Cursor → Moved Cursor
  cursor_end (memory it) = done (memory (mtree_end it), ok tt)
  cursor_end (disk it) = on_disk (ctree_end malloc io d it)

  unfoldable pub cursor_next : Cursor → Moved Cursor
  cursor_next (memory it) = let (it, rc) = mtree_next it in done (memory it, rc)
  cursor_next (disk it) = on_disk (ctree_next malloc io d it)

  module _ ⦃o : KeyOrder⦄ where
    open o use {cmp}

    -- The tests in the loop of `lsm_set_the_smallest`: `keyi[i]` replaces a greater key.
    abbrev pub smaller : Option Entry → Option Entry → Option Entry
    smaller best none = best
    smaller none (some e) = some e
    smaller (some b) (some e) = elim (cmp b.key e.key) [ gt ↦ some e | _ ↦ some b ]

    abbrev pub smallest : Option Entry → (from to i : ℕ) → List TreeSlot → Run (Option Entry)
    smallest best from to i [] = if leaves from to i then fault else done best
    smallest best from to i (s ∷ ss) =
        smallest (if takes_part from to i then smaller best s.item else best) from to (suc i) ss

    unfoldable pub lsm_set_the_smallest : LsmIter → Moved LsmIter
    unfolding keep_item
    lsm_set_the_smallest it =
        smallest none it.from it.to 0 it.trees >>= λ best. done (keep_item malloc it best)

    -- `lsm_begin`
    unfoldable pub lsm_begin : LsmIter → Moved LsmIter
    unfolding each_tree lsm_set_items lsm_set_the_smallest
    lsm_begin it =
        (each_tree (on_cursor cursor_begin) it.from it.to 0 it.trees >>= λ moved.
        done (put_trees it moved))
        then lsm_set_items
        then lsm_set_the_smallest

    -- `lsm_end` does not touch the item.
    unfoldable pub lsm_end : LsmIter → Moved LsmIter
    unfolding each_tree lsm_set_items
    lsm_end it =
        (each_tree (on_cursor cursor_end) it.from it.to 0 it.trees >>= λ moved.
        done (put_trees it moved))
        then lsm_set_items

    -- A loop of `lsm_next`: past the entries of one tree up to the key, in so many turns at most.
    unfoldable pub pass : (turns : ℕ) → Bytes → TreeSlot → Moved TreeSlot
    unfolding cursor_next cursor_item
    pass zero key s = out_of_fuel
    pass (suc turns) key s = elim s.item [
      | none ↦ done (s, ok tt)
      | some e ↦ elim (cmp e.key key) [
        | gt ↦ done (s, ok tt)
        | _ ↦ do
          (c, rc) ← cursor_next s.cursor
          elim (is_failure rc) [
            | true ↦ done (record s { cursor = c }, rc)
            | false ↦ cursor_item c >>= λ item. pass turns key (record { cursor = c; item = item })
          ]
      ]
    ]

    unfoldable pub lsm_next : (turns : ℕ) → LsmIter → Moved LsmIter
    unfolding each_tree pass lsm_set_the_smallest
    lsm_next turns it = elim it.item [
      | none ↦ done (it, err enoent)
      | some e ↦
          (each_tree (pass turns e.key) it.from it.to 0 it.trees >>= λ moved.
          done (put_trees it moved))
          then λ it. any_item it.from it.to 0 it.trees >>= λ any.
              if any then lsm_set_the_smallest it else done (record it { item = none }, err enoent)
    ]
