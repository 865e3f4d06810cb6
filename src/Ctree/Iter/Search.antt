-- ===== src/Ctree/Iter/Search.antt =====
-- The searches of `struct ctree_iter` in lib/ctree.c. Levels whose node was read under the same
-- pointer before are not read again.
use Prim.Native.Nat.Ordering.{lt, eq, gt}
use fuse_example.Base.{
  ℕ, suc, ◌-◌, Bool, true, false, ◌&&◌, List, [], ◌∷◌, none, some, length, ◌==◌, if◌then◌else◌,
}
use fuse_example.Errors.{enoent, eio, Result, ok, err, Run, done, ◌>>=◌}
use fuse_example.Io.{Io}
use fuse_example.Lsm.Key.{Bytes, KeyOrder}
use fuse_example.Ctree.Node.{AulsmfsPtr, CtreeEntry, CtreeNode, ctree_node_key}
use fuse_example.Ctree.Iter.{
  Slot, CtreeIter, Moved, or_error, unwind, ctree_node_ptr, read_node, on_prepared, put_slots,
  levels_of, current, entry_of, ctree_next,
}

module _ ⦃o : KeyOrder⦄ where
  open o use {cmp}

  -- The loops of `__ctree_node_lower_bound` and `__ctree_node_upper_bound`, from slot `i` on.
  unfoldable pub lower_from : Bytes → CtreeNode → (i : ℕ) → List CtreeEntry → Run ℕ
  lower_from key n i [] = done i
  lower_from key n i (s ∷ slots) = do
    node_key ← ctree_node_key n s
    elim (cmp node_key key) [ lt ↦ lower_from key n (suc i) slots | _ ↦ done i ]

  unfoldable pub upper_from : Bytes → CtreeNode → (i : ℕ) → List CtreeEntry → Run ℕ
  upper_from key n i [] = done i
  upper_from key n i (s ∷ slots) = do
    node_key ← ctree_node_key n s
    elim (cmp node_key key) [ gt ↦ done i | _ ↦ upper_from key n (suc i) slots ]

  unfoldable pub ctree_node_lower_bound : CtreeNode → Bytes → Run ℕ
  unfolding lower_from
  ctree_node_lower_bound n key = lower_from key n 0 n.entry

  unfoldable pub ctree_node_upper_bound : CtreeNode → Bytes → Run ℕ
  unfolding upper_from
  ctree_node_upper_bound n key = upper_from key n 0 n.entry

-- `if (rc == -ENOENT) return 0; return rc;`
abbrev pub unless_end : CtreeIter × Result (Unit {0}) → CtreeIter × Result (Unit {0})
unless_end (it, ok u) = (it, ok tt)
unless_end (it, err enoent) = (it, ok tt)
unless_end (it, err e) = (it, err e)

-- `memcmp` of two pointers.
abbrev pub same_ptr : AulsmfsPtr → AulsmfsPtr → Bool
same_ptr p q = (p.offs == q.offs) && ((p.size == q.size) && (p.csum == q.csum))

module _ (malloc : ℕ → Bool) (io : Io) (disk : io.Disk) where
  -- `__ctree_get_node`: the node of a level, read unless it is there.
  unfoldable pub ctree_get_node : Slot → AulsmfsPtr → (level : ℕ) → Run CtreeNode
  unfolding read_node
  ctree_get_node s ptr level = elim s.node [
    | none ↦ read_node malloc io disk ptr level
    | some n ↦ if same_ptr n.ptr ptr then done n else read_node malloc io disk ptr level
  ]

  module _ ⦃o : KeyOrder⦄ where
    open o use {cmp}

    -- The loop of `__ctree_lookup` and what follows it, over the levels top down, with the levels
    -- above them.
    unfoldable pub seek :
        Bytes → (levels : List Slot) → AulsmfsPtr → (above : List Slot) → Moved (List Slot)
    unfolding ctree_get_node ctree_node_lower_bound ctree_node_upper_bound ctree_node_ptr
    seek key [] ptr above = done (above, ok tt)
    seek key (s ∷ []) ptr above =
        or_error (ctree_get_node s ptr 0) (λ e. done (s ∷ above, err e))
          λ n. do
            pos ← ctree_node_lower_bound n key
            done (record { node = some n; pos = pos } ∷ above, ok tt)
    seek key (s ∷ t ∷ below) ptr above =
        or_error (ctree_get_node s ptr (length (t ∷ below)))
          (λ e. done (unwind (s ∷ t ∷ below) above, err e))
          λ n. do
            bound ← ctree_node_upper_bound n key
            let pos = bound - 1
            or_error (ctree_node_ptr n pos)
                (λ e.
                  done (unwind (t ∷ below) (record { node = some n; pos = pos } ∷ above), err eio))
                λ down. seek key (t ∷ below) down (record { node = some n; pos = pos } ∷ above)

    -- `__ctree_lookup`
    unfoldable pub ctree_seek : CtreeIter → Bytes → Moved CtreeIter
    unfolding seek
    ctree_seek it key = on_prepared malloc it λ it.
        if it.height == 0
        then done (it, ok tt)
        else (seek key (levels_of it) it.ptr [] >>= λ moved. done (put_slots it moved))

    unfoldable pub ctree_lower_bound : CtreeIter → Bytes → Moved CtreeIter
    unfolding ctree_seek ctree_next
    ctree_lower_bound it key = if it.height == 0 then done (it, ok tt) else do
      (it, rc) ← ctree_seek it key
      elim rc [
        | err e ↦ done (it, err e)
        | ok u ↦ do
          here ← current it
          elim here [
            | some h ↦ done (it, ok tt)
            | none ↦ do moved ← ctree_next malloc io disk it; done (unless_end moved)
          ]
      ]

    unfoldable pub ctree_upper_bound : CtreeIter → Bytes → Moved CtreeIter
    ctree_upper_bound it key = if it.height == 0 then done (it, ok tt) else do
      (it, rc) ← ctree_lower_bound it key
      elim rc [
        | err e ↦ done (it, err e)
        | ok u ↦ do
          here ← current it
          elim here [
            | none ↦ done (it, ok tt)
            | some (n, pos) ↦ do
              slot ← entry_of n.entry pos
              node_key ← ctree_node_key n slot
              elim (cmp node_key key) [ gt ↦ done (it, ok tt) | _ ↦ ctree_next malloc io disk it ]
          ]
      ]

    -- The return code is 1 where the key was found.
    unfoldable pub ctree_lookup : CtreeIter → Bytes → Run (CtreeIter × Result Bool)
    ctree_lookup it key = if it.height == 0 then done (it, ok false) else do
      (it, rc) ← ctree_lower_bound it key
      elim rc [
        | err e ↦ done (it, err e)
        | ok u ↦ do
          here ← current it
          elim here [
            | none ↦ done (it, ok false)
            | some (n, pos) ↦ do
              slot ← entry_of n.entry pos
              node_key ← ctree_node_key n slot
              done (it, ok (elim (cmp node_key key) [ eq ↦ true | _ ↦ false ]))
          ]
      ]
