-- ===== src/Ctree/Iter.antt =====
-- `struct ctree_iter` of lib/ctree.c: for each level the node that was read last and a position in
-- it. A failed step leaves the levels that were reached; `fault` is an access that C does not
-- define.
pub mod Descend
pub mod Next
pub mod Split
pub mod Bound
pub mod Settle
pub mod Lower
pub mod Walk
pub mod Search
pub mod Spec
use fuse_example.Base.{
  ℕ, zero, suc, ◌+◌, ◌-◌, ◌*◌, ◌%◌, ◌^◌, Bool, true, false, not, ◌&&◌, List, [], ◌∷◌, Option, none,
  some, length, replicate, take, drop, ltb, ◌==◌, if◌then◌else◌,
}
use fuse_example.Errors.{
  Errno, enomem, enoent, eio, enobufs, Result, ok, err, Run, done, fail, fault, out_of_fuel, ◌>>=◌,
}
use fuse_example.Crc64.{load}
use fuse_example.Io.{Io}
use fuse_example.Lsm.Key.{Bytes}
use fuse_example.Ctree.Node.{
  AulsmfsPtr, null_ptr, CtreeEntry, CtreeNode, ctree_node_read, ctree_node_key, ctree_node_val,
}
use fuse_example.Ctree.Builder.{node_size, pointer_size}
use fuse_example.Ctree.Root.{Ctree}

-- One level of the arrays `node` and `pos`.
pub record Slot : Type 0 where
  pub node : Option CtreeNode
  pub pos : ℕ

abbrev pub empty_slot : Slot
empty_slot = record { node = none; pos = 0 }

-- `struct ctree_iter`: `slots` lists the levels from the leaf up, and is missing as long as the
-- arrays are null.
pub record CtreeIter : Type 0 where
  pub ptr : AulsmfsPtr
  pub height : ℕ
  pub slots : Option (List Slot)

unfoldable pub ctree_iter_setup : Ctree → CtreeIter
ctree_iter_setup t = record { ptr = t.ptr; height = t.height; slots = none }

-- `ctree_iter_release` frees the nodes and clears the iterator.
unfoldable pub ctree_iter_release : CtreeIter → CtreeIter
ctree_iter_release it = record { ptr = null_ptr; height = 0; slots = none }

-- A step of the iterator, and its return code.
abbrev pub Moved : Type 0 → Type 0
Moved A = Run (A × Result (Unit {0}))

-- `if (rc < 0) return rc;`, with what is left then.
abbrev pub or_error {ℓ κ} :
    {A : Type ℓ} {B : Type κ} → Run A → (Errno → Run B) → (A → Run B) → Run B
or_error (done a) bad good = good a
or_error (fail e) bad good = bad e
or_error fault bad good = fault
or_error out_of_fuel bad good = out_of_fuel

-- The slots nearest to a level first, put back below it.
abbrev pub unwind {ℓ} : {A : Type ℓ} → (below above : List A) → List A
unwind [] above = above
unwind (s ∷ below) above = unwind below (s ∷ above)

-- `ctree_iter_prepare`
unfoldable pub ctree_iter_prepare : (malloc : ℕ → Bool) → CtreeIter → CtreeIter × Result (Unit {0})
ctree_iter_prepare malloc it = elim it.slots [
  | some slots ↦ (it, ok tt)
  | none ↦
      if malloc (it.height * pointer_size) && malloc (it.height * pointer_size)
      then (record it { slots = some (replicate it.height empty_slot) }, ok tt)
      else (it, err enomem)
]

-- `&node->entry[pos]`, where that slot is used.
abbrev pub entry_of : List CtreeEntry → ℕ → Run CtreeEntry
entry_of [] pos = fault
entry_of (s ∷ slots) zero = done s
entry_of (s ∷ slots) (suc pos) = entry_of slots pos

-- `memcpy` of `struct aulsmfs_ptr` from a value of its size.
abbrev pub ptr_of : Bytes → AulsmfsPtr
ptr_of val = record {
  offs = load (take 8 val);
  size = load (take 8 (drop 8 val));
  csum = load (take 8 (drop 16 val));
}

unfoldable pub ctree_node_ptr : CtreeNode → (pos : ℕ) → Run AulsmfsPtr
ctree_node_ptr n pos = do
  slot ← entry_of n.entry pos
  val ← ctree_node_val n slot
  if length val == 24 then done (ptr_of val) else fail enobufs

abbrev pub first_pos : CtreeNode → ℕ
first_pos n = 0

-- `node->entries - 1`, as a `size_t`.
abbrev pub last_pos : CtreeNode → ℕ
last_pos n = (length n.entry + (2 ^ 64 - 1)) % 2 ^ 64

-- `++iter->pos[0]`, as a `size_t`.
abbrev pub after_last : List Slot → List Slot
after_last [] = []
after_last (s ∷ up) = record s { pos = (s.pos + 1) % 2 ^ 64 } ∷ up

-- The levels, or the arrays that are still missing.
abbrev pub put_slots : CtreeIter → List Slot × Result (Unit {0}) → CtreeIter × Result (Unit {0})
put_slots it (slots, rc) = (record it { slots = some slots }, rc)

abbrev pub levels_of : CtreeIter → List Slot
levels_of it = elim it.slots [ none ↦ [] | some slots ↦ unwind slots [] ]

abbrev pub if_prepared :
    CtreeIter × Result (Unit {0}) → (CtreeIter → Moved CtreeIter) → Moved CtreeIter
if_prepared (it, err e) go = done (it, err e)
if_prepared (it, ok u) go = go it

-- `const int rc = ctree_iter_prepare(iter); if (rc < 0) return rc;`
abbrev pub on_prepared :
    (malloc : ℕ → Bool) → CtreeIter → (CtreeIter → Moved CtreeIter) → Moved CtreeIter
on_prepared malloc it go = if_prepared (ctree_iter_prepare malloc it) go

-- The first loop of `ctree_next` and `ctree_prev`: the lowest level that can move, with the slots
-- below it, whose nodes are dropped, the nearest first, and those above.
unfoldable pub find_level :
    (can_move : (pos : ℕ) → CtreeNode → Bool)
    → (below : List Slot) → List Slot
    → Run (Option (List Slot × Slot × List Slot))
find_level can_move below [] = done none
find_level can_move below (s ∷ up) = elim s.node [
  | none ↦ fault
  | some n ↦ elim (can_move s.pos n) [
    | true ↦ done (some (below, s, up))
    | false ↦ find_level can_move (record s { node = none } ∷ below) up
  ]
]

-- `if (iter->height && iter->pos[0] != iter->node[0]->entries) ++iter->pos[0];`
abbrev pub step_off : List Slot → List Slot
step_off [] = []
step_off (s ∷ up) = elim s.node [
  | none ↦ s ∷ up
  | some n ↦ if s.pos == length n.entry then s ∷ up else record s { pos = s.pos + 1 } ∷ up
]

abbrev pub has_next : (pos : ℕ) → CtreeNode → Bool
has_next pos n = ltb (pos + 1) (length n.entry)

abbrev pub has_prev : (pos : ℕ) → CtreeNode → Bool
has_prev pos n = not (pos == 0)

-- A walk with null arrays is an access through them, unless there is no level.
abbrev pub on_slots : CtreeIter → (List Slot → Moved (List Slot)) → Moved CtreeIter
on_slots it go = elim it.slots [
  | none ↦ if it.height == 0 then done (it, err enoent) else fault
  | some slots ↦ go slots >>= λ moved. done (put_slots it moved)
]

module _ (malloc : ℕ → Bool) (io : Io) (disk : io.Disk) where
  -- `ctree_node_create` and `ctree_node_read`; a node that is not read is destroyed. The node is
  -- cleared before anyone looks whether there is one.
  unfoldable pub read_node : AulsmfsPtr → (level : ℕ) → Run CtreeNode
  read_node ptr level = if malloc node_size then ctree_node_read malloc io disk ptr level else fault

  -- The loop at the end of `ctree_next`, `ctree_prev`, and of `ctree_begin` and `ctree_end` from the
  -- second level on: from a parent down, with the slots below it, the nearest first.
  unfoldable pub descend :
      (choose : CtreeNode → ℕ)
      → (below : List Slot) → Slot
      → (above : List Slot) → Moved (List Slot)
  unfolding ctree_node_ptr read_node
  descend choose [] parent above = done (parent ∷ above, ok tt)
  descend choose (s ∷ below) parent above = elim parent.node [
    | none ↦ fault
    | some n ↦
        or_error (ctree_node_ptr n parent.pos)
          (λ e. done (unwind (s ∷ below) (parent ∷ above), err eio))
          λ ptr.
            or_error (read_node ptr (length below))
              (λ e. done (unwind (s ∷ below) (parent ∷ above), err e))
              λ child.
                descend choose below (record { node = some child; pos = choose child })
                  (parent ∷ above)
  ]

  -- The loops of `ctree_begin` and `ctree_end`: the root is the first of the levels, top down.
  unfoldable pub read_down :
      (choose : CtreeNode → ℕ) → AulsmfsPtr → (levels : List Slot) → Moved (List Slot)
  unfolding descend read_node
  read_down choose ptr [] = done ([], ok tt)
  read_down choose ptr (top ∷ below) =
      or_error (read_node ptr (length below)) (λ e. done (unwind (top ∷ below) [], err e))
        λ root. descend choose below (record { node = some root; pos = choose root }) []

  unfoldable pub ctree_begin : CtreeIter → Moved CtreeIter
  unfolding read_down ctree_iter_prepare
  ctree_begin it =
      on_prepared malloc it
        λ it. do moved ← read_down first_pos it.ptr (levels_of it); done (put_slots it moved)

  unfoldable pub ctree_end : CtreeIter → Moved CtreeIter
  unfolding read_down ctree_iter_prepare
  ctree_end it = on_prepared malloc it λ it. do
    (slots, rc) ← read_down last_pos it.ptr (levels_of it)
    elim rc [
      | err e ↦ done (put_slots it (slots, err e))
      | ok u ↦ done (put_slots it (after_last slots, ok tt))
    ]

  unfoldable pub next_slots : List Slot → Moved (List Slot)
  unfolding find_level descend
  next_slots slots = do
    found ← find_level has_next [] slots
    elim found [
      | none ↦ done (step_off slots, err enoent)
      | some (below, s, up) ↦ descend first_pos below (record s { pos = s.pos + 1 }) up
    ]

  unfoldable pub prev_slots : List Slot → Moved (List Slot)
  unfolding find_level descend
  prev_slots slots = do
    found ← find_level has_prev [] slots
    elim found [
      | none ↦ done (slots, err enoent)
      | some (below, s, up) ↦ descend last_pos below (record s { pos = s.pos - 1 }) up
    ]

  unfoldable pub ctree_next : CtreeIter → Moved CtreeIter
  unfolding next_slots
  ctree_next it = on_slots it next_slots

  unfoldable pub ctree_prev : CtreeIter → Moved CtreeIter
  unfolding prev_slots
  ctree_prev it = on_slots it prev_slots

-- The leaf and the position in it, unless the iterator is at the end.
abbrev pub current : CtreeIter → Run (Option (CtreeNode × ℕ))
current it = if it.height == 0 then done none else elim it.slots [
  | some (s ∷ up) ↦ elim s.node [
    | some n ↦ done (if s.pos == length n.entry then none else some (n, s.pos))
    | none ↦ fault
  ]
  | _ ↦ fault
]

unfoldable pub ctree_key : CtreeIter → Run (Option Bytes × Result (Unit {0}))
ctree_key it = current it >>= λ c. elim c [
  | none ↦ done (none, err enoent)
  | some (n, pos) ↦ do
    slot ← entry_of n.entry pos
    key ← ctree_node_key n slot
    done (some key, ok tt)
]

unfoldable pub ctree_val : CtreeIter → Run (Option Bytes × Result (Unit {0}))
ctree_val it = current it >>= λ c. elim c [
  | none ↦ done (none, err enoent)
  | some (n, pos) ↦ do
    slot ← entry_of n.entry pos
    val ← ctree_node_val n slot
    done (some val, ok tt)
]
