-- ===== src/Ctree/Iter/Spec.antt =====
-- What an on-disk tree of lib/ctree.c holds, and where an iterator stands in it.
use fuse_example.Base.{
  ℕ, zero, suc, ◌^◌, ◌<◌, ◌≡◌, ◌≢◌, Bool, some, List, [], ◌∷◌, ◌++◌, map, length, refl, sym, ap,
  ◌∙◌, append_assoc,
}
use fuse_example.Errors.{done}
use fuse_example.Io.{Io}
use fuse_example.Lsm.Key.{Bytes, Entry}
use fuse_example.Mtree.Spec.{All}
use fuse_example.Ctree.Builder.{ptr_image}
use fuse_example.Ctree.Node.{AulsmfsPtr, CtreeNode}
use fuse_example.Ctree.Node.Reads.{Reads}
use fuse_example.Ctree.Iter.{Slot, read_node}

-- A subtree: the key that its parent keeps for it, the pointer there, and the entries below it.
pub record Child : Type 0 where
  pub key : Bytes
  pub ptr : AulsmfsPtr
  pub entries : List Entry

abbrev pub pair_of : Child → Entry
pair_of c = record { key = c.key; val = ptr_image c.ptr }

abbrev pub entries_of : List Child → List Entry
entries_of [] = []
entries_of (c ∷ cs) = c.entries ++ entries_of cs

pub entries_of-append :
    (xs ys : List Child) → entries_of (xs ++ ys) ≡ entries_of xs ++ entries_of ys
entries_of-append [] ys = refl
entries_of-append (x ∷ xs) ys =
    ap (λ es. x.entries ++ es) (entries_of-append xs ys)
    ∙ sym (append_assoc x.entries (entries_of xs) (entries_of ys))

pub All-middle {ℓ} :
    {A : Type ℓ} (P : A → Type 0) (xs : List A) (y : A) (ys : List A) → All P (xs ++ y ∷ ys) → P y
All-middle P [] y ys h = h.0
All-middle P (x ∷ xs) y ys h = All-middle P xs y ys h.1

-- The key that a parent keeps is the first of the subtree, which is not empty.
abbrev pub LeadsWith : Bytes → List Entry → Type 0
LeadsWith key [] = ⊥
LeadsWith key (e ∷ es) = e.key ≡ key

pub record PtrFits (p : AulsmfsPtr) : Type 0 where
  pub offs_fits : p.offs < 2 ^ 64
  pub size_fits : p.size < 2 ^ 64
  pub csum_fits : p.csum < 2 ^ 64

module _ (malloc : ℕ → Bool) (io : Io) (disk : io.Disk) where
  -- The node under a pointer can be read, and holds these entries.
  pub record IsNode (ptr : AulsmfsPtr) (level : ℕ) (es : List Entry) : Type 0 where
    pub node : CtreeNode
    pub read : read_node malloc io disk ptr level ≡ done node
    pub holds : Reads node node.entry es

  -- The entries of the tree below a pointer to a node of this level.
  abbrev pub Stored : (level : ℕ) → AulsmfsPtr → List Entry → Type 0
  Stored zero ptr es = IsNode ptr 0 es × (es ≢ [])
  Stored (suc level) ptr es =
      (cs : List Child) × IsNode ptr (suc level) (map pair_of cs)
      × (cs ≢ [])
      × All (λ c. Stored level c.ptr c.entries × LeadsWith c.key c.entries × PtrFits c.ptr) cs
      × (es ≡ entries_of cs)

  abbrev pub IsChild : (level : ℕ) → Child → Type 0
  IsChild level c = Stored level c.ptr c.entries × LeadsWith c.key c.entries × PtrFits c.ptr

  -- A node above the leaf, at a subtree of level `level` that holds `mid`.
  pub record Turn (level : ℕ) (s : Slot) (mid : List Entry) : Type 0 where
    pub node : CtreeNode
    pub left : List Child
    pub child : Child
    pub right : List Child
    pub is_there : s.node ≡ some node
    pub holds : Reads node node.entry (map pair_of (left ++ child ∷ right))
    pub stands : s.pos ≡ length left
    pub stored : All (IsChild level) (left ++ child ∷ right)
    pub middle : child.entries ≡ mid

  -- The levels above a subtree with the entries `mid`, and the entries before and after it.
  abbrev pub Above : (level : ℕ) → List Slot → (before mid after : List Entry) → Type 0
  Above level [] before mid after = (before ≡ []) × (after ≡ [])
  Above level (s ∷ up) before mid after =
      (t : Turn level s mid) × (b : List Entry) × (a : List Entry) × Above (suc level) up b
        (entries_of (t.left ++ t.child ∷ t.right)) a
      × (before ≡ b ++ entries_of t.left)
      × (after ≡ entries_of t.right ++ a)

  -- The leaf, with the entries before the position and from it on.
  pub record Leaf (s : Slot) (left right : List Entry) : Type 0 where
    pub node : CtreeNode
    pub is_there : s.node ≡ some node
    pub holds : Reads node node.entry (left ++ right)
    pub stands : s.pos ≡ length left

  -- The levels from the leaf up, with the entries on both sides in the leaf and outside it.
  abbrev pub Points : List Slot → (b left right a : List Entry) → Type 0
  Points [] b left right a = ⊥
  Points (s ∷ up) b left right a = Leaf s left right × Above 0 up b (left ++ right) a

  -- The levels stand where `seen` has passed and `rest` is ahead: at the first of `rest`, or at the
  -- end of the last leaf.
  pub record StandsAt (slots : List Slot) (seen rest : List Entry) : Type 0 where
    pub before : List Entry
    pub left : List Entry
    pub right : List Entry
    pub after : List Entry
    pub points : Points slots before left right after
    pub passed : seen ≡ before ++ left
    pub ahead : rest ≡ right ++ after
    pub settled : right ≡ [] → after ≡ []

  -- The entries of a tree, by its root pointer.
  abbrev pub HoldsTree : (height : ℕ) → AulsmfsPtr → List Entry → Type 0
  HoldsTree zero ptr es = es ≡ []
  HoldsTree (suc level) ptr es = Stored level ptr es
