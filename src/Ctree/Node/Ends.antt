-- ===== src/Ctree/Node/Ends.antt =====
-- The operations on nodes of lib/ctree.c that have no loop never run out of fuel.
use fuse_example.Base.{
  arith, ℕ, ◌+◌, Bool, true, false, List, ◌++◌, length, leb, ltb, if◌then◌else◌,
}
use fuse_example.Errors.{Run, done, fail, fault, out_of_fuel, ◌>>=◌}
use fuse_example.Memory.{poke, encode}
use fuse_example.Lsm.Key.{Bytes}
use fuse_example.Ctree.Node.{
  CtreeNode, ensure_slots, ensure_bytes, ctree_ensure_entries, push_slot, store_entry,
  ctree_node_append,
}

-- A run within its fuel.
abbrev pub Ends : {A : Type 0} → Run A → Type 0
Ends (done a) = Unit
Ends (fail e) = Unit
Ends fault = Unit
Ends out_of_fuel = ⊥

bind-Ends :
    {A B : Type 0} (m : Run A) (f : A → Run B) → Ends m → ((a : A) → Ends (f a)) → Ends (m >>= f)
bind-Ends (done a) f h k = k a
bind-Ends (fail e) f h k = tt
bind-Ends fault f h k = tt
bind-Ends out_of_fuel f h k = elim h [ ]

if-Ends : {A : Type 0} (b : Bool) (x y : Run A) → Ends x → Ends y → Ends (if b then x else y)
if-Ends true x y h k = h
if-Ends false x y h k = k

poke-Ends : (buf : List ℕ) (offs : ℕ) (bytes : List ℕ) → Ends (poke buf offs bytes)
unfolding poke
poke-Ends buf offs bytes = if-Ends (leb (offs + length bytes) (length buf)) _ _ tt tt

ensure_slots-Ends :
    (malloc : ℕ → Bool) (n : CtreeNode) (entries : ℕ) → Ends (ensure_slots malloc n entries)
unfolding ensure_slots
ensure_slots-Ends malloc n entries = ground arith

ensure_bytes-Ends :
    (malloc : ℕ → Bool) (n : CtreeNode) (bytes : ℕ) → Ends (ensure_bytes malloc n bytes)
unfolding ensure_bytes
ensure_bytes-Ends malloc n bytes = ground arith

ctree_ensure_entries-Ends :
    (malloc : ℕ → Bool) (page_size : ℕ) (n : CtreeNode) (count size : ℕ)
    → Ends (ctree_ensure_entries malloc page_size n count size)
unfolding ctree_ensure_entries
ctree_ensure_entries-Ends malloc page_size n count size =
    bind-Ends _ _ (ensure_slots-Ends malloc n (length n.entry + count))
      λ m. ensure_bytes-Ends malloc m _

store_entry-Ends : (n : CtreeNode) (key val : Bytes) → Ends (store_entry n key val)
unfolding store_entry push_slot
store_entry-Ends n key val =
    bind-Ends _ _ (poke-Ends n.buf n.bytes (encode 2 (length key) ++ encode 2 (length val))) λ b.
      bind-Ends _ _ (poke-Ends b _ key) λ b.
        bind-Ends _ _ (poke-Ends b _ val)
          λ b. bind-Ends _ _ (if-Ends (ltb (length n.entry) n.max_entries) _ _ tt tt) λ m. tt

pub ctree_node_append-Ends :
    (malloc : ℕ → Bool) (page_size : ℕ) (n : CtreeNode) (key val : Bytes)
    → Ends (ctree_node_append malloc page_size n key val)
unfolding ctree_node_append
ctree_node_append-Ends malloc page_size n key val =
    bind-Ends _ _ (ctree_ensure_entries-Ends malloc page_size n 1 _) λ m. store_entry-Ends m key val
