-- ===== src/Ctree/Builder/Nodes.antt =====
-- The nodes of the builder of lib/ctree.c stay within their buffers, where every entry fits a page.
use mathlib.Core.Path.{subst}
use fuse_example.Base.{
  ℕ, zero, suc, ◌+◌, ◌-◌, ◌*◌, ◌^◌, ◌≤◌, ◌<◌, ◌≡◌, refl, sym, ap, ◌∙◌, arith, Bool, List, [], ◌∷◌,
  ◌++◌, length, length-append, length-replicate, replicate, Bool-cases, inl, inr, ◌⊎◌, ◌&&◌,
}
use fuse_example.Bits.{shl}
use fuse_example.Errors.{enomem, Run, done, fail, fault, out_of_fuel, Result-cases}
use fuse_example.Io.{Io, io_align, io_pages, io_bytes, io_write, io_bytes-io_pages}
use fuse_example.Io.Align.{io_align-io_bytes}
use fuse_example.Lsm.Key.{Bytes, Entry}
use fuse_example.Mtree.Spec.{All, append-All}
use fuse_example.Ctree.Node.{
  CtreeNode, CtreeEntry, AulsmfsPtr, header_size, entry_size, slot_size, min_fanout,
  ctree_node_create, ctree_node_setup, ctree_node_reset, ctree_node_append, ctree_node_write,
  ctree_node_key,
}
use fuse_example.Ctree.Node.Image.{image, length-layout, Holds, HasPages}
use fuse_example.Ctree.Node.Append.{Appended, ctree_node_append-Appended}
use fuse_example.Ctree.Node.Disk.{
  ctree_node_write-written, page_image, written-Holds, written-HasPages, written-slots,
  written-entry,
}
use fuse_example.Ctree.Node.Reads.{Reads, Holds-Reads}
use fuse_example.Ctree.Builder.{ptr_image}

-- A key that fits a page with a pointer as its value.
abbrev pub IsShort : (page_size : ℕ) → Bytes → Type 0
IsShort page_size key = length key + 28 ≤ page_size

pub length-ptr_image : (p : AulsmfsPtr) → length (ptr_image p) ≡ 24
length-ptr_image p = refl

-- A node in its buffer, with slots, and short keys.
pub record IsSound (page_size : ℕ) (n : CtreeNode) : Type 0 where
  pub es : List Entry
  pub holds : Holds n es
  pub pages : HasPages page_size n
  pub slots : 1 ≤ n.max_entries
  pub keys : All (λ e. IsShort page_size e.key) es

-- A run that ends without a fault, with `P` of its result.
abbrev pub Gives : {A : Type 0} → (A → Type 0) → Run A → Type 0
Gives P (done a) = P a
Gives P (fail e) = Unit
Gives P fault = ⊥
Gives P out_of_fuel = ⊥

module _ (page_size : ℕ) (paged : 0 < page_size) where
  used_some : (n : CtreeNode) (es : List Entry) → Holds n es → 16 ≤ n.bytes
  used_some n es h = omega (arith, h.size, h.header_length, length-append h.header (image es))

  pages_mono :
      (a b : ℕ)
      → a ≤ b
      → io_bytes page_size (io_pages page_size a) ≤ io_bytes page_size (io_pages page_size b)
  unfolding io_pages io_bytes
  pages_mono a b h = grind (arith, paged)

  one_page : (a : ℕ) → 0 < a → page_size ≤ io_bytes page_size (io_pages page_size a)
  unfolding io_pages io_bytes
  one_page a h = grind (arith, paged)

  next_page :
      (a b : ℕ)
      → b ≤ page_size
      → io_bytes page_size (io_pages page_size (a + b))
        ≤ io_bytes page_size (io_pages page_size a) + page_size
  unfolding io_pages io_bytes
  next_page a b h = grind (arith, paged)

  append-cases :
      (n m : CtreeNode) (e : Entry) (h : IsSound page_size n)
      → IsShort page_size e.key
      → Holds m (h.es ++ e ∷ []) × HasPages page_size m
      → IsSound page_size m
  append-cases n m e h short (holds, pages) = record {
    es = h.es ++ e ∷ [];
    holds = holds;
    pages = pages;
    slots = omega (
      arith,
      holds.slots_fit,
      ap length holds.slots,
      length-layout header_size (h.es ++ e ∷ []),
      length-append h.es (e ∷ []),
    );
    keys = append-All (λ e. IsShort page_size e.key) h.es (e ∷ []) h.keys (short, tt);
  }

  pub ctree_node_append-IsSound :
      (malloc : ℕ → Bool) (n : CtreeNode) (key val : Bytes)
      → IsSound page_size n
      → IsShort page_size key
      → length key + length val + entry_size ≤ page_size
      → Gives (IsSound page_size) (ctree_node_append malloc page_size n key val)
  ctree_node_append-IsSound malloc n key val h short fits =
      from_Appended (ctree_node_append malloc page_size n key val) (
        ctree_node_append-Appended malloc page_size n h.es e paged h.holds h.slots (
          omega (
            arith,
            h.pages,
            next_page n.bytes (length key + length val + entry_size) fits,
            one_page n.bytes (omega (arith, used_some n h.es h.holds)),
          )))
    where
      e : Entry
      e = record { key = key; val = val }

      from_Appended :
          (r : Run CtreeNode)
          → Appended page_size h.es (record { key = key; val = val }) r
          → Gives (IsSound page_size) r
      from_Appended (done m) a = append-cases n m (record { key = key; val = val }) h short a
      from_Appended (fail k) a = tt
      from_Appended fault a = a
      from_Appended out_of_fuel a = a

  replicate-add : (a b : ℕ) → replicate {A = ℕ} (a + b) 0 ≡ replicate a 0 ++ replicate b 0
  replicate-add zero b = let e : b ≡ 0 + b = omega arith in ap (λ n. replicate {A = ℕ} n 0) (sym e)
  replicate-add (suc a) b =
      let e : suc (a + b) ≡ suc a + b = omega arith in
      ap (λ n. replicate {A = ℕ} n 0) (sym e) ∙ ap (λ (xs : List ℕ). 0 ∷ xs) (replicate-add a b)

  pub reset-IsSound :
      (n : CtreeNode)
      → io_bytes page_size (io_pages page_size 16) ≤ n.max_bytes
      → 1 ≤ n.max_entries
      → IsSound page_size (ctree_node_reset n)
  unfolding ctree_node_reset
  reset-IsSound n room slots = record {
    es = [];
    holds = record {
      header = replicate 16 0;
      spare = replicate (n.max_bytes - 16) 0;
      header_length = refl;
      contents =
          let split : n.max_bytes ≡ 16 + (n.max_bytes - 16) =
            omega (arith, room, (io_bytes-io_pages page_size 16 paged).0) in
          ap (λ m. replicate {A = ℕ} m 0) split ∙ replicate-add 16 (n.max_bytes - 16);
      size = refl;
      slots = refl;
      allocated = sym (length-replicate {A = ℕ} n.max_bytes 0);
      slots_fit = omega arith;
    };
    pages = room;
    slots = slots;
    keys = tt;
  }

  -- After a reset, which keeps the buffer and the slots.
  pub again-IsSound : (n : CtreeNode) → IsSound page_size n → IsSound page_size (ctree_node_reset n)
  again-IsSound n h =
      reset-IsSound n (omega (arith, h.pages, pages_mono 16 n.bytes (used_some n h.es h.holds)))
        h.slots

  pub setup-IsSound :
      (malloc : ℕ → Bool) (k j : ℕ)
      → k + j ≡ 64
      → page_size ≡ shl k 1
      → 4096 + page_size ≤ 2 ^ 64
      → (ctree_node_setup malloc page_size ≡ fail enomem)
        ⊎ ((n : CtreeNode) × (ctree_node_setup malloc page_size ≡ done n)
            × (n.entry ≡ [])
            × IsSound page_size n)
  unfolding ctree_node_setup
  setup-IsSound malloc k j width page small =
      elim (Bool-cases (malloc size && malloc (min_fanout * slot_size))) [
        | inr full ↦ inl (rw full refl)
        | inl enough ↦ inr (
          ctree_node_reset fresh,
          rw enough refl,
          reset_entry fresh,
          reset-IsSound fresh room (omega arith),
        )
      ]
    where
      size : ℕ
      size = io_align page_size 4096

      fresh : CtreeNode
      fresh = record ctree_node_create {
        buf = replicate size 0;
        max_bytes = size;
        max_entries = min_fanout;
      }

      aligned : size ≡ io_bytes page_size (io_pages page_size 4096)
      aligned =
          subst (λ p. io_align p 4096 ≡ io_bytes p (io_pages p 4096)) (sym page)
            (io_align-io_bytes k j 4096 width
              (subst (λ p. 4096 + p - 1 < 2 ^ 64) page (omega (arith, small, paged))))

      room : io_bytes page_size (io_pages page_size 16) ≤ size
      room = omega (arith, aligned, pages_mono 16 4096 (omega arith))

      reset_entry : (n : CtreeNode) → (ctree_node_reset n).entry ≡ []
      reset_entry n = refl

module _ (io : Io) (paged : 0 < io.page_size) where
  -- A written node, and its first key.
  abbrev pub Written : CtreeNode → io.Disk × CtreeNode → Type 0
  Written n w = IsSound io.page_size w.1 × (w.1.entry ≡ n.entry)

  pub ctree_node_write-Written :
      (disk : io.Disk) (n : CtreeNode) (offs level : ℕ)
      → IsSound io.page_size n
      → Gives (Written n) (ctree_node_write io disk n offs level)
  ctree_node_write-Written disk n offs level h =
      rw (ctree_node_write-written io n h.es h.holds paged h.pages level disk offs)
        (elim (Result-cases
          (io_write io disk (page_image io n h.es h.holds paged h.pages level) offs)) [
            | inl (e, bad) ↦ rw bad tt
            | inr (disk', good) ↦ rw good (
              record {
                es = h.es;
                holds = written-Holds io n h.es h.holds paged h.pages level offs;
                pages = written-HasPages io n h.es h.holds paged h.pages level offs;
                slots = written-slots io n h.es h.holds paged h.pages level offs h.slots;
                keys = h.keys;
              },
              written-entry io n h.es h.holds paged h.pages level offs,
            )
          ])

first_key :
    (page_size : ℕ) (n : CtreeNode) (es : List Entry) (first : CtreeEntry) (slots : List CtreeEntry)
    → Reads n (first ∷ slots) es
    → All (λ e. IsShort page_size e.key) es
    → Gives (IsShort page_size) (ctree_node_key n first)
first_key page_size n [] first slots h short = elim h [ ]
first_key page_size n (e ∷ es) first slots h short = rw h.0 short.0

pub ctree_node_key-IsShort :
    (page_size : ℕ) (n : CtreeNode) (first : CtreeEntry) (slots : List CtreeEntry)
    → IsSound page_size n
    → n.entry ≡ first ∷ slots
    → Gives (IsShort page_size) (ctree_node_key n first)
ctree_node_key-IsShort page_size n first slots h e =
    first_key page_size n h.es first slots
      (subst (λ xs. Reads n xs h.es) e (Holds-Reads n h.es h.holds)) h.keys
