-- ===== src/Ctree/Node.antt =====
-- The nodes of lib/ctree.c: a buffer with a header and packed entries, and an array of the places
-- of the keys and values in it. `malloc` says whether an allocation of so many bytes succeeds.
pub mod Append
pub mod Disk
pub mod Ends
pub mod Image
pub mod Overflow
pub mod Parse
pub mod Reads
pub mod Total
use fuse_example.Base.{
  ℕ, zero, suc, ◌+◌, ◌-◌, ◌*◌, ◌%◌, ◌^◌, Bool, true, false, not, ◌&&◌, ◌||◌, List, [], ◌∷◌, ◌++◌,
  length, replicate, leb, ltb, ◌==◌, if◌then◌else◌,
}
use fuse_example.Errors.{
  Errno, enomem, eio, Result, ok, err, Run, done, fail, fault, out_of_fuel, ◌>>=◌, ◌>>◌,
}
use fuse_example.Memory.{encode, peek, poke}
use fuse_example.Io.{Io, io_align, io_pages, io_bytes, io_read, io_write}
use fuse_example.Crc64.{load, crc64}
use fuse_example.Lsm.Key.{Bytes}

-- `struct aulsmfs_ptr`, by the numbers that its fields hold.
pub record AulsmfsPtr : Type 0 where
  pub offs : ℕ
  pub size : ℕ
  pub csum : ℕ

abbrev pub null_ptr : AulsmfsPtr
null_ptr = record { offs = 0; size = 0; csum = 0 }

-- `struct ctree_entry`
pub record CtreeEntry : Type 0 where
  pub key_offs : ℕ
  pub key_size : ℕ
  pub val_offs : ℕ
  pub val_size : ℕ

-- `struct ctree_node`. `entry` lists the used slots of the array, `entries` is its length and
-- `max_entries` the number of slots.
pub record CtreeNode : Type 0 where
  pub buf : List ℕ
  pub bytes : ℕ
  pub max_bytes : ℕ
  pub entry : List CtreeEntry
  pub max_entries : ℕ
  pub ptr : AulsmfsPtr
  pub level : ℕ

abbrev pub min_fanout : ℕ
min_fanout = 100

-- The sizes of `struct aulsmfs_node_header`, `struct aulsmfs_node_entry` and `struct ctree_entry`.
abbrev pub header_size : ℕ
header_size = 16

abbrev pub entry_size : ℕ
entry_size = 4

abbrev pub slot_size : ℕ
slot_size = 32

-- `ctree_node_create`: a node without buffer and slots.
unfoldable pub ctree_node_create : CtreeNode
ctree_node_create = record {
  buf = [];
  bytes = 0;
  max_bytes = 0;
  entry = [];
  max_entries = 0;
  ptr = null_ptr;
  level = 0;
}

-- `ctree_node_reset`
unfoldable pub ctree_node_reset : CtreeNode → CtreeNode
ctree_node_reset n = record n { buf = replicate n.max_bytes 0; bytes = header_size; entry = [] }

-- `__ctree_node_setup` and `ctree_node_setup`. The bytes of a fresh buffer are arbitrary; the
-- reset that follows clears them.
unfoldable pub ctree_node_setup : (malloc : ℕ → Bool) (page_size : ℕ) → Run CtreeNode
unfolding ctree_node_reset ctree_node_create
ctree_node_setup malloc page_size =
    let size = io_align page_size 4096 in
    if malloc size && malloc (min_fanout * slot_size)
    then done (
        ctree_node_reset (record ctree_node_create {
          buf = replicate size 0;
          max_bytes = size;
          max_entries = min_fanout;
        }))
    else fail enomem

-- `ctree_node_can_append`
unfoldable pub ctree_node_can_append : (page_size : ℕ) → CtreeNode → (count size : ℕ) → Bool
ctree_node_can_append page_size n count size =
    leb (length n.entry + count) min_fanout
    || (io_pages page_size (n.bytes + (count * entry_size + size)) == io_pages page_size n.bytes)

-- The size that both halves of `ctree_ensure_entries` ask `realloc` for.
abbrev pub grown : (prev need : ℕ) → ℕ
grown prev need = if ltb (prev * 2) need then prev * 2 else need

-- The first half of `ctree_ensure_entries`: slots.
unfoldable pub ensure_slots : (malloc : ℕ → Bool) → CtreeNode → (entries : ℕ) → Run CtreeNode
ensure_slots malloc n entries =
    if ltb n.max_entries entries
    then (if malloc (grown n.max_entries entries * slot_size)
        then done (record n { max_entries = grown n.max_entries entries })
        else fail enomem)
    else done n

-- The second half: the buffer, with what is new in it zeroed.
unfoldable pub ensure_bytes : (malloc : ℕ → Bool) → CtreeNode → (bytes : ℕ) → Run CtreeNode
ensure_bytes malloc n bytes =
    if ltb n.max_bytes bytes
    then (if malloc (grown n.max_bytes bytes)
        then done (record n {
          buf = n.buf ++ replicate (grown n.max_bytes bytes - n.max_bytes) 0;
          max_bytes = grown n.max_bytes bytes;
        })
        else fail enomem)
    else done n

unfoldable pub ctree_ensure_entries :
    (malloc : ℕ → Bool) (page_size : ℕ) → CtreeNode → (count size : ℕ) → Run CtreeNode
unfolding ensure_slots ensure_bytes
ctree_ensure_entries malloc page_size n count size = do
  m ← ensure_slots malloc n (length n.entry + count)
  ensure_bytes malloc m (io_bytes page_size (io_pages page_size (n.bytes + size)))

-- `node->entry[node->entries] = slot; ++node->entries`: a write past the array is a fault.
unfoldable pub push_slot : CtreeNode → CtreeEntry → Run CtreeNode
push_slot n slot =
    if ltb (length n.entry) n.max_entries
    then done (record n { entry = n.entry ++ slot ∷ [] })
    else fault

-- `ctree_node_append`, after its room is ensured.
unfoldable pub store_entry : CtreeNode → (key val : Bytes) → Run CtreeNode
unfolding push_slot
store_entry n key val = do
  let key_offs = n.bytes + entry_size
  let val_offs = key_offs + length key
  b ← poke n.buf n.bytes (encode 2 (length key) ++ encode 2 (length val))
  b ← poke b key_offs key
  b ← poke b val_offs val
  m ←
      push_slot (record n { buf = b })
        (record {
          key_offs = key_offs;
          key_size = length key;
          val_offs = val_offs;
          val_size = length val;
        })
  done (record m { bytes = m.bytes + (length key + length val + entry_size) })

-- `ctree_node_append`
unfoldable pub ctree_node_append :
    (malloc : ℕ → Bool) (page_size : ℕ) → CtreeNode → (key val : Bytes) → Run CtreeNode
ctree_node_append malloc page_size n key val = do
  m ← ctree_ensure_entries malloc page_size n 1 (length key + length val + entry_size)
  store_entry m key val

-- `ctree_node_write`: the node with its pointer set, and the disk afterwards.
unfoldable pub ctree_node_write :
    (io : Io) → io.Disk → CtreeNode → (offs level : ℕ) → Run (io.Disk × CtreeNode)
ctree_node_write io disk n offs level = do
  let size = io_pages io.page_size n.bytes
  b ← poke n.buf 0 (encode 8 n.bytes)
  b ← poke b 8 (encode 8 level)
  image ← peek b 0 (io_bytes io.page_size size)
  elim (io_write io disk image offs) [
    | err e ↦ fail e
    | ok disk' ↦ done (
      disk',
      record n {
        buf = b;
        ptr = record { offs = offs; size = size; csum = crc64 image };
        level = level;
      },
    )
  ]

-- `ctree_node_parse`, the growth of the slots.
unfoldable pub grow_slots : (malloc : ℕ → Bool) → CtreeNode → Run CtreeNode
grow_slots malloc n =
    let next = if n.max_entries == 0 then min_fanout else n.max_entries * 2 in
    if length n.entry == n.max_entries
    then (if malloc (next * slot_size) then done (record n { max_entries = next }) else fail enomem)
    else done n

-- `memcpy(&entry, node->buf + offs, sizeof(entry))` and the two sizes of the entry.
unfoldable pub read_sizes : (buf : List ℕ) (offs : ℕ) → Run (ℕ × ℕ)
read_sizes buf offs = do
  key_field ← peek buf offs 2
  val_field ← peek buf (offs + 2) 2
  done (load key_field, load val_field)

-- Its loop, from the offset `offs` up to `bytes`.
unfoldable pub parse_loop :
    (malloc : ℕ → Bool) → (fuel : ℕ) → CtreeNode → (bytes offs : ℕ) → Run CtreeNode
unfolding grow_slots
parse_loop malloc zero n bytes offs = out_of_fuel
parse_loop malloc (suc fuel) n bytes offs = elim (offs == bytes) [
  | true ↦ done n
  | false ↦ elim (ltb bytes (offs + entry_size)) [
    | true ↦ fail eio
    | false ↦ do
      (key_size, val_size) ← read_sizes n.buf offs
      elim (ltb bytes (offs + entry_size + key_size + val_size)) [
        | true ↦ fail eio
        | false ↦ do
          m ← grow_slots malloc n
          m ← push_slot m (record {
            key_offs = offs + entry_size;
            key_size = key_size;
            val_offs = offs + entry_size + key_size;
            val_size = val_size;
          })
          parse_loop malloc fuel m bytes (offs + entry_size + key_size + val_size)
      ]
  ]
]

-- The level is stored in 64 bits and read into an `int`.
unfoldable pub ctree_node_parse : (malloc : ℕ → Bool) (page_size : ℕ) → CtreeNode → Run CtreeNode
unfolding parse_loop
ctree_node_parse malloc page_size n = do
  size_field ← peek n.buf 0 8
  level_field ← peek n.buf 8 8
  let bytes = load size_field
  if ltb (io_bytes page_size n.ptr.size) bytes
      then fail eio
      else (if load level_field % 2 ^ 32 == n.level
          then parse_loop malloc (bytes + 1) n bytes header_size
          else fail eio)

-- `ctree_node_read`, into a node fresh from `ctree_node_create`.
unfoldable pub ctree_node_read :
    (malloc : ℕ → Bool) (io : Io) → io.Disk → AulsmfsPtr → (level : ℕ) → Run CtreeNode
unfolding ctree_node_parse ctree_node_create
ctree_node_read malloc io disk ptr level =
    let size = io_bytes io.page_size ptr.size in
    if malloc size
    then elim (io_read io disk ptr.size ptr.offs) [
      | err e ↦ fail e
      | ok image ↦
          if crc64 image == ptr.csum
          then ctree_node_parse malloc io.page_size
              (record ctree_node_create { buf = image; max_bytes = size; ptr = ptr; level = level })
          else fail eio
    ]
    else fail enomem

-- `ctree_node_key` and `ctree_node_val`, where the slot is used.
unfoldable pub ctree_node_key : CtreeNode → CtreeEntry → Run Bytes
ctree_node_key n slot = peek n.buf slot.key_offs slot.key_size

unfoldable pub ctree_node_val : CtreeNode → CtreeEntry → Run Bytes
ctree_node_val n slot = peek n.buf slot.val_offs slot.val_size
