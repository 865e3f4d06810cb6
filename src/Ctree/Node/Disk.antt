-- ===== src/Ctree/Node/Disk.antt =====
-- `ctree_node_write` and `ctree_node_read` of lib/ctree.c: a node on disk and back.
use mathlib.Core.Path.{subst, ap₂}
use fuse_example.Base.{
  ℕ, ◌+◌, ◌-◌, ◌*◌, ◌^◌, ◌≤◌, ◌<◌, ◌≡◌, refl, sym, ap, ◌∙◌, arith, Bool, true, List, [], ◌++◌,
  append_assoc, length, length-append, take, drop, drop-drop, drop-append, take-append-drop,
  length-drop, length-take, Bool-cases, inl, inr, ◌==◌,
}
use fuse_example.Errors.{Result-cases, enomem, ok, err, Run, done, fail, fault, out_of_fuel, ◌>>=◌}
use fuse_example.Memory.{encode, peek, peek_at, poke, poke_at}
use fuse_example.Io.{Io, io_pages, io_bytes, io_read, io_write, io_bytes-io_pages}
use fuse_example.Crc64.{crc64}
use fuse_example.Lsm.Key.{Entry}
use fuse_example.Ctree.Node.{
  CtreeNode, header_size, ctree_node_create, ctree_node_read, ctree_node_write,
}
use fuse_example.Ctree.Node.Image.{image, layout, Fits, Holds, HasPages}
use fuse_example.Ctree.Node.Parse.{Parsed}
use fuse_example.Ctree.Node.Reads.{Reads, layout-Reads, header_image, ctree_node_parse-Parsed}

module _ (io : Io) (n : CtreeNode) (es : List Entry) (h : Holds n es) (pages : 0 < io.page_size)
    (room : HasPages io.page_size n) (level : ℕ) where
  written_bytes : ℕ
  written_bytes = io_bytes io.page_size (io_pages io.page_size n.bytes)

  header_buf : List ℕ
  header_buf = encode 8 n.bytes ++ (encode 8 level ++ (image es ++ h.spare))

  -- What the last page holds after them.
  padding : List ℕ
  padding = take (written_bytes - n.bytes) h.spare

  -- The bytes that reach the disk.
  pub page_image : List ℕ
  page_image = header_image n.bytes level ++ (image es ++ padding)

  used : n.bytes ≡ header_size + length (image es)
  used = omega (arith, h.size, h.header_length, length-append h.header (image es))

  measured : length n.buf ≡ header_size + length (image es) + length h.spare
  measured = omega (
    arith,
    ap length h.contents,
    h.header_length,
    length-append (h.header ++ image es) h.spare,
    length-append h.header (image es),
  )

  first_poke : poke n.buf 0 (encode 8 n.bytes) ≡ done (encode 8 n.bytes ++ drop 8 n.buf)
  first_poke = poke_at n.buf [] n.buf (encode 8 n.bytes) 0 refl refl (omega (arith, measured))

  rest : drop 8 (drop 8 n.buf) ≡ image es ++ h.spare
  rest =
      drop-drop 8 8 n.buf
      ∙ ap₂ drop (sym h.header_length) (h.contents ∙ append_assoc h.header (image es) h.spare)
      ∙ drop-append h.header (image es ++ h.spare)

  second_poke : poke (encode 8 n.bytes ++ drop 8 n.buf) 8 (encode 8 level) ≡ done header_buf
  unfolding header_buf
  second_poke =
      poke_at _ (encode 8 n.bytes) (drop 8 n.buf) (encode 8 level) 8 refl refl
        (omega (arith, measured, length-drop 8 n.buf))
      ∙ ap (λ xs. done (encode 8 n.bytes ++ (encode 8 level ++ xs))) rest

  page_image_lem : page_image ≡ header_image n.bytes level ++ (image es ++ padding)
  unfolding page_image
  page_image_lem = refl

  length-page_image : length page_image ≡ written_bytes
  unfolding page_image padding written_bytes
  length-page_image = omega (
    arith,
    room,
    h.allocated,
    measured,
    used,
    length-append (image es) padding,
    length-append (header_image n.bytes level) (image es ++ padding),
    length-take (written_bytes - n.bytes) h.spare
        (omega (arith, room, h.allocated, measured, used)),
    (io_bytes-io_pages io.page_size n.bytes pages).0,
  )

  image_peek : peek header_buf 0 written_bytes ≡ done page_image
  unfolding header_buf page_image padding written_bytes
  image_peek =
      peek_at header_buf [] page_image (drop (written_bytes - n.bytes) h.spare) 0 written_bytes
        split refl (sym length-page_image)
    where
      split : header_buf ≡ page_image ++ drop (written_bytes - n.bytes) h.spare
      split =
          ap (λ xs. header_image n.bytes level ++ (image es ++ xs))
            (sym (take-append-drop (written_bytes - n.bytes) h.spare))
          ∙ simp append_assoc

  -- The node after the write.
  pub written : (offs : ℕ) → CtreeNode
  written offs = record n {
    buf = header_buf;
    ptr = record { offs = offs; size = io_pages io.page_size n.bytes; csum = crc64 page_image };
    level = level;
  }

  pub ctree_node_write-written :
      (disk : io.Disk) (offs : ℕ)
      → ctree_node_write io disk n offs level ≡ elim (io_write io disk page_image offs) [
        | err e ↦ fail e
        | ok disk' ↦ done (disk', written offs)
      ]
  unfolding ctree_node_write written written_bytes
  ctree_node_write-written disk offs = rw (first_poke, ◌>>=◌, second_poke, ◌>>=◌, image_peek) refl

  pub written-Holds : (offs : ℕ) → Holds (written offs) es
  unfolding written header_buf
  written-Holds offs = record {
    header = encode 8 n.bytes ++ encode 8 level;
    spare = h.spare;
    header_length = refl;
    contents = simp append_assoc;
    size = omega (arith, used, length-append (encode 8 n.bytes ++ encode 8 level) (image es));
    slots = h.slots;
    allocated = omega (
      arith,
      h.allocated,
      measured,
      length-append (encode 8 level) (image es ++ h.spare),
      length-append (encode 8 n.bytes) (encode 8 level ++ (image es ++ h.spare)),
      length-append (image es) h.spare,
    );
    slots_fit = h.slots_fit;
  }

  pub written-entry : (offs : ℕ) → (written offs).entry ≡ n.entry
  unfolding written
  written-entry offs = refl

  pub written-HasPages : (offs : ℕ) → HasPages io.page_size (written offs)
  unfolding written
  written-HasPages offs = room

  pub written-slots : (offs : ℕ) → 1 ≤ n.max_entries → 1 ≤ (written offs).max_entries
  unfolding written
  written-slots offs some_slots = some_slots

-- A disk from which a write that succeeded is read back.
abbrev pub ReadsBack : Io → Type 0
ReadsBack io =
    (disk disk' : io.Disk) (bytes : List ℕ) (offs : ℕ)
    → io.write disk bytes offs ≡ ok disk'
    → io.read disk' (length bytes) offs ≡ ok bytes

-- What a read comes to: a node with these entries, or memory was exhausted.
abbrev pub ReadAs : (level : ℕ) → List Entry → Run CtreeNode → Type 0
ReadAs level es (done m) = Reads m m.entry es × (m.level ≡ level)
ReadAs level es (fail e) = e ≡ enomem
ReadAs level es fault = ⊥
ReadAs level es out_of_fuel = ⊥

-- A write that can be read back under the pointer it set, or the error of the disk.
abbrev pub RoundTrip :
    (malloc : ℕ → Bool) (io : Io)
    → io.Disk
    → (offs level : ℕ) → List Entry
    → Run (io.Disk × CtreeNode)
    → Type 0
RoundTrip malloc io disk offs level es (done (disk', n)) =
    ReadAs level es (ctree_node_read malloc io disk' n.ptr level)
RoundTrip malloc io disk offs level es (fail e) =
    (bytes : List ℕ) × (io_write io disk bytes offs ≡ err e)
RoundTrip malloc io disk offs level es fault = ⊥
RoundTrip malloc io disk offs level es out_of_fuel = ⊥

ReadAs-of_Parsed :
    (n : CtreeNode) (level : ℕ) (pre : List ℕ) (es : List Entry) (spare : List ℕ)
    (r : Run CtreeNode)
    → n.buf ≡ pre ++ (image es ++ spare)
    → header_size ≡ length pre
    → n.level ≡ level
    → Parsed n (layout header_size es) r
    → ReadAs level es r
ReadAs-of_Parsed n level pre es spare (done m) c s l (k, e, fit) =
    subst (λ m. Reads m m.entry es × (m.level ≡ level)) (sym e)
      (
        layout-Reads (record n { entry = layout header_size es; max_entries = k }) header_size pre
            es spare c s,
        l,
      )
ReadAs-of_Parsed n level pre es spare (fail e) c s l p = p
ReadAs-of_Parsed n level pre es spare fault c s l p = elim p [ ]
ReadAs-of_Parsed n level pre es spare out_of_fuel c s l p = elim p [ ]

module _ (malloc : ℕ → Bool) (io : Io) (disk : io.Disk) (n : CtreeNode) (offs level : ℕ)
    (es : List Entry) (back : ReadsBack io) (pages : 0 < io.page_size) (h : Holds n es)
    (room : HasPages io.page_size n) (fits : Fits es) (small : n.bytes < 2 ^ 64)
    (int : level < 2 ^ 31) where
  read_written :
      (disk' : io.Disk)
      → io_write io disk (page_image io n es h pages room level) offs ≡ ok disk'
      → ReadAs level es
          (ctree_node_read malloc io disk' (written io n es h pages room level offs).ptr level)
  unfolding ctree_node_read io_read io_write written written_bytes io_bytes
  read_written disk' e =
      elim (Bool-cases (malloc (io_bytes io.page_size (io_pages io.page_size n.bytes)))) [
        | inr full ↦ rw full refl
        | inl enough ↦
            rw (enough, image_read, same)
              (ReadAs-of_Parsed read_node level (header_image n.bytes level) es spare' _ contents
                refl refl
                (ctree_node_parse-Parsed malloc io.page_size read_node n.bytes es spare' fits
                  contents (used io n es h pages room level) small int
                  (io_bytes-io_pages io.page_size n.bytes pages).0 refl))
      ]
    where
      spare' : List ℕ
      spare' = padding io n es h pages room level

      read_node : CtreeNode
      read_node = record ctree_node_create {
        buf = page_image io n es h pages room level;
        max_bytes = io_bytes io.page_size (io_pages io.page_size n.bytes);
        ptr = (written io n es h pages room level offs).ptr;
        level = level;
      }

      contents : read_node.buf ≡ header_image n.bytes level ++ (image es ++ spare')
      contents = page_image_lem io n es h pages room level

      same :
          (crc64 (page_image io n es h pages room level)
            == crc64 (page_image io n es h pages room level))
          ≡ true
      same = ground arith

      image_read :
          io_read io disk' (io_pages io.page_size n.bytes) offs
          ≡ ok (page_image io n es h pages room level)
      image_read =
          ap (λ k. io.read disk' k (offs * io.page_size))
            (sym (length-page_image io n es h pages room level))
          ∙ back _ _ _ _ e

  -- Where the disk reads back what was written, a node that holds entries with 16-bit sizes on
  -- allocated pages, with a size below 2^64 and a level below 2^31, is written, and a read under
  -- the pointer that the write set gives a node of that level whose slots read the same keys and
  -- values in order, or -ENOMEM; a write otherwise fails with an error of the disk, and neither
  -- leaves a buffer.
  pub ctree_node_write-RoundTrip :
      RoundTrip malloc io disk offs level es (ctree_node_write io disk n offs level)
  ctree_node_write-RoundTrip =
      rw (ctree_node_write-written io n es h pages room level disk offs)
        (elim (Result-cases (io_write io disk (page_image io n es h pages room level) offs)) [
          | inl (e, failed) ↦ rw failed (page_image io n es h pages room level, failed)
          | inr (disk', stored) ↦ rw stored (read_written disk' stored)
        ])
