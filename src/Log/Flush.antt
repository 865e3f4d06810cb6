-- ===== src/Log/Flush.antt =====
-- `trans_log_flush` of lib/log.c writes the chunk, up to sixteen of them.
use mathlib.Core.Path.{subst}
use fuse_example.Base.{
  ℕ, ◌+◌, ◌-◌, ◌*◌, ◌≤◌, ◌<◌, ◌≡◌, refl, sym, ap, ◌∙◌, arith, Bool, true, false, ◌⊎◌, inl, inr, [],
  ◌∷◌, ◌++◌, length, drop, replicate, leb, ◌==◌, Bool-cases, append_assoc, length-append,
  length-replicate, length-drop,
}
use fuse_example.Errors.{ok, done, Result-cases}
use fuse_example.Memory.{poke, poke_at, peek_at}
use fuse_example.Alloc.{Alloc, alloc_reserve}
use fuse_example.Io.{Io, io_align, io_pages, io_bytes, io_write}
use fuse_example.Crc64.{crc64}
use fuse_example.Lsm.Key.{Bytes}
use fuse_example.Ctree.Node.{AulsmfsPtr}
use fuse_example.Log.{
  LogSite, or_return, on_copy, put_log, ptr_size, log_header_size, next_chunks,
  trans_log_reserve_chunk, trans_log_write, trans_log_flush,
}
use fuse_example.Log.Holds.{Yields, or_return-Yields, Holds, HasChunks}

next_chunks_first :
    (max_chunks chunks : ℕ)
    → max_chunks ≡ 0
    → chunks ≤ max_chunks
    → next_chunks max_chunks (chunks + 1) ≡ 16
unfolding next_chunks
next_chunks_first max_chunks chunks e h = ground arith

pages-whole :
    (page_size size pages : ℕ)
    → 0 < page_size
    → size ≤ io_bytes page_size pages
    → (size ≤ io_bytes page_size (io_pages page_size size))
      × (io_bytes page_size (io_pages page_size size) ≤ io_bytes page_size pages)
unfolding io_pages io_bytes
pages-whole p size pages h k = (grind arith, grind arith)

module _ (malloc : ℕ → Bool) (io : Io) (alloc : Alloc) where
  abbrev pub Held : LogSite io alloc → LogSite io alloc → Bytes → Type 0
  Held s t used =
      Holds io.page_size t.log used
      × HasChunks t.log
      × (t.log.chunk ≡ s.log.chunk)
      × (t.disk ≡ s.disk)
      × (t.log.chunk_max_size ≡ s.log.chunk_max_size)

  reserve_chunk-Held :
      (s : LogSite io alloc) (used : Bytes)
      → Holds io.page_size s.log used
      → HasChunks s.log
      → length s.log.chunk < 16
      → Yields
          (λ t u. Held s t used × (length t.log.chunk < t.log.max_chunks))
          (λ t. Held s t used)
          (trans_log_reserve_chunk malloc io alloc s 1)
  unfolding trans_log_reserve_chunk
  reserve_chunk-Held s used h c few =
      elim (Bool-cases (leb (length s.log.chunk + 1) s.log.max_chunks)) [
        | inl e ↦ rw e ((h, c, refl, refl, refl), ground arith)
        | inr e ↦ elim c.header [
          | inr full ↦ absurd (ground arith)
          | inl (none_yet, no_header) ↦
              let no_bytes : (s.log.header_bytes == 0) ≡ true = ground arith in
              let first = next_chunks_first s.log.max_chunks (length s.log.chunk) none_yet c.fits in
              elim (Bool-cases (malloc (io_align io.page_size (16 * ptr_size + log_header_size)))) [
                | inl m ↦
                    rw (e, no_bytes, first, m)
                      (
                        (
                          record {
                            spare = h.spare;
                            pages = h.pages;
                            split = h.split;
                            size = h.size;
                            room = h.room;
                            whole = h.whole;
                          },
                          record { fits = omega (arith, few); header = inr refl },
                          refl,
                          refl,
                          refl,
                        ),
                        few,
                      )
                | inr m ↦ rw (e, no_bytes, first, m) (h, c, refl, refl, refl)
              ]
        ]
      ]

  -- A write leaves the log alone, and its pointer is that of what was written.
  Wrote : LogSite io alloc → Bytes → (size : ℕ) → LogSite io alloc → AulsmfsPtr → Type 0
  Wrote s image size t ptr =
      (t.log ≡ s.log)
      × (io_write io s.disk image ptr.offs ≡ ok t.disk)
      × (ptr.size ≡ size)
      × (ptr.csum ≡ crc64 image)

  Refused : LogSite io alloc → LogSite io alloc → Type 0
  Refused s t = (t.log ≡ s.log) × (t.disk ≡ s.disk)

  write-Wrote :
      (s : LogSite io alloc) (image rest : Bytes) (size : ℕ)
      → io_bytes io.page_size size ≡ length image
      → Yields
          (λ t ptr. Wrote s image size t ptr)
          (λ t. Refused s t)
          (trans_log_write malloc io alloc s (image ++ rest) size)
  unfolding trans_log_write Wrote Refused
  write-Wrote s image rest size full = elim (Result-cases (alloc_reserve alloc s.space size)) [
    | inl (e, none_left) ↦ rw (trans_log_write, none_left) (refl, refl)
    | inr ((space, offs), found) ↦
        let found_image =
          peek_at (image ++ rest) [] image rest 0 (io_bytes io.page_size size) refl refl full in
        elim (Result-cases (io_write io s.disk image offs)) [
          | inl (e, bad) ↦ rw (trans_log_write, found, found_image, on_copy, bad) (refl, refl)
          | inr (disk, good) ↦
              rw (trans_log_write, found, found_image, on_copy, good) (refl, good, refl, refl)
        ]
  ]

  -- The bytes of a chunk on disk: zeros up to the end of a page.
  abbrev pub padded : Bytes → Bytes
  padded used =
      used
      ++ replicate (io_bytes io.page_size (io_pages io.page_size (length used)) - length used) 0

  -- A chunk has been written, its pointer is the last one, and the chunk in memory holds `next`.
  abbrev pub Sent : LogSite io alloc → (used : Bytes) → LogSite io alloc → (next : Bytes) → Type 0
  Sent s used t next =
      Holds io.page_size t.log next
      × HasChunks t.log
      × ((ptr : AulsmfsPtr) × (t.log.chunk ≡ s.log.chunk ++ ptr ∷ [])
          × (io_write io s.disk (padded used) ptr.offs ≡ ok t.disk)
          × (ptr.size ≡ io_pages io.page_size (length used))
          × (ptr.csum ≡ crc64 (padded used)))

  abbrev pub Flushed : LogSite io alloc → (used : Bytes) → LogSite io alloc → Type 0
  Flushed s used t = Sent s used t [] × (t.log.chunk_max_size ≡ s.log.chunk_max_size)

  -- The state after a written chunk.
  after_write :
      (s t t' : LogSite io alloc) (used image buf : Bytes) (ptr : AulsmfsPtr) (pages : ℕ)
      → Held s t used
      → length t.log.chunk < t.log.max_chunks
      → length buf ≡ t.log.chunk_max_size
      → image ≡ padded used
      → Wrote
          (put_log t (record (t.log) { chunk_data = buf }))
          image
          (io_pages io.page_size (length used))
          t'
          ptr
      → Flushed s used (
          put_log t' (record (t'.log) {
            chunk = t'.log.chunk ++ ptr ∷ [];
            chunk_size = 0;
            pages = t'.log.pages + pages;
          }))
  unfolding Wrote
  after_write s t t' used image buf ptr pages (h, c, kept, same_disk, same_max) free full is_padded
        (e, w, size, csum) =
      (
        (
          record {
            spare = t'.log.chunk_data;
            pages = h.pages;
            split = refl;
            size = refl;
            room =
                omega (arith, ap (λ l. l.chunk_max_size) e, full, ap (λ l. length l.chunk_data) e);
            whole = ap (λ l. l.chunk_max_size) e ∙ h.whole;
          },
          record {
            fits = omega (
              arith,
              free,
              length-append t'.log.chunk (ptr ∷ []),
              ap (λ l. length l.chunk) e,
              ap (λ l. l.max_chunks) e,
            );
            header =
                subst (λ l. ((l.max_chunks ≡ 0) × (l.header_bytes ≡ 0)) ⊎ (l.max_chunks ≡ 16))
                  (sym e) c.header;
          },
          (
            ptr,
            ap (λ l. l.chunk ++ ptr ∷ []) e ∙ ap (λ ps. ps ++ ptr ∷ []) kept,
            ap (λ d. io_write io d (padded used) ptr.offs) (sym same_disk)
                ∙ ap (λ b. io_write io t.disk b ptr.offs) (sym is_padded)
                ∙ w,
            size,
            csum ∙ ap crc64 is_padded,
          ),
        ),
        ap (λ l. l.chunk_max_size) e ∙ same_max,
      )

  Wrote-size :
      (s t : LogSite io alloc) (image : Bytes) (ptr : AulsmfsPtr) (m n : ℕ)
      → m ≡ n
      → Wrote s image (io_pages io.page_size m) t ptr
      → Wrote s image (io_pages io.page_size n) t ptr
  Wrote-size s t image ptr m n e w = subst (λ k. Wrote s image (io_pages io.page_size k) t ptr) e w

  -- A refused write has only padded the chunk.
  Refused-Held :
      (s t t' : LogSite io alloc) (used buf spare : Bytes)
      → buf ≡ used ++ spare
      → length buf ≡ t.log.chunk_max_size
      → Held s t used
      → Refused (put_log t (record (t.log) { chunk_data = buf })) t'
      → Held s t' used
  unfolding Refused
  Refused-Held s t t' used buf spare split full (h, c, kept, same_disk, same_max) (e, d) = (
    record {
      spare = spare;
      pages = h.pages;
      split = ap (λ l. l.chunk_data) e ∙ split;
      size = ap (λ l. l.chunk_size) e ∙ h.size;
      room =
          omega
            (arith, ap (λ l. l.chunk_max_size) e, full, ap length split, length-append used spare);
      whole = ap (λ l. l.chunk_max_size) e ∙ h.whole;
    },
    record {
      fits = omega (arith, c.fits, ap (λ l. length l.chunk) e, ap (λ l. l.max_chunks) e);
      header =
          subst (λ l. ((l.max_chunks ≡ 0) × (l.header_bytes ≡ 0)) ⊎ (l.max_chunks ≡ 16)) (sym e)
            c.header;
    },
    ap (λ l. l.chunk) e ∙ kept,
    d ∙ same_disk,
    ap (λ l. l.chunk_max_size) e ∙ same_max,
  )

  send :
      (s t : LogSite io alloc) (used : Bytes)
      → 0 < io.page_size
      → Held s t used
      → length t.log.chunk < t.log.max_chunks
      → (let pages = io_pages io.page_size t.log.chunk_size in
          let bytes = io_bytes io.page_size pages in
          Yields
            (λ t u. Flushed s used t)
            (λ t. Held s t used)
            (on_copy
              (poke t.log.chunk_data t.log.chunk_size (replicate (bytes - t.log.chunk_size) 0))
              λ buf.
                or_return
                  (trans_log_write malloc io alloc
                    (put_log t (record (t.log) { chunk_data = buf }))
                    buf
                    pages)
                  λ s ptr. done (
                    put_log s (record (s.log) {
                      chunk = s.log.chunk ++ ptr ∷ [];
                      chunk_size = 0;
                      pages = s.log.pages + pages;
                    }),
                    ok tt,
                  )))
  send s t used paged (h, c, kept, same_disk, same_max) free =
      let n = t.log.chunk_size in
      let pages = io_pages io.page_size n in
      let pad : Bytes = replicate (io_bytes io.page_size pages - n) 0 in
      let rest : Bytes = drop (length pad) h.spare in
      let buf : Bytes = used ++ (pad ++ rest) in
      let at_buf = put_log t (record (t.log) { chunk_data = buf }) in
      let pad_size = length-replicate {A = ℕ} (io_bytes io.page_size pages - n) 0 in
      let bounds =
        pages-whole io.page_size n h.pages paged (omega (arith, h.whole, h.room, h.size)) in
      let short : length pad ≤ length h.spare =
        omega (arith, bounds.0, bounds.1, h.whole, h.room, h.size, pad_size) in
      let wrote =
        subst
          (λ b.
            Yields (λ t' ptr. Wrote at_buf (used ++ pad) pages t' ptr) (λ t'. Refused at_buf t')
              (trans_log_write malloc io alloc at_buf b pages))
          (append_assoc used pad rest)
          (write-Wrote at_buf (used ++ pad) rest pages
            (omega (arith, length-append used pad, pad_size, h.size, bounds.0))) in
      let full : length buf ≡ t.log.chunk_max_size = omega (
        arith,
        length-append used (pad ++ rest),
        length-append pad rest,
        length-drop (length pad) h.spare,
        short,
        h.room,
      ) in
      rw (poke_at t.log.chunk_data used h.spare pad n h.split h.size short, on_copy)
        (or_return-Yields (λ t' ptr. Wrote at_buf (used ++ pad) pages t' ptr)
          (λ t'. Refused at_buf t') (λ t u. Flushed s used t) (λ t. Held s t used)
          (trans_log_write malloc io alloc at_buf buf pages) _ wrote
          (λ t' ptr w.
            after_write s t t' used (used ++ pad) buf ptr pages (h, c, kept, same_disk, same_max)
              free full
              (ap (λ k. used ++ replicate (io_bytes io.page_size (io_pages io.page_size k) - k) 0)
                h.size)
              (Wrote-size at_buf t' (used ++ pad) ptr n (length used) h.size w))
          (λ t' r.
            Refused-Held s t t' used buf (pad ++ rest) refl full (h, c, kept, same_disk, same_max)
              r))

  pub flush_used :
      (s : LogSite io alloc) (used : Bytes)
      → 0 < io.page_size
      → Holds io.page_size s.log used
      → HasChunks s.log
      → length s.log.chunk < 16
      → (s.log.chunk_size == 0) ≡ false
      → Yields (λ t u. Flushed s used t) (λ t. Held s t used) (trans_log_flush malloc io alloc s)
  unfolding trans_log_flush
  flush_used s used paged h c few some_used = rw some_used (
      or_return-Yields (λ t u. Held s t used × (length t.log.chunk < t.log.max_chunks))
        (λ t. Held s t used) (λ t u. Flushed s used t) (λ t. Held s t used)
        (trans_log_reserve_chunk malloc io alloc s 1) _ (reserve_chunk-Held s used h c few)
        (λ t u k. send s t used paged k.0 k.1) (λ t k. k))
