-- ===== src/Log/Append.antt =====
-- `trans_log_append` of lib/log.c loses nothing, up to sixteen chunks.
use mathlib.Core.Path.{subst}
use fuse_example.Base.{
  ℕ, ◌+◌, ◌-◌, ◌*◌, ◌^◌, ◌≤◌, ◌<◌, ◌≡◌, refl, sym, ap, ◌∙◌, arith, Bool, true, false, ◌&&◌, ◌⊎◌,
  inl, inr, [], ◌++◌, length, drop, replicate, ltb, leb, ◌==◌, if◌then◌else◌, Bool-cases,
  append_assoc, length-append, length-replicate, length-drop,
}
use fuse_example.Errors.{ok, done}
use fuse_example.Crc64.{load}
use fuse_example.Memory.{encode, length-encode, load-encode, poke, poke_at}
use fuse_example.Bits.{shl}
use fuse_example.Alloc.{Alloc}
use fuse_example.Io.{Io, io_align, io_pages, io_bytes, io_bytes-io_pages}
use fuse_example.Io.Align.{io_align-io_bytes}
use fuse_example.Lsm.Key.{Bytes}
use fuse_example.Log.{
  LogSite, on_copy, put_log, trans_chunk_max_size, chunk_goal, grow_chunk, trans_log_reserve,
  trans_log_flush, trans_log_append, log_entry,
}
use fuse_example.Log.Holds.{Yields, Yields-imp, or_return-Yields, Holds, HasChunks}
use fuse_example.Log.Flush.{Sent, Flushed, Held, flush_used}

module _ (malloc : ℕ → Bool) (io : Io) (alloc : Alloc) where
  -- Nothing was written.
  abbrev pub Kept : LogSite io alloc → LogSite io alloc → Bytes → Type 0
  Kept s t used =
      Holds io.page_size t.log used
      × HasChunks t.log
      × (t.log.chunk ≡ s.log.chunk)
      × (t.disk ≡ s.disk)

  Sent-Kept :
      (s t t' : LogSite io alloc) (used next : Bytes)
      → Sent malloc io alloc s used t []
      → Kept t t' next
      → Sent malloc io alloc s used t' next
  Sent-Kept s t t' used next (h, c, (ptr, last, wrote, size, csum)) (h', c', kept, same_disk) =
      (h', c', (ptr, kept ∙ last, wrote ∙ ap ok (sym same_disk), size, csum))

  -- The chunk grows to whole pages that hold what is needed.
  goal_whole :
      (most need : ℕ)
      → 0 < io.page_size
      → io_align io.page_size need ≡ io_bytes io.page_size (io_pages io.page_size need)
      → io_align io.page_size (most * 2) ≡ io_bytes io.page_size (io_pages io.page_size (most * 2))
      → ((q : ℕ) × (chunk_goal malloc io alloc most need ≡ io_bytes io.page_size q))
        × (need ≤ chunk_goal malloc io alloc most need)
  unfolding chunk_goal
  goal_whole most need paged a b =
      let size = io_align io.page_size (most * 2) in
      elim (Bool-cases
        (ltb need trans_chunk_max_size && (leb size trans_chunk_max_size && leb need size))) [
          | inl e ↦ rw (chunk_goal, e) ((_, b), ground arith)
          | inr e ↦
              rw (chunk_goal, e)
                ((_, a), omega (arith, a, (io_bytes-io_pages io.page_size need paged).0))
        ]

  grow_chunk-Kept :
      (s : LogSite io alloc) (used : Bytes) (need : ℕ)
      → 0 < io.page_size
      → io_align io.page_size need ≡ io_bytes io.page_size (io_pages io.page_size need)
      → io_align io.page_size (s.log.chunk_max_size * 2)
        ≡ io_bytes io.page_size (io_pages io.page_size (s.log.chunk_max_size * 2))
      → Holds io.page_size s.log used
      → HasChunks s.log
      → Yields
          (λ t u. Kept s t used × (need ≤ t.log.chunk_max_size))
          (λ t. Kept s t used)
          (grow_chunk malloc io alloc s need)
  unfolding grow_chunk
  grow_chunk-Kept s used need paged a b h c =
      let goal = chunk_goal malloc io alloc s.log.chunk_max_size need in
      let ((q, whole), enough) = goal_whole s.log.chunk_max_size need paged a b in
      elim (Bool-cases (leb need s.log.chunk_max_size)) [
        | inl e ↦ rw (grow_chunk, e) ((h, c, refl, refl), ground arith)
        | inr e ↦ elim (Bool-cases (malloc goal)) [
          | inr m ↦ rw (grow_chunk, e, m) (h, c, refl, refl)
          | inl m ↦
              rw (grow_chunk, e, m)
                (
                  (
                    record {
                      spare = h.spare ++ replicate (goal - s.log.chunk_max_size) 0;
                      pages = q;
                      split =
                          ap (λ b. b ++ replicate (goal - s.log.chunk_max_size) 0) h.split
                          ∙ append_assoc used h.spare (replicate (goal - s.log.chunk_max_size) 0);
                      size = h.size;
                      room =
                          let more : s.log.chunk_max_size < need = ground arith in
                          omega (
                            arith,
                            more,
                            enough,
                            h.room,
                            length-append h.spare (replicate (goal - s.log.chunk_max_size) 0),
                            length-replicate {A = ℕ} (goal - s.log.chunk_max_size) 0,
                          );
                      whole = whole;
                    },
                    record { fits = c.fits; header = c.header },
                    refl,
                    refl,
                  ),
                  enough,
                )
        ]
      ]

  -- The copy of an item behind the bytes of the chunk.
  entry-Kept :
      (s : LogSite io alloc) (used item : Bytes)
      → Holds io.page_size s.log used
      → HasChunks s.log
      → length used + (length item + 2) ≤ s.log.chunk_max_size
      → Yields {io = io} {alloc = alloc} {A = Unit {0}}
          (λ t u. Kept s t (used ++ log_entry item))
          (λ t. ⊥)
          (on_copy (poke s.log.chunk_data s.log.chunk_size (log_entry item)) λ buf. done (
            put_log s (record (s.log) {
              chunk_data = buf;
              chunk_size = s.log.chunk_size + (length item + 2);
            }),
            ok tt,
          ))
  entry-Kept s used item h c room =
      let entry = log_entry item in
      let fits : length entry ≤ length h.spare = omega (arith, room, h.room) in
      rw (poke_at s.log.chunk_data used h.spare entry s.log.chunk_size h.split h.size fits, on_copy)
        (
          record {
            spare = drop (length entry) h.spare;
            pages = h.pages;
            split = sym (append_assoc used entry (drop (length entry) h.spare));
            size = omega (arith, h.size, length-append used entry);
            room =
                omega (
                  arith,
                  h.room,
                  fits,
                  length-append used entry,
                  length-drop (length entry) h.spare,
                );
            whole = h.whole;
          },
          record { fits = c.fits; header = c.header },
          refl,
          refl,
        )

  -- Before a flush, or after it.
  abbrev pub Logged : LogSite io alloc → (used : Bytes) → LogSite io alloc → (more : Bytes) → Type 0
  Logged s used t more = Kept s t (used ++ more) ⊎ Sent malloc io alloc s used t more

  abbrev pub Loses : LogSite io alloc → (used : Bytes) → LogSite io alloc → Type 0
  Loses s used t = Kept s t used ⊎ Sent malloc io alloc s used t []

  Kept-Kept :
      (s t t' : LogSite io alloc) (used next : Bytes)
      → Kept s t used
      → Kept t t' next
      → Kept s t' next
  Kept-Kept s t t' used next (h, c, kept, same_disk) (h', c', kept', same_disk') =
      (h', c', kept' ∙ kept, same_disk' ∙ same_disk)

  -- The state in which an item of so many bytes fits.
  Ready : LogSite io alloc → (used : Bytes) → (size : ℕ) → LogSite io alloc → Type 0
  Ready s used size t =
      (Kept s t used × (length used + size ≤ t.log.chunk_max_size))
      ⊎ (Sent malloc io alloc s used t [] × (size ≤ t.log.chunk_max_size))

  -- The whole of `io_align` at the sizes that an append asks for.
  abbrev Aligns : ℕ → Type 0
  Aligns n = io_align io.page_size n ≡ io_bytes io.page_size (io_pages io.page_size n)

  flush_Kept :
      (s : LogSite io alloc) (used : Bytes)
      → 0 < io.page_size
      → Holds io.page_size s.log used
      → HasChunks s.log
      → length s.log.chunk < 16
      → Yields
          (λ t u.
            (Kept s t used ⊎ Sent malloc io alloc s used t [])
            × (t.log.chunk_max_size ≡ s.log.chunk_max_size))
          (λ t. Loses s used t)
          (trans_log_flush malloc io alloc s)
  unfolding trans_log_flush
  flush_Kept s used paged h c few = elim (Bool-cases (s.log.chunk_size == 0)) [
    | inl e ↦ rw (trans_log_flush, e) (inl (h, c, refl, refl), refl)
    | inr e ↦
        Yields-imp (λ t u. Flushed malloc io alloc s used t) (λ t. Held malloc io alloc s t used)
          (λ t u.
            (Kept s t used ⊎ Sent malloc io alloc s used t [])
            × (t.log.chunk_max_size ≡ s.log.chunk_max_size))
          (λ t. Loses s used t) (trans_log_flush malloc io alloc s)
          (flush_used malloc io alloc s used paged h c few e) (λ t u k. (inr k.0, k.1))
          (λ t k. inl (k.0, k.1, k.2, k.3))
  ]

  reserve-Ready :
      (s : LogSite io alloc) (used : Bytes) (size : ℕ)
      → 0 < io.page_size
      → Aligns (length used + size)
      → Aligns (s.log.chunk_max_size * 2)
      → Holds io.page_size s.log used
      → HasChunks s.log
      → length s.log.chunk < 16
      → Yields
          (λ t u. Ready s used size t)
          (λ t. Loses s used t)
          (trans_log_reserve malloc io alloc s size)
  unfolding trans_log_reserve Ready
  reserve-Ready s used size paged a b h c few =
      let need = s.log.chunk_size + size in
      let same : length used + size ≡ need = omega (arith, h.size) in
      or_return-Yields
        (λ t u.
          (Kept s t used ⊎ Sent malloc io alloc s used t [])
          × (t.log.chunk_max_size ≡ s.log.chunk_max_size))
        (λ t. Loses s used t) (λ t u. Ready s used size t) (λ t. Loses s used t)
        (if ltb trans_chunk_max_size need
          then trans_log_flush malloc io alloc s
          else done (s, ok tt))
        _ (first (ltb trans_chunk_max_size need)) (λ t u k. then_grow need same t k.0 k.1)
        (λ t k. k)
    where
      first :
          (full : Bool)
          → Yields
              (λ t u.
                (Kept s t used ⊎ Sent malloc io alloc s used t [])
                × (t.log.chunk_max_size ≡ s.log.chunk_max_size))
              (λ t. Loses s used t)
              (if full then trans_log_flush malloc io alloc s else done (s, ok tt))
      first false = (inl (h, c, refl, refl), refl)
      first true = flush_Kept s used paged h c few

      then_grow :
          (need : ℕ)
          → length used + size ≡ need
          → (t : LogSite io alloc) → Kept s t used ⊎ Sent malloc io alloc s used t []
          → t.log.chunk_max_size ≡ s.log.chunk_max_size
          → Yields
              (λ t u. Ready s used size t)
              (λ t. Loses s used t)
              (grow_chunk malloc io alloc t need)
      then_grow need same t (inl k) max =
          Yields-imp (λ t' u. Kept t t' used × (need ≤ t'.log.chunk_max_size))
            (λ t'. Kept t t' used) (λ t u. Ready s used size t) (λ t. Loses s used t)
            (grow_chunk malloc io alloc t need)
            (grow_chunk-Kept t used need paged (subst Aligns same a)
              (subst (λ m. Aligns (m * 2)) (sym max) b) k.0 k.1)
            (λ t' u x. inl (Kept-Kept s t t' used used k x.0, omega (arith, x.1, same)))
            (λ t' x. inl (Kept-Kept s t t' used used k x))
      then_grow need same t (inr k) max =
          Yields-imp (λ t' u. Kept t t' [] × (need ≤ t'.log.chunk_max_size)) (λ t'. Kept t t' [])
            (λ t u. Ready s used size t) (λ t. Loses s used t) (grow_chunk malloc io alloc t need)
            (grow_chunk-Kept t [] need paged (subst Aligns same a)
              (subst (λ m. Aligns (m * 2)) (sym max) b) k.0 k.1)
            (λ t' u x. inr (Sent-Kept s t t' used [] k x.0, omega (arith, x.1, same)))
            (λ t' x. inr (Sent-Kept s t t' used [] k x))

  append-Logged :
      (k j : ℕ) (s : LogSite io alloc) (used item : Bytes)
      → k + j ≡ 64
      → io.page_size ≡ shl k 1
      → 0 < io.page_size
      → s.log.chunk_max_size * 2 + (length item + 2) + io.page_size ≤ 2 ^ 64
      → Holds io.page_size s.log used
      → HasChunks s.log
      → length s.log.chunk < 16
      → Yields
          (λ t u. Logged s used t (log_entry item))
          (λ t. Loses s used t)
          (trans_log_append malloc io alloc s item)
  unfolding trans_log_append Ready
  append-Logged k j s used item width page paged small h c few =
      or_return-Yields (λ t u. Ready s used (length item + 2) t) (λ t. Loses s used t)
        (λ t u. Logged s used t (log_entry item)) (λ t. Loses s used t)
        (trans_log_reserve malloc io alloc s (length item + 2)) _
        (reserve-Ready s used (length item + 2) paged
          (aligned (length used + (length item + 2)) (omega (arith, small, h.room)))
          (aligned (s.log.chunk_max_size * 2) (omega (arith, small))) h c few)
        (λ t u ready. copied t ready) (λ t x. x)
    where
      aligned : (n : ℕ) → n + io.page_size - 1 < 2 ^ 64 → Aligns n
      aligned n low =
          subst (λ p. io_align p n ≡ io_bytes p (io_pages p n)) (sym page)
            (io_align-io_bytes k j n width (subst (λ p. n + p - 1 < 2 ^ 64) page low))

      copied :
          (t : LogSite io alloc)
          → Ready s used (length item + 2) t
          → Yields {io = io} {alloc = alloc} {A = Unit {0}}
              (λ t u. Logged s used t (log_entry item))
              (λ t. Loses s used t)
              (on_copy (poke t.log.chunk_data t.log.chunk_size (log_entry item)) λ buf. done (
                put_log t (record (t.log) {
                  chunk_data = buf;
                  chunk_size = t.log.chunk_size + (length item + 2);
                }),
                ok tt,
              ))
      copied t (inl ready) =
          Yields-imp (λ t' u. Kept t t' (used ++ log_entry item)) (λ t'. ⊥)
            (λ t u. Logged s used t (log_entry item)) (λ t. Loses s used t) _
            (entry-Kept t used item ready.0.0 ready.0.1 ready.1)
            (λ t' u x. inl (Kept-Kept s t t' used (used ++ log_entry item) ready.0 x))
            (λ t' x. absurd x)
      copied t (inr ready) =
          Yields-imp (λ t' u. Kept t t' (log_entry item)) (λ t'. ⊥)
            (λ t u. Logged s used t (log_entry item)) (λ t. Loses s used t) _
            (entry-Kept t [] item ready.0.0 ready.0.1 (omega (arith, ready.1)))
            (λ t' u x. inr (Sent-Kept s t t' used (log_entry item) ready.0 x)) (λ t' x. absurd x)

  -- On pages of a power of two, on a log with fewer than sixteen written chunks whose chunk holds
  -- some bytes, with sizes that fit 64 bits and an item of fewer than 65536 bytes,
  -- `trans_log_append` touches no byte outside its buffers and ends. On success two bytes that
  -- give the size of the item, little endian, and the bytes of the item follow those bytes in the
  -- chunk, or those bytes, padded with zeros, are on disk under a new last pointer with their sum
  -- and the two bytes and the item start the next chunk; on an error the bytes are in the chunk
  -- or on disk still.
  pub trans_log_append-Logged :
      (k j : ℕ) (s : LogSite io alloc) (used item : Bytes)
      → k + j ≡ 64
      → io.page_size ≡ shl k 1
      → 0 < io.page_size
      → s.log.chunk_max_size * 2 + (length item + 2) + io.page_size ≤ 2 ^ 64
      → length item < 2 ^ 16
      → Holds io.page_size s.log used
      → HasChunks s.log
      → length s.log.chunk < 16
      → Yields
          (λ t u.
            (field : Bytes) × (length field ≡ 2)
            × (load field ≡ length item)
            × Logged s used t (field ++ item))
          (λ t. Loses s used t)
          (trans_log_append malloc io alloc s item)
  trans_log_append-Logged k j s used item width page paged small sized h c few =
      Yields-imp (λ t u. Logged s used t (log_entry item)) (λ t. Loses s used t)
        (λ t u.
          (field : Bytes) × (length field ≡ 2)
          × (load field ≡ length item)
          × Logged s used t (field ++ item))
        (λ t. Loses s used t) (trans_log_append malloc io alloc s item)
        (append-Logged k j s used item width page paged small h c few)
        (λ t u logged. (
          encode 2 (length item),
          length-encode 2 (length item),
          load-encode 2 (length item) (omega (arith, sized)),
          logged,
        ))
        (λ t x. x)
