-- ===== src/Examples/Logs.antt =====
-- Instances for lib/log.c, at an empty log on pages of 32 bytes.
use fuse_example.Base.{ℕ, List, length, ◌++◌, ◌≡◌, refl, arith, [], ◌∷◌, inl}
use fuse_example.Io.{io_bytes}
use fuse_example.Crc64.{load}
use fuse_example.Log.{LogSite, TransLog, trans_log_append}
use fuse_example.Log.Holds.{Yields, Holds, HasChunks}
use fuse_example.Log.Append.{Logged, Loses, trans_log_append-Logged}
use fuse_example.Examples.Cursors.{flat, two_leaves, always}
use fuse_example.Examples.Disks.{counter}

abbrev empty_log : TransLog
empty_log = record {
  header_bytes = 0;
  chunk = [];
  max_chunks = 0;
  chunk_data = [];
  chunk_size = 0;
  chunk_max_size = 0;
  pages = 0;
  ptr = record { offs = 0; size = 0; csum = 0 };
}

abbrev site : LogSite flat counter
site = record { disk = two_leaves; space = 0; log = empty_log }

site-Holds : Holds 32 empty_log []
unfolding io_bytes
site-Holds = record { spare = []; pages = 0; split = refl; size = refl; room = refl; whole = refl }

site-HasChunks : HasChunks empty_log
site-HasChunks = record { fits = omega arith; header = inl (refl, refl) }

trans_log_append-Logged_example :
    Yields
      (λ t u.
        (field : List ℕ) × (length field ≡ 2)
        × (load field ≡ 2)
        × Logged always flat counter site [] t (field ++ 7 ∷ 8 ∷ []))
      (λ t. Loses always flat counter site [] t)
      (trans_log_append always flat counter site (7 ∷ 8 ∷ []))
trans_log_append-Logged_example =
    trans_log_append-Logged always flat counter 5 59 site [] (7 ∷ 8 ∷ []) refl refl (omega arith)
      (omega arith) (omega arith) site-Holds site-HasChunks (omega arith)
