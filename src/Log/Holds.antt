-- ===== src/Log/Holds.antt =====
-- What holds of a log of lib/log.c after a step.
use fuse_example.Base.{ℕ, ◌+◌, ◌≤◌, ◌≡◌, ◌⊎◌, ◌++◌, length}
use fuse_example.Errors.{ok, err, done, fail, fault, out_of_fuel}
use fuse_example.Alloc.{Alloc}
use fuse_example.Io.{Io, io_bytes}
use fuse_example.Lsm.Key.{Bytes}
use fuse_example.Log.{TransLog, LogSite, LogStep, or_return}

-- A step ends, and what holds then: `P` of a result, `Q` of an error.
abbrev pub Yields :
    {io : Io} {alloc : Alloc} {A : Type 0}
    → (P : LogSite io alloc → A → Type 0) (Q : LogSite io alloc → Type 0) → LogStep io alloc A
    → Type 0
Yields P Q (done (t, ok a)) = P t a
Yields P Q (done (t, err e)) = Q t
Yields P Q (fail e) = ⊥
Yields P Q fault = ⊥
Yields P Q out_of_fuel = ⊥

pub or_return-Yields :
    {io : Io} {alloc : Alloc} {A B : Type 0} (P : LogSite io alloc → A → Type 0)
    (Q : LogSite io alloc → Type 0) (P' : LogSite io alloc → B → Type 0)
    (Q' : LogSite io alloc → Type 0) (m : LogStep io alloc A)
    (f : LogSite io alloc → A → LogStep io alloc B)
    → Yields P Q m
    → ((t : LogSite io alloc) (a : A) → P t a → Yields P' Q' (f t a))
    → ((t : LogSite io alloc) → Q t → Q' t)
    → Yields P' Q' (or_return m f)
or_return-Yields P Q P' Q' (done (t, ok a)) f h good bad = good t a h
or_return-Yields P Q P' Q' (done (t, err e)) f h good bad = bad t h
or_return-Yields P Q P' Q' (fail e) f h good bad = h
or_return-Yields P Q P' Q' fault f h good bad = h
or_return-Yields P Q P' Q' out_of_fuel f h good bad = h

pub Yields-imp :
    {io : Io} {alloc : Alloc} {A : Type 0} (P : LogSite io alloc → A → Type 0)
    (Q : LogSite io alloc → Type 0) (P' : LogSite io alloc → A → Type 0)
    (Q' : LogSite io alloc → Type 0) (m : LogStep io alloc A)
    → Yields P Q m
    → ((t : LogSite io alloc) (a : A) → P t a → P' t a)
    → ((t : LogSite io alloc) → Q t → Q' t)
    → Yields P' Q' m
Yields-imp P Q P' Q' (done (t, ok a)) h good bad = good t a h
Yields-imp P Q P' Q' (done (t, err e)) h good bad = bad t h
Yields-imp P Q P' Q' (fail e) h good bad = h
Yields-imp P Q P' Q' fault h good bad = h
Yields-imp P Q P' Q' out_of_fuel h good bad = h

-- The chunk holds the bytes `used`, in whole pages.
pub record Holds (page_size : ℕ) (log : TransLog) (used : Bytes) : Type 0 where
  pub spare : Bytes
  pub pages : ℕ
  pub split : log.chunk_data ≡ used ++ spare
  pub size : log.chunk_size ≡ length used
  pub room : log.chunk_max_size ≡ length used + length spare
  pub whole : log.chunk_max_size ≡ io_bytes page_size pages

-- The pointers fit the header, which is missing or has room for sixteen.
pub record HasChunks (log : TransLog) : Type 0 where
  pub fits : length log.chunk ≤ log.max_chunks
  pub header : ((log.max_chunks ≡ 0) × (log.header_bytes ≡ 0)) ⊎ (log.max_chunks ≡ 16)
