-- ===== src/Lsm.antt =====
-- inc/lsm_fwd.h, inc/lsm.h and lib/lsm.c.
pub mod Key
pub mod Iter
pub mod Over
pub mod State
