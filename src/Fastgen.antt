-- ===== src/Fastgen.antt =====
-- cwm/fastgen: the generator's own bookkeeping (generate.py) over its sets of cache blocks
-- (utils/iset.py).
pub mod BlockSet
pub mod Lane
pub mod State
mod Sums
pub mod Invariant
pub mod Kill
pub mod Prepare
pub mod Admit
pub mod Bitmap
pub mod Trim
pub mod ISet
pub mod HostCache
mod Tests
