-- ===== src/Util.antt =====
-- The containers of src/util that the data path and the timing wheel keep their state in.
pub mod MemPool
pub mod FixedQueue
pub mod FixedVector
mod Tests
