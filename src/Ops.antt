-- ===== src/Ops.antt =====
-- src/ops: one function for each io_uring operation. Each takes the index of its request and its
-- timeout last, and returns 1, 0 where the submission failed, or -1 where it found no entry.
pub mod Words
pub mod Files
pub mod Sockets
pub mod Request
pub mod Contract
pub mod Bodies
pub mod Refine
pub mod Conforms
pub mod Results
pub mod Stray
