-- ===== src/Sequences.antt =====
-- collectionx/list: ring buffer and deque.
pub mod Ends
pub mod Circular
pub mod RingBuffer
pub mod Deque
pub mod GoList
