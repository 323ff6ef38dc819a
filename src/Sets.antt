-- ===== src/Sets.antt =====
-- collectionx/set: the multiset.
pub mod MultiSet
