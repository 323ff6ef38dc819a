-- ===== src/Mapping.antt =====
-- collectionx/mapping: the maps of a strongly-typed key.
pub mod GoMap
pub mod Map
pub mod BiMap
pub mod OrderedMap
