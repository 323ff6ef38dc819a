-- ===== src/Interval.antt =====
-- collectionx/interval: half-open ranges, sets of ranges and maps from ranges.
pub mod Range
pub mod Search
pub mod RangeSet
pub mod RangeMap
