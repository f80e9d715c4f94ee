-- ===== src/Score.antt =====
-- The live leaderboards: src/score_cache.cpp, src/score_cache.h and src/score_types.h. One board is
-- in `Table`, its insertion in `Insert`, the cache of all boards in `Cache`, queries in `Query`.
pub mod Entry
pub mod Index
pub mod Table
pub mod Position
pub mod Indexed
pub mod Others
pub mod Order
pub mod Inserted
pub mod Insert
pub mod Rank
pub mod Removal
pub mod Cache
pub mod Query
mod Examples
