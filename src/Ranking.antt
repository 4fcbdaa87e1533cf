-- ===== src/Ranking.antt =====
-- The ranking of search results: src/domain/catalog/ranking.ts.
pub mod Score
pub mod Best
