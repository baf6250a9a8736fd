-- ===== src/Edge.antt =====
-- internal/edge: the figures of the edge study, from the correlations that the database computes.
pub mod Figures
pub mod Ranking
pub mod Range
pub mod Sorted
pub mod Study
mod Tests
