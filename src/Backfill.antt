-- ===== src/Backfill.antt =====
-- internal/db/quality.go, the joins of internal/db/feature_store.go, and cmd/feature-backfill/main.go.
pub mod Quality
pub mod Flow
pub mod Join
pub mod Ordered
pub mod Windows
pub mod Pair
pub mod Segments
pub mod Stamps
pub mod Rounds
pub mod Covers
pub mod Errors
mod Tests
