-- ===== src/Collector.antt =====
-- internal/collector: market data from the exchange to the tables.
pub mod Validate
pub mod Mapper
pub mod Topics
pub mod Handlers
pub mod Accepted
pub mod Stored
pub mod Paging
pub mod Recovery
pub mod Pages
pub mod Complete
pub mod Missed
pub mod Gaps
pub mod Manager
pub mod Reconnect
pub mod Scan
pub mod Poll
pub mod Polled
mod Tests
mod Exchanges
