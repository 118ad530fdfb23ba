-- ===== src/Accounting.antt =====
-- The accounting services: src/services/period-manager and src/services/journal-engine.
pub mod Store
pub mod Period
pub mod Journal
pub mod Events
pub mod Books
mod Tests
