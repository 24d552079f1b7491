-- ===== src/Watch.antt =====
-- internal/watch: the watches of clients, and the events that are delivered to them.
pub mod Match
pub mod MatchLaws
pub mod Manager
pub mod DeliveryLaws
pub mod PendingLaws
pub mod FloorLaws
pub mod Panics
pub mod Tests
