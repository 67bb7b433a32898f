-- ===== src/Delivery.antt =====
-- Jobs on their way from the handlers to the workers (src/doccontext/services/, queue/ and
-- workers/).
pub mod System
pub mod Table
pub mod Paths
pub mod Journey
pub mod Reports
pub mod Placed
pub mod Invariant
