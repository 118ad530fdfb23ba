-- ===== src/Purchase.antt =====
-- src/modules/purchase: purchase requests and purchase orders.
pub mod Store
pub mod Order
pub mod Request
pub mod Matching
pub mod Receipt
