-- ===== src/Invoicing.antt =====
-- src/modules/invoicing: invoices and payments.
pub mod Store
pub mod Invoice
pub mod Allocations
pub mod Reversal
pub mod Payment
mod Tests
