-- ===== src/Memo.antt =====
-- src/memo.rs: how a memo says what a note is for. `Field` has the shared pieces; one module for
-- each kind of memo has its encoder and its strict reader; the rest prove round trips and that no
-- memo is read as two kinds.
pub mod Field
pub mod AppPayment
pub mod Forced
pub mod Marks
pub mod Text
pub mod Deposit
