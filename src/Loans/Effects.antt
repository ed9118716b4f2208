-- ===== src/Loans/Effects.antt =====
-- How the methods of the loan service end, a child module for each method: what it has read and
-- what it has written if it returns, and that nothing is written if it raises.
pub mod Create
pub mod Return
pub mod Pay
pub mod Update
pub mod Cancel
pub mod Renew
