-- ===== src/Ledger.antt =====
-- The ledger: internal/repository/ledger_repository.go with its rows.
pub mod Models
pub mod Store
pub mod Post
pub mod Wallets
pub mod Topups
pub mod Escrow
pub mod Withdrawals
pub mod Payouts
pub mod Sums
pub mod Invariant
pub mod Booking
pub mod PostOne
pub mod PostAll
pub mod Transfers
pub mod Balanced
pub mod WalletFirst
pub mod EscrowLaws
pub mod HoldLaws
pub mod TopupLaws
pub mod WithdrawalLaws
pub mod PayoutLaws
pub mod FinalLaws
pub mod ReturnLaws
pub mod SameFunds
pub mod WalletLaws
pub mod Due
pub mod DueLaws
pub mod Integrity
pub mod IntegrityLaws
pub mod Operations
pub mod Runs
pub mod SettledOnce
pub mod PaidOnce
pub mod NoDoublePayout
pub mod Conservation
pub mod Guard
pub mod CreditedOnce
pub mod PinLock
pub mod HoldAgain
pub mod Paying
pub mod Day
mod Examples
mod OnceExamples
