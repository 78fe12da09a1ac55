-- ===== src/Ledger/Sums.antt =====
-- What the ledger's entries and rows add up to: the sums that `Integrity` of
-- internal/repository/ledger_repository.go asks the database for.
use ridematch.Prelude.{Bool, true, false, not, Option, none, some, List, ◌==◌, if◌then◌else◌}
use ridematch.Prelude.Int.{ℤ, pos}
use ridematch.Prelude.Table.{sum_by}
use ridematch.Ledger.Models.{
  RowId, Account, same_account, Wallet, LedgerEntry, EscrowStatus, EscrowHold, Withdrawal,
  is_terminal,
}
use ridematch.Ledger.Post.{Posting}

abbrev pub entries_total : List LedgerEntry → ℤ
entries_total = sum_by LedgerEntry.amount_kobo

abbrev pub account_total : Account → List LedgerEntry → ℤ
account_total a = sum_by (λ e. if same_account e.account a then e.amount_kobo else pos 0)

abbrev pub names_wallet : RowId → Option RowId → Bool
names_wallet id none = false
names_wallet id (some w) = w == id

abbrev pub wallet_total : RowId → List LedgerEntry → ℤ
wallet_total id = sum_by (λ e. if names_wallet id e.wallet_id then e.amount_kobo else pos 0)

abbrev pub balance_total : List Wallet → ℤ
balance_total = sum_by Wallet.balance_kobo

-- A hold keeps its fare in the pool while it is held or disputed.
abbrev pub is_open : EscrowStatus → Bool
is_open EscrowStatus.held = true
is_open EscrowStatus.disputed = true
is_open _ = false

abbrev pub held_amount : EscrowHold → ℤ
held_amount h = if is_open h.status then h.amount_kobo else pos 0

abbrev pub in_flight_amount : Withdrawal → ℤ
in_flight_amount w = if not (is_terminal w.status) then w.amount_kobo else pos 0

-- The part of a list of postings that goes to one account, and all of it.
abbrev pub posted_to : Account → List Posting → ℤ
posted_to a = sum_by (λ p. if same_account p.account a then p.amount else pos 0)

abbrev pub posted : List Posting → ℤ
posted = sum_by Posting.amount
