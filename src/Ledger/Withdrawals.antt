-- ===== src/Ledger/Withdrawals.antt =====
-- The withdrawal requests of internal/repository/ledger_repository.go.
use ridematch.Prelude.{
  ℕ, ◌+◌, Bool, true, false, not, List, [], ◌∷◌, ◌&&◌, ◌||◌, ◌==◌, ltb, leb, if◌then◌else◌,
}
use ridematch.Prelude.Int.{ℤ, pos, ltb_ℤ, eqb_ℤ}
use ridematch.Prelude.Word.{add64}
use ridematch.Prelude.Table.{find_where, find_by, sum_by}
use ridematch.Ledger.Models.{
  RowId, Time, Account, Wallet, IdemKey, RefType, Withdrawal, WithdrawalStatus, WithdrawalKind,
}
use ridematch.Ledger.Store.{
  Db, not_found, duplicate_key, daily_limit, wallet_frozen, cooldown_cap, duplicate_withdrawal, Tx,
  Draw, pure, query, or_abort, ◌>>=◌, ◌>>◌, abort_if, write, transaction,
}
use ridematch.Ledger.Post.{from_wallet, is_some, lock_wallet, lock_one, post}

-- `WithdrawalGuard`
pub record WithdrawalGuard : Type 0 where
  pub daily_limit_kobo : ℤ
  pub cooldown_cap : ℤ
  pub now : Time
  pub duplicate_window : Time

abbrev pub set_withdrawals : (List Withdrawal → List Withdrawal) → Db → Db
set_withdrawals f db = record db { withdrawals = f db.withdrawals }

abbrev pub status_code : WithdrawalStatus → ℕ
status_code WithdrawalStatus.pending_review = 0
status_code WithdrawalStatus.queued = 1
status_code WithdrawalStatus.processing = 2
status_code WithdrawalStatus.successful = 3
status_code WithdrawalStatus.failed = 4
status_code WithdrawalStatus.rejected = 5
status_code WithdrawalStatus.needs_attention = 6

abbrev pub same_status : WithdrawalStatus → WithdrawalStatus → Bool
same_status a b = status_code a == status_code b

-- `status IN ?`
abbrev pub status_in : WithdrawalStatus → List WithdrawalStatus → Bool
status_in s [] = false
status_in s (t ∷ ts) = same_status s t || status_in s ts

-- Failed and rejected withdrawals have given the money back.
abbrev pub is_returned : WithdrawalStatus → Bool
is_returned s = status_in s (WithdrawalStatus.failed ∷ WithdrawalStatus.rejected ∷ [])

abbrev pub is_driver : WithdrawalKind → Bool
is_driver WithdrawalKind.driver = true
is_driver WithdrawalKind.appeal = false

-- The rows that the double-tap check counts.
abbrev pub is_repeat : WithdrawalGuard → Wallet → Withdrawal → Withdrawal → Bool
is_repeat g w wd r =
    (r.wallet_id == w.id)
    && (eqb_ℤ r.amount_kobo wd.amount_kobo
        && ((r.account_number == wd.account_number)
            && ((r.bank_code == wd.bank_code)
                && (leb g.now (r.created_at + g.duplicate_window) && not (is_returned r.status)))))

abbrev pub day : Time
day = 86400

-- What the wallet has withdrawn in the last 24 hours, as the daily limit counts it.
abbrev pub counts_today : WithdrawalGuard → Wallet → Withdrawal → Bool
counts_today g w r =
    (r.wallet_id == w.id)
    && (is_driver r.kind && (leb g.now (r.created_at + day) && not (is_returned r.status)))

unfoldable pub used_today : WithdrawalGuard → Wallet → List Withdrawal → ℤ
used_today g w = sum_by (λ r. if counts_today g w r then r.amount_kobo else pos 0)

-- `tx.Create(wd)` under the primary key and the unique index on the reference.
create_row : Withdrawal → Tx (Unit {0})
create_row wd = do
  taken ← query (λ db. is_some (find_by Withdrawal.id wd.id db.withdrawals))
  used ← query (λ db. is_some (find_by Withdrawal.reference wd.reference db.withdrawals))
  abort_if (taken || used) duplicate_key
  write (set_withdrawals (λ ws. wd ∷ ws))

abbrev pub new_row : Draw → Withdrawal → Withdrawal
new_row d wd = record wd { id = d.row_uuid; created_at = d.now; updated_at = d.now }

-- The four checks of `CreateWithdrawal`, in their order.
unfoldable pub check_guard : WithdrawalGuard → Wallet → Withdrawal → Tx (Unit {0})
unfolding used_today
check_guard g w wd = do
  abort_if (w.withdrawals_frozen && is_driver wd.kind) wallet_frozen
  abort_if (ltb_ℤ (pos 0) g.cooldown_cap && ltb_ℤ g.cooldown_cap wd.amount_kobo) cooldown_cap
  dup ← query (λ db. is_some (find_where (is_repeat g w wd) db.withdrawals))
  abort_if (ltb 0 g.duplicate_window && dup) duplicate_withdrawal
  used ← query (λ db. used_today g w db.withdrawals)
  abort_if
      (ltb_ℤ (pos 0) g.daily_limit_kobo
        && (is_driver wd.kind && ltb_ℤ g.daily_limit_kobo (add64 used wd.amount_kobo)))
      daily_limit

-- The writes of `CreateWithdrawal`: the row, and the money that leaves the wallet.
unfoldable pub store_row : Draw → Withdrawal → Wallet → Tx Withdrawal
unfolding create_row
store_row d wd w = do
  create_row (new_row d wd)
  post d.tx_uuid d.now (IdemKey.withdraw_lock d.row_uuid) RefType.withdrawal d.row_uuid
      "Withdrawal to bank" (from_wallet Account.payout_pending w.id wd.amount_kobo) (lock_one w)
  pure (new_row d wd)

-- The body of `CreateWithdrawal` under the wallet's lock.
unfoldable pub lock_funds : Draw → Withdrawal → WithdrawalGuard → Wallet → Tx Withdrawal
lock_funds d wd g w = check_guard g w wd >> store_row d wd w

-- `CreateWithdrawal`, returning the row that Go fills in through its pointer.
unfoldable pub create_withdrawal : Draw → Withdrawal → WithdrawalGuard → Tx Withdrawal
create_withdrawal d wd g = transaction (lock_wallet wd.wallet_id >>= lock_funds d wd g)

-- `FindWithdrawalByID`, `FindWithdrawalByReference`, `FindWithdrawalByFlwID`
unfoldable pub find_withdrawal_by_id : RowId → Tx Withdrawal
find_withdrawal_by_id id = do
  or_abort (← query (λ db. find_by Withdrawal.id id db.withdrawals)) not_found

unfoldable pub find_withdrawal_by_reference : RowId → Tx Withdrawal
find_withdrawal_by_reference ref = do
  or_abort (← query (λ db. find_by Withdrawal.reference ref db.withdrawals)) not_found
