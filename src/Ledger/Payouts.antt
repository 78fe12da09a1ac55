-- ===== src/Ledger/Payouts.antt =====
-- How withdrawals move on and end: internal/repository/ledger_repository.go.
use ridematch.Prelude.{
  ◌+◌, Bool, true, false, not, Option, none, some, String, List, [], ◌∷◌, if◌then◌else◌,
}
use ridematch.Prelude.Word.{neg64}
use ridematch.Prelude.Table.{find_by, update_by, save}
use ridematch.Ledger.Models.{RowId, Time, Account, IdemKey, RefType, Withdrawal, WithdrawalStatus}
use ridematch.Ledger.Store.{
  not_found, invalid_transition, invalid_final_status, Tx, Draw, pure, query, or_abort, ◌>>=◌, ◌>>◌,
  abort_if, write, transaction,
}
use ridematch.Ledger.Post.{Posting, to_wallet, pool_posting, lock_wallet, lock_one, post, once}
use ridematch.Ledger.Withdrawals.{set_withdrawals, status_in, is_returned}

-- The columns that the callers of `TransitionWithdrawal` write beside the status.
pub data Column : Type 0 where
  sent_at : Time → Column
  failure_reason : String → Column
  flw_transfer_id : RowId → Column
  reviewed_by : RowId → Column
  review_note : String → Column

abbrev pub write_column : Column → Withdrawal → Withdrawal
write_column (sent_at t) w = record w { sent_at = some t }
write_column (failure_reason r) w = record w { failure_reason = r }
write_column (flw_transfer_id i) w = record w { flw_transfer_id = some i }
write_column (reviewed_by u) w = record w { reviewed_by = some u }
write_column (review_note n) w = record w { review_note = n }

abbrev pub write_columns : List Column → Withdrawal → Withdrawal
write_columns [] w = w
write_columns (c ∷ cs) w = write_columns cs (write_column c w)

abbrev pub is_processing : WithdrawalStatus → Bool
is_processing WithdrawalStatus.processing = true
is_processing _ = false

abbrev pub moved_to : Draw → WithdrawalStatus → List Column → Withdrawal → Withdrawal
moved_to d to cs w =
    let v = write_columns cs w in
    record v {
      status = to;
      updated_at = d.now;
      attempt_count = if is_processing to then w.attempt_count + 1 else w.attempt_count;
    }

abbrev pub move_row :
    Draw → List WithdrawalStatus → WithdrawalStatus → List Column → Withdrawal → Withdrawal
move_row d from to cs r = if status_in r.status from then moved_to d to cs r else r

abbrev pub allows : List WithdrawalStatus → Option Withdrawal → Bool
allows from none = false
allows from (some r) = status_in r.status from

-- `TransitionWithdrawal`: one conditional update; whether it found the row in one of `from`.
unfoldable pub transition_withdrawal :
    Draw → RowId → List WithdrawalStatus → WithdrawalStatus → List Column → Tx Bool
transition_withdrawal d id from to cs = do
  row ← query (λ db. find_by Withdrawal.id id db.withdrawals)
  write (set_withdrawals (update_by Withdrawal.id id (move_row d from to cs)))
  pure (allows from row)

abbrev pub paid_postings : Withdrawal → List Posting
paid_postings wd =
    pool_posting Account.payout_pending (neg64 wd.amount_kobo)
    ∷ pool_posting Account.external_out wd.net_kobo
    ∷ pool_posting Account.fees wd.fee_kobo
    ∷ []

abbrev pub is_paid : WithdrawalStatus → Bool
is_paid WithdrawalStatus.successful = true
is_paid _ = false

abbrev pub other_id : Option RowId → Option RowId → Option RowId
other_id old none = old
other_id old (some i) = some i

abbrev pub paid_row : Draw → Option RowId → Withdrawal → Withdrawal
paid_row d flw wd = record wd {
  updated_at = d.now;
  status = WithdrawalStatus.successful;
  flw_transfer_id = other_id wd.flw_transfer_id flw;
  failure_reason = "";
  completed_at = some d.now;
}

-- The body of `FinalizeWithdrawalSuccess` once the row is loaded. A withdrawal whose money went
-- back, or that no one has approved, is never taken for paid.
unfoldable pub pay_row : Draw → Option RowId → Withdrawal → Tx Bool
pay_row d flw wd = if is_paid wd.status then pure false else (do
  abort_if
      (status_in wd.status (
        WithdrawalStatus.failed ∷ WithdrawalStatus.rejected ∷ WithdrawalStatus.pending_review ∷ []))
      invalid_transition
  applied ← once (
      post d.tx_uuid d.now (IdemKey.withdraw_paid wd.id) RefType.withdrawal wd.id "Withdrawal paid"
        (paid_postings wd) [])
  (if applied
      then (do write (set_withdrawals (save Withdrawal.id (paid_row d flw wd))); pure true)
      else pure false))

-- `FinalizeWithdrawalSuccess`
unfoldable pub finalize_withdrawal_success : Draw → RowId → Option RowId → Tx Bool
finalize_withdrawal_success d id flw = transaction (do
  wd ← or_abort (← query (λ db. find_by Withdrawal.id id db.withdrawals)) not_found
  pay_row d flw wd)

abbrev pub review_time : Option RowId → Time → Option Time → Option Time
review_time none now old = old
review_time (some _) now old = some now

abbrev pub returned_row : Draw → WithdrawalStatus → String → Option RowId → Withdrawal → Withdrawal
returned_row d final reason reviewer wd = record wd {
  updated_at = d.now;
  status = final;
  failure_reason = reason;
  completed_at = some d.now;
  reviewed_by = other_id wd.reviewed_by reviewer;
  reviewed_at = review_time reviewer d.now wd.reviewed_at;
}

-- The body of `FinalizeWithdrawalFailure` once the row is loaded.
unfoldable pub return_row : Draw → WithdrawalStatus → String → Option RowId → Withdrawal → Tx Bool
return_row d final reason reviewer wd = if is_returned wd.status then pure false else (do
  abort_if (is_paid wd.status) invalid_transition
  w ← lock_wallet wd.wallet_id
  applied ← once (
      post d.tx_uuid d.now (IdemKey.withdraw_return wd.id) RefType.withdrawal wd.id
        "Withdrawal returned to wallet" (to_wallet Account.payout_pending w.id wd.amount_kobo)
        (lock_one w))
  (if applied
      then (do
        write (set_withdrawals (save Withdrawal.id (returned_row d final reason reviewer wd)))
        pure true)
      else pure false))

-- `FinalizeWithdrawalFailure`
unfoldable pub finalize_withdrawal_failure :
    Draw → RowId → WithdrawalStatus → String → Option RowId → Tx Bool
finalize_withdrawal_failure d id final reason reviewer = do
  abort_if (not (is_returned final)) invalid_final_status
  transaction (do
    wd ← or_abort (← query (λ db. find_by Withdrawal.id id db.withdrawals)) not_found
    return_row d final reason reviewer wd)
