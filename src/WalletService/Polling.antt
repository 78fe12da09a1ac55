-- ===== src/WalletService/Polling.antt =====
-- How the outcome of a transfer is learned: the webhook and the poller of
-- internal/service/wallet_service.go.
use ridematch.Prelude.{
  ℕ, suc, ◌+◌, ◌-◌, Bool, not, Option, none, some, List, [], ◌∷◌, ◌==◌, ltb, if◌then◌else◌,
}
use ridematch.Ledger.Models.{RowId, Time, Withdrawal, WithdrawalStatus, is_terminal}
use ridematch.Ledger.Store.{Db, Result, ok, err}
use ridematch.Ledger.Withdrawals.{find_withdrawal_by_reference}
use ridematch.Ledger.Payouts.{Column, transition_withdrawal}
use ridematch.Ledger.Due.{withdrawals_to_dispatch, withdrawals_in_flight_before}
use ridematch.EscrowService.{
  Service, answer, refuse, payment_provider_failed, payment_verification_failed,
}
use ridematch.WalletService.{◌>>=◌, ◌>>◌, attempt, refuse_if, Reached, replied}
use ridematch.WalletService.Dispatch.{
  Transfer, TransferRequest, Desk, apply_transfer_state, dispatch,
}

-- `HandleTransferWebhook`; `get` is `GetTransfer`.
abbrev pub either_id : Option RowId → Option RowId → Option RowId
either_id none stored = stored
either_id (some id) stored = some id

abbrev pub confirm_transfer : Desk → Withdrawal → Reached Transfer → Service (Unit {0})
confirm_transfer ds wd (replied tr) =
    refuse_if (not (tr.reference == wd.reference)) payment_verification_failed
    >> apply_transfer_state ds wd tr
confirm_transfer ds wd _ = refuse payment_provider_failed

abbrev pub look_up_transfer :
    Desk → (RowId → Reached Transfer) → Withdrawal → Option RowId → Service (Unit {0})
look_up_transfer ds get wd none = answer tt
look_up_transfer ds get wd (some id) = confirm_transfer ds wd (get id)

abbrev pub on_reported :
    Desk → (RowId → Reached Transfer) → Option RowId → Result Withdrawal → Service (Unit {0})
on_reported ds get flw (ok wd) =
    if is_terminal wd.status
    then answer tt
    else look_up_transfer ds get wd (either_id flw wd.flw_transfer_id)
on_reported ds get flw (err e) = answer tt

unfoldable pub handle_transfer_webhook :
    Desk → (RowId → Reached Transfer) → RowId → Option RowId → Service (Unit {0})
handle_transfer_webhook ds get reference flw =
    attempt (find_withdrawal_by_reference reference) >>= on_reported ds get flw

-- One row of the poller's second scan, as it was read.
abbrev pub poll_known : Desk → Withdrawal → Reached Transfer → Service (Unit {0})
poll_known ds wd (replied tr) =
    if tr.reference == wd.reference then apply_transfer_state ds wd tr else answer tt
poll_known ds wd _ = answer tt

abbrev pub poll_row :
    Desk → (RowId → Reached Transfer) → Withdrawal → Option RowId → Service (Unit {0})
poll_row ds get wd (some id) = poll_known ds wd (get id)
poll_row ds get wd none =
    if ltb (wd.updated_at + 1200) (ds.draws 0).now
    then attempt (
        transition_withdrawal (ds.draws 0) wd.id (WithdrawalStatus.processing ∷ [])
          WithdrawalStatus.needs_attention
          (Column.failure_reason "no confirmation from the payment provider" ∷ []))
      >> answer tt
    else answer tt

unfoldable pub poll_rows : (ℕ → Desk) → (RowId → Reached Transfer) → ℕ → List Withdrawal → Db → Db
poll_rows ds get n [] db = db
poll_rows ds get n (wd ∷ wds) db =
    poll_rows ds get (suc n) wds (poll_row (ds n) get wd wd.flw_transfer_id db).1

unfoldable pub dispatch_rows :
    (ℕ → Desk) → (TransferRequest → Reached Transfer) → ℕ → List Withdrawal → Db → Db
dispatch_rows ds create n [] db = db
dispatch_rows ds create n (wd ∷ wds) db =
    dispatch_rows ds create (suc n) wds (dispatch (ds n) create wd.id db).1

-- `PollWithdrawals`: the second scan reads the tables after the first has been worked through.
unfoldable pub poll_withdrawals :
    Bool
    → (ℕ → Desk)
    → (ℕ → Desk)
    → (TransferRequest → Reached Transfer)
    → (RowId → Reached Transfer)
    → Time
    → Db
    → Db
poll_withdrawals enabled ds es create get now db =
    let queued = withdrawals_to_dispatch (now - 30) 50 db.withdrawals in
    let sent = if enabled then dispatch_rows ds create 0 queued db else db in
    poll_rows es get 0 (withdrawals_in_flight_before (now - 120) 100 sent.withdrawals) sent
