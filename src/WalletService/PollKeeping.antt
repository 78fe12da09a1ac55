-- ===== src/WalletService/PollKeeping.antt =====
-- The webhook and the poller of internal/service/wallet_service.go keep the ledger balanced.
use ridematch.Prelude.{
  ℕ, suc, ◌+◌, ◌-◌, ◌≡◌, refl, Bool, true, false, inl, inr, Option, none, some, List, [], ◌∷◌, ◌==◌,
  ltb, arith, Bool-cases, Option-cases, All,
}
use ridematch.Prelude.Table.{find_by}
use ridematch.Ledger.Models.{RowId, Time, Withdrawal, WithdrawalStatus, is_terminal}
use ridematch.Ledger.Store.{Db, Result, ok, err}
use ridematch.Ledger.Balanced.{IsLedger}
use ridematch.Ledger.Due.{waits, withdrawals_to_dispatch, withdrawals_in_flight_before}
use ridematch.Ledger.DueLaws.{All-where_rows, All-order_by, All-limit, All-mono}
use ridematch.Ledger.Withdrawals.{find_withdrawal_by_reference}
use ridematch.Ledger.PayoutLaws.{IsLive}
use ridematch.EscrowService.Laws.{KeepsLedger}
use ridematch.WalletService.{Reached, replied, rejected, unknown}
use ridematch.WalletService.Dispatch.{Transfer, TransferRequest, Desk, dispatch}
use ridematch.WalletService.Polling.{
  confirm_transfer, look_up_transfer, on_reported, either_id, handle_transfer_webhook, poll_known,
  poll_row, poll_rows, dispatch_rows, poll_withdrawals,
}
use ridematch.WalletService.Chains.{bind-keeps, then-keeps, if-keeps, TxKeeps, attempt-keeps}
use ridematch.WalletService.DispatchLaws.{apply_transfer_state-keeps, done_after-keeps, move-keeps}
use ridematch.WalletService.Sending.{dispatch-keeps}

reference-TxKeeps : (ref : RowId) → TxKeeps (find_withdrawal_by_reference ref)
unfolding find_withdrawal_by_reference
reference-TxKeeps ref db b = elim (Option-cases (find_by Withdrawal.reference ref db.withdrawals)) [
  | inl missing ↦ rw missing b
  | inr (r, row) ↦ rw row b
]

module _ (k : Desk) (get : RowId → Reached Transfer) where
  confirm_transfer-keeps :
      (wd : Withdrawal) (r : Reached Transfer)
      → IsLive wd.status
      → KeepsLedger (confirm_transfer k wd r)
  confirm_transfer-keeps wd (replied tr) live db b =
      then-keeps _ _ (λ db b. b) (apply_transfer_state-keeps k wd tr live) db b
  confirm_transfer-keeps wd (rejected message) live db b = b
  confirm_transfer-keeps wd unknown live db b = b

  look_up_transfer-keeps :
      (wd : Withdrawal) (id : Option RowId)
      → IsLive wd.status
      → KeepsLedger (look_up_transfer k get wd id)
  look_up_transfer-keeps wd none live db b = b
  look_up_transfer-keeps wd (some id) live db b = confirm_transfer-keeps wd (get id) live db b

  on_reported-keeps :
      (flw : Option RowId) (r : Result Withdrawal) → KeepsLedger (on_reported k get flw r)
  on_reported-keeps flw (err e) db b = b
  on_reported-keeps flw (ok wd) db b = elim (Bool-cases (is_terminal wd.status)) [
    | inl final ↦ rw final b
    | inr live ↦ rw live (look_up_transfer-keeps wd (either_id flw wd.flw_transfer_id) live db b)
  ]

  pub handle_transfer_webhook-keeps :
      (reference : RowId) (flw : Option RowId)
      → KeepsLedger (handle_transfer_webhook k get reference flw)
  unfolding handle_transfer_webhook
  handle_transfer_webhook-keeps reference flw =
      bind-keeps _ _ (attempt-keeps _ (reference-TxKeeps reference)) (on_reported-keeps flw)

  poll_known-keeps :
      (wd : Withdrawal) (r : Reached Transfer) → IsLive wd.status → KeepsLedger (poll_known k wd r)
  poll_known-keeps wd (replied tr) live db b =
      if-keeps (tr.reference == wd.reference) _ _ (apply_transfer_state-keeps k wd tr live)
        (λ db b. b) db b
  poll_known-keeps wd (rejected message) live db b = b
  poll_known-keeps wd unknown live db b = b

  pub poll_row-keeps :
      (wd : Withdrawal) (id : Option RowId) → IsLive wd.status → KeepsLedger (poll_row k get wd id)
  poll_row-keeps wd (some id) live db b = poll_known-keeps wd (get id) live db b
  poll_row-keeps wd none live db b =
      if-keeps (ltb (wd.updated_at + 1200) (k.draws 0).now) _ _
        (done_after-keeps _ (
          attempt-keeps _
            (move-keeps (k.draws 0) wd.id _ WithdrawalStatus.needs_attention _ (refl, tt) refl)))
        (λ db b. b) db b

poll_rows-IsLedger :
    (ds : ℕ → Desk) (get : RowId → Reached Transfer) (n : ℕ) (wds : List Withdrawal) (db : Db)
    → All (λ wd. IsLive wd.status) wds
    → IsLedger db
    → IsLedger (poll_rows ds get n wds db)
unfolding poll_rows
poll_rows-IsLedger ds get n [] db live b = b
poll_rows-IsLedger ds get n (wd ∷ wds) db live b =
    poll_rows-IsLedger ds get (suc n) wds (poll_row (ds n) get wd wd.flw_transfer_id db).1 live.1
      (poll_row-keeps (ds n) get wd wd.flw_transfer_id live.0 db b)

dispatch_rows-IsLedger :
    (ds : ℕ → Desk) (create : TransferRequest → Reached Transfer) (n : ℕ) (wds : List Withdrawal)
    (db : Db)
    → IsLedger db
    → IsLedger (dispatch_rows ds create n wds db)
unfolding dispatch_rows
dispatch_rows-IsLedger ds create n [] db b = b
dispatch_rows-IsLedger ds create n (wd ∷ wds) db b =
    dispatch_rows-IsLedger ds create (suc n) wds (dispatch (ds n) create wd.id db).1
      (dispatch-keeps (ds n) create wd.id db b)

waits-IsLive :
    (before : Time) (wd : Withdrawal)
    → waits WithdrawalStatus.processing before wd ≡ true
    → IsLive wd.status
waits-IsLive before wd h = ground arith

in_flight-IsLive :
    (before : Time) (n : ℕ) (wds : List Withdrawal)
    → All (λ wd. IsLive wd.status) (withdrawals_in_flight_before before n wds)
unfolding withdrawals_in_flight_before
in_flight-IsLive before n wds =
    All-limit (λ wd. IsLive wd.status) n _
      (All-order_by (λ wd. IsLive wd.status) _ _
        (All-mono (λ wd. waits WithdrawalStatus.processing before wd ≡ true)
          (λ wd. IsLive wd.status) _ (waits-IsLive before)
          (All-where_rows (waits WithdrawalStatus.processing before) wds)))

pub poll_withdrawals-IsLedger :
    (enabled : Bool) (ds es : ℕ → Desk) (create : TransferRequest → Reached Transfer)
    (get : RowId → Reached Transfer) (now : Time) (db : Db)
    → IsLedger db
    → IsLedger (poll_withdrawals enabled ds es create get now db)
unfolding poll_withdrawals
poll_withdrawals-IsLedger false ds es create get now db b =
    poll_rows-IsLedger es get 0 _ db (in_flight-IsLive (now - 120) 100 db.withdrawals) b
poll_withdrawals-IsLedger true ds es create get now db b =
    let sent =
      dispatch_rows ds create 0 (withdrawals_to_dispatch (now - 30) 50 db.withdrawals) db in
    poll_rows-IsLedger es get 0 _ sent (in_flight-IsLive (now - 120) 100 sent.withdrawals)
      (dispatch_rows-IsLedger ds create 0 _ db b)
