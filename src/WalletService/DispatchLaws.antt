-- ===== src/WalletService/DispatchLaws.antt =====
-- Sending and settling withdrawals keeps the ledger balanced: internal/service/wallet_service.go and
-- internal/service/wallet_admin_service.go.
use ridematch.Prelude.{◌==◌, refl, Bool, Option, none, some, String, List, [], ◌∷◌, All}
use ridematch.Ledger.Models.{RowId, Withdrawal, WithdrawalStatus}
use ridematch.Ledger.Store.{Result, ok, err, Draw}
use ridematch.Ledger.Operations.{Call, step, IsSound}
use ridematch.Ledger.Runs.{step-IsLedger}
use ridematch.Ledger.Payouts.{
  Column, transition_withdrawal, finalize_withdrawal_success, finalize_withdrawal_failure,
}
use ridematch.Ledger.PayoutLaws.{IsLive, transition_withdrawal-IsLedger}
use ridematch.EscrowService.{Service, answer}
use ridematch.EscrowService.Laws.{KeepsLedger}
use ridematch.WalletService.{◌>>◌, Reached, replied, rejected, unknown}
use ridematch.WalletService.Dispatch.{
  Transfer, TransferStatus, Desk, after_success, succeed_withdrawal, fail_withdrawal,
  note_transfer_id, settle_transfer, apply_transfer_state, put_back, after_transfer, is_float_low,
}
use ridematch.WalletService.Chains.{bind-keeps, then-keeps, if-keeps, TxKeeps, attempt-keeps}

pay-TxKeeps :
    (d : Draw) (id : RowId) (flw : Option RowId) → TxKeeps (finalize_withdrawal_success d id flw)
unfolding step IsSound
pay-TxKeeps d id flw db b = step-IsLedger (Call.pay d id flw) db tt b

return-TxKeeps :
    (d : Draw) (id : RowId) (final : WithdrawalStatus) (reason : String) (who : Option RowId)
    → TxKeeps (finalize_withdrawal_failure d id final reason who)
unfolding step IsSound
return-TxKeeps d id final reason who db b =
    step-IsLedger (Call.return d id final reason who) db tt b

pub move-keeps :
    (d : Draw) (id : RowId) (from : List WithdrawalStatus) (to : WithdrawalStatus)
    (cs : List Column)
    → All IsLive from
    → IsLive to
    → TxKeeps (transition_withdrawal d id from to cs)
move-keeps d id from to cs f t db b = transition_withdrawal-IsLedger d from to cs id db b f t

abbrev pub done_after : {A : Type 0} → Service A → Service (Unit {0})
done_after s = s >> answer tt

pub done_after-keeps : {A : Type 0} (s : Service A) → KeepsLedger s → KeepsLedger (done_after s)
done_after-keeps s h = then-keeps s (answer tt) h (λ db b. b)

after_success-keeps : (k : Desk) (id : RowId) (r : Result Bool) → KeepsLedger (after_success k id r)
after_success-keeps k id (ok applied) db b = b
after_success-keeps k id (err e) db b =
    done_after-keeps _ (attempt-keeps _ (move-keeps _ _ _ _ _ (refl, (refl, tt)) refl)) db b

pub succeed_withdrawal-keeps :
    (k : Desk) (wd : Withdrawal) (flw : Option RowId) → KeepsLedger (succeed_withdrawal k wd flw)
unfolding succeed_withdrawal
succeed_withdrawal-keeps k wd flw =
    bind-keeps _ _ (attempt-keeps _ (pay-TxKeeps (k.draws 0) wd.id flw))
      (after_success-keeps k wd.id)

pub fail_withdrawal-keeps :
    (d : Draw) (wd : Withdrawal) (final : WithdrawalStatus) (reason : String) (who : Option RowId)
    → KeepsLedger (fail_withdrawal d wd final reason who)
unfolding fail_withdrawal
fail_withdrawal-keeps d wd final reason who =
    done_after-keeps _ (attempt-keeps _ (return-TxKeeps d wd.id final reason who))

note_transfer_id-keeps :
    (d : Draw) (wd : Withdrawal) (new old : Option RowId)
    → IsLive wd.status
    → KeepsLedger (note_transfer_id d wd new old)
note_transfer_id-keeps d wd none old live db b = b
note_transfer_id-keeps d wd (some id) (some known) live db b = b
note_transfer_id-keeps d wd (some id) none live db b =
    if-keeps (id == 0) (answer tt) _ (λ db b. b)
      (done_after-keeps _ (
        attempt-keeps _
          (move-keeps _ _ _ _ (Column.flw_transfer_id id ∷ []) (refl, (refl, tt)) live)))
      db b

settle_transfer-keeps :
    (k : Desk) (wd : Withdrawal) (tr : Transfer) (s : TransferStatus)
    → KeepsLedger (settle_transfer k wd tr s)
settle_transfer-keeps k wd tr TransferStatus.successful db b =
    succeed_withdrawal-keeps k wd tr.id db b
settle_transfer-keeps k wd tr TransferStatus.failed db b =
    fail_withdrawal-keeps (k.draws 0) wd WithdrawalStatus.failed _ none db b
settle_transfer-keeps k wd tr TransferStatus.pending db b = b

pub apply_transfer_state-keeps :
    (k : Desk) (wd : Withdrawal) (tr : Transfer)
    → IsLive wd.status
    → KeepsLedger (apply_transfer_state k wd tr)
unfolding apply_transfer_state
apply_transfer_state-keeps k wd tr live =
    then-keeps _ _ (note_transfer_id-keeps (k.draws 2) wd tr.id wd.flw_transfer_id live)
      (settle_transfer-keeps k wd tr tr.status)

put_back-keeps : (d : Draw) (wd : Withdrawal) → KeepsLedger (put_back d wd)
put_back-keeps d wd =
    if-keeps _ _ _ (done_after-keeps _ (attempt-keeps _ (move-keeps _ _ _ _ _ (refl, tt) refl)))
      (done_after-keeps _ (attempt-keeps _ (move-keeps _ _ _ _ _ (refl, tt) refl)))

pub after_transfer-keeps :
    (k : Desk) (wd : Withdrawal) (r : Reached Transfer)
    → IsLive wd.status
    → KeepsLedger (after_transfer k wd r)
unfolding after_transfer
after_transfer-keeps k wd (replied tr) live db b = apply_transfer_state-keeps k wd tr live db b
after_transfer-keeps k wd (rejected message) live db b =
    if-keeps (is_float_low message) _ _ (put_back-keeps (k.draws 0) wd)
      (fail_withdrawal-keeps (k.draws 0) wd WithdrawalStatus.failed _ none) db b
after_transfer-keeps k wd unknown live db b = b
