-- ===== src/WalletService/DecisionKeeping.antt =====
-- An admin's decision of internal/service/wallet_admin_service.go keeps the ledger balanced.
use ridematch.Prelude.{◌≡◌, refl, true, inl, inr, some, String, arith, Bool-cases, Option-cases}
use ridematch.Prelude.Table.{find_by}
use ridematch.Ledger.Models.{RowId, Withdrawal, WithdrawalStatus}
use ridematch.Ledger.Withdrawals.{same_status, find_withdrawal_by_id}
use ridematch.Ledger.PayoutLaws.{IsLive}
use ridematch.EscrowService.{Service}
use ridematch.EscrowService.Laws.{KeepsLedger}
use ridematch.WalletService.{◌>>=◌}
use ridematch.WalletService.Dispatch.{Desk}
use ridematch.WalletService.Deciding.{
  Verdict, fail_reviewed, in_state, decide_withdrawal, admin_decide_withdrawal, approve, reject,
  mark_paid, mark_failed, other,
}
use ridematch.WalletService.Chains.{bind-keeps, then-keeps, TxKeeps, ledger-keeps, attempt-keeps}
use ridematch.WalletService.DispatchLaws.{
  succeed_withdrawal-keeps, fail_withdrawal-keeps, move-keeps,
}

read-TxKeeps : (id : RowId) → TxKeeps (find_withdrawal_by_id id)
unfolding find_withdrawal_by_id
read-TxKeeps id db b = elim (Option-cases (find_by Withdrawal.id id db.withdrawals)) [
  | inl missing ↦ rw missing b
  | inr (r, row) ↦ rw row b
]

module _ (k : Desk) (admin : RowId) (note : String) where
  fail_reviewed-keeps :
      (wd : Withdrawal) (final : WithdrawalStatus) (reason : String)
      → IsLive wd.status
      → KeepsLedger (fail_reviewed k wd final reason admin note)
  fail_reviewed-keeps wd final reason live =
      then-keeps _ _
        (attempt-keeps _
          (move-keeps (k.draws 2) wd.id _ wd.status _ (refl, (refl, (refl, (refl, tt)))) live))
        (fail_withdrawal-keeps (k.draws 0) wd final reason (some admin))

  in_state-keeps :
      (s : WithdrawalStatus) (wd : Withdrawal) (act : Service (Unit {0}))
      → (same_status wd.status s ≡ true → KeepsLedger act)
      → KeepsLedger (in_state s wd act)
  unfolding ◌>>=◌
  in_state-keeps s wd act h db b = elim (Bool-cases (same_status wd.status s)) [
    | inl now ↦ rw now (h now db b)
    | inr elsewhere ↦ rw elsewhere b
  ]

  decide_withdrawal-keeps :
      (v : Verdict) (wd : Withdrawal) → KeepsLedger (decide_withdrawal k admin note v wd)
  decide_withdrawal-keeps approve wd db b =
      in_state-keeps WithdrawalStatus.pending_review wd _
        (λ _.
          bind-keeps _ _
            (then-keeps _ _ (λ db b. b)
              (ledger-keeps _ _
                (move-keeps (k.draws 0) wd.id _ WithdrawalStatus.queued _ (refl, tt) refl)))
            (λ moved db b. b))
        db b
  decide_withdrawal-keeps reject wd db b =
      in_state-keeps WithdrawalStatus.pending_review wd _
        (λ now. fail_reviewed-keeps wd WithdrawalStatus.rejected _ (ground arith)) db b
  decide_withdrawal-keeps mark_paid wd db b =
      in_state-keeps WithdrawalStatus.needs_attention wd _
        (λ _. succeed_withdrawal-keeps k wd wd.flw_transfer_id) db b
  decide_withdrawal-keeps mark_failed wd db b =
      in_state-keeps WithdrawalStatus.needs_attention wd _
        (λ now. fail_reviewed-keeps wd WithdrawalStatus.failed _ (ground arith)) db b
  decide_withdrawal-keeps other wd db b = b

  pub admin_decide_withdrawal-keeps :
      (id : RowId) (v : Verdict) → KeepsLedger (admin_decide_withdrawal k admin id v note)
  unfolding admin_decide_withdrawal
  admin_decide_withdrawal-keeps id v =
      then-keeps _ _
        (bind-keeps _ _ (ledger-keeps _ _ (read-TxKeeps id)) (decide_withdrawal-keeps v))
        (ledger-keeps _ _ (read-TxKeeps id))
