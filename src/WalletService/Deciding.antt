-- ===== src/WalletService/Deciding.antt =====
-- An admin's decision on a withdrawal: internal/service/wallet_admin_service.go.
use ridematch.Prelude.{not, some, String, [], ◌∷◌, ◌==◌}
use Prim.Native.String.{◌++◌}
use ridematch.Ledger.Models.{RowId, Withdrawal, WithdrawalStatus}
use ridematch.Ledger.Store.{Error}
use ridematch.Ledger.Withdrawals.{same_status, find_withdrawal_by_id}
use ridematch.Ledger.Payouts.{Column, transition_withdrawal}
use ridematch.EscrowService.{
  Refusal, Service, refuse, withdrawal_not_found, withdrawal_state, same_approver,
}
use ridematch.WalletService.{◌>>=◌, ◌>>◌, ledger, attempt, refuse_if}
use ridematch.WalletService.Dispatch.{Desk, succeed_withdrawal, fail_withdrawal}

-- `AdminDecideWithdrawal`
pub data Verdict : Type 0 where
  approve reject mark_paid mark_failed other : Verdict

abbrev pub withdrawal_error : Error → Refusal
withdrawal_error Error.not_found = withdrawal_not_found
withdrawal_error e = Refusal.failed e

-- `failWithdrawalReviewed`
abbrev pub fail_reviewed :
    Desk → Withdrawal → WithdrawalStatus → String → RowId → String → Service (Unit {0})
fail_reviewed ds wd final reason reviewer note =
    attempt (
      transition_withdrawal (ds.draws 2) wd.id
        (WithdrawalStatus.pending_review ∷ WithdrawalStatus.needs_attention
          ∷ WithdrawalStatus.processing ∷ WithdrawalStatus.queued ∷ [])
        wd.status (Column.review_note note ∷ []))
    >> fail_withdrawal (ds.draws 0) wd final reason (some reviewer)

abbrev pub in_state : WithdrawalStatus → Withdrawal → Service (Unit {0}) → Service (Unit {0})
in_state s wd act = refuse_if (not (same_status wd.status s)) withdrawal_state >> act

abbrev pub decide_withdrawal : Desk → RowId → String → Verdict → Withdrawal → Service (Unit {0})
decide_withdrawal ds admin note approve wd = in_state WithdrawalStatus.pending_review wd (
    refuse_if (wd.user_id == admin) same_approver
    >> ledger Refusal.failed (
        transition_withdrawal (ds.draws 0) wd.id (WithdrawalStatus.pending_review ∷ [])
          WithdrawalStatus.queued (Column.reviewed_by admin ∷ Column.review_note note ∷ []))
    >>= λ moved. refuse_if (not moved) withdrawal_state)
decide_withdrawal ds admin note reject wd =
    in_state WithdrawalStatus.pending_review wd
      (fail_reviewed ds wd WithdrawalStatus.rejected ("rejected by review: " ++ note) admin note)
decide_withdrawal ds admin note mark_paid wd =
    in_state WithdrawalStatus.needs_attention wd (succeed_withdrawal ds wd wd.flw_transfer_id)
decide_withdrawal ds admin note mark_failed wd =
    in_state WithdrawalStatus.needs_attention wd
      (fail_reviewed ds wd WithdrawalStatus.failed ("confirmed not paid: " ++ note) admin note)
decide_withdrawal ds admin note other wd = refuse withdrawal_state

unfoldable pub admin_decide_withdrawal :
    Desk → RowId → RowId → Verdict → String → Service Withdrawal
admin_decide_withdrawal ds admin id verdict note =
    ledger withdrawal_error (find_withdrawal_by_id id)
    >>= decide_withdrawal ds admin note verdict
    >> ledger Refusal.failed (find_withdrawal_by_id id)
