-- ===== src/WalletService/Examples.antt =====
-- Runs of internal/service/wallet_service.go and internal/service/wallet_admin_service.go on small
-- tables.
use ridematch.Prelude.{◌+◌, ◌*◌, ◌≡◌, refl, Option, none, some, inr, [], ◌∷◌, arith}
use ridematch.Prelude.Int.{pos}
use ridematch.Prelude.Table.{find_by}
use ridematch.Ledger.Models.{Wallet, Withdrawal, WithdrawalStatus}
use ridematch.Ledger.Store.{Db, empty_db}
use ridematch.Ledger.Day.{draw, topup_row}
use ridematch.EscrowService.{Answer, done}
use ridematch.WalletService.Crediting.{handle_charge_webhook}
use ridematch.Prelude.Int.{◌+ℤ◌, ◌-ℤ◌}
use ridematch.Prelude.Word.{add64, sub64, neg64, wrap64}
use ridematch.Ledger.Post.{
  ensure_wallet_tx, lock_wallet, posting_sum, create_transaction, post_one, post_all, post,
}
use ridematch.WalletService.{◌>>=◌, ledger, attempt}
use ridematch.Prelude.{map}
use ridematch.Ledger.Balanced.{IsLedger}
use ridematch.Ledger.Runs.{empty_db-IsLedger}
use ridematch.Ledger.Payouts.{transition_withdrawal, finalize_withdrawal_failure, return_row}
use ridematch.Ledger.Withdrawals.{find_withdrawal_by_id}
use ridematch.WalletService.Crediting.{is_success}
use ridematch.WalletService.Dispatch.{after_transfer, fail_withdrawal}
use ridematch.WalletService.Requests.{handle_all, IsBound, handle_all-IsLedger}
use ridematch.WalletService.Dispatch.{TransferRequest, dispatch, request_of}
use ridematch.WalletService.Deciding.{admin_decide_withdrawal, decide_withdrawal, Verdict}
use ridematch.WalletService.Sending.{dispatch-unknown, claimed}
use ridematch.WalletService.Webhooks.{handle_charge_webhook-unpaid}
use ridematch.WalletService.Samples.{
  desk, lost, queued_row, one_row, config, directory, same_text, other_payment, topped, morning,
  review_row, in_review,
}

dispatch-unknown_example :
    let left = (dispatch (desk 6) lost 53 (one_row queued_row)).1 in
    ((dispatch (desk 6) lost 53 (one_row queued_row)).0 ≡ done (some (request_of queued_row)))
    × (find_by Withdrawal.id 53 left.withdrawals ≡ some (claimed (draw 63) queued_row))
    × (left.wallets ≡ [])
    × (left.entries ≡ [])
    × (dispatch (desk 7) lost 53 left ≡ (done none, left))
dispatch-unknown_example =
    dispatch-unknown (desk 6) (desk 7) lost lost 53 queued_row (one_row queued_row) refl refl refl

handle_charge_webhook-unpaid_example :
    (handle_charge_webhook config (draw 3) other_payment 901 77 topped).1 ≡ topped
unfolding is_success
handle_charge_webhook-unpaid_example =
    handle_charge_webhook-unpaid config (draw 3) other_payment 901 77 topup_row topped refl
      (inr refl)

handle_all-IsLedger_example :
    IsLedger (handle_all same_text config directory 3 (λ n m. desk (10 * n + m)) 0 morning empty_db)
unfolding IsBound
handle_all-IsLedger_example =
    handle_all-IsLedger same_text config directory 3 (λ n m. desk (10 * n + m)) 0 morning empty_db
      (tt, ((λ flw. (omega arith, omega arith)), ((omega arith, omega arith), (tt, tt))))
      empty_db-IsLedger

abbrev approved : Db
approved = (admin_decide_withdrawal (desk 6) 900 53 Verdict.approve "fine" in_review).1

abbrev sent : Answer (Option TransferRequest) × Db
sent = dispatch (desk 7) lost 53 approved

abbrev rejected_late : Db
rejected_late = (decide_withdrawal (desk 8) 901 "no" Verdict.reject review_row sent.1).1

late_rejection :
    (sent.0 ≡ done (some (request_of review_row)))
    × (map Withdrawal.status rejected_late.withdrawals ≡ WithdrawalStatus.rejected ∷ [])
    × (map Wallet.balance_kobo rejected_late.wallets ≡ pos 100000 ∷ [])
unfolding admin_decide_withdrawal dispatch after_transfer fail_withdrawal ◌>>=◌ ledger attempt
    transition_withdrawal finalize_withdrawal_failure return_row find_withdrawal_by_id
    ensure_wallet_tx lock_wallet posting_sum create_transaction post_one post_all post ◌+ℤ◌ ◌-ℤ◌
    add64 sub64 neg64 wrap64
late_rejection = (refl, refl, refl)
