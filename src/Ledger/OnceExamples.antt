-- ===== src/Ledger/OnceExamples.antt =====
-- Second calls to internal/repository/ledger_repository.go, at concrete rows.
use ridematch.Prelude.{◌≡◌, refl, true, false, none, some, arith}
use ridematch.Prelude.Int.{pos, ◌+ℤ◌, ◌-ℤ◌}
use ridematch.Prelude.Word.{add64, sub64, neg64, wrap64}
use ridematch.Prelude.Table.{find_by}
use ridematch.Ledger.Models.{Wallet, EscrowHold, WithdrawalStatus}
use ridematch.Ledger.Store.{Db, empty_db, ok, err, invalid_transition}
use ridematch.Ledger.Post.{
  ensure_wallet_tx, lock_wallet, posting_sum, create_transaction, post_one, post_all, post,
}
use ridematch.Ledger.Wallets
use ridematch.Ledger.Topups
use ridematch.Ledger.Escrow
use ridematch.Ledger.Escrow.{is_refunded}
use ridematch.Ledger.Withdrawals
use ridematch.Ledger.Payouts
use ridematch.Ledger.Withdrawals.{WithdrawalGuard, is_returned}
use ridematch.Ledger.Operations.{Call, step, run, IsSound}
use ridematch.Ledger.Runs.{run-IsLedger, empty_db-IsLedger}
use ridematch.Ledger.Day.{
  draw, topup_row, fare, credited_calls, held_calls, queued_calls, sent_calls, held_db, queued_db,
  sent_db, driver_wallet, held_calls-IsSound, queued_calls-IsSound, sent_calls-IsSound,
}
use ridematch.Ledger.Runs.{step-IsLedger}
use ridematch.Ledger.NoDoublePayout.{success-once, failure-once}
use ridematch.Ledger.Paying.{release_escrow-pays}
use ridematch.Ledger.SettledOnce.{release_escrow-once, refund_escrow-once}
use ridematch.Ledger.CreditedOnce.{credit_topup-once}

success-once_example :
    let db = (Payouts.finalize_withdrawal_success (draw 7) 53 (some 88) sent_db).1 in
    (Payouts.finalize_withdrawal_success (draw 8) 53 none db ≡ (ok false, db))
    × (Payouts.finalize_withdrawal_failure (draw 8) 53 WithdrawalStatus.failed "late" none db
        ≡ (err invalid_transition, db))
unfolding run step Wallets.ensure_wallet Topups.create_topup Topups.credit_topup Topups.credit_row
    Escrow.hold_escrow Escrow.hold_over Escrow.take_fare Escrow.release_escrow Escrow.release_hold
    Withdrawals.create_withdrawal Withdrawals.lock_funds Withdrawals.check_guard
    Withdrawals.store_row Withdrawals.used_today Payouts.transition_withdrawal
    Payouts.finalize_withdrawal_success Payouts.pay_row ensure_wallet_tx lock_wallet posting_sum
    create_transaction post_one post_all post ◌+ℤ◌ ◌-ℤ◌ add64 sub64 neg64 wrap64
success-once_example =
    success-once (draw 7) 53 (some 88) sent_db
      (Payouts.finalize_withdrawal_success (draw 7) 53 (some 88) sent_db).1
      (run-IsLedger sent_calls empty_db sent_calls-IsSound empty_db-IsLedger) refl (draw 8) none
      WithdrawalStatus.failed "late" none refl

failure-once_example :
    let db =
      (Payouts.finalize_withdrawal_failure
        (draw 7)
        53
        WithdrawalStatus.failed
        "no such account"
        none
        queued_db).1 in
    (Payouts.finalize_withdrawal_success (draw 8) 53 none db ≡ (err invalid_transition, db))
    × (Payouts.finalize_withdrawal_failure (draw 8) 53 WithdrawalStatus.rejected "late" none db
        ≡ (ok false, db))
unfolding run step Wallets.ensure_wallet Topups.create_topup Topups.credit_topup Topups.credit_row
    Escrow.hold_escrow Escrow.hold_over Escrow.take_fare Escrow.release_escrow Escrow.release_hold
    Withdrawals.create_withdrawal Withdrawals.lock_funds Withdrawals.check_guard
    Withdrawals.store_row Withdrawals.used_today Payouts.transition_withdrawal
    Payouts.finalize_withdrawal_success Payouts.pay_row ensure_wallet_tx lock_wallet posting_sum
    create_transaction post_one post_all post ◌+ℤ◌ ◌-ℤ◌ add64 sub64 neg64 wrap64
    Payouts.finalize_withdrawal_failure Payouts.return_row
failure-once_example =
    failure-once (draw 7) 53 WithdrawalStatus.failed "no such account" none queued_db
      (Payouts.finalize_withdrawal_failure (draw 7) 53 WithdrawalStatus.failed "no such account"
        none queued_db).1
      (run-IsLedger queued_calls empty_db queued_calls-IsSound empty_db-IsLedger) refl (draw 8) none
      WithdrawalStatus.rejected "late" none refl

release_escrow-once_example :
    let db = (Escrow.release_escrow (draw 4) 700 "" held_db).1 in
    (Escrow.release_escrow (draw 5) 700 "again" db ≡ (ok false, db))
    × (Escrow.refund_escrow (draw 5) 700 none "again" db ≡ (ok false, db))
unfolding run step Wallets.ensure_wallet Topups.create_topup Topups.credit_topup Topups.credit_row
    Escrow.hold_escrow Escrow.hold_over Escrow.take_fare Escrow.release_escrow Escrow.release_hold
    Withdrawals.create_withdrawal Withdrawals.lock_funds Withdrawals.check_guard
    Withdrawals.store_row Withdrawals.used_today Payouts.transition_withdrawal
    Payouts.finalize_withdrawal_success Payouts.pay_row ensure_wallet_tx lock_wallet posting_sum
    create_transaction post_one post_all post ◌+ℤ◌ ◌-ℤ◌ add64 sub64 neg64 wrap64
release_escrow-once_example =
    release_escrow-once (draw 4) 700 "" held_db (Escrow.release_escrow (draw 4) 700 "" held_db).1
      (run-IsLedger held_calls empty_db held_calls-IsSound empty_db-IsLedger) refl (draw 5) none
      "again"

refund_escrow-once_example :
    let db = (Escrow.refund_escrow (draw 4) 700 none "cancelled" held_db).1 in
    (Escrow.release_escrow (draw 5) 700 "again" db ≡ (ok false, db))
    × (Escrow.refund_escrow (draw 5) 700 (some 1) "again" db ≡ (ok false, db))
unfolding run step Wallets.ensure_wallet Topups.create_topup Topups.credit_topup Topups.credit_row
    Escrow.hold_escrow Escrow.hold_over Escrow.take_fare Escrow.release_escrow Escrow.release_hold
    Withdrawals.create_withdrawal Withdrawals.lock_funds Withdrawals.check_guard
    Withdrawals.store_row Withdrawals.used_today Payouts.transition_withdrawal
    Payouts.finalize_withdrawal_success Payouts.pay_row ensure_wallet_tx lock_wallet posting_sum
    create_transaction post_one post_all post ◌+ℤ◌ ◌-ℤ◌ add64 sub64 neg64 wrap64
    Escrow.refund_escrow Escrow.refund_hold
refund_escrow-once_example =
    refund_escrow-once (draw 4) 700 none "cancelled" held_db
      (Escrow.refund_escrow (draw 4) 700 none "cancelled" held_db).1
      (run-IsLedger held_calls empty_db held_calls-IsSound empty_db-IsLedger) refl (draw 5) (some 1)
      "again"

abbrev started_db : Db
started_db = run credited_calls empty_db

credit_topup-once_example :
    let db = (Topups.credit_topup (draw 2) 900 (pos 204395) (pos 200000) 77 started_db).1 in
    Topups.credit_topup (draw 3) 900 (pos 5) (pos 4) 78 db
    ≡ (ok (Topups.credited (draw 2) topup_row (pos 204395) (pos 200000) 77, false), db)
unfolding run step Wallets.ensure_wallet Topups.create_topup Topups.credit_topup Topups.credit_row
    Escrow.hold_escrow Escrow.hold_over Escrow.take_fare Escrow.release_escrow Escrow.release_hold
    Withdrawals.create_withdrawal Withdrawals.lock_funds Withdrawals.check_guard
    Withdrawals.store_row Withdrawals.used_today Payouts.transition_withdrawal
    Payouts.finalize_withdrawal_success Payouts.pay_row ensure_wallet_tx lock_wallet posting_sum
    create_transaction post_one post_all post ◌+ℤ◌ ◌-ℤ◌ add64 sub64 neg64 wrap64 IsSound
credit_topup-once_example =
    credit_topup-once (draw 2) (pos 204395) (pos 200000) 77 (refl, omega arith) (refl, omega arith)
      900 (Topups.credited (draw 2) topup_row (pos 204395) (pos 200000) 77) started_db
      (Topups.credit_topup (draw 2) 900 (pos 204395) (pos 200000) 77 started_db).1
      (run-IsLedger credited_calls empty_db (tt, tt) empty_db-IsLedger) refl (draw 3) (pos 5)
      (pos 4) 78

-- The payee's wallet exists, with money of its own.
abbrev payee_db : Db
payee_db = step (Call.ensure (draw 4) 502) held_db

release_escrow-pays_example :
    let r = Escrow.release_escrow (draw 5) 700 "" payee_db in
    (r.0 ≡ ok true)
    × (find_by Wallet.id 41 r.1.wallets
        ≡ some (record (driver_wallet (pos 0) false) {
          pin_failed_attempts = 0;
          balance_kobo = pos 0 +ℤ pos 150000;
        }))
    × (find_by EscrowHold.id 33 r.1.escrows
        ≡ some (Escrow.released_hold (draw 5) "" (Escrow.opened (draw 3) fare)))
unfolding run step Wallets.ensure_wallet Topups.create_topup Topups.credit_topup Topups.credit_row
    Escrow.hold_escrow Escrow.hold_over Escrow.take_fare Escrow.release_escrow Escrow.release_hold
    Withdrawals.create_withdrawal Withdrawals.lock_funds Withdrawals.check_guard
    Withdrawals.store_row Withdrawals.used_today Payouts.transition_withdrawal
    Payouts.finalize_withdrawal_success Payouts.pay_row ensure_wallet_tx lock_wallet posting_sum
    create_transaction post_one post_all post ◌+ℤ◌ ◌-ℤ◌ add64 sub64 neg64 wrap64 IsSound
release_escrow-pays_example =
    release_escrow-pays (draw 5) 700 "" (Escrow.opened (draw 3) fare)
      (record (driver_wallet (pos 0) false) { pin_failed_attempts = 0 }) payee_db
      (step-IsLedger (Call.ensure (draw 4) 502) held_db tt
        (run-IsLedger held_calls empty_db held_calls-IsSound empty_db-IsLedger))
      refl refl refl refl (refl, omega arith)
