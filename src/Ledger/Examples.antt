-- ===== src/Ledger/Examples.antt =====
-- Runs of internal/repository/ledger_repository.go at concrete calls.
use ridematch.Prelude.{◌≡◌, refl, List, ◌⊎◌, All, true, false, [], ◌∷◌, arith}
use ridematch.Prelude.Int.{pos, ◌+ℤ◌, ◌-ℤ◌}
use ridematch.Prelude.Word.{add64, sub64, neg64, wrap64, IsAmount}
use ridematch.Prelude.Table.{sum_by}
use ridematch.Ledger.Models.{Account, Wallet, EscrowHold}
use ridematch.Ledger.Store.{Db, empty_db, ok, err, hold_conflict}
use ridematch.Ledger.Post.{
  fresh_wallet, ensure_wallet_tx, lock_wallet, posting_sum, create_transaction, post_one, post_all,
  post,
}
use ridematch.Ledger.Wallets
use ridematch.Ledger.Topups
use ridematch.Ledger.Escrow
use ridematch.Ledger.Escrow.{is_refunded}
use ridematch.Ledger.Withdrawals
use ridematch.Ledger.Payouts
use ridematch.Ledger.Withdrawals.{WithdrawalGuard, is_returned}
use ridematch.Ledger.Operations.{Call, step, run, IsSound}
use ridematch.Ledger.Runs.{run-IsLedger, empty_db-IsLedger}
use ridematch.Ledger.Balanced.{IsLedger}
use ridematch.Ledger.Day.{
  draw, fare, payout, limits, topup_row, held_calls, paid_calls, held_db, driver_wallet, one_wallet,
  paid_calls-IsSound, held_calls-IsSound,
}
use ridematch.Ledger.Sums.{
  account_total, wallet_total, balance_total, held_amount, in_flight_amount,
}
use ridematch.Ledger.Integrity.{integrity}
use ridematch.Ledger.IntegrityLaws.{integrity-vouches}
use ridematch.Ledger.Runs.{step-IsLedger, integrity-run}
use ridematch.Ledger.Conservation.{run-conserves, run-solvent}
use ridematch.Ledger.Guard.{IsAllowed, create_withdrawal-IsAllowed}
use ridematch.Ledger.HoldAgain.{hold_escrow-once, SameTerms}

integrity-run_example :
    ((integrity (run paid_calls empty_db)).ok ≡ true)
    × ((integrity (run paid_calls empty_db)).problems ≡ [])
integrity-run_example = integrity-run paid_calls paid_calls-IsSound

run-conserves_example :
    let db = run paid_calls empty_db in
    balance_total db.wallets
      +ℤ sum_by held_amount db.escrows
      +ℤ sum_by in_flight_amount db.withdrawals
      +ℤ account_total Account.external_out db.entries
      +ℤ account_total Account.fees db.entries
      +ℤ account_total Account.external_in db.entries
    ≡ pos 0
run-conserves_example = run-conserves paid_calls paid_calls-IsSound

run-solvent_example :
    IsAmount (pos 50000) × (pos 50000 ≡ wallet_total 41 (run paid_calls empty_db).entries)
unfolding run step Wallets.ensure_wallet Topups.create_topup Topups.credit_topup Topups.credit_row
    Escrow.hold_escrow Escrow.hold_over Escrow.take_fare Escrow.release_escrow Escrow.release_hold
    Withdrawals.create_withdrawal Withdrawals.lock_funds Withdrawals.check_guard
    Withdrawals.store_row Withdrawals.used_today Payouts.transition_withdrawal
    Payouts.finalize_withdrawal_success Payouts.pay_row ensure_wallet_tx lock_wallet posting_sum
    create_transaction post_one post_all post ◌+ℤ◌ ◌-ℤ◌ add64 sub64 neg64 wrap64
run-solvent_example =
    run-solvent paid_calls 41 (record (driver_wallet (pos 50000) false) { pin_failed_attempts = 0 })
      paid_calls-IsSound refl

integrity-vouches_example :
    let db = run paid_calls empty_db in
    (balance_total db.wallets ≡ account_total Account.wallet db.entries)
    × (account_total Account.escrow db.entries ≡ sum_by held_amount db.escrows)
    × (account_total Account.payout_pending db.entries ≡ sum_by in_flight_amount db.withdrawals)
    × (pos 50000 ≡ wallet_total 41 db.entries)
unfolding run step Wallets.ensure_wallet Topups.create_topup Topups.credit_topup Topups.credit_row
    Escrow.hold_escrow Escrow.hold_over Escrow.take_fare Escrow.release_escrow Escrow.release_hold
    Withdrawals.create_withdrawal Withdrawals.lock_funds Withdrawals.check_guard
    Withdrawals.store_row Withdrawals.used_today Payouts.transition_withdrawal
    Payouts.finalize_withdrawal_success Payouts.pay_row ensure_wallet_tx lock_wallet posting_sum
    create_transaction post_one post_all post ◌+ℤ◌ ◌-ℤ◌ add64 sub64 neg64 wrap64
integrity-vouches_example =
    integrity-vouches (run paid_calls empty_db) 41
      (record (driver_wallet (pos 50000) false) { pin_failed_attempts = 0 })
      (integrity-run paid_calls paid_calls-IsSound).0 refl

step-IsLedger_example : IsLedger (step (Call.release (draw 4) 700 "") held_db)
unfolding IsSound
step-IsLedger_example =
    step-IsLedger (Call.release (draw 4) 700 "") held_db tt
      (run-IsLedger held_calls empty_db held_calls-IsSound empty_db-IsLedger)

create_withdrawal-IsAllowed_example :
    IsAllowed limits
      (driver_wallet (pos 150000) false)
      payout
      (one_wallet (driver_wallet (pos 150000) false))
unfolding run step Wallets.ensure_wallet Topups.create_topup Topups.credit_topup Topups.credit_row
    Escrow.hold_escrow Escrow.hold_over Escrow.take_fare Escrow.release_escrow Escrow.release_hold
    Withdrawals.create_withdrawal Withdrawals.lock_funds Withdrawals.check_guard
    Withdrawals.store_row Withdrawals.used_today Payouts.transition_withdrawal
    Payouts.finalize_withdrawal_success Payouts.pay_row ensure_wallet_tx lock_wallet posting_sum
    create_transaction post_one post_all post ◌+ℤ◌ ◌-ℤ◌ add64 sub64 neg64 wrap64
create_withdrawal-IsAllowed_example =
    create_withdrawal-IsAllowed (draw 5) payout (Withdrawals.new_row (draw 5) payout) limits
      (driver_wallet (pos 150000) false) (one_wallet (driver_wallet (pos 150000) false))
      (Withdrawals.create_withdrawal (draw 5) payout limits
        (one_wallet (driver_wallet (pos 150000) false))).1
      refl refl

abbrev funded_calls : List Call
funded_calls =
    Call.start_topup topup_row ∷ Call.credit (draw 2) 900 (pos 204395) (pos 200000) 77 ∷ []

funded_calls-IsSound : All IsSound funded_calls
unfolding IsSound
funded_calls-IsSound = (tt, (((refl, omega arith), (refl, omega arith)), tt))

abbrev funded_db : Db
funded_db = run funded_calls empty_db

abbrev cheaper : EscrowHold
cheaper = record fare { amount_kobo = pos 1 }

abbrev taken_db : Db
taken_db = (Escrow.hold_escrow (draw 3) fare funded_db).1

hold_escrow-once_example :
    (SameTerms cheaper fare
      × (Escrow.hold_escrow (draw 4) cheaper taken_db
          ≡ (ok (Escrow.opened (draw 3) fare, false), taken_db)))
    ⊎ (¬ SameTerms cheaper fare
        × (Escrow.hold_escrow (draw 4) cheaper taken_db ≡ (err hold_conflict, taken_db)))
unfolding run step Wallets.ensure_wallet Topups.create_topup Topups.credit_topup Topups.credit_row
    Escrow.hold_escrow Escrow.hold_over Escrow.take_fare ensure_wallet_tx lock_wallet posting_sum
    create_transaction post_one post_all post ◌+ℤ◌ ◌-ℤ◌ add64 sub64 neg64 wrap64
hold_escrow-once_example =
    hold_escrow-once (draw 3) (draw 4) fare cheaper (Escrow.opened (draw 3) fare)
      (record (fresh_wallet 21 501) { balance_kobo = pos 50000 }) funded_db taken_db
      (run-IsLedger funded_calls empty_db funded_calls-IsSound empty_db-IsLedger)
      (refl, omega arith) refl refl refl

abbrev driver : Wallet
driver = record (driver_wallet (pos 0) false) { pin_failed_attempts = 0 }
