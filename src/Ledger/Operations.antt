-- ===== src/Ledger/Operations.antt =====
-- Sequences of calls of internal/repository/ledger_repository.go, from an empty database: each call
-- that writes the money tables is a step.
use ridematch.Prelude.{ℕ, ◌≡◌, Bool, false, Option, String, List, [], ◌∷◌, All}
use ridematch.Prelude.Int.{ℤ}
use ridematch.Prelude.Word.{IsAmount}
use ridematch.Ledger.Models.{
  RowId, Time, Wallet, WalletTopup, EscrowHold, Withdrawal, WithdrawalStatus, is_terminal,
}
use ridematch.Ledger.Store.{Db, Draw}
use ridematch.Ledger.Wallets
use ridematch.Ledger.Topups
use ridematch.Ledger.Escrow
use ridematch.Ledger.Withdrawals
use ridematch.Ledger.Payouts
use ridematch.Ledger.Withdrawals.{WithdrawalGuard, is_returned}
use ridematch.Ledger.Payouts.{Column}
use ridematch.Ledger.Balanced.{IsFare, IsPayout}
use ridematch.Ledger.PayoutLaws.{IsLive}

-- A call with its arguments.
pub data Call : Type 0 where
  ensure : Draw → RowId → Call
  secure : Wallet → Call
  fail_pin : Draw → RowId → ℕ → Time → Call
  freeze : Draw → RowId → Bool → String → Call
  start_topup : WalletTopup → Call
  change_topup : WalletTopup → Call
  expire : Time → Call
  credit : Draw → RowId → ℤ → ℤ → RowId → Call
  hold : Draw → EscrowHold → Call
  complete : RowId → Time → Call
  contest : Draw → RowId → String → Call
  release : Draw → RowId → String → Call
  refund : Draw → RowId → Option RowId → String → Call
  withdraw : Draw → Withdrawal → WithdrawalGuard → Call
  transition : Draw → RowId → List WithdrawalStatus → WithdrawalStatus → List Column → Call
  pay : Draw → RowId → Option RowId → Call
  return : Draw → RowId → WithdrawalStatus → String → Option RowId → Call

-- The tables after the call, whatever it returns.
unfoldable pub step : Call → Db → Db
step (ensure d user) db = (Wallets.ensure_wallet d user db).1
step (secure w) db = (Wallets.update_wallet_security w db).1
step (fail_pin d id max lock_for) db = (Wallets.record_pin_failure d id max lock_for db).1
step (freeze d user frozen reason) db = (Wallets.set_wallet_frozen d user frozen reason db).1
step (start_topup t) db = (Topups.create_topup t db).1
step (change_topup t) db = (Topups.update_topup t db).1
step (expire before) db = (Topups.expire_stale_topups before db).1
step (credit d id paid amount flw) db = (Topups.credit_topup d id paid amount flw db).1
step (hold d h) db = (Escrow.hold_escrow d h db).1
step (complete trip after) db = (Escrow.mark_escrow_completed trip after db).1
step (contest d trip reason) db = (Escrow.dispute_escrow d trip reason db).1
step (release d trip note) db = (Escrow.release_escrow d trip note db).1
step (refund d trip by note) db = (Escrow.refund_escrow d trip by note db).1
step (withdraw d wd g) db = (Withdrawals.create_withdrawal d wd g db).1
step (transition d id from to cs) db = (Payouts.transition_withdrawal d id from to cs db).1
step (pay d id flw) db = (Payouts.finalize_withdrawal_success d id flw db).1
step (return d id final reason reviewer) db =
    (Payouts.finalize_withdrawal_failure d id final reason reviewer db).1

unfoldable pub run : List Call → Db → Db
run [] db = db
run (c ∷ cs) db = run cs (step c db)

-- What the callers see to: amounts are sums of money, a withdrawal starts open, and a bare
-- transition neither leaves nor enters a final status.
unfoldable pub IsSound : Call → Type 0
IsSound (credit d id paid amount flw) = IsAmount paid × IsAmount amount
IsSound (hold d h) = IsFare h
IsSound (withdraw d wd g) = IsPayout wd × (is_terminal wd.status ≡ false)
IsSound (transition d id from to cs) = All IsLive from × IsLive to
IsSound _ = Unit
