-- ===== src/WalletService/Granting.antt =====
-- A withdrawal that is granted, and the balance of the ledger under any request for one:
-- `Withdraw` of internal/service/wallet_service.go.
use ridematch.Prelude.{ℕ, ◌≡◌, Bool, false, Option, none, some, String, ltb, arith}
use ridematch.Prelude.Word.{IsInt64}
use ridematch.Ledger.Models.{RowId, Time, Wallet, Withdrawal, is_terminal}
use ridematch.Ledger.Store.{Draw}
use ridematch.Ledger.Balanced.{IsPayout}
use ridematch.Ledger.Operations.{Call, step, IsSound}
use ridematch.Ledger.Runs.{step-IsLedger}
use ridematch.Ledger.Wallets.{ensure_wallet, update_wallet_security, record_pin_failure}
use ridematch.Ledger.Withdrawals.{WithdrawalGuard, create_withdrawal}
use ridematch.EscrowService.{answer}
use ridematch.EscrowService.Laws.{KeepsLedger}
use ridematch.WalletService.{WalletConfig, Directory}
use ridematch.WalletService.Withdrawing.{
  Quote, WithdrawRequest, quote_withdrawal, check_pin, submit_withdrawal, withdraw, refuse_pin,
  compare_pin, clear_failures, first_status,
}
use ridematch.WalletService.Chains.{
  bind-keeps, bind-keeps_when, then-keeps, if-keeps, TxKeeps, ledger-keeps, attempt-keeps,
  need-keeps, bind-done,
}
use ridematch.WalletService.FundsKeeping.{active_user-keeps}
use ridematch.WalletService.Asking.{need-some, quote_withdrawal-splits}

ensure-TxKeeps : (d : Draw) (user : RowId) → TxKeeps (ensure_wallet d user)
unfolding step IsSound
ensure-TxKeeps d user db b = step-IsLedger (Call.ensure d user) db tt b

secure-TxKeeps : (w : Wallet) → TxKeeps (update_wallet_security w)
unfolding step IsSound
secure-TxKeeps w db b = step-IsLedger (Call.secure w) db tt b

fail_pin-TxKeeps :
    (d : Draw) (id : RowId) (n : ℕ) (t : Time) → TxKeeps (record_pin_failure d id n t)
unfolding step IsSound
fail_pin-TxKeeps d id n t db b = step-IsLedger (Call.fail_pin d id n t) db tt b

create-TxKeeps :
    (d : Draw) (wd : Withdrawal) (g : WithdrawalGuard)
    → IsPayout wd
    → is_terminal wd.status ≡ false
    → TxKeeps (create_withdrawal d wd g)
unfolding step IsSound
create-TxKeeps d wd g payout live db b = step-IsLedger (Call.withdraw d wd g) db (payout, live) b

first_status-IsLive : (large : Bool) → is_terminal (first_status large) ≡ false
first_status-IsLive large = ground arith

refuse_pin-keeps : (x : ℕ × Option Time) → KeepsLedger (refuse_pin x)
refuse_pin-keeps (n, none) db b = b
refuse_pin-keeps (n, some until) db b = b

module _ (matches : String → String → Bool) (c : WalletConfig) (ds : ℕ → Draw) where
  clear_failures-keeps : (w : Wallet) → KeepsLedger (clear_failures w)
  clear_failures-keeps w =
      if-keeps (ltb 0 w.pin_failed_attempts) _ (answer tt)
        (then-keeps _ (answer tt) (attempt-keeps _ (secure-TxKeeps _)) (λ db b. b)) (λ db b. b)

  compare_pin-keeps :
      (d : Draw) (w : Wallet) (pin : String) → KeepsLedger (compare_pin matches c d w pin)
  compare_pin-keeps d w pin =
      if-keeps (matches w.pin_hash pin) (clear_failures w) _ (clear_failures-keeps w)
        (bind-keeps _ refuse_pin (ledger-keeps _ _ (fail_pin-TxKeeps d w.id _ _)) refuse_pin-keeps)

  check_pin-keeps : (w : Wallet) (pin : String) → KeepsLedger (check_pin matches c ds w pin)
  unfolding check_pin
  check_pin-keeps w pin =
      then-keeps _ _ (then-keeps _ _ (λ db b. b) (λ db b. b)) (compare_pin-keeps (ds 1) w pin)

  -- What is asked for and what the service reads of it.
  module _ (dir : Directory) (user reference : RowId) (ip : String) (r : WithdrawRequest)
      (typed : IsInt64 r.amount_kobo) where
    submit-keeps :
        (q : Quote) (w : Wallet)
        → quote_withdrawal c r.amount_kobo ≡ some q
        → KeepsLedger (submit_withdrawal matches c dir ds user reference ip r q w)
    unfolding submit_withdrawal
    submit-keeps q w quoted =
        let (_, _, _, _, amount, fee, net) =
          quote_withdrawal-splits c r.amount_kobo q typed quoted in
        bind-keeps _ _ (need-keeps _ _) (λ acct.
          then-keeps _ _ (then-keeps _ _ (λ db b. b) (λ db b. b))
            (ledger-keeps _ _ (create-TxKeeps _ _ _ (amount, fee, net) (first_status-IsLive _))))

    pub withdraw-keeps : KeepsLedger (withdraw matches c dir ds user reference ip r)
    unfolding withdraw
    withdraw-keeps =
        bind-keeps_when _ _
          (then-keeps _ _
            (then-keeps _ _ (then-keeps _ _ (need-keeps _ _) (active_user-keeps dir user))
              (λ db b. b))
            (need-keeps _ _))
          (λ q db e.
            let (_, _, quoted) = bind-done _ _ db q e in
            bind-keeps _ _ (ledger-keeps _ _ (ensure-TxKeeps (ds 0) user)) (λ w.
              then-keeps _ _ (then-keeps _ _ (λ db b. b) (check_pin-keeps w r.pin))
                (submit-keeps q w (need-some _ _ _ q quoted))))
