-- ===== src/Ledger/Wallets.antt =====
-- The wallet operations of internal/repository/ledger_repository.go.
use ridematch.Prelude.{ℕ, ◌+◌, Bool, Option, none, some, String, ◌&&◌, ltb, leb, if◌then◌else◌}
use ridematch.Prelude.Table.{find_by, update_by}
use ridematch.Ledger.Models.{RowId, Time, Wallet}
use ridematch.Ledger.Store.{
  not_found, Tx, Draw, pure, query, or_abort, ◌>>=◌, ◌>>◌, write, transaction,
}
use ridematch.Ledger.Post.{set_wallets, lock_wallet, ensure_wallet_tx}

-- `EnsureWallet`
unfoldable pub ensure_wallet : Draw → RowId → Tx Wallet
ensure_wallet d user = ensure_wallet_tx d.wallet_uuid user

-- `FindWalletByUserID`
unfoldable pub find_wallet_by_user_id : RowId → Tx Wallet
find_wallet_by_user_id user = do
  or_abort (← query (λ db. find_by Wallet.user_id user db.wallets)) not_found

-- `UpdateWalletSecurity`: the PIN and cooldown columns of the row, from the caller's copy.
unfoldable pub update_wallet_security : Wallet → Tx (Unit {0})
update_wallet_security w = write (
    set_wallets (
      update_by Wallet.id w.id (λ r. record r {
        pin_hash = w.pin_hash;
        pin_set_at = w.pin_set_at;
        pin_failed_attempts = w.pin_failed_attempts;
        pin_locked_until = w.pin_locked_until;
        cooldown_until = w.cooldown_until;
      })))

-- The body of `RecordPINFailure` under the wallet's lock: at `max` failures the count starts again
-- and the PIN is locked.
unfoldable pub count_pin_failure : Draw → RowId → ℕ → Time → Wallet → Tx (ℕ × Option Time)
count_pin_failure d id max lock_for w =
    if ltb 0 max && leb max (w.pin_failed_attempts + 1)
    then (do
      write (
          set_wallets (
            update_by Wallet.id id (λ r. record r {
              pin_failed_attempts = 0;
              pin_locked_until = some (d.now + lock_for);
            })))
      pure (w.pin_failed_attempts + 1, some (d.now + lock_for)))
    else (do
      write (
          set_wallets (
            update_by Wallet.id id
              (λ r. record r { pin_failed_attempts = w.pin_failed_attempts + 1 })))
      pure (w.pin_failed_attempts + 1, none))

-- `RecordPINFailure`: the attempts used, and the end of the lock if this failure set one.
unfoldable pub record_pin_failure : Draw → RowId → ℕ → Time → Tx (ℕ × Option Time)
record_pin_failure d id max lock_for =
    transaction (lock_wallet id >>= count_pin_failure d id max lock_for)

-- `SetWalletFrozen`
unfoldable pub set_wallet_frozen : Draw → RowId → Bool → String → Tx (Unit {0})
unfolding ensure_wallet
set_wallet_frozen d user frozen reason = do
  ensure_wallet d user
  write (
      set_wallets (
        update_by Wallet.user_id user
          (λ r. record r { withdrawals_frozen = frozen; frozen_reason = reason })))
