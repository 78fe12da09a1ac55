-- ===== src/WalletService/Withdrawing.antt =====
-- Asking for a withdrawal: `QuoteWithdrawal`, `checkPIN` and `Withdraw` of
-- internal/service/wallet_service.go.
use ridematch.Prelude.{
  ℕ, Bool, true, false, not, Option, none, some, String, ◌==◌, ◌&&◌, ◌||◌, ltb, if◌then◌else◌,
}
use ridematch.Prelude.Int.{ℤ, pos, ltb_ℤ, leb_ℤ}
use ridematch.Prelude.Word.{sub64}
use ridematch.Prelude.Table.{find_by}
use ridematch.Ledger.Models.{RowId, Time, Wallet, Withdrawal, WithdrawalStatus, WithdrawalKind}
use ridematch.Ledger.Store.{Error, Draw}
use ridematch.Ledger.Wallets.{ensure_wallet, update_wallet_security, record_pin_failure}
use ridematch.Ledger.Withdrawals.{WithdrawalGuard, create_withdrawal}
use ridematch.Money.{transfer_fee}
use ridematch.EscrowService.{Refusal, Service, answer, refuse}
use ridematch.WalletService.{
  WalletConfig, Directory, PayoutAccount, PayoutAccountStatus, ◌>>=◌, ◌>>◌, ledger, attempt,
  refuse_if, need, driver_profile, active_user, are_payouts_enabled,
}
use ridematch.WalletService.Topping.{is_whole_naira}
use text.Mathlib.Text.{◌==◌ as str_eq}

-- `WithdrawQuoteResponse`
pub record Quote : Type 0 where
  pub amount_kobo : ℤ
  pub fee_kobo : ℤ
  pub net_kobo : ℤ

abbrev pub is_withdrawable : WalletConfig → ℤ → Bool
is_withdrawable c a =
    not (ltb_ℤ a c.payout_min_kobo) && (is_whole_naira a && not (leb_ℤ a (transfer_fee a)))

-- `QuoteWithdrawal`
unfoldable pub quote_withdrawal : WalletConfig → ℤ → Option Quote
quote_withdrawal c a =
    if is_withdrawable c a
    then some
        (record { amount_kobo = a; fee_kobo = transfer_fee a; net_kobo = sub64 a (transfer_fee a) })
    else none

abbrev pub is_locked : Time → Option Time → Bool
is_locked now none = false
is_locked now (some until) = ltb now until

-- `WithdrawRequest`
pub record WithdrawRequest : Type 0 where
  pub amount_kobo : ℤ
  pub pin : String
  pub payout_account_id : RowId

abbrev pub flags_text : Bool → Bool → String
flags_text false false = ""
flags_text true false = "cooldown"
flags_text false true = "large_amount"
flags_text true true = "cooldown,large_amount"

abbrev pub guard_of : WalletConfig → Time → Bool → WithdrawalGuard
guard_of c now cooling = record {
  daily_limit_kobo = c.payout_daily_limit;
  cooldown_cap = if cooling then c.payout_cooldown_cap else pos 0;
  now = now;
  duplicate_window = 45;
}

abbrev pub first_status : Bool → WithdrawalStatus
first_status large = if large then WithdrawalStatus.pending_review else WithdrawalStatus.queued

-- The row of a request; `reference` is the new UUID.
abbrev pub new_withdrawal :
    WalletConfig → Time → RowId → RowId → String → Wallet → PayoutAccount → Quote → Withdrawal
new_withdrawal c now user reference ip w acct q =
    let cooling = is_locked now w.cooldown_until in
    let large = leb_ℤ c.payout_review_kobo q.amount_kobo in
    record {
      id = 0;
      created_at = now;
      updated_at = now;
      user_id = user;
      wallet_id = w.id;
      kind = WithdrawalKind.driver;
      status = first_status large;
      amount_kobo = q.amount_kobo;
      fee_kobo = q.fee_kobo;
      net_kobo = q.net_kobo;
      payout_account_id = some acct.id;
      bank_code = acct.bank_code;
      bank_name = acct.bank_name;
      account_number = acct.account_number;
      account_name = acct.account_name;
      reference = reference;
      flw_transfer_id = none;
      failure_reason = "";
      appeal_id = none;
      risk_flags = flags_text cooling large;
      request_ip = ip;
      attempt_count = 0;
      reviewed_by = none;
      reviewed_at = none;
      review_note = "";
      sent_at = none;
      completed_at = none;
    }

-- What `Withdraw` makes of the errors of `CreateWithdrawal`.
abbrev pub withdraw_error : Error → Refusal
withdraw_error Error.insufficient_funds = Refusal.insufficient_balance
withdraw_error Error.daily_limit = Refusal.daily_limit_exceeded
withdraw_error Error.cooldown_cap = Refusal.cooldown_limit
withdraw_error Error.wallet_frozen = Refusal.wallet_frozen
withdraw_error Error.duplicate_withdrawal = Refusal.duplicate_withdrawal
withdraw_error e = Refusal.failed e

abbrev pub is_active : PayoutAccountStatus → Bool
is_active PayoutAccountStatus.active = true
is_active _ = false

abbrev pub is_removed : PayoutAccountStatus → Bool
is_removed PayoutAccountStatus.removed = true
is_removed _ = false

-- An account of the user that is not removed.
abbrev pub own_account : RowId → Option PayoutAccount → Option PayoutAccount
own_account user none = none
own_account user (some a) = if not (a.user_id == user) || is_removed a.status then none else some a

abbrev pub book :
    WalletConfig
    → Draw
    → RowId
    → RowId
    → String
    → Wallet
    → PayoutAccount
    → Quote
    → Service Withdrawal
book c d user reference ip w acct q = ledger withdraw_error (
    create_withdrawal d (new_withdrawal c d.now user reference ip w acct q)
      (guard_of c d.now (is_locked d.now w.cooldown_until)))

abbrev pub refuse_pin : ℕ × Option Time → Service (Unit {0})
refuse_pin (attempts, none) = refuse Refusal.pin_incorrect
refuse_pin (attempts, some until) = refuse Refusal.pin_locked

abbrev pub clear_failures : Wallet → Service (Unit {0})
clear_failures w =
    if ltb 0 w.pin_failed_attempts
    then attempt (update_wallet_security (record w { pin_failed_attempts = 0 })) >> answer tt
    else answer tt

-- `bcrypt.CompareHashAndPassword(hash, pin) == nil` is `matches`.
module _ (matches : String → String → Bool) where
  abbrev pub compare_pin : WalletConfig → Draw → Wallet → String → Service (Unit {0})
  compare_pin c d w pin =
      if matches w.pin_hash pin
      then clear_failures w
      else (ledger Refusal.failed (record_pin_failure d w.id c.pin_max_attempts c.pin_lock_duration)
          >>= refuse_pin)

  -- `checkPIN`
  unfoldable pub check_pin : WalletConfig → (ℕ → Draw) → Wallet → String → Service (Unit {0})
  check_pin c ds w pin =
      refuse_if (str_eq w.pin_hash "") Refusal.pin_not_set
      >> refuse_if (is_locked (ds 0).now w.pin_locked_until) Refusal.pin_locked
      >> compare_pin c (ds 1) w pin

  -- From the account on.
  unfoldable pub submit_withdrawal :
      WalletConfig
      → Directory
      → (ℕ → Draw)
      → RowId
      → RowId
      → String
      → WithdrawRequest
      → Quote
      → Wallet
      → Service Withdrawal
  submit_withdrawal c dir ds user reference ip r q w =
      need (own_account user (find_by PayoutAccount.id r.payout_account_id dir.accounts))
        Refusal.payout_account_not_found
      >>= λ acct.
          refuse_if (not (is_active acct.status)) Refusal.payout_account_not_approved
          >> refuse_if (ltb_ℤ w.balance_kobo r.amount_kobo) Refusal.insufficient_balance
          >> book c (ds 2) user reference ip w acct q

  -- `Withdraw`. A queued row is then dispatched by a goroutine of its own.
  unfoldable pub withdraw :
      WalletConfig
      → Directory
      → (ℕ → Draw)
      → RowId
      → RowId
      → String
      → WithdrawRequest
      → Service Withdrawal
  withdraw c dir ds user reference ip r =
      driver_profile dir user
      >> active_user dir user
      >> refuse_if (not (are_payouts_enabled c dir)) Refusal.payouts_disabled
      >> need (quote_withdrawal c r.amount_kobo) Refusal.withdrawal_amount
      >>= λ q. ledger Refusal.failed (ensure_wallet (ds 0) user) >>= λ w.
          refuse_if w.withdrawals_frozen Refusal.wallet_frozen
          >> check_pin c ds w r.pin
          >> submit_withdrawal c dir ds user reference ip r q w
