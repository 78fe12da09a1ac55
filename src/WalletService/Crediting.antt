-- ===== src/WalletService/Crediting.antt =====
-- How a paid top-up is credited: the re-check and the webhook of internal/service/wallet_service.go.
use ridematch.Prelude.{
  ℕ, ◌-◌, Bool, true, false, not, Option, none, some, String, List, [], ◌∷◌, ◌==◌, ◌&&◌,
  if◌then◌else◌,
}
use ridematch.Prelude.Int.{ℤ, pos, ltb_ℤ}
use ridematch.Prelude.Text.{codes, lower}
use ridematch.Ledger.Models.{RowId, TopupStatus, WalletTopup}
use ridematch.Ledger.Store.{Error, Result, Draw}
use ridematch.Ledger.Topups.{
  is_successful, find_topup_by_id, find_topup_by_tx_ref, credit_topup, expire_stale_topups,
}
use ridematch.Money.{net_after_fee}
use ridematch.EscrowService.{
  Refusal, Answer, done, Service, answer, refuse, failed, topup_not_found, payment_provider_failed,
  payment_verification_failed,
}
use ridematch.WalletService.{
  WalletConfig, ◌>>=◌, ◌>>◌, ledger, attempt, refuse_if, Reached, replied, rejected, unknown,
}
use text.Mathlib.Text.{◌==◌ as str_eq}

-- `VerifyResult`
pub record VerifyResult : Type 0 where
  pub status : String
  pub tx_ref : RowId
  pub currency : String
  pub amount_kobo : ℤ
  pub flw_transaction_id : RowId

same_codes : List ℕ → List ℕ → Bool
same_codes [] [] = true
same_codes (a ∷ as_) (b ∷ bs) = (a == b) && same_codes as_ bs
same_codes _ _ = false

-- `strings.EqualFold(v.Status, "successful")`
unfoldable pub is_success : String → Bool
unfolding same_codes
is_success status = same_codes (lower (codes status)) (codes "successful")

abbrev pub is_verified : WalletTopup → VerifyResult → Bool
is_verified t v =
    is_success v.status
    && ((v.tx_ref == t.tx_ref) && (str_eq v.currency "NGN" && ltb_ℤ (pos 0) v.amount_kobo))

-- `creditIfVerified`: the row after a credit, none where the payment does not count.
unfoldable pub credit_if_verified :
    WalletConfig → Draw → WalletTopup → VerifyResult → Service (Option WalletTopup)
credit_if_verified c d t v =
    if is_verified t v && ltb_ℤ (pos 0) (net_after_fee v.amount_kobo c.topup_fee_bps)
    then (ledger failed (
          credit_topup d t.id v.amount_kobo (net_after_fee v.amount_kobo c.topup_fee_bps)
            v.flw_transaction_id)
        >>= λ r. answer (some r.0))
    else answer none

-- `settleFromGateway`, on what `VerifyByReference` has answered.
abbrev pub settle_from_gateway :
    WalletConfig → Draw → WalletTopup → Reached VerifyResult → Service (Option WalletTopup)
settle_from_gateway c d t (replied v) = credit_if_verified c d t v
settle_from_gateway c d t (rejected message) = answer none
settle_from_gateway c d t unknown = refuse payment_provider_failed

abbrev pub topup_error : Error → Refusal
topup_error Error.not_found = topup_not_found
topup_error e = failed e

abbrev pub is_unsettled : TopupStatus → Bool
is_unsettled TopupStatus.pending = true
is_unsettled TopupStatus.expired = true
is_unsettled _ = false

-- A failed re-check is logged, and the row is shown as it was read.
abbrev pub shown : WalletTopup → Answer (Option WalletTopup) → WalletTopup
shown t (done (some new)) = new
shown t _ = t

abbrev pub recheck : WalletConfig → Draw → WalletTopup → Reached VerifyResult → Service WalletTopup
recheck c d t reply db =
    let (r, left) = settle_from_gateway c d t reply db in (done (shown t r), left)

-- `GetTopup`; `verify` is `VerifyByReference`.
unfoldable pub get_topup :
    WalletConfig → Draw → (RowId → Reached VerifyResult) → RowId → RowId → Service WalletTopup
get_topup c d verify user id = ledger topup_error (find_topup_by_id id) >>= λ t.
    refuse_if (not (t.user_id == user)) topup_not_found
    >> (if is_unsettled t.status then recheck c d t (verify t.tx_ref) else answer t)

-- The answer of `VerifyTransaction` to a webhook.
abbrev pub credit_reported :
    WalletConfig → Draw → WalletTopup → Reached VerifyResult → Service (Unit {0})
credit_reported c d t (replied v) =
    refuse_if (not (v.tx_ref == t.tx_ref)) payment_verification_failed
    >> credit_if_verified c d t v
    >>= λ r. answer tt
credit_reported c d t _ = refuse payment_provider_failed

-- `HandleChargeWebhook`; `verify` is `VerifyTransaction`.
unfoldable pub handle_charge_webhook :
    WalletConfig → Draw → (RowId → Reached VerifyResult) → RowId → RowId → Service (Unit {0})
handle_charge_webhook c d verify tx_ref flw_id =
    ledger topup_error (find_topup_by_tx_ref tx_ref) >>= λ t.
    if is_successful t.status then answer tt else credit_reported c d t (verify flw_id)

-- `ExpireTopups`: ten minutes of grace.
unfoldable pub expire_topups : Draw → Service (Result ℕ)
expire_topups d = attempt (expire_stale_topups (d.now - 600))
