-- ===== src/WalletService/Webhooks.antt =====
-- What a report of a payment can do: `HandleChargeWebhook` of internal/service/wallet_service.go.
use ridematch.Prelude.{◌⊎◌, ◌≡◌, refl, Bool, true, false, inl, inr, some, Bool-cases, if◌then◌else◌}
use ridematch.Prelude.Table.{find_by}
use ridematch.Ledger.Models.{RowId, WalletTopup}
use ridematch.Ledger.Store.{Db, Draw, ok}
use ridematch.Ledger.Topups.{is_successful, find_topup_by_tx_ref}
use ridematch.EscrowService.{answer}
use ridematch.WalletService.{WalletConfig, Reached, replied, rejected, unknown}
use ridematch.WalletService.Crediting.{
  VerifyResult, is_verified, credit_if_verified, credit_reported, handle_charge_webhook,
  topup_error,
}
use ridematch.WalletService.Chains.{ledger-step, IsRead, bind-IsRead}

-- Whether an answer of Flutterwave stands for a payment of this top-up.
abbrev pub pays : WalletTopup → Reached VerifyResult → Bool
pays t (replied v) = is_verified t v
pays t _ = false

unverified-IsRead :
    (c : WalletConfig) (d : Draw) (t : WalletTopup) (v : VerifyResult)
    → is_verified t v ≡ false
    → IsRead (credit_if_verified c d t v)
unfolding credit_if_verified
unverified-IsRead c d t v h db = rw h refl

reported-IsRead :
    (c : WalletConfig) (d : Draw) (t : WalletTopup) (r : Reached VerifyResult)
    → pays t r ≡ false
    → IsRead (credit_reported c d t r)
reported-IsRead c d t (replied v) h db =
    bind-IsRead _ _ (bind-IsRead _ _ (λ db. refl) (λ _. unverified-IsRead c d t v h)) (λ _ db. refl)
      db
reported-IsRead c d t (rejected message) h db = refl
reported-IsRead c d t unknown h db = refl

found-row :
    (ref : RowId) (t : WalletTopup) (db : Db)
    → find_by WalletTopup.tx_ref ref db.topups ≡ some t
    → find_topup_by_tx_ref ref db ≡ (ok t, db)
unfolding find_topup_by_tx_ref
found-row ref t db row = rw row refl

-- A webhook reports a payment on a top-up that is there. Where that is successful already, or
-- where Flutterwave, asked again, does not say that its reference was paid in naira, no table
-- changes.
pub handle_charge_webhook-unpaid :
    (c : WalletConfig) (d : Draw) (verify : RowId → Reached VerifyResult) (tx_ref flw : RowId)
    (t : WalletTopup) (db : Db)
    → find_by WalletTopup.tx_ref tx_ref db.topups ≡ some t
    → (is_successful t.status ≡ true) ⊎ (pays t (verify flw) ≡ false)
    → (handle_charge_webhook c d verify tx_ref flw db).1 ≡ db
unfolding handle_charge_webhook
handle_charge_webhook-unpaid c d verify tx_ref flw t db row h =
    rw
      (ledger-step topup_error (find_topup_by_tx_ref tx_ref)
        (λ t. if is_successful t.status then answer tt else credit_reported c d t (verify flw)) t db
        db (found-row tx_ref t db row))
      (elim (Bool-cases (is_successful t.status)) [
        | inl settled ↦ rw settled refl
        | inr unsettled ↦ rw unsettled (elim h [
          | inl settled ↦ cc
          | inr unpaid ↦ reported-IsRead c d t (verify flw) unpaid db
        ])
      ])
