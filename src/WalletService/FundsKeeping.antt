-- ===== src/WalletService/FundsKeeping.antt =====
-- Top-ups and requests for withdrawals keep the ledger balanced:
-- internal/service/wallet_service.go.
use ridematch.Prelude.{
  ℕ, ◌-◌, ◌≡◌, true, inl, inr, Option, none, some, ◌&&◌, arith, Bool-cases, Option-cases, &&_true,
}
use ridematch.Prelude.Int.{ℤ, pos, ltb_ℤ, one_sign}
use ridematch.Prelude.Word.{IsInt64, IsAmount, sub64, wrap64-IsInt64}
use ridematch.Prelude.Table.{find_by}
use ridematch.Ledger.Models.{RowId, Time, WalletTopup}
use ridematch.Ledger.Store.{Draw}
use ridematch.Ledger.Operations.{Call, step, IsSound}
use ridematch.Ledger.Runs.{step-IsLedger}
use ridematch.Ledger.Topups.{
  is_successful, create_topup, find_topup_by_id, find_topup_by_tx_ref, credit_topup,
  expire_stale_topups,
}
use ridematch.Money.{net_after_fee}
use ridematch.EscrowService.{Refusal, failed}
use ridematch.EscrowService.Laws.{KeepsLedger}
use ridematch.WalletService.{
  WalletConfig, Directory, ledger, Reached, replied, rejected, unknown, active_user, status_refusal,
  unless_refused,
}
use ridematch.WalletService.Topping.{VirtualAccount, save_topup, ask_account, start_topup}
use ridematch.WalletService.Crediting.{
  VerifyResult, is_verified, is_success, credit_if_verified, settle_from_gateway, is_unsettled,
  get_topup, credit_reported, handle_charge_webhook, expire_topups,
}
use ridematch.WalletService.Chains.{
  bind-keeps, then-keeps, if-keeps, TxKeeps, ledger-keeps, attempt-keeps, need-keeps,
}

-- An amount that comes from outside is an int64.
abbrev pub IsTyped : Reached VerifyResult → Type 0
IsTyped (replied v) = IsInt64 v.amount_kobo
IsTyped _ = Unit

IsAmount-positive : (z : ℤ) → IsInt64 z → ltb_ℤ (pos 0) z ≡ true → IsAmount z
IsAmount-positive z i h = ground (arith, one_sign z)

credit-TxKeeps :
    (d : Draw) (id : RowId) (paid credit : ℤ) (flw : RowId)
    → IsAmount paid
    → IsAmount credit
    → TxKeeps (credit_topup d id paid credit flw)
unfolding step IsSound
credit-TxKeeps d id paid credit flw p c db b =
    step-IsLedger (Call.credit d id paid credit flw) db (p, c) b

net-IsInt64 : (paid bps : ℤ) → IsInt64 (net_after_fee paid bps)
unfolding net_after_fee sub64
net-IsInt64 paid bps = wrap64-IsInt64 _

verified-positive :
    (t : WalletTopup) (v : VerifyResult)
    → is_verified t v ≡ true
    → ltb_ℤ (pos 0) v.amount_kobo ≡ true
verified-positive t v h = (&&_true _ _ ((&&_true _ _ ((&&_true (is_success v.status) _ h).1)).1)).1

credit_if_verified-keeps :
    (c : WalletConfig) (d : Draw) (t : WalletTopup) (v : VerifyResult)
    → IsInt64 v.amount_kobo
    → KeepsLedger (credit_if_verified c d t v)
unfolding credit_if_verified
credit_if_verified-keeps c d t v typed db b =
    let net = net_after_fee v.amount_kobo c.topup_fee_bps in
    elim (Bool-cases (is_verified t v && ltb_ℤ (pos 0) net)) [
      | inr no_credit ↦ rw no_credit b
      | inl counts ↦
          let (verified, some_left) = &&_true (is_verified t v) (ltb_ℤ (pos 0) net) counts in
          let paid = IsAmount-positive v.amount_kobo typed (verified-positive t v verified) in
          let credit =
            IsAmount-positive net (net-IsInt64 v.amount_kobo c.topup_fee_bps) some_left in
          rw counts (
            bind-keeps (ledger failed (credit_topup d t.id v.amount_kobo net v.flw_transaction_id))
              _
              (ledger-keeps failed _
                (credit-TxKeeps d t.id v.amount_kobo net v.flw_transaction_id paid credit))
              (λ r db b. b) db b)
    ]

module _ (c : WalletConfig) (d : Draw) where
  settle-keeps :
      (t : WalletTopup) (r : Reached VerifyResult)
      → IsTyped r
      → KeepsLedger (settle_from_gateway c d t r)
  settle-keeps t (replied v) typed db b = credit_if_verified-keeps c d t v typed db b
  settle-keeps t (rejected message) typed db b = b
  settle-keeps t unknown typed db b = b

  topup-TxKeeps : (id : RowId) → TxKeeps (find_topup_by_id id)
  unfolding find_topup_by_id
  topup-TxKeeps id db b = elim (Option-cases (find_by WalletTopup.id id db.topups)) [
    | inl missing ↦ rw missing b
    | inr (t, row) ↦ rw row b
  ]

  tx_ref-TxKeeps : (ref : RowId) → TxKeeps (find_topup_by_tx_ref ref)
  unfolding find_topup_by_tx_ref
  tx_ref-TxKeeps ref db b = elim (Option-cases (find_by WalletTopup.tx_ref ref db.topups)) [
    | inl missing ↦ rw missing b
    | inr (t, row) ↦ rw row b
  ]

  pub get_topup-keeps :
      (verify : RowId → Reached VerifyResult) (user id : RowId)
      → ((ref : RowId) → IsTyped (verify ref))
      → KeepsLedger (get_topup c d verify user id)
  unfolding get_topup
  get_topup-keeps verify user id typed = bind-keeps _ _ (ledger-keeps _ _ (topup-TxKeeps id)) (λ t.
      then-keeps _ _ (λ db b. b)
        (if-keeps (is_unsettled t.status) _ _
          (λ db b. settle-keeps t (verify t.tx_ref) (typed t.tx_ref) db b) (λ db b. b)))

  reported-keeps :
      (t : WalletTopup) (r : Reached VerifyResult)
      → IsTyped r
      → KeepsLedger (credit_reported c d t r)
  reported-keeps t (replied v) typed db b =
      bind-keeps _ _ (then-keeps _ _ (λ db b. b) (credit_if_verified-keeps c d t v typed))
        (λ _ db b. b) db b
  reported-keeps t (rejected message) typed db b = b
  reported-keeps t unknown typed db b = b

  pub charge_webhook-keeps :
      (verify : RowId → Reached VerifyResult) (tx_ref flw : RowId)
      → ((id : RowId) → IsTyped (verify id))
      → KeepsLedger (handle_charge_webhook c d verify tx_ref flw)
  unfolding handle_charge_webhook
  charge_webhook-keeps verify tx_ref flw typed =
      bind-keeps _ _ (ledger-keeps _ _ (tx_ref-TxKeeps tx_ref)) (λ t.
        if-keeps (is_successful t.status) _ _ (λ db b. b)
          (reported-keeps t (verify flw) (typed flw)))

  create-TxKeeps : (t : WalletTopup) → TxKeeps (create_topup t)
  unfolding step IsSound
  create-TxKeeps t db b = step-IsLedger (Call.start_topup t) db tt b

  save_topup-keeps :
      (tx_ref user : RowId) (amount gross : ℤ) (r : Reached VirtualAccount)
      → KeepsLedger (save_topup c d tx_ref user amount gross r)
  save_topup-keeps tx_ref user amount gross (replied va) db b =
      then-keeps _ _ (ledger-keeps _ _ (create-TxKeeps _)) (λ db b. b) db b
  save_topup-keeps tx_ref user amount gross (rejected message) db b = b
  save_topup-keeps tx_ref user amount gross unknown db b = b

  ask_account-keeps :
      (tx_ref user : RowId) (amount : ℤ) (gross : Option ℤ) (create : ℤ → Reached VirtualAccount)
      → KeepsLedger (ask_account c d tx_ref user amount gross create)
  ask_account-keeps tx_ref user amount none create db b = b
  ask_account-keeps tx_ref user amount (some gross) create db b =
      save_topup-keeps tx_ref user amount gross (create gross) db b

  expire-TxKeeps : (before : Time) → TxKeeps (expire_stale_topups before)
  unfolding step IsSound
  expire-TxKeeps before db b = step-IsLedger (Call.expire before) db tt b

  pub expire_topups-keeps : KeepsLedger (expire_topups d)
  unfolding expire_topups
  expire_topups-keeps = attempt-keeps _ (expire-TxKeeps (d.now - 600))

pub active_user-keeps : (dir : Directory) (user : RowId) → KeepsLedger (active_user dir user)
active_user-keeps dir user =
    bind-keeps _ _ (need-keeps _ _) (λ u. unless-keeps (status_refusal u.status) u)
  where
    unless-keeps : {A : Type 0} (o : Option Refusal) (a : A) → KeepsLedger (unless_refused o a)
    unless-keeps none a db b = b
    unless-keeps (some why) a db b = b

pub start_topup-keeps :
    (c : WalletConfig) (dir : Directory) (fuel : ℕ) (d : Draw) (tx_ref user : RowId) (amount : ℤ)
    (create : ℤ → Reached VirtualAccount)
    → KeepsLedger (start_topup c dir fuel d tx_ref user amount create)
unfolding start_topup
start_topup-keeps c dir fuel d tx_ref user amount create =
    bind-keeps _ _ (then-keeps _ _ (λ db b. b) (active_user-keeps dir user)) (λ u.
      bind-keeps _ _ (λ db b. b)
        (λ n. then-keeps _ _ (λ db b. b) (ask_account-keeps c d tx_ref user amount _ create)))
