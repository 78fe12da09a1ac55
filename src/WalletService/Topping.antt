-- ===== src/WalletService/Topping.antt =====
-- Starting a top-up: `CreateTopup` of internal/service/wallet_service.go.
use ridematch.Prelude.{
  ℕ, ◌+◌, ◌%◌, Bool, false, not, Option, none, some, String, List, ◌==◌, ◌&&◌, ltb, leb,
  if◌then◌else◌,
}
use ridematch.Prelude.Int.{ℤ, pos, pos_part, neg_part, ltb_ℤ, eqb_ℤ}
use ridematch.Prelude.Word.{sub64}
use ridematch.Prelude.Table.{count_where}
use ridematch.Ledger.Models.{RowId, Time, TopupStatus, WalletTopup}
use ridematch.Ledger.Store.{Draw}
use ridematch.Ledger.Topups.{is_pending, create_topup}
use ridematch.Ledger.Due.{where_rows, limit}
use ridematch.Money.{gross_up}
use ridematch.EscrowService.{
  Service, answer, refuse, failed, topup_amount_invalid, too_many_pending_topups,
  payment_provider_failed,
}
use ridematch.WalletService.{
  WalletConfig, Directory, ◌>>=◌, ◌>>◌, ledger, refuse_if, active_user, Reached, replied,
}

-- The remainder of Go's `%` by 100 is zero.
abbrev pub is_whole_naira : ℤ → Bool
is_whole_naira a = (pos_part a + neg_part a) % 100 == 0

-- `validateTopupAmount`: whether the amount passes.
abbrev pub is_topup_amount : WalletConfig → ℤ → Bool
is_topup_amount c a =
    not (ltb_ℤ a c.topup_min_kobo) && (not (ltb_ℤ c.topup_max_kobo a) && is_whole_naira a)

-- What Flutterwave says of the account that it has made: the amount that it expects, 0 for no word
-- of it, and the end of the account, if the code can read it.
pub record VirtualAccount : Type 0 where
  pub account_number : String
  pub bank_name : String
  pub expires_at : Option Time
  pub amount_kobo : ℤ

-- The open requests among the ten newest, which stand first.
abbrev is_after : Time → Option Time → Bool
is_after now none = false
is_after now (some e) = ltb now e

abbrev pub is_open : Time → WalletTopup → Bool
is_open now t = is_pending t.status && is_after now t.expires_at

abbrev pub open_topups : RowId → Time → List WalletTopup → ℕ
open_topups user now ts =
    count_where (is_open now) (limit 10 (where_rows (λ t. t.user_id == user) ts))

abbrev pub expected_gross : ℤ → VirtualAccount → ℤ
expected_gross gross va =
    if ltb_ℤ (pos 0) va.amount_kobo && not (eqb_ℤ va.amount_kobo gross)
    then va.amount_kobo
    else gross

-- The end of the account, at most a day from now.
abbrev pub expiry : WalletConfig → Time → Option Time → Time
expiry c now none = if ltb (now + 86400) (now + c.topup_ttl) then now + 86400 else now + c.topup_ttl
expiry c now (some e) = if ltb (now + 86400) e then now + 86400 else e

abbrev pub new_topup : WalletConfig → Draw → RowId → RowId → ℤ → ℤ → VirtualAccount → WalletTopup
new_topup c d tx_ref user amount gross va = record {
  id = d.row_uuid;
  user_id = user;
  tx_ref = tx_ref;
  status = TopupStatus.pending;
  requested_kobo = amount;
  fee_kobo = sub64 gross amount;
  gross_kobo = gross;
  account_number = va.account_number;
  bank_name = va.bank_name;
  expires_at = some (expiry c d.now va.expires_at);
  flw_transaction_id = none;
  paid_kobo = pos 0;
  credited_kobo = pos 0;
  completed_at = none;
  failure_reason = "";
}

-- The account for a gross amount, once Flutterwave has answered.
abbrev pub save_topup :
    WalletConfig → Draw → RowId → RowId → ℤ → ℤ → Reached VirtualAccount → Service WalletTopup
save_topup c d tx_ref user amount gross (replied va) =
    ledger failed (create_topup (new_topup c d tx_ref user amount (expected_gross gross va) va))
    >> answer (new_topup c d tx_ref user amount (expected_gross gross va) va)
save_topup c d tx_ref user amount gross _ = refuse payment_provider_failed

-- `GrossUp` panics where it divides by zero, at 10,000 basis points: then nothing is done.
abbrev pub ask_account :
    WalletConfig
    → Draw
    → RowId
    → RowId
    → ℤ
    → Option ℤ
    → (ℤ → Reached VirtualAccount)
    → Service WalletTopup
ask_account c d tx_ref user amount none create = refuse payment_provider_failed
ask_account c d tx_ref user amount (some gross) create =
    save_topup c d tx_ref user amount gross (create gross)

-- `CreateTopup`; `create` is `CreateVirtualAccount` for a gross amount, and `tx_ref` the new UUID.
unfoldable pub start_topup :
    WalletConfig
    → Directory
    → ℕ
    → Draw
    → RowId
    → RowId
    → ℤ
    → (ℤ → Reached VirtualAccount)
    → Service WalletTopup
start_topup c dir fuel d tx_ref user amount create =
    refuse_if (not (is_topup_amount c amount)) topup_amount_invalid >> active_user dir user >>= λ u.
    (λ db. answer (open_topups user d.now db.topups) db) >>= λ n.
    refuse_if (leb 3 n) too_many_pending_topups
    >> ask_account c d tx_ref user amount (gross_up fuel amount c.topup_fee_bps) create
