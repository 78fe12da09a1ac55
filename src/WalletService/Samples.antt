-- ===== src/WalletService/Samples.antt =====
-- Small tables, settings and answers of Flutterwave, for the examples of
-- internal/service/wallet_service.go.
use ridematch.Prelude.{ℕ, ◌+◌, ◌*◌, Bool, true, false, none, some, String, List, [], ◌∷◌}
use ridematch.Prelude.Int.{ℤ, pos}
use ridematch.Ledger.Models.{RowId, Withdrawal, WithdrawalStatus}
use ridematch.Ledger.Store.{Db, ok, empty_db}
use ridematch.Ledger.Day.{draw, payout, topup_row, driver_wallet, one_wallet}
use ridematch.TripService.{DriverProfile, VerificationStatus}
use ridematch.WalletService.{
  WalletConfig, Directory, User, UserStatus, PayoutAccount, PayoutAccountStatus, Reached, replied,
  unknown,
}
use ridematch.WalletService.Crediting.{VerifyResult}
use ridematch.Trips.{VehicleType}
use ridematch.Ledger.Withdrawals.{new_row}
use ridematch.WalletService.Topping.{VirtualAccount}
use ridematch.WalletService.Requests.{MoneyRequest, topup, charged, ask, poll}
use ridematch.WalletService.Withdrawing.{WithdrawRequest, new_withdrawal}
use text.Mathlib.Text.{◌==◌ as str_eq}
use ridematch.WalletService.Dispatch.{Transfer, TransferRequest, Desk}

abbrev pub desk : ℕ → Desk
desk n = record { draws = λ m. draw (10 * n + m); describe = λ _. "an error" }

abbrev pub lost : TransferRequest → Reached Transfer
lost _ = unknown

abbrev pub queued_row : Withdrawal
queued_row = record payout { id = 53 }

abbrev pub one_row : Withdrawal → Db
one_row wd = record empty_db { withdrawals = wd ∷ [] }

-- The settings, and a driver with a bank account.
abbrev pub config : WalletConfig
config = record {
  topup_fee_bps = pos 215;
  topup_min_kobo = pos 10000;
  topup_max_kobo = pos 5000000;
  topup_ttl = 3600;
  payouts_enabled = true;
  payout_min_kobo = pos 10000;
  payout_daily_limit = pos 5000000;
  payout_cooldown = 86400;
  payout_cooldown_cap = pos 50000;
  payout_review_kobo = pos 1000000;
  pin_max_attempts = 5;
  pin_lock_duration = 1800;
}

abbrev pub account : PayoutAccount
account = record {
  id = 31;
  created_at = 0;
  user_id = 502;
  bank_code = 35;
  account_number = 123456789;
  bank_name = "Wema";
  account_name = "MUSA IBRAHIM";
  status = PayoutAccountStatus.active;
  name_match_note = "";
  reviewed_by = none;
  reviewed_at = none;
}

abbrev pub musa : User
musa = record { id = 502; name = "Musa Ibrahim"; status = UserStatus.active }

abbrev pub keke_driver : DriverProfile
keke_driver = record {
  id = 600;
  user_id = 502;
  vehicle_type = VehicleType.keke;
  plate_number = "LAG-1";
  vehicle_photo_url = "";
  vehicle_make_id = none;
  vehicle_model_id = none;
  vehicle_make_name = "";
  vehicle_model_name = "";
  vehicle_year = none;
  vehicle_category = "";
  id_document_url = "";
  verification_status = VerificationStatus.approved;
  verification_note = "";
  subscription_active_until = some 90000;
  is_online = true;
  rating_average = 0;
  rating_count = 0;
}

abbrev pub directory : Directory
directory = record {
  users = musa ∷ [];
  drivers = keke_driver ∷ [];
  accounts = account ∷ [];
  payouts_switch = ok none;
}

abbrev pub same_text : String → String → Bool
same_text h p = str_eq h p

abbrev pub rich : Db
rich = one_wallet (record (driver_wallet (pos 200000) false) { pin_hash = "4829" })

abbrev pub asked : WithdrawRequest
asked = record { amount_kobo = pos 100000; pin = "4829"; payout_account_id = 31 }

abbrev pub granted_row : Withdrawal
granted_row = new_row (draw 2) (
    new_withdrawal config 2000 502 800 "127.0.0.1"
      (record (driver_wallet (pos 200000) false) { pin_hash = "4829"; pin_failed_attempts = 0 })
      account (record { amount_kobo = pos 100000; fee_kobo = pos 1000; net_kobo = pos 99000 }))

-- A payment that Flutterwave, asked again, has under another reference.
abbrev pub other_payment : RowId → Reached VerifyResult
other_payment flw = replied (record {
  status = "successful";
  tx_ref = 999;
  currency = "NGN";
  amount_kobo = pos 204395;
  flw_transaction_id = flw;
})

abbrev pub topped : Db
topped = record empty_db { topups = topup_row ∷ [] }

-- A top-up that is asked for and paid, a withdrawal, and a run of the poller.
abbrev pub new_account : ℤ → Reached VirtualAccount
new_account gross =
    replied
      (record { account_number = "99"; bank_name = "Wema"; expires_at = none; amount_kobo = gross })

abbrev pub paid_in : RowId → Reached VerifyResult
paid_in flw = replied (record {
  status = "SUCCESSFUL";
  tx_ref = 901;
  currency = "NGN";
  amount_kobo = pos 204395;
  flw_transaction_id = flw;
})

abbrev pub no_word : RowId → Reached Transfer
no_word _ = unknown

abbrev pub morning : List MoneyRequest
morning =
    topup 901 502 (pos 200000) new_account
    ∷ charged paid_in 901 77
    ∷ ask 502 800 "127.0.0.1" asked
    ∷ poll true lost no_word 9000
    ∷ []

-- One admin reads a withdrawal that waits for review; before that admin rejects it, another approves
-- it and it is sent. The rejection still returns the money, while the transfer is under way.
abbrev pub review_row : Withdrawal
review_row = record queued_row { status = WithdrawalStatus.pending_review }

abbrev pub in_review : Db
in_review = record (one_wallet (driver_wallet (pos 0) false)) { withdrawals = review_row ∷ [] }
