-- ===== src/Ledger/Day.antt =====
-- A day of calls of internal/repository/ledger_repository.go, for the examples.
use ridematch.Prelude.{ℕ, refl, Bool, none, some, List, [], ◌∷◌, ◌++◌, ◌+◌, ◌*◌, arith, All}
use ridematch.Prelude.Int.{ℤ, pos}
use ridematch.Ledger.Models.{
  RowId, Wallet, WalletTopup, TopupStatus, EscrowHold, EscrowStatus, Withdrawal, WithdrawalStatus,
  WithdrawalKind,
}
use ridematch.Ledger.Store.{Db, empty_db, Draw}
use ridematch.Ledger.Withdrawals.{WithdrawalGuard}
use ridematch.Ledger.Operations.{Call, run, IsSound}

-- A draw of fresh ids for the n-th call.
abbrev pub draw : ℕ → Draw
draw n = record {
  now = 1000 * n;
  wallet_uuid = 10 * n + 1;
  tx_uuid = 10 * n + 2;
  row_uuid = 10 * n + 3;
}

abbrev pub rider : RowId
rider = 501

abbrev pub payee : RowId
payee = 502

abbrev pub topup_row : WalletTopup
topup_row = record {
  id = 900;
  user_id = 501;
  tx_ref = 901;
  status = TopupStatus.pending;
  requested_kobo = pos 200000;
  fee_kobo = pos 4395;
  gross_kobo = pos 204395;
  account_number = "0123456789";
  bank_name = "Wema";
  expires_at = some 9000;
  flw_transaction_id = none;
  paid_kobo = pos 0;
  credited_kobo = pos 0;
  completed_at = none;
  failure_reason = "";
}

abbrev pub fare : EscrowHold
fare = record {
  id = 0;
  trip_id = 700;
  payer_user_id = 501;
  payee_user_id = 502;
  payee_driver_id = 600;
  amount_kobo = pos 150000;
  status = EscrowStatus.held;
  version = 0;
  release_after = none;
  released_at = none;
  refunded_at = none;
  dispute_reason = "";
  disputed_at = none;
  resolution = "";
  resolved_by = none;
}

-- The driver's wallet is made by the call that releases the fare, the fourth.
abbrev pub payout : Withdrawal
payout = record {
  id = 0;
  created_at = 0;
  updated_at = 0;
  user_id = 502;
  wallet_id = 41;
  kind = WithdrawalKind.driver;
  status = WithdrawalStatus.queued;
  amount_kobo = pos 100000;
  fee_kobo = pos 1000;
  net_kobo = pos 99000;
  payout_account_id = none;
  bank_code = 35;
  bank_name = "Wema";
  account_number = 123456789;
  account_name = "MUSA IBRAHIM";
  reference = 800;
  flw_transfer_id = none;
  failure_reason = "";
  appeal_id = none;
  risk_flags = "";
  request_ip = "";
  attempt_count = 0;
  reviewed_by = none;
  reviewed_at = none;
  review_note = "";
  sent_at = none;
  completed_at = none;
}

abbrev pub limits : WithdrawalGuard
limits = record {
  daily_limit_kobo = pos 500000;
  cooldown_cap = pos 0;
  now = 5000;
  duplicate_window = 60;
}

abbrev pub credited_calls : List Call
credited_calls = Call.start_topup topup_row ∷ []

abbrev pub held_calls : List Call
held_calls =
    credited_calls
    ++ (Call.credit (draw 2) 900 (pos 204395) (pos 200000) 77 ∷ Call.hold (draw 3) fare ∷ [])

abbrev pub released_calls : List Call
released_calls = held_calls ++ (Call.release (draw 4) 700 "" ∷ [])

abbrev pub queued_calls : List Call
queued_calls = released_calls ++ (Call.withdraw (draw 5) payout limits ∷ [])

abbrev pub sent_calls : List Call
sent_calls =
    queued_calls
    ++ (Call.transition (draw 6) 53 (WithdrawalStatus.queued ∷ []) WithdrawalStatus.processing []
        ∷ [])

abbrev pub paid_calls : List Call
paid_calls = sent_calls ++ (Call.pay (draw 7) 53 (some 88) ∷ [])

-- A wallet as the day leaves the driver's.
abbrev pub driver_wallet : ℤ → Bool → Wallet
driver_wallet balance frozen = record {
  id = 41;
  user_id = 502;
  balance_kobo = balance;
  currency = "NGN";
  pin_hash = "";
  pin_set_at = none;
  pin_failed_attempts = 2;
  pin_locked_until = none;
  cooldown_until = none;
  withdrawals_frozen = frozen;
  frozen_reason = "";
}

abbrev pub one_wallet : Wallet → Db
one_wallet w = record empty_db { wallets = w ∷ [] }

pub paid_calls-IsSound : All IsSound paid_calls
unfolding IsSound
paid_calls-IsSound = (
  tt,
  (
    ((refl, omega arith), (refl, omega arith)),
    (
      (refl, omega arith),
      (
        tt,
        (
          (((refl, omega arith), (refl, omega arith), (refl, omega arith)), refl),
          (((refl, tt), refl), (tt, tt)),
        ),
      ),
    ),
  ),
)

pub held_calls-IsSound : All IsSound held_calls
unfolding IsSound
held_calls-IsSound = (tt, (((refl, omega arith), (refl, omega arith)), ((refl, omega arith), tt)))

pub queued_calls-IsSound : All IsSound queued_calls
unfolding IsSound
queued_calls-IsSound = (
  tt,
  (
    ((refl, omega arith), (refl, omega arith)),
    (
      (refl, omega arith),
      (tt, ((((refl, omega arith), (refl, omega arith), (refl, omega arith)), refl), tt)),
    ),
  ),
)

pub sent_calls-IsSound : All IsSound sent_calls
unfolding IsSound
sent_calls-IsSound = (
  tt,
  (
    ((refl, omega arith), (refl, omega arith)),
    (
      (refl, omega arith),
      (
        tt,
        (
          (((refl, omega arith), (refl, omega arith), (refl, omega arith)), refl),
          (((refl, tt), refl), tt),
        ),
      ),
    ),
  ),
)

-- The tables along the day.
abbrev pub held_db : Db
held_db = run held_calls empty_db

abbrev pub released_db : Db
released_db = run released_calls empty_db

abbrev pub queued_db : Db
queued_db = run queued_calls empty_db

abbrev pub sent_db : Db
sent_db = run sent_calls empty_db
