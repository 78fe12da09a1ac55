-- ===== src/Ledger/Models.antt =====
-- The rows of the money tables: internal/models/wallet.go and internal/models/payout.go.
-- An id is a number, since the code only compares ids; a reference to a row that Go writes as ""
-- or as a nil pointer is `none`. A moment is a number of seconds.
use ridematch.Prelude.{ℕ, Bool, true, false, Option, String, ◌&&◌, ◌==◌}
use ridematch.Prelude.Int.{ℤ}

abbrev pub RowId : Type 0
RowId = ℕ

abbrev pub Time : Type 0
Time = ℕ

-- The account kinds of a ledger entry.
pub data Account : Type 0 where
  wallet escrow external_in external_out payout_pending fees : Account

abbrev pub account_code : Account → ℕ
account_code wallet = 0
account_code escrow = 1
account_code external_in = 2
account_code external_out = 3
account_code payout_pending = 4
account_code fees = 5

abbrev pub same_account : Account → Account → Bool
same_account a b = account_code a == account_code b

pub record Wallet : Type 0 where
  pub id : RowId
  pub user_id : RowId
  pub balance_kobo : ℤ
  pub currency : String
  pub pin_hash : String
  pub pin_set_at : Option Time
  pub pin_failed_attempts : ℕ
  pub pin_locked_until : Option Time
  pub cooldown_until : Option Time
  pub withdrawals_frozen : Bool
  pub frozen_reason : String

-- The idempotency keys, one constructor for each format that the code prints: "topup:%s",
-- "escrow_hold:%s:%d" and so on. Ids are UUIDs, which hold no colon, so two keys are equal as
-- texts exactly if they are equal here.
pub data IdemKey : Type 0 where
  topup : RowId → IdemKey
  escrow_hold escrow_release escrow_refund : RowId → ℕ → IdemKey
  withdraw_lock withdraw_paid withdraw_return : RowId → IdemKey

abbrev pub same_key : IdemKey → IdemKey → Bool
same_key (topup a) (topup b) = a == b
same_key (escrow_hold a v) (escrow_hold b w) = (a == b) && (v == w)
same_key (escrow_release a v) (escrow_release b w) = (a == b) && (v == w)
same_key (escrow_refund a v) (escrow_refund b w) = (a == b) && (v == w)
same_key (withdraw_lock a) (withdraw_lock b) = a == b
same_key (withdraw_paid a) (withdraw_paid b) = a == b
same_key (withdraw_return a) (withdraw_return b) = a == b
same_key _ _ = false

pub data RefType : Type 0 where
  trip topup withdrawal : RefType

-- The kind of a movement is determined by its key ("wallet_topup" for "topup:…", and so on), so
-- it is not kept a second time.
pub record LedgerTransaction : Type 0 where
  pub id : RowId
  pub idempotency_key : IdemKey
  pub ref_type : RefType
  pub ref_id : RowId
  pub description : String
  pub created_at : Time

pub record LedgerEntry : Type 0 where
  pub transaction_id : RowId
  pub account : Account
  pub wallet_id : Option RowId
  pub amount_kobo : ℤ
  pub balance_after : Option ℤ
  pub created_at : Time

pub data TopupStatus : Type 0 where
  pending successful expired failed : TopupStatus

pub record WalletTopup : Type 0 where
  pub id : RowId
  pub user_id : RowId
  pub tx_ref : RowId
  pub status : TopupStatus
  pub requested_kobo : ℤ
  pub fee_kobo : ℤ
  pub gross_kobo : ℤ
  pub account_number : String
  pub bank_name : String
  pub expires_at : Option Time
  pub flw_transaction_id : Option RowId
  pub paid_kobo : ℤ
  pub credited_kobo : ℤ
  pub completed_at : Option Time
  pub failure_reason : String

pub data EscrowStatus : Type 0 where
  held released refunded disputed : EscrowStatus

pub record EscrowHold : Type 0 where
  pub id : RowId
  pub trip_id : RowId
  pub payer_user_id : RowId
  pub payee_user_id : RowId
  pub payee_driver_id : RowId
  pub amount_kobo : ℤ
  pub status : EscrowStatus
  pub version : ℕ
  pub release_after : Option Time
  pub released_at : Option Time
  pub refunded_at : Option Time
  pub dispute_reason : String
  pub disputed_at : Option Time
  pub resolution : String
  pub resolved_by : Option RowId

pub data WithdrawalStatus : Type 0 where
  pending_review queued processing successful failed rejected needs_attention : WithdrawalStatus

pub data WithdrawalKind : Type 0 where
  driver appeal : WithdrawalKind

pub record Withdrawal : Type 0 where
  pub id : RowId
  pub created_at : Time
  pub updated_at : Time
  pub user_id : RowId
  pub wallet_id : RowId
  pub kind : WithdrawalKind
  pub status : WithdrawalStatus
  pub amount_kobo : ℤ
  pub fee_kobo : ℤ
  pub net_kobo : ℤ
  pub payout_account_id : Option RowId
  pub bank_code : ℕ
  pub bank_name : String
  pub account_number : ℕ
  pub account_name : String
  pub reference : RowId
  pub flw_transfer_id : Option RowId
  pub failure_reason : String
  pub appeal_id : Option RowId
  pub risk_flags : String
  pub request_ip : String
  pub attempt_count : ℕ
  pub reviewed_by : Option RowId
  pub reviewed_at : Option Time
  pub review_note : String
  pub sent_at : Option Time
  pub completed_at : Option Time

-- `Withdrawal.IsTerminal`.
abbrev pub is_terminal : WithdrawalStatus → Bool
is_terminal successful = true
is_terminal failed = true
is_terminal rejected = true
is_terminal _ = false
