-- ===== src/WalletService/Dispatch.antt =====
-- How withdrawals are sent: `Dispatch` of internal/service/wallet_service.go.
use ridematch.Prelude.{◌==◌, ℕ, Bool, Option, none, some, String, [], ◌∷◌, ◌||◌, leb, if◌then◌else◌}
use Prim.Native.String.{◌++◌}
use ridematch.Prelude.Int.{ℤ}
use ridematch.Prelude.Text.{codes, lower, contains}
use ridematch.Ledger.Models.{RowId, Withdrawal, WithdrawalStatus}
use ridematch.Ledger.Store.{Error, Result, ok, err, Draw}
use ridematch.Ledger.Withdrawals.{find_withdrawal_by_id}
use ridematch.Ledger.Payouts.{
  Column, transition_withdrawal, finalize_withdrawal_success, finalize_withdrawal_failure,
}
use ridematch.EscrowService.{Refusal, Service, answer}
use ridematch.WalletService.{◌>>=◌, ◌>>◌, ledger, attempt, Reached, replied, rejected, unknown}

-- `TransferRequest` and `Transfer`. An id that is "" is none, and "0" is the number 0; the statuses that the code
-- does not look for are one.
pub record TransferRequest : Type 0 where
  pub reference : RowId
  pub bank_code : ℕ
  pub account_number : ℕ
  pub amount_kobo : ℤ

pub data TransferStatus : Type 0 where
  successful failed pending : TransferStatus

pub record Transfer : Type 0 where
  pub id : Option RowId
  pub reference : RowId
  pub status : TransferStatus
  pub message : String

-- A draw for each call of the ledger, and the texts of the errors.
pub record Desk : Type 0 where
  pub draws : ℕ → Draw
  pub describe : Error → String

abbrev pub needs_attention_reason : String
needs_attention_reason = "bank reported success but finalisation failed: "

abbrev pub mark_stuck : Draw → RowId → String → Service (Unit {0})
mark_stuck d id reason =
    attempt (
      transition_withdrawal d id (WithdrawalStatus.processing ∷ WithdrawalStatus.queued ∷ [])
        WithdrawalStatus.needs_attention (Column.failure_reason reason ∷ []))
    >> answer tt

abbrev pub after_success : Desk → RowId → Result Bool → Service (Unit {0})
after_success ds id (ok applied) = answer tt
after_success ds id (err e) = mark_stuck (ds.draws 1) id (needs_attention_reason ++ ds.describe e)

-- `succeedWithdrawal`
unfoldable pub succeed_withdrawal : Desk → Withdrawal → Option RowId → Service (Unit {0})
succeed_withdrawal ds wd flw =
    attempt (finalize_withdrawal_success (ds.draws 0) wd.id flw) >>= after_success ds wd.id

-- `failWithdrawal`: a failure is logged.
unfoldable pub fail_withdrawal :
    Draw → Withdrawal → WithdrawalStatus → String → Option RowId → Service (Unit {0})
fail_withdrawal d wd final reason reviewer =
    attempt (finalize_withdrawal_failure d wd.id final reason reviewer) >> answer tt

-- `applyTransferState`: the status that the first update writes is the one that the caller has read.
abbrev pub note_transfer_id : Draw → Withdrawal → Option RowId → Option RowId → Service (Unit {0})
note_transfer_id d wd (some id) none =
    if id == 0
    then answer tt
    else attempt (
        transition_withdrawal d wd.id
          (WithdrawalStatus.processing ∷ WithdrawalStatus.needs_attention ∷ []) wd.status
          (Column.flw_transfer_id id ∷ []))
      >> answer tt
note_transfer_id d wd _ _ = answer tt

abbrev pub settle_transfer : Desk → Withdrawal → Transfer → TransferStatus → Service (Unit {0})
settle_transfer ds wd tr TransferStatus.successful = succeed_withdrawal ds wd tr.id
settle_transfer ds wd tr TransferStatus.failed =
    fail_withdrawal (ds.draws 0) wd WithdrawalStatus.failed ("the transfer failed: " ++ tr.message)
      none
settle_transfer ds wd tr TransferStatus.pending = answer tt

unfoldable pub apply_transfer_state : Desk → Withdrawal → Transfer → Service (Unit {0})
apply_transfer_state ds wd tr =
    note_transfer_id (ds.draws 2) wd tr.id wd.flw_transfer_id >> settle_transfer ds wd tr tr.status

-- The refusals of Flutterwave that are about its own float.
unfoldable pub is_float_low : String → Bool
is_float_low message =
    contains (lower (codes message)) (codes "insufficient")
    || contains (lower (codes message)) (codes "balance")

abbrev pub max_dispatch_attempts : ℕ
max_dispatch_attempts = 10

abbrev pub put_back : Draw → Withdrawal → Service (Unit {0})
put_back d wd =
    if leb max_dispatch_attempts wd.attempt_count
    then attempt (
        transition_withdrawal d wd.id (WithdrawalStatus.processing ∷ [])
          WithdrawalStatus.needs_attention
          (Column.failure_reason "payout provider balance too low" ∷ []))
      >> answer tt
    else attempt (
        transition_withdrawal d wd.id (WithdrawalStatus.processing ∷ []) WithdrawalStatus.queued
          (Column.failure_reason "waiting for payout float" ∷ []))
      >> answer tt

-- The `switch` of `Dispatch` on what `CreateTransfer` has come to.
unfoldable pub after_transfer : Desk → Withdrawal → Reached Transfer → Service (Unit {0})
after_transfer ds wd (replied tr) = apply_transfer_state ds wd tr
after_transfer ds wd (rejected message) =
    if is_float_low message
    then put_back (ds.draws 0) wd
    else fail_withdrawal (ds.draws 0) wd WithdrawalStatus.failed
        ("the bank or payment provider rejected the transfer: " ++ message) none
after_transfer ds wd unknown = answer tt

abbrev pub request_of : Withdrawal → TransferRequest
request_of wd = record {
  reference = wd.reference;
  bank_code = wd.bank_code;
  account_number = wd.account_number;
  amount_kobo = wd.net_kobo;
}

abbrev pub claim : Draw → RowId → Service Bool
claim d id = ledger Refusal.failed (
    transition_withdrawal d id (WithdrawalStatus.queued ∷ []) WithdrawalStatus.processing
      (Column.sent_at d.now ∷ []))

-- `Dispatch`: the transfer that it has asked Flutterwave for, if any. A failure is logged.
unfoldable pub dispatch :
    Desk → (TransferRequest → Reached Transfer) → RowId → Service (Option TransferRequest)
dispatch ds create id = claim (ds.draws 3) id >>= λ moved.
    if moved
    then (ledger Refusal.failed (find_withdrawal_by_id id) >>= λ wd.
        after_transfer ds wd (create (request_of wd)) >> answer (some (request_of wd)))
    else answer none
