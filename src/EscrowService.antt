-- ===== src/EscrowService.antt =====
-- The escrow service: internal/service/escrow_service.go, over the ledger and the trips.
use ridematch.Prelude.{
  ℕ, suc, ◌+◌, Bool, true, false, not, Option, none, some, String, List, [], ◌∷◌, ◌&&◌, ◌||◌, ◌==◌,
  leb, if◌then◌else◌,
}
use ridematch.Prelude.Int.{ℤ, ltb_ℤ}
use ridematch.Ledger.Models.{RowId, Time, EscrowHold, EscrowStatus}
use ridematch.Ledger.Store.{
  Db, Error, Result, ok, err, Tx, Draw, ◌>>=◌, ◌>>◌, pure, abort, abort_if, or_abort, query,
}
use ridematch.Ledger.Wallets.{ensure_wallet}
use ridematch.Ledger.Escrow.{
  is_held, is_settled, hold_escrow, find_escrow_by_trip, mark_escrow_completed, dispute_escrow,
  release_escrow, refund_escrow,
}
use ridematch.Ledger.Due.{due_escrows}
use ridematch.Trips.{TripStatus, Trip, same_status, find_trip}
pub mod Laws
pub mod Fares
pub mod Settling
pub mod Granted
mod Examples

-- What the services that move money say of a failure.
pub data Refusal : Type 0 where
  insufficient_balance trip_not_open escrow_not_found not_payer escrow_state : Refusal
  only_drivers user_not_found account_suspended account_banned : Refusal
  topup_amount_invalid topup_not_found too_many_pending_topups : Refusal
  payment_provider_failed payment_verification_failed : Refusal
  pin_not_set pin_incorrect pin_locked pin_weak payouts_disabled payout_account_not_found : Refusal
  payout_account_not_approved withdrawal_not_found withdrawal_amount daily_limit_exceeded : Refusal
  cooldown_limit wallet_frozen duplicate_withdrawal withdrawal_state same_approver : Refusal
  failed : Error → Refusal

-- An answer of the service, and the tables that it leaves: its calls of the ledger are transactions
-- of their own, so what an earlier one wrote stays when a later one fails.
pub data Answer (A : Type 0) : Type 0 where
  done : A → Answer A
  refused : Refusal → Answer A

abbrev pub Service : Type 0 → Type 0
Service A = Db → Answer A × Db

abbrev pub answer : {A : Type 0} → A → Service A
answer a db = (done a, db)

abbrev pub refuse : {A : Type 0} → Refusal → Service A
refuse why db = (refused why, db)

-- A call of the ledger, and what the service makes of its result.
abbrev pub call : {A B : Type 0} → Tx A → (A → Service B) → (Error → Service B) → Service B
call tx good bad db = let (r, left) = tx db in elim r [ ok a ↦ good a left | err e ↦ bad e left ]

abbrev pub missing_refusal : Error → Refusal
missing_refusal Error.not_found = escrow_not_found
missing_refusal e = failed e

abbrev pub missing_hold : {A : Type 0} → Error → Service A
missing_hold e = refuse (missing_refusal e)

-- `EnsureCanAfford`
unfoldable pub ensure_can_afford : Bool → Draw → RowId → ℤ → Service (Unit {0})
ensure_can_afford required d passenger amount =
    if not required
    then answer tt
    else call (ensure_wallet d passenger)
        (λ w. if ltb_ℤ w.balance_kobo amount then refuse insufficient_balance else answer tt)
        (λ e. refuse (failed e))

abbrev pub hold_request : RowId → RowId → RowId → RowId → ℤ → EscrowHold
hold_request trip passenger payee driver amount = record {
  id = 0;
  trip_id = trip;
  payer_user_id = passenger;
  payee_user_id = payee;
  payee_driver_id = driver;
  amount_kobo = amount;
  status = EscrowStatus.held;
  version = 0;
  release_after = none;
  released_at = none;
  refunded_at = none;
  dispute_reason = "";
  disputed_at = none;
  resolution = "";
  resolved_by = none;
}

-- The error branch of `Hold`: the balance for the message is read from a wallet that may be made.
abbrev pub hold_failed : Draw → RowId → Error → Service Bool
hold_failed d passenger Error.insufficient_funds =
    call (ensure_wallet d passenger) (λ w. refuse insufficient_balance)
      (λ e. refuse insufficient_balance)
hold_failed d passenger Error.hold_conflict = refuse trip_not_open
hold_failed d passenger e = refuse (failed e)

-- `Hold`
unfoldable pub hold : Bool → Draw → Trip → RowId → RowId → ℤ → Service Bool
hold required d trip payee driver amount =
    if not required
    then answer false
    else call (hold_escrow d (hold_request trip.id trip.passenger_id payee driver amount))
        (λ r. answer r.1) (hold_failed d trip.passenger_id)

-- `Refund`: every failure is logged and passed over.
unfoldable pub refund : Draw → RowId → String → Service (Unit {0})
refund d trip note = call (refund_escrow d trip none note) (λ applied. answer tt) (λ e. answer tt)

-- `OnTripCompleted`
unfoldable pub on_trip_completed : Bool → Time → Draw → RowId → Service (Unit {0})
on_trip_completed required auto_release d trip =
    if not required
    then answer tt
    else call (mark_escrow_completed trip (d.now + auto_release)) (λ _. answer tt) (λ e. answer tt)

-- `release`
unfoldable pub release : Draw → RowId → String → Service (Unit {0})
release d trip note =
    call (release_escrow d trip note) (λ applied. answer tt) (λ e. refuse (failed e))

-- `ForTrip`
unfoldable pub for_trip : RowId → RowId → Service EscrowHold
for_trip user trip =
    call (find_escrow_by_trip trip)
      (λ h.
        if not (h.payer_user_id == user) && not (h.payee_user_id == user)
        then refuse escrow_not_found
        else answer h)
      missing_hold

-- The checks of `ConfirmTrip` and `DisputeTrip` on the trip and its hold.
abbrev pub may_confirm : Trip → EscrowHold → Bool
may_confirm t h = same_status t.status TripStatus.completed && is_held h.status

abbrev pub may_dispute : Trip → EscrowHold → Bool
may_dispute t h =
    (same_status t.status TripStatus.completed || same_status t.status TripStatus.picked_up)
    && is_held h.status

-- The hold as it is after the call, for the response.
abbrev pub reload : RowId → EscrowHold → Service EscrowHold
reload trip old = call (find_escrow_by_trip trip) answer (λ e. answer old)

-- The service's own calls in a row.
abbrev pub after : {A B : Type 0} → Service A → (A → Service B) → Service B
after first rest db =
    let (r, left) = first db in elim r [ done a ↦ rest a left | refused why ↦ (refused why, left) ]

abbrev pub confirm_hold : Draw → RowId → RowId → Trip → EscrowHold → Service EscrowHold
confirm_hold d passenger trip t h =
    if not (h.payer_user_id == passenger)
    then refuse not_payer
    else if not (may_confirm t h)
    then refuse escrow_state
    else after (release d trip "confirmed by passenger") (λ _. reload trip h)

-- `ConfirmTrip`
abbrev pub confirm_of : Draw → RowId → RowId → Option Trip → Service EscrowHold
confirm_of d passenger trip none = refuse escrow_not_found
confirm_of d passenger trip (some t) =
    call (find_escrow_by_trip trip) (confirm_hold d passenger trip t) missing_hold

unfoldable pub confirm_trip : Draw → List Trip → RowId → RowId → Service EscrowHold
confirm_trip d trips passenger trip = confirm_of d passenger trip (find_trip trip trips)

abbrev pub dispute_refusal : Error → Refusal
dispute_refusal Error.invalid_transition = escrow_state
dispute_refusal e = failed e

abbrev pub dispute_failed : Error → Service EscrowHold
dispute_failed e = refuse (dispute_refusal e)

abbrev pub dispute_hold : Draw → RowId → RowId → String → Trip → EscrowHold → Service EscrowHold
dispute_hold d passenger trip reason t h =
    if not (h.payer_user_id == passenger)
    then refuse not_payer
    else if not (may_dispute t h)
    then refuse escrow_state
    else call (dispute_escrow d trip reason) (λ _. reload trip h) dispute_failed

-- `DisputeTrip`, with the reason trimmed by the caller.
abbrev pub dispute_of : Draw → RowId → RowId → String → Option Trip → Service EscrowHold
dispute_of d passenger trip reason none = refuse escrow_not_found
dispute_of d passenger trip reason (some t) =
    call (find_escrow_by_trip trip) (dispute_hold d passenger trip reason t) missing_hold

unfoldable pub dispute_trip : Draw → List Trip → RowId → RowId → String → Service EscrowHold
dispute_trip d trips passenger trip reason =
    dispute_of d passenger trip reason (find_trip trip trips)

pub data Decision : Type 0 where
  to_driver to_passenger other : Decision

abbrev pub decide : Draw → RowId → String → RowId → Decision → Service (Unit {0})
decide d admin note trip to_driver = release d trip note
decide d admin note trip to_passenger =
    call (refund_escrow d trip (some admin) note) (λ applied. answer tt) (λ e. refuse (failed e))
decide d admin note trip other = refuse escrow_state

abbrev pub resolve_hold : Draw → RowId → String → Decision → RowId → EscrowHold → Service (Unit {0})
resolve_hold d admin note decision trip h =
    if is_settled h.status then refuse escrow_state else decide d admin note trip decision

-- `AdminResolve`; `note` has the prefix that the code prints before it.
unfoldable pub admin_resolve : Draw → RowId → RowId → Decision → String → Service (Unit {0})
admin_resolve d admin trip decision note =
    call (find_escrow_by_trip trip) (resolve_hold d admin note decision trip) missing_hold

-- `ReleaseDue`, on the rows of the scan: a failure is logged, and the next row is tried. Each call
-- takes a draw of its own.
unfoldable pub release_all : (ℕ → Draw) → ℕ → List EscrowHold → Db → Db
release_all draws n [] db = db
release_all draws n (h ∷ hs) db =
    release_all draws (suc n) hs
      (release (draws n) h.trip_id "auto-released after confirmation window" db).1

unfoldable pub release_due : (ℕ → Draw) → Time → Db → Db
release_due draws now db = release_all draws 0 (due_escrows now 100 db.escrows) db
