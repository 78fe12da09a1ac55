-- ===== src/EscrowService/Fares.antt =====
-- What the trip service calls of internal/service/escrow_service.go, and the balance of the ledger:
-- `EnsureCanAfford`, `Hold`, `Refund` and `OnTripCompleted`.
use ridematch.Prelude.{Bool, true, false, none, String, ◌≡◌, refl, ◌+◌, if◌then◌else◌}
use ridematch.Prelude.Int.{ℤ, ltb_ℤ}
use ridematch.Prelude.Word.{IsAmount}
use ridematch.Ledger.Models.{RowId, Time}
use ridematch.Ledger.Store.{Db, Draw, Error, Result, ok, err}
use ridematch.Ledger.Wallets.{ensure_wallet}
use ridematch.Ledger.WalletLaws.{ensure_wallet-IsLedger}
use ridematch.Ledger.Escrow.{hold_escrow, mark_escrow_completed, refund_escrow}
use ridematch.Ledger.HoldLaws.{mark_escrow_completed-IsLedger}
use ridematch.Trips.{Trip}
use ridematch.EscrowService.{
  Answer, done, answer, refuse, hold_failed, hold_request, ensure_can_afford, hold, refund,
  on_trip_completed, failed, insufficient_balance,
}
use ridematch.EscrowService.Laws.{
  KeepsLedger, call-KeepsLedger, hold_escrow-keeps, refund_escrow-keeps,
}

checked-KeepsLedger :
    (short : Bool) → KeepsLedger (if short then refuse insufficient_balance else answer tt)
checked-KeepsLedger true db b = b
checked-KeepsLedger false db b = b

pub ensure_can_afford-KeepsLedger :
    (required : Bool) (d : Draw) (who : RowId) (price : ℤ)
    → KeepsLedger (ensure_can_afford required d who price)
unfolding ensure_can_afford
ensure_can_afford-KeepsLedger false d who price db b = b
ensure_can_afford-KeepsLedger true d who price db b =
    call-KeepsLedger (ensure_wallet d who)
      (λ w. if ltb_ℤ w.balance_kobo price then refuse insufficient_balance else answer tt)
      (λ e. refuse (failed e)) (ensure_wallet-IsLedger d who)
      (λ w. checked-KeepsLedger (ltb_ℤ w.balance_kobo price)) (λ e db b. b) db b

hold_failed-KeepsLedger : (d : Draw) (who : RowId) (e : Error) → KeepsLedger (hold_failed d who e)
hold_failed-KeepsLedger d who Error.insufficient_funds db b =
    call-KeepsLedger (ensure_wallet d who) (λ w. refuse insufficient_balance)
      (λ e. refuse insufficient_balance) (ensure_wallet-IsLedger d who) (λ w db b. b) (λ e db b. b)
      db b
hold_failed-KeepsLedger d who e db b = b

pub hold-KeepsLedger :
    (required : Bool) (d : Draw) (t : Trip) (payee who : RowId) (price : ℤ)
    → IsAmount price
    → KeepsLedger (hold required d t payee who price)
unfolding hold
hold-KeepsLedger false d t payee who price a db b = b
hold-KeepsLedger true d t payee who price a db b =
    call-KeepsLedger (hold_escrow d (hold_request t.id t.passenger_id payee who price))
      (λ r. answer r.1) (hold_failed d t.passenger_id) (hold_escrow-keeps d _ a) (λ r db b. b)
      (hold_failed-KeepsLedger d t.passenger_id) db b

pub refund-KeepsLedger :
    (d : Draw) (trip : RowId) (note : String) → KeepsLedger (refund d trip note)
unfolding refund
refund-KeepsLedger d trip note =
    call-KeepsLedger (refund_escrow d trip none note) (λ applied. answer tt) (λ e. answer tt)
      (refund_escrow-keeps d trip none note) (λ r db b. b) (λ e db b. b)

pub on_trip_completed-KeepsLedger :
    (required : Bool) (wait : Time) (d : Draw) (trip : RowId)
    → KeepsLedger (on_trip_completed required wait d trip)
unfolding on_trip_completed
on_trip_completed-KeepsLedger false wait d trip db b = b
on_trip_completed-KeepsLedger true wait d trip db b =
    call-KeepsLedger (mark_escrow_completed trip (d.now + wait)) (λ _. answer tt) (λ e. answer tt)
      (mark_escrow_completed-IsLedger trip (d.now + wait)) (λ r db b. b) (λ e db b. b) db b

-- `Refund` passes a failure over, so what it leaves is what the ledger leaves.
pub refund-left :
    (d : Draw) (trip : RowId) (note : String) (db : Db)
    → refund d trip note db ≡ (done tt, (refund_escrow d trip none note db).1)
unfolding refund
refund-left d trip note db = go (refund_escrow d trip none note db)
  where
    go :
        (r : Result Bool × Db)
        → (elim r.0 as (λ _. Answer (Unit {0}) × Db) [
          | ok a ↦ (done tt, r.1)
          | err e ↦ (done tt, r.1)
        ])
          ≡ (done tt, r.1)
    go (ok a, left) = refl
    go (err e, left) = refl
