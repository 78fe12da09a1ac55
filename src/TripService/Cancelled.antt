-- ===== src/TripService/Cancelled.antt =====
-- `CancelTrip` of internal/service/trip_service.go on a matched trip whose fare is held.
use ridematch.Prelude.{◌≡◌, refl, ap, ◌∙◌, true, false, Option, none, some, String}
use ridematch.Prelude.Int.{◌+ℤ◌}
use ridematch.Prelude.Word.{IsAmount}
use ridematch.Prelude.Table.{find_by, find_where}
use ridematch.Ledger.Models.{RowId, Wallet, EscrowHold, IdemKey}
use ridematch.Ledger.Store.{Db}
use ridematch.Ledger.Post.{is_used}
use ridematch.Ledger.Escrow.{of_trip, is_settled, refunded_hold, refund_escrow}
use ridematch.Ledger.Balanced.{IsLedger}
use ridematch.Ledger.Paying.{refund_escrow-pays}
use ridematch.EscrowService.{Answer, refund}
use ridematch.EscrowService.Fares.{refund-left}
use ridematch.Trips.{Trip, TripStatus, CancelledBy, find_trip, compare_and_swap_status}
use ridematch.Trips.Moves.{Move, set_cancelled, try_move, updates}
use ridematch.Trips.Lifecycle.{try_move-row}
use ridematch.TripService.{
  World, set_trips, set_db, granted, look, driver_of, pay, reply_of, found, Env, repository_failed,
  trip_not_cancelable,
}
use ridematch.TripService.Riding.{canceller, settle_cancelled, cancel_as, cancel_trip}
use ridematch.TripService.Chains.{
  IsAlone, bind-step, load-step, deny_unless-step, pause-step, swap_trips-step,
}

abbrev cancelled_world : Env → RowId → CancelledBy → String → World → World
cancelled_world e id by reason w =
    let v =
      set_trips
        (compare_and_swap_status id TripStatus.matched (set_cancelled e.now by reason) w.trips).1
        w in
    set_db (refund_escrow (e.draws 0) id none "trip cancelled" w.db).1 v

module _ (e : Env) (id : RowId) (reason : String) (by : CancelledBy) (w : World) (t : Trip)
    (alone : IsAlone e) (row : find_trip id w.trips ≡ some t)
    (is_matched : t.status ≡ TripStatus.matched) where
  cancelled_row :
      find_trip id (cancelled_world e id by reason w).trips ≡ some (set_cancelled e.now by reason t)
  unfolding try_move updates
  cancelled_row =
      try_move-row id (Move.cancel_matched e.now by reason) w.trips t row (rw is_matched refl)

  cancel_as-alone :
      cancel_as e id reason t by w
      ≡ (granted (set_cancelled e.now by reason t), cancelled_world e id by reason w)
  unfolding cancel_as settle_cancelled compare_and_swap_status
  cancel_as-alone =
      let cas = compare_and_swap_status id TripStatus.matched (set_cancelled e.now by reason) in
      let v = set_trips (cas w.trips).1 w in
      let z = cancelled_world e id by reason w in
      rw is_matched (
        deny_unless-step true trip_not_cancelable _ w refl
        ∙ pause-step e 0 _ w alone
        ∙ swap_trips-step cas _ w true (rw (row, is_matched) refl)
        ∙ deny_unless-step true trip_not_cancelable _ v refl
        ∙ pause-step e 1 _ v alone
        ∙ bind-step (pay (refund (e.draws 0) id "trip cancelled")) _ tt v z (
            ap (λ (r : Answer (Unit {0}) × Db). (reply_of r.0, set_db r.1 v))
              (refund-left (e.draws 0) id "trip cancelled" w.db))
        ∙ pause-step e 2 _ z alone
        ∙ ap (λ (o : Option Trip). (found repository_failed o, z)) cancelled_row)

  cancel_trip-alone :
      (user : RowId)
      → canceller e user t (driver_of t w) w ≡ (granted by, w)
      → cancel_trip e user id reason w
        ≡ (granted (set_cancelled e.now by reason t), cancelled_world e id by reason w)
  unfolding cancel_trip
  cancel_trip-alone user who =
      load-step _ _ _ w t row
      ∙ bind-step (look (driver_of t)) _ (driver_of t w) w w refl
      ∙ bind-step (canceller e user t (driver_of t w)) _ by w w who
      ∙ cancel_as-alone

-- Where nothing interleaves and the ledger is balanced, `CancelTrip` of a matched trip by its
-- passenger or its driver, with the fare held or disputed, the refund key and the drawn
-- transaction id unused and the passenger's wallet not overflowing, returns the trip as cancelled
-- and leaves its row so, gives the fare back to the wallet that paid it, and marks the hold as
-- refunded.
pub cancel_trip-refunds :
    (e : Env) (user id : RowId) (reason : String) (by : CancelledBy) (w : World) (t : Trip)
    (h : EscrowHold) (purse : Wallet)
    → IsAlone e
    → find_trip id w.trips ≡ some t
    → t.status ≡ TripStatus.matched
    → canceller e user t (driver_of t w) w ≡ (granted by, w)
    → IsLedger w.db
    → find_where (of_trip id) w.db.escrows ≡ some h
    → is_settled h.status ≡ false
    → is_used (e.draws 0).tx_uuid (IdemKey.escrow_refund h.trip_id h.version) w.db.transactions
      ≡ false
    → find_by Wallet.user_id h.payer_user_id w.db.wallets ≡ some purse
    → IsAmount (purse.balance_kobo +ℤ h.amount_kobo)
    → let r = cancel_trip e user id reason w in
      (r.0 ≡ granted (set_cancelled e.now by reason t))
      × (find_trip id r.1.trips ≡ some (set_cancelled e.now by reason t))
      × (find_by Wallet.id purse.id r.1.db.wallets
          ≡ some (record purse { balance_kobo = purse.balance_kobo +ℤ h.amount_kobo }))
      × (find_by EscrowHold.id h.id r.1.db.escrows
          ≡ some (refunded_hold (e.draws 0) none "trip cancelled" h))
cancel_trip-refunds e user id reason by w t h purse alone row now who b held open_ fresh user_row
      fits =
    let money =
      refund_escrow-pays (e.draws 0) id none "trip cancelled" h purse w.db b held open_ fresh
        user_row fits in
    rw (cancel_trip-alone e id reason by w t alone row now user who)
      (refl, cancelled_row e id reason by w t alone row now, money.1, money.2)
