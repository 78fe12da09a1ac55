-- ===== src/EscrowService/Examples.antt =====
-- The escrow service, internal/service/escrow_service.go, after a completed trip.
use ridematch.Prelude.{◌≡◌, refl, arith, ◌⊎◌, none, some, [], ◌∷◌}
use ridematch.Prelude.Int.{pos, ◌+ℤ◌, ◌-ℤ◌}
use ridematch.Prelude.Word.{add64, sub64, neg64, wrap64}
use ridematch.Prelude.Table.{find_by, find_where}
use ridematch.Ledger.Post.{
  fresh_wallet, ensure_wallet_tx, lock_wallet, posting_sum, create_transaction, post_one, post_all,
  post,
}
use ridematch.Ledger.Wallets
use ridematch.Ledger.Topups
use ridematch.Ledger.Escrow
use ridematch.Ledger.Operations.{Call, step, run, IsSound}
use ridematch.Ledger.Models.{Wallet, EscrowHold, EscrowStatus}
use ridematch.Ledger.Store.{Db, empty_db}
use ridematch.Ledger.Runs.{step-IsLedger, run-IsLedger, empty_db-IsLedger}
use ridematch.Ledger.Day.{draw, fare, held_calls, held_db, held_calls-IsSound}
use ridematch.Trips.{TripStatus, VehicleType, Trip, find_trip}
use ridematch.EscrowService.{
  done, to_driver, confirm_trip, dispute_trip, admin_resolve, release, to_passenger,
}
use ridematch.EscrowService.Settling.{admin_resolve-pays}
use ridematch.EscrowService.Granted.{confirm_trip-granted, dispute_trip-granted}

abbrev ride : TripStatus → Trip
ride s = record {
  id = 700;
  created_at = 10;
  passenger_id = 501;
  vehicle_type = VehicleType.keke;
  status = s;
  pickup_lat = 0;
  pickup_lng = 0;
  pickup_address = "Yaba";
  destination_lat = 0;
  destination_lng = 0;
  destination_address = "Ikeja";
  offered_price_kobo = pos 150000;
  agreed_price_kobo = some (pos 150000);
  driver_id = some 600;
  pickup_pin_hash = "hash";
  matched_at = some 20;
  pickup_confirmed_at = none;
  completed_at = none;
  cancelled_at = none;
  cancelled_by = none;
  cancel_reason = "";
}

abbrev payee_db : Db
payee_db = step (Call.ensure (draw 4) 502) held_db

abbrev held_fare : EscrowHold
held_fare = Escrow.opened (draw 3) fare

abbrev payee_wallet : Wallet
payee_wallet = fresh_wallet 41 502

abbrev payer_wallet : Wallet
payer_wallet = record (fresh_wallet 21 501) { balance_kobo = pos 50000 }

admin_resolve-pays_example :
    let r = admin_resolve (draw 5) 9 700 to_driver "no show" payee_db in
    let s = admin_resolve (draw 5) 9 700 to_passenger "no show" payee_db in
    (r.0 ≡ done tt)
    × (find_by Wallet.id 41 r.1.wallets
        ≡ some (record payee_wallet { balance_kobo = pos 0 +ℤ pos 150000 }))
    × (find_by EscrowHold.id 33 r.1.escrows
        ≡ some (Escrow.released_hold (draw 5) "no show" held_fare))
    × (s.0 ≡ done tt)
    × (find_by Wallet.id 21 s.1.wallets
        ≡ some (record payer_wallet { balance_kobo = pos 50000 +ℤ pos 150000 }))
    × (find_by EscrowHold.id 33 s.1.escrows
        ≡ some (Escrow.refunded_hold (draw 5) (some 9) "no show" held_fare))
unfolding run step Wallets.ensure_wallet Topups.create_topup Topups.credit_topup Topups.credit_row
    Escrow.hold_escrow Escrow.hold_over Escrow.take_fare Escrow.find_escrow_by_trip ensure_wallet_tx
    lock_wallet posting_sum create_transaction post_one post_all post ◌+ℤ◌ ◌-ℤ◌ add64 sub64 neg64
    wrap64 IsSound
admin_resolve-pays_example =
    admin_resolve-pays (draw 5) 9 700 "no show" held_fare payee_wallet payer_wallet payee_db
      (step-IsLedger (Call.ensure (draw 4) 502) held_db tt
        (run-IsLedger held_calls empty_db held_calls-IsSound empty_db-IsLedger))
      refl refl refl refl refl refl (refl, omega arith) (refl, omega arith)

-- The fare as it is once the passenger has confirmed.
abbrev confirmed_fare : EscrowHold
confirmed_fare = Escrow.released_hold (draw 5) "confirmed by passenger" held_fare

confirm_trip-granted_example :
    (t : Trip) × (h : EscrowHold) × (find_trip 700 (ride TripStatus.completed ∷ []) ≡ some t)
    × (find_where (Escrow.of_trip 700) payee_db.escrows ≡ some h)
    × (h.payer_user_id ≡ 501)
    × (t.status ≡ TripStatus.completed)
    × (h.status ≡ EscrowStatus.held)
    × ((confirm_trip (draw 5) (ride TripStatus.completed ∷ []) 501 700 payee_db).1
        ≡ (Escrow.release_escrow (draw 5) 700 "confirmed by passenger" payee_db).1)
unfolding run step Wallets.ensure_wallet Topups.create_topup Topups.credit_topup Topups.credit_row
    Escrow.hold_escrow Escrow.hold_over Escrow.take_fare Escrow.find_escrow_by_trip
    Escrow.release_escrow Escrow.release_hold confirm_trip release ensure_wallet_tx lock_wallet
    posting_sum create_transaction post_one post_all post ◌+ℤ◌ ◌-ℤ◌ add64 sub64 neg64 wrap64
confirm_trip-granted_example =
    confirm_trip-granted (draw 5) (ride TripStatus.completed ∷ []) 501 700 confirmed_fare payee_db
      refl

dispute_trip-granted_example :
    (t : Trip) × (h : EscrowHold) × (find_trip 700 (ride TripStatus.picked_up ∷ []) ≡ some t)
    × (find_where (Escrow.of_trip 700) held_db.escrows ≡ some h)
    × (h.payer_user_id ≡ 501)
    × ((t.status ≡ TripStatus.completed) ⊎ (t.status ≡ TripStatus.picked_up))
    × (h.status ≡ EscrowStatus.held)
    × ((dispute_trip (draw 5) (ride TripStatus.picked_up ∷ []) 501 700 "late" held_db).1
        ≡ (Escrow.dispute_escrow (draw 5) 700 "late" held_db).1)
unfolding run step Wallets.ensure_wallet Topups.create_topup Topups.credit_topup Topups.credit_row
    Escrow.hold_escrow Escrow.hold_over Escrow.take_fare Escrow.find_escrow_by_trip
    Escrow.dispute_escrow dispute_trip ensure_wallet_tx lock_wallet posting_sum create_transaction
    post_one post_all post ◌+ℤ◌ ◌-ℤ◌ add64 sub64 neg64 wrap64
dispute_trip-granted_example =
    dispute_trip-granted (draw 5) (ride TripStatus.picked_up ∷ []) 501 700 "late"
      (Escrow.dispute (draw 5).now "late" held_fare) held_db refl
