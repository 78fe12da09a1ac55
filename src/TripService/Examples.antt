-- ===== src/TripService/Examples.antt =====
-- One ride through internal/service/trip_service.go, at concrete rows.
use ridematch.Prelude.{
  ◌+◌, ◌≡◌, refl, ◌++◌, true, false, none, some, [], ◌∷◌, ◌==◌, arith, Bool, String, All, ◌&&◌,
  if◌then◌else◌, Bool-cases, inl, inr, List,
}
use ridematch.Prelude.Int.{pos, ◌+ℤ◌, ◌-ℤ◌}
use ridematch.Prelude.Word.{add64, sub64, neg64, wrap64}
use ridematch.Prelude.Table.{find_by}
use ridematch.Ledger.Models.{Wallet, EscrowHold}
use ridematch.Ledger.Store.{empty_db}
use ridematch.Ledger.Post.{
  ensure_wallet_tx, lock_wallet, posting_sum, create_transaction, post_one, post_all, post,
}
use ridematch.Ledger.Wallets
use ridematch.Ledger.Topups
use text.Mathlib.Text.{◌==◌ as str_eq}
use ridematch.Ledger.Escrow
use ridematch.Ledger.Escrow.{refunded_hold}
use ridematch.Ledger.Balanced.{IsLedger}
use ridematch.Ledger.Operations.{Call, step, run, IsSound}
use ridematch.Ledger.Runs.{run-IsLedger, empty_db-IsLedger}
use ridematch.Ledger.Day.{
  draw, fare, credited_calls, held_db, held_calls, held_calls-IsSound, driver_wallet,
}
use ridematch.Trips.{
  TripStatus, CancelledBy, VehicleType, Trip, find_trip, is_open, find_active_by_driver, drives,
  same_status, compare_and_swap_status,
}
use ridematch.Trips.Lifecycle.{Follows}
use ridematch.Trips.Moves.{set_matched, set_picked_up, set_cancelled, set_expired}
use ridematch.Trips.Offers.{
  TripOffer, OfferStatus, pending_driver_ids, same_offer_status, swap_offer_status,
  supersede_other_pending, withdraw_all_pending, find_pending_by_trip_and_driver,
}
use ridematch.TripService.{
  World, set_db, DriverProfile, VerificationStatus, Config, Env, granted, denied, pin_not_generated,
  trip_not_open, find_driver, find_driver_by_user, ◌>>=◌,
}
use ridematch.TripService.Offering.{
  make_offer, require_active_driver, load_and_expire_if_due, get_trip,
}
use ridematch.TripService.Matching.{
  accept_offer, claim_offer, match_trip, roll_back, undo_hold, is_eligible,
}
use ridematch.TripService.Riding.{confirm_pickup, cancel_trip, cancel_as, settle_cancelled}
use ridematch.EscrowService.{hold, refund}
use ridematch.TripService.RideRuns.{cancel_trip-TakesSteps}
use ridematch.TripService.Steps.{here, IsConcurrent, IsPriced}
use ridematch.TripService.Requests.{accept, IsValid, serve, serve-IsLedger, serve-Follows}
use ridematch.TripService.Alone.{get_trip-expires}
use ridematch.TripService.Cancelled.{cancel_trip-refunds}
use ridematch.TripService.Restored.{accept_offer-restores}
use ridematch.TripService.Guards.{confirm_pickup-granted, accept_offer-granted}

abbrev asked : Trip
asked = record {
  id = 700;
  created_at = 10;
  passenger_id = 501;
  vehicle_type = VehicleType.keke;
  status = TripStatus.requested;
  pickup_lat = 0;
  pickup_lng = 0;
  pickup_address = "Yaba";
  destination_lat = 0;
  destination_lng = 0;
  destination_address = "Ikeja";
  offered_price_kobo = pos 150000;
  agreed_price_kobo = none;
  driver_id = none;
  pickup_pin_hash = "";
  matched_at = none;
  pickup_confirmed_at = none;
  completed_at = none;
  cancelled_at = none;
  cancelled_by = none;
  cancel_reason = "";
}

abbrev bid : TripOffer
bid = record {
  id = 810;
  created_at = 12;
  trip_id = 700;
  driver_id = 600;
  price_kobo = pos 150000;
  status = OfferStatus.pending;
}

abbrev rider_of_keke : DriverProfile
rider_of_keke = record {
  id = 600;
  user_id = 502;
  vehicle_type = VehicleType.keke;
  plate_number = "LAG-1";
  vehicle_photo_url = "";
  vehicle_make_id = none;
  vehicle_model_id = none;
  vehicle_make_name = "";
  vehicle_model_name = "";
  vehicle_year = none;
  vehicle_category = "";
  id_document_url = "";
  verification_status = VerificationStatus.approved;
  verification_note = "";
  subscription_active_until = some 90000;
  is_online = true;
  rating_average = 0;
  rating_count = 0;
}

-- The passenger has paid a top-up in.
abbrev topped_calls : List Call
topped_calls = credited_calls ++ (Call.credit (draw 2) 900 (pos 204395) (pos 200000) 77 ∷ [])

topped_calls-IsSound : All IsSound topped_calls
unfolding IsSound
topped_calls-IsSound = (tt, (((refl, omega arith), (refl, omega arith)), tt))

abbrev open_world : World
open_world = record {
  trips = asked ∷ [];
  offers = bid ∷ [];
  drivers = rider_of_keke ∷ [];
  db = run topped_calls empty_db;
}

abbrev met : Trip
met = set_matched 600 (pos 150000) "hash of 4321" 3000 asked

abbrev matched_world : World
matched_world = record {
  trips = met ∷ [];
  offers = record bid { status = OfferStatus.accepted } ∷ [];
  drivers = rider_of_keke ∷ [];
  db = held_db;
}

abbrev settings : Config
settings = record { escrow_required = true; auto_release = 86400; expiry_after = 9000 }

abbrev late_settings : Config
late_settings = record settings { expiry_after = 900 }

abbrev unpaid : Config
unpaid = record settings { escrow_required = false }

abbrev quiet : Env
quiet = record {
  others = λ n w. w;
  now = 4000;
  draws = λ n. draw (n + 4);
  pin = some ("4321", "hash of 4321");
}

abbrev checks : String → String → Bool
checks hash pin = str_eq hash "hash of 4321" && str_eq pin "4321"

-- The passenger's wallet, after the top-up and the fare.
abbrev purse : Wallet
purse = record (driver_wallet (pos 50000) false) { id = 21; user_id = 501; pin_failed_attempts = 0 }

-- The passenger cancels between the claim of the offer and the match.
abbrev raced : Env
raced = record quiet {
  others = λ n w. if n == 4 then (cancel_trip quiet 501 700 "changed my mind" w).1 else w;
}

raced-IsConcurrent : IsConcurrent raced
raced-IsConcurrent n w = elim (Bool-cases (n == 4)) [
  | inl now ↦
      rw now
        (cancel_trip-TakesSteps settings quiet (λ n w. here) w 501 700 "changed my mind" w here)
  | inr later ↦ rw later here
]

-- A run of the race: the claim is given up and the passenger has the fare back.
raced_accept :
    let r = accept_offer settings raced 501 700 810 open_world in
    (r.0 ≡ denied trip_not_open)
    × (find_trip 700 r.1.trips
        ≡ some (set_cancelled 4000 CancelledBy.passenger "changed my mind" asked))
    × (r.1.offers ≡ bid ∷ [])
    × (find_by Wallet.id 21 r.1.db.wallets ≡ some (record purse { balance_kobo = pos 200000 }))
unfolding run step accept_offer claim_offer match_trip roll_back undo_hold ◌>>=◌ hold refund
    swap_offer_status cancel_trip cancel_as settle_cancelled withdraw_all_pending
    compare_and_swap_status Wallets.ensure_wallet Topups.create_topup Topups.credit_topup
    Topups.credit_row Escrow.hold_escrow Escrow.hold_over Escrow.take_fare Escrow.refund_escrow
    Escrow.refund_hold ensure_wallet_tx lock_wallet posting_sum create_transaction post_one post_all
    post ◌+ℤ◌ ◌-ℤ◌ add64 sub64 neg64 wrap64
raced_accept = (refl, refl, refl, refl)

-- The passenger accepts the offer while its driver is changing the price.
abbrev overtaken : Env
overtaken = record quiet {
  others = λ n w. if n == 4 then (accept_offer unpaid quiet 501 700 810 w).1 else w;
}

overtaken_offer :
    let r =
      make_offer unpaid overtaken 502 700 (pos 160000) (record open_world { db = empty_db }) in
    (find_trip 700 r.1.trips ≡ some (set_matched 600 (pos 150000) "hash of 4321" 4000 asked))
    × (r.1.offers ≡ record bid { price_kobo = pos 160000 } ∷ [])
unfolding make_offer require_active_driver load_and_expire_if_due find_pending_by_trip_and_driver
    accept_offer claim_offer match_trip roll_back undo_hold ◌>>=◌ hold refund swap_offer_status
    compare_and_swap_status supersede_other_pending
overtaken_offer = (refl, refl)

-- A first acceptance, which has no PIN, takes the fare before the second one asks for it and returns
-- it afterwards: the second one makes the match, with no fare held.
abbrev doubled : Env
doubled = record quiet {
  others = λ n w.
      if n == 2
      then set_db (hold true (draw 6) asked 502 600 (pos 150000) w.db).1 w
      else if n == 3
      then set_db (refund (draw 7) 700 "match did not complete" w.db).1 w
      else w;
}

doubled_accept :
    let r = accept_offer settings doubled 501 700 810 open_world in
    (r.0 ≡ granted (set_matched 600 (pos 150000) "hash of 4321" 4000 asked, "4321"))
    × (find_by Wallet.id 21 r.1.db.wallets ≡ some (record purse { balance_kobo = pos 200000 }))
unfolding run step accept_offer claim_offer match_trip roll_back undo_hold ◌>>=◌ hold refund
    compare_and_swap_status supersede_other_pending swap_offer_status Wallets.ensure_wallet
    Topups.create_topup Topups.credit_topup Topups.credit_row Escrow.hold_escrow Escrow.hold_over
    Escrow.take_fare Escrow.refund_escrow Escrow.refund_hold ensure_wallet_tx lock_wallet
    posting_sum create_transaction post_one post_all post ◌+ℤ◌ ◌-ℤ◌ add64 sub64 neg64 wrap64
doubled_accept = (refl, refl)

open_world-IsPriced : IsPriced open_world
open_world-IsPriced = ((refl, omega arith), tt)

serve-IsLedger_example :
    IsLedger (serve checks settings raced (accept 501 700 810) open_world).db
    × IsPriced (serve checks settings raced (accept 501 700 810) open_world)
unfolding IsValid
serve-IsLedger_example =
    serve-IsLedger checks settings raced (accept 501 700 810) open_world raced-IsConcurrent tt
      (run-IsLedger topped_calls empty_db topped_calls-IsSound empty_db-IsLedger)
      open_world-IsPriced

serve-Follows_example :
    (u : Trip) × (find_trip 700 (serve checks settings raced (accept 501 700 810) open_world).trips
      ≡ some u)
    × Follows asked u
unfolding IsValid
serve-Follows_example =
    serve-Follows checks settings raced (accept 501 700 810) open_world 700 asked raced-IsConcurrent
      tt open_world-IsPriced refl

get_trip-expires_example :
    let r = get_trip late_settings quiet 501 700 open_world in
    (r.0 ≡ granted (set_expired asked))
    × (find_trip 700 r.1.trips ≡ some (set_expired asked))
    × (pending_driver_ids 700 r.1.offers ≡ [])
get_trip-expires_example =
    get_trip-expires late_settings quiet 501 700 open_world asked (λ n w. refl) refl refl refl

accept_offer-restores_example :
    let r = accept_offer settings (record quiet { pin = none }) 501 700 810 open_world in
    (r.1.trips ≡ open_world.trips) × (r.1.offers ≡ open_world.offers)
unfolding run step accept_offer claim_offer match_trip roll_back undo_hold ◌>>=◌ hold refund
    swap_offer_status Wallets.ensure_wallet Topups.create_topup Topups.credit_topup
    Topups.credit_row Escrow.hold_escrow Escrow.hold_over Escrow.take_fare Escrow.refund_escrow
    Escrow.refund_hold ensure_wallet_tx lock_wallet posting_sum create_transaction post_one post_all
    post ◌+ℤ◌ ◌-ℤ◌ add64 sub64 neg64 wrap64
accept_offer-restores_example =
    accept_offer-restores settings (record quiet { pin = none }) 501 700 810 open_world
      pin_not_generated (λ n w. refl) refl

accept_offer-granted_example :
    (t : Trip) × (o : TripOffer) × (p : DriverProfile) × (find_trip 700 open_world.trips ≡ some t)
    × ((t.passenger_id == 501) ≡ true)
    × (is_open t ≡ true)
    × (find_by TripOffer.id 810 open_world.offers ≡ some o)
    × ((o.trip_id == 700) ≡ true)
    × (same_offer_status o.status OfferStatus.pending ≡ true)
    × (find_driver o.driver_id open_world ≡ some p)
    × (is_eligible quiet p ≡ true)
    × (find_active_by_driver p.id open_world.trips ≡ none)
unfolding run step accept_offer claim_offer match_trip roll_back undo_hold ◌>>=◌ hold refund
    compare_and_swap_status supersede_other_pending swap_offer_status Wallets.ensure_wallet
    Topups.create_topup Topups.credit_topup Topups.credit_row Escrow.hold_escrow Escrow.hold_over
    Escrow.take_fare ensure_wallet_tx lock_wallet posting_sum create_transaction post_one post_all
    post ◌+ℤ◌ ◌-ℤ◌ add64 sub64 neg64 wrap64
accept_offer-granted_example =
    accept_offer-granted settings quiet 501 700 810 open_world
      (set_matched 600 (pos 150000) "hash of 4321" 4000 asked) "4321" refl

confirm_pickup-granted_example :
    (p : DriverProfile) × (t : Trip) × (find_driver_by_user 502 matched_world ≡ some p)
    × (find_trip 700 matched_world.trips ≡ some t)
    × (drives p.id t ≡ true)
    × (same_status t.status TripStatus.matched ≡ true)
    × (checks t.pickup_pin_hash "4321" ≡ true)
unfolding confirm_pickup ◌>>=◌ compare_and_swap_status
confirm_pickup-granted_example =
    confirm_pickup-granted checks quiet 502 700 "4321" matched_world (set_picked_up 4000 met) refl

cancel_trip-refunds_example :
    let r = cancel_trip quiet 502 700 "broke down" matched_world in
    (r.0 ≡ granted (set_cancelled 4000 CancelledBy.driver "broke down" met))
    × (find_trip 700 r.1.trips ≡ some (set_cancelled 4000 CancelledBy.driver "broke down" met))
    × (find_by Wallet.id purse.id r.1.db.wallets
        ≡ some (record purse { balance_kobo = pos 50000 +ℤ pos 150000 }))
    × (find_by EscrowHold.id 33 r.1.db.escrows
        ≡ some (refunded_hold (draw 4) none "trip cancelled" (Escrow.opened (draw 3) fare)))
unfolding run step Wallets.ensure_wallet Topups.create_topup Topups.credit_topup Topups.credit_row
    Escrow.hold_escrow Escrow.hold_over Escrow.take_fare ensure_wallet_tx lock_wallet posting_sum
    create_transaction post_one post_all post ◌+ℤ◌ ◌-ℤ◌ add64 sub64 neg64 wrap64
cancel_trip-refunds_example =
    cancel_trip-refunds quiet 502 700 "broke down" CancelledBy.driver matched_world met
      (Escrow.opened (draw 3) fare) purse (λ n w. refl) refl refl refl
      (run-IsLedger held_calls empty_db held_calls-IsSound empty_db-IsLedger) refl refl refl refl
      (refl, omega arith)
