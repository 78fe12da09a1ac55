-- ===== src/Trips/Examples.antt =====
-- Two drivers and one trip: the moves and offers of internal/repository/trip_repository.go and
-- internal/repository/trip_offer_repository.go at concrete rows.
use ridematch.Prelude.{◌≡◌, refl, none, some, List, [], ◌∷◌}
use ridematch.Prelude.Int.{pos, ◌+ℤ◌}
use ridematch.Prelude.Table.{find_by}
use ridematch.Ledger.Models.{RowId}
use ridematch.Trips.{
  TripStatus, CancelledBy, VehicleType, Trip, compare_and_swap_status, find_active_by_driver,
  sum_earnings_by_driver,
}
use ridematch.Trips.Moves.{Move, updates, try_move, run_moves}
use ridematch.Trips.Lifecycle.{Follows, run_moves-Follows}
use ridematch.Trips.Offers.{
  OfferStatus, TripOffer, swap_offer_status, supersede_other_pending, pending_driver_ids,
}
use ridematch.Trips.OfferLaws.{supersede_other_pending-closes}

abbrev request : Trip
request = record {
  id = 700;
  created_at = 10;
  passenger_id = 501;
  vehicle_type = VehicleType.keke;
  status = TripStatus.requested;
  pickup_lat = 0;
  pickup_lng = 0;
  pickup_address = "Yaba";
  destination_lat = 0;
  destination_lng = 0;
  destination_address = "Ikeja";
  offered_price_kobo = pos 150000;
  agreed_price_kobo = none;
  driver_id = none;
  pickup_pin_hash = "";
  matched_at = none;
  pickup_confirmed_at = none;
  completed_at = none;
  cancelled_at = none;
  cancelled_by = none;
  cancel_reason = "";
}

abbrev first_match : Move
first_match = Move.match 600 (pos 150000) "hash" 20

abbrev ride : List (RowId × Move)
ride =
    (700, first_match)
    ∷ (700, Move.match 601 (pos 140000) "other" 20)
    ∷ (700, Move.expire)
    ∷ (700, Move.pick_up 30)
    ∷ (700, Move.cancel_matched 31 CancelledBy.passenger "late")
    ∷ (700, Move.complete 40)
    ∷ []

earnings_after_ride :
    sum_earnings_by_driver 600 (some 40) (run_moves ride (request ∷ [])) ≡ (pos 150000, 1)
unfolding run_moves try_move compare_and_swap_status updates sum_earnings_by_driver ◌+ℤ◌
earnings_after_ride = refl

idle_after_ride : find_active_by_driver 600 (run_moves ride (request ∷ [])) ≡ none
unfolding run_moves try_move compare_and_swap_status updates
idle_after_ride = refl

abbrev over : Trip
over = record request { status = TripStatus.expired }

run_moves-Follows_example :
    (u : Trip) × (find_by Trip.id 700 (run_moves ride (request ∷ [])) ≡ some u) × Follows request u
run_moves-Follows_example = run_moves-Follows ride 700 (request ∷ []) request refl

abbrev offer : RowId → RowId → TripOffer
offer id who = record {
  id = id;
  created_at = 15;
  trip_id = 700;
  driver_id = who;
  price_kobo = pos 150000;
  status = OfferStatus.pending;
}

abbrev two_offers : List TripOffer
two_offers = offer 1 600 ∷ offer 2 601 ∷ []

supersede_other_pending-closes_example :
    pending_driver_ids 700 (
      supersede_other_pending 700 2
        (swap_offer_status 2 OfferStatus.pending OfferStatus.accepted two_offers).1)
    ≡ []
unfolding swap_offer_status
supersede_other_pending-closes_example =
    supersede_other_pending-closes 700 2 two_offers (refl, (refl, tt)) refl
