-- ===== src/TripService/MatchRuns.antt =====
-- Each request of internal/service/trip_service.go takes steps: from the match on.
use ridematch.Prelude.{◌≡◌, Bool, true, false, Option, none, some, String}
use ridematch.Prelude.Word.{IsAmount}
use ridematch.Ledger.Models.{RowId}
use ridematch.EscrowService.{hold, refund}
use ridematch.Trips.{TripStatus, CancelledBy, Trip, compare_and_swap_status}
use ridematch.Trips.Moves.{
  Move, try_move, expected, updates, set_matched, set_picked_up, set_completed, set_cancelled,
}
use ridematch.Trips.Offers.{TripOffer, OfferStatus, swap_offer_status}
use ridematch.TripService.{World, set_trips, DriverProfile, TripRefusal, Config, Env}
use ridematch.TripService.Matching.{
  undo_hold, roll_back, finish_match, match_trip, claim_offer, take_fare_and_claim, accept_offer,
}
use ridematch.TripService.Riding.{is_cancelable}
use ridematch.TripService.Steps.{
  Step, move_trip, move_offer, supersede, take_fare, return_fare, IsConcurrent, IsPriced,
}
use ridematch.TripService.Stepwise.{
  TakesSteps, bind-TakesSteps, then-TakesSteps, if-TakesSteps, change-TakesSteps, pay-TakesSteps,
  swap_trips-TakesSteps, swap_offers-TakesSteps, pause-TakesSteps, load_offer-TakesSteps,
}

move :
    (w : World) (id : RowId) (m : Move)
    → Step w (set_trips (compare_and_swap_status id (expected m) (updates m) w.trips).1 w)
unfolding try_move
move w id m = move_trip w id m

match-Step :
    (e : Env) (id : RowId) (o : TripOffer) (p : DriverProfile) (hash : String) (w : World)
    → Step w (
        set_trips
          (compare_and_swap_status id TripStatus.requested
            (set_matched p.id o.price_kobo hash e.now)
            w.trips).1
          w)
unfolding updates
match-Step e id o p hash w = move w id (Move.match p.id o.price_kobo hash e.now)

pub pick_up-Step :
    (e : Env) (id : RowId) (w : World)
    → Step w (
        set_trips (compare_and_swap_status id TripStatus.matched (set_picked_up e.now) w.trips).1 w)
unfolding updates
pick_up-Step e id w = move w id (Move.pick_up e.now)

pub complete-Step :
    (e : Env) (id : RowId) (w : World)
    → Step w (
        set_trips
          (compare_and_swap_status id TripStatus.picked_up (set_completed e.now) w.trips).1
          w)
unfolding updates
complete-Step e id w = move w id (Move.complete e.now)

pub cancel-Step :
    (e : Env) (id : RowId) (s : TripStatus) (by : CancelledBy) (reason : String)
    → is_cancelable s ≡ true
    → (w : World)
    → Step w (set_trips (compare_and_swap_status id s (set_cancelled e.now by reason) w.trips).1 w)
unfolding updates
cancel-Step e id TripStatus.requested by reason h w =
    move w id (Move.cancel_requested e.now by reason)
cancel-Step e id TripStatus.matched by reason h w = move w id (Move.cancel_matched e.now by reason)
cancel-Step e id TripStatus.picked_up by reason h w = cc
cancel-Step e id TripStatus.completed by reason h w = cc
cancel-Step e id TripStatus.cancelled by reason h w = cc
cancel-Step e id TripStatus.expired by reason h w = cc

module _ (c : Config) (e : Env) (concurrent : IsConcurrent e) (w0 : World) where
  undo_hold-TakesSteps : (taken : Bool) (id : RowId) → TakesSteps w0 (undo_hold e taken id)
  unfolding undo_hold
  undo_hold-TakesSteps false id w r = r
  undo_hold-TakesSteps true id w r =
      then-TakesSteps w0 _ _ (pause-TakesSteps w0 e 8 concurrent)
        (pay-TakesSteps w0 (refund (e.draws 1) id "match did not complete")
          (λ w. return_fare w (e.draws 1) id "match did not complete"))
        w r

  roll_back-TakesSteps :
      (taken : Bool) (id offer : RowId) (why : TripRefusal)
      → TakesSteps w0 (roll_back e taken id offer why)
  unfolding roll_back
  roll_back-TakesSteps taken id offer why = then-TakesSteps w0 _ _ (undo_hold-TakesSteps taken id) (
      then-TakesSteps w0 _ _ (pause-TakesSteps w0 e 5 concurrent) (
        then-TakesSteps w0 _ _
          (swap_offers-TakesSteps w0
            (swap_offer_status offer OfferStatus.accepted OfferStatus.pending)
            (λ w. move_offer w offer OfferStatus.accepted OfferStatus.pending))
          (λ w r. r)))

  finish_match-TakesSteps : (id offer : RowId) → TakesSteps w0 (finish_match e id offer)
  finish_match-TakesSteps id offer = then-TakesSteps w0 _ _ (pause-TakesSteps w0 e 6 concurrent) (
      then-TakesSteps w0 _ _ (change-TakesSteps w0 _ (λ w. supersede w id offer))
        (then-TakesSteps w0 _ _ (pause-TakesSteps w0 e 7 concurrent) (λ w r. r)))

  match_trip-TakesSteps :
      (taken : Bool) (id : RowId) (o : TripOffer) (p : DriverProfile)
      (pin : Option (String × String))
      → TakesSteps w0 (match_trip e taken id o p pin)
  unfolding match_trip
  match_trip-TakesSteps taken id o p none =
      bind-TakesSteps w0 _ _ (roll_back-TakesSteps taken id o.id _) (λ t w r. r)
  match_trip-TakesSteps taken id o p (some (pin, hash)) =
      then-TakesSteps w0 _ _ (pause-TakesSteps w0 e 4 concurrent) (
        bind-TakesSteps w0 _ _
          (swap_trips-TakesSteps w0
            (compare_and_swap_status id TripStatus.requested
              (set_matched p.id o.price_kobo hash e.now))
            (match-Step e id o p hash))
          (λ matched.
            bind-TakesSteps w0 _ _
              (if-TakesSteps w0 matched _ _ (finish_match-TakesSteps id o.id)
                (roll_back-TakesSteps taken id o.id _))
              (λ t w r. r)))

  claim_offer-TakesSteps :
      (id : RowId) (o : TripOffer) (p : DriverProfile) (taken : Bool)
      → TakesSteps w0 (claim_offer e id o p taken)
  unfolding claim_offer
  claim_offer-TakesSteps id o p taken =
      then-TakesSteps w0 _ _ (pause-TakesSteps w0 e 3 concurrent) (
        bind-TakesSteps w0 _ _
          (swap_offers-TakesSteps w0
            (swap_offer_status o.id OfferStatus.pending OfferStatus.accepted)
            (λ w. move_offer w o.id OfferStatus.pending OfferStatus.accepted))
          (λ claimed.
            if-TakesSteps w0 claimed _ _ (match_trip-TakesSteps taken id o p e.pin)
              (then-TakesSteps w0 _ _ (undo_hold-TakesSteps taken id) (λ w r. r))))

  take_fare_and_claim-TakesSteps :
      (id : RowId) (t : Trip) (o : TripOffer) (p : DriverProfile)
      → IsAmount o.price_kobo
      → TakesSteps w0 (take_fare_and_claim c e id t o p)
  take_fare_and_claim-TakesSteps id t o p a =
      then-TakesSteps w0 _ _ (pause-TakesSteps w0 e 2 concurrent) (
        bind-TakesSteps w0 _ _
          (pay-TakesSteps w0 (hold c.escrow_required (e.draws 0) t p.user_id p.id o.price_kobo)
            (λ w. take_fare w c.escrow_required (e.draws 0) t p.user_id p.id o.price_kobo a))
          (claim_offer-TakesSteps id o p))

  pub accept_offer-TakesSteps :
      (user id offer : RowId) → IsPriced w0 → TakesSteps w0 (accept_offer c e user id offer)
  unfolding accept_offer
  accept_offer-TakesSteps user id offer priced =
      bind-TakesSteps w0 _ _ (λ w r. r)
        (λ t.
          then-TakesSteps w0 _ _ (λ w r. r)
            (then-TakesSteps w0 _ _ (λ w r. r)
              (then-TakesSteps w0 _ _ (pause-TakesSteps w0 e 0 concurrent) (
                load_offer-TakesSteps w0 offer _ _ priced (λ o a.
                  then-TakesSteps w0 _ _ (λ w r. r)
                    (then-TakesSteps w0 _ _ (λ w r. r)
                      (bind-TakesSteps w0 _ _ (λ w r. r)
                        (λ p.
                          then-TakesSteps w0 _ _ (λ w r. r)
                            (then-TakesSteps w0 _ _ (pause-TakesSteps w0 e 1 concurrent) (
                              bind-TakesSteps w0 _ _ (λ w r. r)
                                (λ busy.
                                  then-TakesSteps w0 _ _ (λ w r. r)
                                    (take_fare_and_claim-TakesSteps id t o p a))))))))))))
