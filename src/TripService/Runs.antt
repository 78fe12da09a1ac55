-- ===== src/TripService/Runs.antt =====
-- Each request of internal/service/trip_service.go takes steps: those before a match.
use ridematch.Prelude.{◌≡◌, refl, true, inl, inr, Option, none, some, Option-cases}
use ridematch.Prelude.Int.{ℤ}
use ridematch.Prelude.Word.{IsAmount}
use ridematch.Prelude.Table.{find_by}
use ridematch.Ledger.Models.{RowId}
use ridematch.EscrowService.{ensure_can_afford}
use ridematch.Trips.{TripStatus, Trip, find_trip, compare_and_swap_status, is_open}
use ridematch.Trips.Moves.{Move, try_move, updates, set_expired}
use ridematch.Trips.Offers.{TripOffer, OfferStatus, swap_offer_status}
use ridematch.TripService.{
  World, set_trips, ◌>>=◌, DriverProfile, Config, Env, load_trip, is_overdue,
}
use ridematch.TripService.Offering.{
  expire_row, load_and_expire_if_due, require_active_driver, create_trip, insert_trip, insert_offer,
  offer_over, get_trip, make_offer, reject_offer, new_trip, new_offer, CreateTripRequest,
}
use ridematch.TripService.Steps.{
  Step, next, move_trip, add_trip, move_offer, withdraw, save_offer, add_offer, check_wallet,
  IsConcurrent,
}
use ridematch.TripService.Stepwise.{
  TakesSteps, bind-TakesSteps, then-TakesSteps, if-TakesSteps, change-TakesSteps, pay-TakesSteps,
  swap_trips-TakesSteps, swap_offers-TakesSteps, pause-TakesSteps,
}

expire-Step :
    (id : RowId) (w : World)
    → Step w (set_trips (compare_and_swap_status id TripStatus.requested set_expired w.trips).1 w)
unfolding try_move updates
expire-Step id w = move_trip w id Move.expire

insert_trip-TakesSteps : (w0 : World) (t : Trip) → is_open t ≡ true → TakesSteps w0 (insert_trip t)
unfolding ◌>>=◌
insert_trip-TakesSteps w0 t open_ w r = elim (Option-cases (find_trip t.id w.trips)) [
  | inl fresh ↦ rw fresh (next r (add_trip w t fresh open_))
  | inr (old, taken) ↦ rw taken r
]

insert_offer-TakesSteps :
    (w0 : World) (o : TripOffer) → IsAmount o.price_kobo → TakesSteps w0 (insert_offer o)
unfolding ◌>>=◌
insert_offer-TakesSteps w0 o a w r = elim (Option-cases (find_by TripOffer.id o.id w.offers)) [
  | inl fresh ↦ rw fresh (next r (add_offer w o a))
  | inr (old, taken) ↦ rw taken r
]

module _ (c : Config) (e : Env) (concurrent : IsConcurrent e) (w0 : World) where
  expire_row-TakesSteps : (id : RowId) (t : Trip) → TakesSteps w0 (expire_row e id t)
  expire_row-TakesSteps id t = then-TakesSteps w0 _ _ (pause-TakesSteps w0 e 1 concurrent) (
      bind-TakesSteps w0 _ _
        (swap_trips-TakesSteps w0 (compare_and_swap_status id TripStatus.requested set_expired)
          (expire-Step id))
        (λ expired.
          if-TakesSteps w0 expired _ _
            (then-TakesSteps w0 _ _ (pause-TakesSteps w0 e 2 concurrent)
              (then-TakesSteps w0 _ _ (change-TakesSteps w0 _ (λ w. withdraw w id)) (λ w r. r)))
            (λ w r. r)))

  load_and_expire-TakesSteps : (id : RowId) → TakesSteps w0 (load_and_expire_if_due c e id)
  unfolding load_and_expire_if_due
  load_and_expire-TakesSteps id =
      bind-TakesSteps w0 (load_trip id) _ (λ w r. r)
        (λ t. if-TakesSteps w0 (is_overdue c e.now t) _ _ (expire_row-TakesSteps id t) (λ w r. r))

  pub get_trip-TakesSteps : (user id : RowId) → TakesSteps w0 (get_trip c e user id)
  unfolding get_trip
  get_trip-TakesSteps user id = bind-TakesSteps w0 _ _ (load_and_expire-TakesSteps id) (λ t.
      bind-TakesSteps w0 _ _ (λ w r. r) (λ party. then-TakesSteps w0 _ _ (λ w r. r) (λ w r. r)))

  pub create_trip-TakesSteps :
      (user : RowId) (request : CreateTripRequest) → TakesSteps w0 (create_trip c e user request)
  unfolding create_trip
  create_trip-TakesSteps user request =
      bind-TakesSteps w0 _ _ (λ w r. r)
        (λ active.
          then-TakesSteps w0 _ _ (λ w r. r)
            (then-TakesSteps w0 _ _ (pause-TakesSteps w0 e 0 concurrent) (
              then-TakesSteps w0 _ _
                (pay-TakesSteps w0
                  (ensure_can_afford c.escrow_required (e.draws 0) user request.offered_price_kobo)
                  (λ w.
                    check_wallet w c.escrow_required (e.draws 0) user request.offered_price_kobo))
                (then-TakesSteps w0 _ _ (pause-TakesSteps w0 e 1 concurrent) (
                  then-TakesSteps w0 _ _
                    (insert_trip-TakesSteps w0 (new_trip (e.draws 1) user request) refl)
                    (λ w r. r))))))

  require_active_driver-TakesSteps : (user : RowId) → TakesSteps w0 (require_active_driver e user)
  unfolding require_active_driver
  require_active_driver-TakesSteps user =
      bind-TakesSteps w0 _ _ (λ w r. r)
        (λ p.
          then-TakesSteps w0 _ _ (λ w r. r)
            (then-TakesSteps w0 _ _ (λ w r. r) (then-TakesSteps w0 _ _ (λ w r. r) (λ w r. r))))

  offer_over-TakesSteps :
      (trip : RowId) (p : DriverProfile) (price : ℤ) (old : Option TripOffer)
      → IsAmount price
      → TakesSteps w0 (offer_over e trip p price old)
  offer_over-TakesSteps trip p price none a =
      then-TakesSteps w0 _ _ (pause-TakesSteps w0 e 4 concurrent) (
        then-TakesSteps w0 _ _ (insert_offer-TakesSteps w0 (new_offer (e.draws 0) trip p price) a)
          (λ w r. r))
  offer_over-TakesSteps trip p price (some old) a =
      then-TakesSteps w0 _ _ (pause-TakesSteps w0 e 4 concurrent) (
        then-TakesSteps w0 _ _
          (change-TakesSteps w0 _ (λ w. save_offer w (record old { price_kobo = price }) a))
          (λ w r. r))

  pub make_offer-TakesSteps :
      (user id : RowId) (price : ℤ) → IsAmount price → TakesSteps w0 (make_offer c e user id price)
  unfolding make_offer
  make_offer-TakesSteps user id price a =
      bind-TakesSteps w0 _ _ (require_active_driver-TakesSteps user) (λ p.
        then-TakesSteps w0 _ _ (pause-TakesSteps w0 e 0 concurrent) (
          bind-TakesSteps w0 _ _ (load_and_expire-TakesSteps id) (λ t.
            then-TakesSteps w0 _ _ (λ w r. r)
              (then-TakesSteps w0 _ _ (λ w r. r)
                (then-TakesSteps w0 _ _ (pause-TakesSteps w0 e 3 concurrent) (
                  bind-TakesSteps w0 _ _ (λ w r. r)
                    (λ old. offer_over-TakesSteps id p price old a)))))))

  pub reject_offer-TakesSteps :
      (user id offer : RowId) → TakesSteps w0 (reject_offer e user id offer)
  unfolding reject_offer
  reject_offer-TakesSteps user id offer =
      bind-TakesSteps w0 _ _ (λ w r. r)
        (λ t.
          then-TakesSteps w0 _ _ (λ w r. r)
            (then-TakesSteps w0 _ _ (pause-TakesSteps w0 e 0 concurrent) (
              bind-TakesSteps w0 _ _ (λ w r. r)
                (λ o.
                  then-TakesSteps w0 _ _ (λ w r. r)
                    (then-TakesSteps w0 _ _ (pause-TakesSteps w0 e 1 concurrent) (
                      bind-TakesSteps w0 _ _
                        (swap_offers-TakesSteps w0
                          (swap_offer_status o.id OfferStatus.pending OfferStatus.rejected)
                          (λ w. move_offer w o.id OfferStatus.pending OfferStatus.rejected))
                        (λ rejected w r. r)))))))
