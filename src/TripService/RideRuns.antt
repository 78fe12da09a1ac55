-- ===== src/TripService/RideRuns.antt =====
-- Each request of internal/service/trip_service.go takes steps: those of a ride.
use ridematch.Prelude.{Option, ◌≡◌, Bool, false, inl, inr, String, Bool-cases, ◌==◌}
use ridematch.Ledger.Models.{RowId}
use ridematch.EscrowService.{refund, on_trip_completed}
use ridematch.Trips.{TripStatus, CancelledBy, Trip, compare_and_swap_status}
use ridematch.Trips.Moves.{set_picked_up, set_completed, set_cancelled}
use ridematch.TripService.{grant, pause, is_user, DriverProfile, World, ◌>>=◌, Config, Env}
use ridematch.TripService.MatchRuns.{pick_up-Step, complete-Step, cancel-Step}
use ridematch.TripService.Riding.{
  canceller, load_driven, confirm_pickup, complete_trip, settle_cancelled, cancel_as, is_cancelable,
  cancel_trip,
}
use ridematch.TripService.Steps.{withdraw, return_fare, schedule_release, IsConcurrent}
use ridematch.TripService.Stepwise.{
  TakesSteps, bind-TakesSteps, then-TakesSteps, change-TakesSteps, pay-TakesSteps,
  swap_trips-TakesSteps, pause-TakesSteps, if-TakesSteps,
}

module _ (c : Config) (e : Env) (concurrent : IsConcurrent e) (w0 : World) where
  load_driven-TakesSteps : (user id : RowId) → TakesSteps w0 (load_driven e user id)
  load_driven-TakesSteps user id =
      bind-TakesSteps w0 _ _ (λ w r. r)
        (λ p.
          then-TakesSteps w0 _ _ (pause-TakesSteps w0 e 0 concurrent)
            (bind-TakesSteps w0 _ _ (λ w r. r) (λ t. then-TakesSteps w0 _ _ (λ w r. r) (λ w r. r))))

  pub confirm_pickup-TakesSteps :
      (matches : String → String → Bool) (user id : RowId) (pin : String)
      → TakesSteps w0 (confirm_pickup matches e user id pin)
  unfolding confirm_pickup
  confirm_pickup-TakesSteps matches user id pin =
      bind-TakesSteps w0 _ _ (load_driven-TakesSteps user id) (λ t.
        then-TakesSteps w0 _ _ (λ w r. r)
          (then-TakesSteps w0 _ _ (λ w r. r)
            (then-TakesSteps w0 _ _ (pause-TakesSteps w0 e 1 concurrent) (
              bind-TakesSteps w0 _ _
                (swap_trips-TakesSteps w0
                  (compare_and_swap_status id TripStatus.matched (set_picked_up e.now))
                  (pick_up-Step e id))
                (λ confirmed.
                  then-TakesSteps w0 _ _ (λ w r. r)
                    (then-TakesSteps w0 _ _ (pause-TakesSteps w0 e 2 concurrent) (λ w r. r)))))))

  pub complete_trip-TakesSteps : (user id : RowId) → TakesSteps w0 (complete_trip c e user id)
  unfolding complete_trip
  complete_trip-TakesSteps user id = bind-TakesSteps w0 _ _ (load_driven-TakesSteps user id) (λ t.
      then-TakesSteps w0 _ _ (λ w r. r)
        (then-TakesSteps w0 _ _ (pause-TakesSteps w0 e 1 concurrent) (
          bind-TakesSteps w0 _ _
            (swap_trips-TakesSteps w0
              (compare_and_swap_status id TripStatus.picked_up (set_completed e.now))
              (complete-Step e id))
            (λ completed.
              then-TakesSteps w0 _ _ (λ w r. r)
                (then-TakesSteps w0 _ _ (pause-TakesSteps w0 e 2 concurrent) (
                  bind-TakesSteps w0 _ _ (λ w r. r)
                    (λ out. then-TakesSteps w0 _ _ (pause-TakesSteps w0 e 3 concurrent) (
                      then-TakesSteps w0 _ _
                        (pay-TakesSteps w0
                          (on_trip_completed c.escrow_required c.auto_release (e.draws 0) out.id)
                          (λ w.
                            schedule_release w c.escrow_required c.auto_release (e.draws 0) out.id))
                        (λ w r. r)))))))))

  settle_cancelled-TakesSteps :
      (id : RowId) (s : TripStatus) → TakesSteps w0 (settle_cancelled e id s)
  unfolding settle_cancelled
  settle_cancelled-TakesSteps id TripStatus.matched =
      pay-TakesSteps w0 (refund (e.draws 0) id "trip cancelled")
        (λ w. return_fare w (e.draws 0) id "trip cancelled")
  settle_cancelled-TakesSteps id TripStatus.requested = change-TakesSteps w0 _ (λ w. withdraw w id)
  settle_cancelled-TakesSteps id TripStatus.picked_up = λ w r. r
  settle_cancelled-TakesSteps id TripStatus.completed = λ w r. r
  settle_cancelled-TakesSteps id TripStatus.cancelled = λ w r. r
  settle_cancelled-TakesSteps id TripStatus.expired = λ w r. r

  refused-TakesSteps :
      (id : RowId) (reason : String) (t : Trip) (by : CancelledBy)
      → is_cancelable t.status ≡ false
      → TakesSteps w0 (cancel_as e id reason t by)
  unfolding cancel_as ◌>>=◌
  refused-TakesSteps id reason t by h w r = rw h r

  cancel_as-TakesSteps :
      (id : RowId) (reason : String) (t : Trip) (by : CancelledBy)
      → TakesSteps w0 (cancel_as e id reason t by)
  unfolding cancel_as
  cancel_as-TakesSteps id reason t by = elim (Bool-cases (is_cancelable t.status)) [
    | inr final ↦ refused-TakesSteps id reason t by final
    | inl open_ ↦
        then-TakesSteps w0 _ _ (λ w r. r)
          (then-TakesSteps w0 _ _ (pause-TakesSteps w0 e 0 concurrent) (
            bind-TakesSteps w0 _ _
              (swap_trips-TakesSteps w0
                (compare_and_swap_status id t.status (set_cancelled e.now by reason))
                (cancel-Step e id t.status by reason open_))
              (λ cancelled.
                then-TakesSteps w0 _ _ (λ w r. r)
                  (then-TakesSteps w0 _ _ (pause-TakesSteps w0 e 1 concurrent) (
                    then-TakesSteps w0 _ _ (settle_cancelled-TakesSteps id t.status)
                      (then-TakesSteps w0 _ _ (pause-TakesSteps w0 e 2 concurrent) (λ w r. r)))))))
  ]

  canceller-TakesSteps :
      (user : RowId) (t : Trip) (driver : Option DriverProfile)
      → TakesSteps w0 (canceller e user t driver)
  canceller-TakesSteps user t driver =
      if-TakesSteps w0 (t.passenger_id == user) (grant CancelledBy.passenger) _ (λ w r. r)
        (if-TakesSteps w0 (is_user user driver) (grant CancelledBy.driver) _ (λ w r. r)
          (then-TakesSteps w0 (pause e 3) _ (pause-TakesSteps w0 e 3 concurrent) (λ w r. r)))

  pub cancel_trip-TakesSteps :
      (user id : RowId) (reason : String) → TakesSteps w0 (cancel_trip e user id reason)
  unfolding cancel_trip
  cancel_trip-TakesSteps user id reason =
      bind-TakesSteps w0 _ _ (λ w r. r)
        (λ t.
          bind-TakesSteps w0 _ _ (λ w r. r)
            (λ driver.
              bind-TakesSteps w0 _ _ (canceller-TakesSteps user t driver)
                (λ by. cancel_as-TakesSteps id reason t by)))
