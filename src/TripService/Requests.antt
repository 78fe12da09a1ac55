-- ===== src/TripService/Requests.antt =====
-- The requests that internal/service/trip_service.go serves, each interleaved with the others.
use ridematch.Prelude.{◌≡◌, Bool, some, String}
use ridematch.Prelude.Int.{ℤ}
use ridematch.Prelude.Word.{IsAmount}
use ridematch.Ledger.Models.{RowId}
use ridematch.Ledger.Balanced.{IsLedger}
use ridematch.Trips.{Trip, find_trip}
use ridematch.Trips.Lifecycle.{Follows}
use ridematch.TripService.{World, Config, Env}
use ridematch.TripService.Offering.{
  CreateTripRequest, create_trip, get_trip, make_offer, reject_offer,
}
use ridematch.TripService.Matching.{accept_offer}
use ridematch.TripService.Riding.{confirm_pickup, complete_trip, cancel_trip}
use ridematch.TripService.Steps.{
  Reach, here, Reach-IsLedger, Reach-IsPriced, Reach-Continues, IsConcurrent, IsPriced,
}
use ridematch.TripService.Runs.{
  create_trip-TakesSteps, get_trip-TakesSteps, make_offer-TakesSteps, reject_offer-TakesSteps,
}
use ridematch.TripService.MatchRuns.{accept_offer-TakesSteps}
use ridematch.TripService.RideRuns.{
  confirm_pickup-TakesSteps, complete_trip-TakesSteps, cancel_trip-TakesSteps,
}

-- The requests that write, with the user who sends them.
pub data Request : Type 0 where
  create : RowId → CreateTripRequest → Request
  get : RowId → RowId → Request
  offer : RowId → RowId → ℤ → Request
  accept reject : RowId → RowId → RowId → Request
  confirm : RowId → RowId → String → Request
  complete : RowId → RowId → Request
  cancel : RowId → RowId → String → Request

-- The handler binds a price as an int64 of at least 1.
unfoldable pub IsValid : Request → Type 0
IsValid (offer user id price) = IsAmount price
IsValid _ = Unit

unfoldable pub serve : (String → String → Bool) → Config → Env → Request → World → World
serve matches c e (create user r) w = (create_trip c e user r w).1
serve matches c e (get user id) w = (get_trip c e user id w).1
serve matches c e (offer user id price) w = (make_offer c e user id price w).1
serve matches c e (accept user id o) w = (accept_offer c e user id o w).1
serve matches c e (reject user id o) w = (reject_offer e user id o w).1
serve matches c e (confirm user id pin) w = (confirm_pickup matches e user id pin w).1
serve matches c e (complete user id) w = (complete_trip c e user id w).1
serve matches c e (cancel user id reason) w = (cancel_trip e user id reason w).1

module _ (matches : String → String → Bool) (c : Config) (e : Env) where
  pub serve-Reach :
      (r : Request) (w : World)
      → IsConcurrent e
      → IsValid r
      → IsPriced w
      → Reach w (serve matches c e r w)
  unfolding serve IsValid
  serve-Reach (create user r) w s v p = create_trip-TakesSteps c e s w user r w here
  serve-Reach (get user id) w s v p = get_trip-TakesSteps c e s w user id w here
  serve-Reach (offer user id price) w s v p = make_offer-TakesSteps c e s w user id price v w here
  serve-Reach (accept user id o) w s v p = accept_offer-TakesSteps c e s w user id o p w here
  serve-Reach (reject user id o) w s v p = reject_offer-TakesSteps c e s w user id o w here
  serve-Reach (confirm user id pin) w s v p =
      confirm_pickup-TakesSteps c e s w matches user id pin w here
  serve-Reach (complete user id) w s v p = complete_trip-TakesSteps c e s w user id w here
  serve-Reach (cancel user id reason) w s v p = cancel_trip-TakesSteps c e s w user id reason w here

  -- Whatever it replies and whatever steps the other requests take at its pauses, a request
  -- leaves the ledger balanced and the offers' prices amounts, if they were and a price that it
  -- offers is an amount.
  pub serve-IsLedger :
      (r : Request) (w : World)
      → IsConcurrent e
      → IsValid r
      → IsLedger w.db
      → IsPriced w
      → IsLedger (serve matches c e r w).db × IsPriced (serve matches c e r w)
  serve-IsLedger r w s v b p =
      let reached = serve-Reach r w s v p in (Reach-IsLedger reached b, Reach-IsPriced reached p)

  -- A trip that is there before a request is there after it, its status is reached along the
  -- arrows of the diagram in its model, and from its match on its driver and its agreed price
  -- never change and it is never requested again, whatever steps the other requests take at the
  -- pauses, where the offers' prices and a price that is offered are amounts.
  pub serve-Follows :
      (r : Request) (w : World) (j : RowId) (t : Trip)
      → IsConcurrent e
      → IsValid r
      → IsPriced w
      → find_trip j w.trips ≡ some t
      → (u : Trip) × (find_trip j (serve matches c e r w).trips ≡ some u) × Follows t u
  serve-Follows r w j t s v p row = Reach-Continues j t (serve-Reach r w s v p) row
