-- ===== src/Trips.antt =====
-- Trips and their offers: internal/models/trip.go, internal/models/trip_offer.go and the writing
-- and look-up methods of internal/repository/trip_repository.go.
use ridematch.Prelude.{
  ℕ, Bool, true, false, Option, none, some, String, List, [], ◌∷◌, ◌&&◌, ◌||◌, ◌==◌, leb,
  if◌then◌else◌,
}
use ridematch.Prelude.Int.{ℤ, pos}
use ridematch.Prelude.Table.{find_latest, find_by, update_by, save, sum_by, count_where}
use ridematch.Ledger.Models.{RowId, Time}
pub mod Moves
pub mod Lifecycle
pub mod Offers
pub mod OfferLaws
mod Examples

pub data TripStatus : Type 0 where
  requested matched picked_up completed cancelled expired : TripStatus

pub data CancelledBy : Type 0 where
  passenger driver system : CancelledBy

pub data VehicleType : Type 0 where
  car okada keke bus : VehicleType

abbrev pub status_code : TripStatus → ℕ
status_code TripStatus.requested = 0
status_code TripStatus.matched = 1
status_code TripStatus.picked_up = 2
status_code TripStatus.completed = 3
status_code TripStatus.cancelled = 4
status_code TripStatus.expired = 5

abbrev pub same_status : TripStatus → TripStatus → Bool
same_status a b = status_code a == status_code b

-- `Trip`. A coordinate is the bit pattern of its float64, which nothing here reads.
pub record Trip : Type 0 where
  pub id : RowId
  pub created_at : Time
  pub passenger_id : RowId
  pub vehicle_type : VehicleType
  pub status : TripStatus
  pub pickup_lat : ℕ
  pub pickup_lng : ℕ
  pub pickup_address : String
  pub destination_lat : ℕ
  pub destination_lng : ℕ
  pub destination_address : String
  pub offered_price_kobo : ℤ
  pub agreed_price_kobo : Option ℤ
  pub driver_id : Option RowId
  pub pickup_pin_hash : String
  pub matched_at : Option Time
  pub pickup_confirmed_at : Option Time
  pub completed_at : Option Time
  pub cancelled_at : Option Time
  pub cancelled_by : Option CancelledBy
  pub cancel_reason : String

-- `IsOpen`
abbrev pub is_open : Trip → Bool
is_open t = same_status t.status TripStatus.requested

-- `FindByID`
abbrev pub find_trip : RowId → List Trip → Option Trip
find_trip id = find_by Trip.id id

abbrev pub vehicle_code : VehicleType → ℕ
vehicle_code VehicleType.car = 0
vehicle_code VehicleType.okada = 1
vehicle_code VehicleType.keke = 2
vehicle_code VehicleType.bus = 3

-- `Update`
unfoldable pub update_trip : Trip → List Trip → List Trip
update_trip t = save Trip.id t

-- `CompareAndSwapStatus`: one conditional update. Its updates have a status, so they are given as
-- the function that writes them.
abbrev pub swap_row : TripStatus → (Trip → Trip) → Trip → Trip
swap_row expected updates t = if same_status t.status expected then updates t else t

abbrev pub has_status : TripStatus → Option Trip → Bool
has_status expected none = false
has_status expected (some t) = same_status t.status expected

unfoldable pub compare_and_swap_status :
    RowId → TripStatus → (Trip → Trip) → List Trip → Bool × List Trip
compare_and_swap_status id expected updates ts = (
  has_status expected (find_by Trip.id id ts),
  update_by Trip.id id (swap_row expected updates) ts,
)

abbrev pub is_underway : TripStatus → Bool
is_underway TripStatus.matched = true
is_underway TripStatus.picked_up = true
is_underway _ = false

abbrev pub is_active : TripStatus → Bool
is_active s = same_status s TripStatus.requested || is_underway s

abbrev pub drives : RowId → Trip → Bool
drives who t = names_driver t.driver_id
  where
    names_driver : Option RowId → Bool
    names_driver none = false
    names_driver (some d) = d == who

-- `FindActiveByPassenger`, `FindActiveByDriver`
abbrev pub find_active_by_passenger : RowId → List Trip → Option Trip
find_active_by_passenger who =
    find_latest Trip.created_at (λ t. (t.passenger_id == who) && is_active t.status)

abbrev pub find_active_by_driver : RowId → List Trip → Option Trip
find_active_by_driver who = find_latest Trip.created_at (λ t. drives who t && is_underway t.status)

abbrev pub amount_of : Option ℤ → ℤ
amount_of none = pos 0
amount_of (some a) = a

-- `completed_at >= ?`, which a missing time does not meet; without a bound, every row counts.
abbrev is_since : Option Time → Option Time → Bool
is_since none at = true
is_since (some bound) none = false
is_since (some bound) (some at) = leb bound at

abbrev earned : RowId → Option Time → Trip → Bool
earned who bound t =
    drives who t && (same_status t.status TripStatus.completed && is_since bound t.completed_at)

-- The two queries of `SumEarningsByDriver`: of all time, and since the start of the day.
unfoldable pub sum_earnings_by_driver : RowId → Option Time → List Trip → ℤ × ℕ
sum_earnings_by_driver who bound ts = (
  sum_by (λ t. if earned who bound t then amount_of t.agreed_price_kobo else pos 0) ts,
  count_where (earned who bound) ts,
)
