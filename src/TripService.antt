-- ===== src/TripService.antt =====
-- The trip service: internal/service/trip_service.go, with internal/models/driver_profile.go. A
-- request is a row of database steps, and between two of them the other requests may do theirs.
use ridematch.Prelude.{
  ℕ, ◌+◌, Bool, true, false, not, Option, none, some, String, List, [], ◌∷◌, ◌&&◌, ◌||◌, ◌==◌, ltb,
  if◌then◌else◌,
}
use ridematch.Prelude.Table.{find_where, find_by}
use ridematch.Ledger.Models.{RowId, Time}
use ridematch.Ledger.Store.{Db, Draw}
use ridematch.EscrowService.{Refusal, Answer, Service, done, refused}
use ridematch.Trips.{VehicleType, TripStatus, Trip, is_open, find_trip, compare_and_swap_status}
use ridematch.Trips.Moves.{set_expired}
use ridematch.Trips.Offers.{TripOffer, withdraw_all_pending}
pub mod Offering
pub mod Matching
pub mod Riding
pub mod Steps
pub mod Stepwise
pub mod Chains
pub mod Runs
pub mod MatchRuns
pub mod RideRuns
pub mod Requests
pub mod Guards
pub mod Alone
pub mod Cancelled
pub mod Refused
pub mod Restored
mod Examples

pub data VerificationStatus : Type 0 where
  pending approved rejected : VerificationStatus

-- `DriverProfile`. The rating is the bit pattern of its float64, which nothing here reads.
pub record DriverProfile : Type 0 where
  pub id : RowId
  pub user_id : RowId
  pub vehicle_type : VehicleType
  pub plate_number : String
  pub vehicle_photo_url : String
  pub vehicle_make_id : Option RowId
  pub vehicle_model_id : Option RowId
  pub vehicle_make_name : String
  pub vehicle_model_name : String
  pub vehicle_year : Option ℕ
  pub vehicle_category : String
  pub id_document_url : String
  pub verification_status : VerificationStatus
  pub verification_note : String
  pub subscription_active_until : Option Time
  pub is_online : Bool
  pub rating_average : ℕ
  pub rating_count : ℕ

-- `IsApproved`
abbrev pub is_approved : DriverProfile → Bool
is_approved p = elim p.verification_status [ VerificationStatus.approved ↦ true | _ ↦ false ]

abbrev is_after : Time → Option Time → Bool
is_after now none = false
is_after now (some until) = ltb now until

-- `HasActiveSubscription`
abbrev pub has_active_subscription : Time → DriverProfile → Bool
has_active_subscription now p = is_after now p.subscription_active_until

-- The tables that the service works on.
pub record World : Type 0 where
  pub trips : List Trip
  pub offers : List TripOffer
  pub drivers : List DriverProfile
  pub db : Db

abbrev pub set_trips : List Trip → World → World
set_trips ts w = record w { trips = ts }

abbrev pub set_offers : List TripOffer → World → World
set_offers os w = record w { offers = os }

abbrev pub set_db : Db → World → World
set_db db w = record w { db = db }

-- The errors of the service, those of the escrow service that it passes on, and a failed database
-- call.
pub data TripRefusal : Type 0 where
  trip_not_found not_trip_owner trip_already_active trip_not_open : TripRefusal
  offer_not_found offer_not_pending subscription_inactive not_matched_driver : TripRefusal
  trip_not_matched invalid_pickup_pin trip_not_picked_up trip_not_cancelable : TripRefusal
  driver_profile_not_found driver_not_approved not_online : TripRefusal
  pin_not_generated repository_failed : TripRefusal
  payment : Refusal → TripRefusal

pub data Reply (A : Type 0) : Type 0 where
  granted : A → Reply A
  denied : TripRefusal → Reply A

-- A request: what it replies, and the tables as it leaves them. Nothing is undone on an error.
abbrev pub Session : Type 0 → Type 0
Session A = World → Reply A × World

abbrev pub grant : {A : Type 0} → A → Session A
grant a w = (granted a, w)

abbrev pub deny : {A : Type 0} → TripRefusal → Session A
deny why w = (denied why, w)

abbrev pub deny_if : Bool → TripRefusal → Session (Unit {0})
deny_if wrong why w = (if wrong then denied why else granted tt, w)

infixl 5 ◌>>=◌ ◌>>◌
unfoldable pub ◌>>=◌ : {A B : Type 0} → Session A → (A → Session B) → Session B
◌>>=◌ s next w =
    let (reply, left) = s w in
    elim reply [ granted a ↦ next a left | denied why ↦ (denied why, left) ]

abbrev pub ◌>>◌ : {A B : Type 0} → Session A → Session B → Session B
s >> next = s >>= λ _. next

-- The row that a look-up finds, or the error for a missing one.
abbrev pub found : {A : Type 0} → TripRefusal → Option A → Reply A
found missing none = denied missing
found missing (some a) = granted a

abbrev pub load : {A : Type 0} → (World → Option A) → TripRefusal → Session A
load look missing w = (found missing (look w), w)

abbrev pub look : {A : Type 0} → (World → A) → Session A
look f w = (granted (f w), w)

abbrev pub change : (World → World) → Session (Unit {0})
change f w = (granted tt, f w)

-- A conditional update of the trips or of the offers, and whether it met a row.
abbrev pub swap_trips : (List Trip → Bool × List Trip) → Session Bool
swap_trips f w = (granted (f w.trips).0, set_trips (f w.trips).1 w)

abbrev pub swap_offers : (List TripOffer → Bool × List TripOffer) → Session Bool
swap_offers f w = (granted (f w.offers).0, set_offers (f w.offers).1 w)

-- A call of the escrow service.
abbrev pub reply_of : {A : Type 0} → Answer A → Reply A
reply_of (done a) = granted a
reply_of (refused why) = denied (payment why)

abbrev pub pay : {A : Type 0} → Service A → Session A
pay s w = (reply_of (s w.db).0, set_db (s w.db).1 w)

-- The settings of the service, `escrow_required` and `auto_release` those of its escrow service.
pub record Config : Type 0 where
  pub escrow_required : Bool
  pub auto_release : Time
  pub expiry_after : Time

-- What a request meets: what the other requests do at its n-th pause, the clock, a draw for each
-- call of the ledger, and the pickup PIN with its hash, if `generatePickupPIN` makes one.
pub record Env : Type 0 where
  pub others : ℕ → World → World
  pub now : Time
  pub draws : ℕ → Draw
  pub pin : Option (String × String)

abbrev pub pause : Env → ℕ → Session (Unit {0})
pause e n = change (e.others n)

abbrev pub find_driver : RowId → World → Option DriverProfile
find_driver id w = find_by DriverProfile.id id w.drivers

abbrev pub find_driver_by_user : RowId → World → Option DriverProfile
find_driver_by_user user w = find_where (λ p. p.user_id == user) w.drivers

abbrev pub load_trip : RowId → Session Trip
load_trip id = load (λ w. find_trip id w.trips) trip_not_found

-- `trip.Driver`, which `FindByID` loads with the trip.
abbrev pub driver_of : Trip → World → Option DriverProfile
driver_of t w = elim t.driver_id as (λ _. Option DriverProfile) [
  | none ↦ none
  | some id ↦ find_driver id w
]

abbrev pub is_user : RowId → Option DriverProfile → Bool
is_user user none = false
is_user user (some p) = p.user_id == user

-- `time.Since(trip.CreatedAt) > s.expiryAfter`, for a trip of the past.
abbrev pub is_overdue : Config → Time → Trip → Bool
is_overdue c now t = is_open t && ltb (t.created_at + c.expiry_after) now
