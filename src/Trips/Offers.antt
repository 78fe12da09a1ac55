-- ===== src/Trips/Offers.antt =====
-- Drivers' offers on a trip: internal/models/trip_offer.go and
-- internal/repository/trip_offer_repository.go.
use ridematch.Prelude.{
  ℕ, Bool, false, not, Option, none, some, List, [], ◌∷◌, ◌&&◌, ◌==◌, leb, if◌then◌else◌,
}
use ridematch.Prelude.Int.{ℤ}
use ridematch.Prelude.Table.{find_by, find_where, update_by, update_where}
use ridematch.Ledger.Models.{RowId, Time}

pub data OfferStatus : Type 0 where
  pending accepted rejected superseded withdrawn : OfferStatus

abbrev pub offer_code : OfferStatus → ℕ
offer_code OfferStatus.pending = 0
offer_code OfferStatus.accepted = 1
offer_code OfferStatus.rejected = 2
offer_code OfferStatus.superseded = 3
offer_code OfferStatus.withdrawn = 4

abbrev pub same_offer_status : OfferStatus → OfferStatus → Bool
same_offer_status a b = offer_code a == offer_code b

pub record TripOffer : Type 0 where
  pub id : RowId
  pub created_at : Time
  pub trip_id : RowId
  pub driver_id : RowId
  pub price_kobo : ℤ
  pub status : OfferStatus

abbrev pub is_pending_on : RowId → TripOffer → Bool
is_pending_on trip o = (o.trip_id == trip) && same_offer_status o.status OfferStatus.pending

-- `FindPendingByTripAndDriver`
unfoldable pub find_pending_by_trip_and_driver : RowId → RowId → List TripOffer → Option TripOffer
find_pending_by_trip_and_driver trip who =
    find_where (λ o. is_pending_on trip o && (o.driver_id == who))

-- `FindPendingByTrip`: the oldest first.
abbrev by_created_at : TripOffer → List TripOffer → List TripOffer
by_created_at o [] = o ∷ []
by_created_at o (x ∷ xs) =
    let rest = by_created_at o xs in if leb o.created_at x.created_at then o ∷ x ∷ xs else x ∷ rest

unfoldable pub find_pending_by_trip : RowId → List TripOffer → List TripOffer
find_pending_by_trip trip [] = []
find_pending_by_trip trip (o ∷ os) =
    let rest = find_pending_by_trip trip os in
    if is_pending_on trip o then by_created_at o rest else rest

abbrev pub with_status : OfferStatus → TripOffer → TripOffer
with_status s o = record o { status = s }

-- `SupersedeOtherPending`
unfoldable pub supersede_other_pending : RowId → RowId → List TripOffer → List TripOffer
supersede_other_pending trip accepted_id =
    update_where (λ o. is_pending_on trip o && not (o.id == accepted_id))
      (with_status OfferStatus.superseded)

-- `WithdrawAllPending`
unfoldable pub withdraw_all_pending : RowId → List TripOffer → List TripOffer
withdraw_all_pending trip = update_where (is_pending_on trip) (with_status OfferStatus.withdrawn)

-- `PendingDriverIDs`
unfoldable pub pending_driver_ids : RowId → List TripOffer → List RowId
pending_driver_ids trip [] = []
pending_driver_ids trip (o ∷ os) =
    let rest = pending_driver_ids trip os in
    if is_pending_on trip o then o.driver_id ∷ rest else rest

abbrev pub swap_offer : OfferStatus → OfferStatus → TripOffer → TripOffer
swap_offer expected new o = if same_offer_status o.status expected then with_status new o else o

abbrev pub offer_has : OfferStatus → Option TripOffer → Bool
offer_has expected none = false
offer_has expected (some o) = same_offer_status o.status expected

-- `CompareAndSwapStatus`
unfoldable pub swap_offer_status :
    RowId → OfferStatus → OfferStatus → List TripOffer → Bool × List TripOffer
swap_offer_status id expected new os = (
  offer_has expected (find_by TripOffer.id id os),
  update_by TripOffer.id id (swap_offer expected new) os,
)
