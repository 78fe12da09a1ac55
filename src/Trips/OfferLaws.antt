-- ===== src/Trips/OfferLaws.antt =====
-- Accepting one of a trip's offers: internal/repository/trip_offer_repository.go.
use ridematch.Prelude.{
  ◌≡◌, refl, true, false, inl, inr, some, List, [], ◌∷◌, ◌==◌, arith, Bool-cases, All,
}
use ridematch.Prelude.Table.{find_by, find_by-update_by, update_by, IsKeyed, IsKeyed-update_by}
use ridematch.Ledger.Models.{RowId}
use ridematch.Trips.Offers.{
  OfferStatus, TripOffer, is_pending_on, supersede_other_pending, withdraw_all_pending,
  pending_driver_ids, swap_offer, swap_offer_status,
}

-- No offer of the trip waits for an answer.
abbrev pub IsClosed : RowId → List TripOffer → Type 0
IsClosed trip = All (λ o. is_pending_on trip o ≡ false)

IsClosed-pending_driver_ids :
    (trip : RowId) (os : List TripOffer) → IsClosed trip os → pending_driver_ids trip os ≡ []
unfolding pending_driver_ids
IsClosed-pending_driver_ids trip [] c = refl
IsClosed-pending_driver_ids trip (o ∷ os) c =
    ground (arith, IsClosed-pending_driver_ids trip os c.1)

-- After all pending offers on a trip are withdrawn, no driver has a pending offer on it.
pub withdraw_all_pending-none :
    (trip : RowId) (os : List TripOffer)
    → pending_driver_ids trip (withdraw_all_pending trip os) ≡ []
unfolding withdraw_all_pending pending_driver_ids
withdraw_all_pending-none trip [] = refl
withdraw_all_pending-none trip (o ∷ os) = ground (arith, withdraw_all_pending-none trip os)

-- The others are superseded: what waits can only be the accepted offer itself.
supersede-none :
    (trip id : RowId) (os : List TripOffer)
    → ((o : TripOffer) → find_by TripOffer.id id os ≡ some o → is_pending_on trip o ≡ false)
    → IsKeyed TripOffer.id os
    → pending_driver_ids trip (supersede_other_pending trip id os) ≡ []
unfolding supersede_other_pending pending_driver_ids
supersede-none trip id [] h u = refl
supersede-none trip id (o ∷ os) h u = elim (Bool-cases (o.id == id)) [
  | inl e ↦
      let mine : is_pending_on trip o ≡ false = h o (rw e refl) in
      ground (arith, mine, supersede-none trip id os (λ x k. ground (arith, u.0)) u.1)
  | inr e ↦ ground (arith, supersede-none trip id os (λ x k. h x (rw e k)) u.1)
]

swap_offer-id :
    (id : RowId) (o : TripOffer)
    → o.id ≡ id
    → (swap_offer OfferStatus.pending OfferStatus.accepted o).id ≡ id
swap_offer-id id o e = ground arith

-- Where the ids of the offers are unique, once an offer has been claimed by the conditional
-- update from pending to accepted and the other pending offers of a trip have been superseded, no
-- driver has a pending offer on that trip.
pub supersede_other_pending-closes :
    (trip id : RowId) (os : List TripOffer)
    → IsKeyed TripOffer.id os
    → (swap_offer_status id OfferStatus.pending OfferStatus.accepted os).0 ≡ true
    → pending_driver_ids trip (
        supersede_other_pending trip id
          (swap_offer_status id OfferStatus.pending OfferStatus.accepted os).1)
      ≡ []
unfolding swap_offer_status
supersede_other_pending-closes trip id os u claimed =
    supersede-none trip id
      (update_by TripOffer.id id (swap_offer OfferStatus.pending OfferStatus.accepted) os)
      (λ o found. ground (
        arith,
        find_by-update_by TripOffer.id id id (swap_offer OfferStatus.pending OfferStatus.accepted)
            os (swap_offer-id id),
      ))
      (IsKeyed-update_by TripOffer.id id (swap_offer OfferStatus.pending OfferStatus.accepted) os
        (swap_offer-id id) u)
