-- ===== src/TripService/Restored.antt =====
-- What a refused `AcceptOffer` of internal/service/trip_service.go leaves behind.
use ridematch.Prelude.{
  ◌≡◌, refl, ap, ◌∙◌, sym, Bool, true, false, inl, inr, Option, none, some, String, List, [], ◌∷◌,
  ◌==◌, arith, Bool-cases,
}
use ridematch.Prelude.Table.{find_by, find_by-key}
use ridematch.Ledger.Models.{RowId}
use ridematch.Ledger.Store.{Db}
use ridematch.EscrowService.{Answer}
use ridematch.EscrowService.Fares.{refund-left}
use ridematch.Trips.{Trip, TripStatus, find_trip, compare_and_swap_status, is_open}
use ridematch.Trips.Moves.{Move, set_matched, try_move, updates}
use ridematch.Trips.Lifecycle.{try_move-row}
use ridematch.Trips.Offers.{
  TripOffer, OfferStatus, same_offer_status, swap_offer_status, supersede_other_pending,
}
use ridematch.TripService.{
  World, set_trips, set_offers, set_db, TripRefusal, Reply, granted, denied, found, change,
  reply_of, Config, Env, DriverProfile, repository_failed, pin_not_generated,
}
use ridematch.TripService.Matching.{
  undo_hold, roll_back, finish_match, match_trip, claim_offer, accept_offer,
}
use ridematch.TripService.Chains.{
  IsAlone, bind-step, bind-stop, pause-step, swap_trips-step, swap_offers-step,
}
use ridematch.TripService.Refused.{
  Restored, same_run, load-Restored, deny_unless-Restored, deny_if-Restored, pause-Restored,
  pay-Restored, look-Restored, granted_not_denied,
}

pending_of :
    (st : OfferStatus) → same_offer_status st OfferStatus.pending ≡ true → st ≡ OfferStatus.pending
pending_of st h = ground arith

own_offer :
    (id : RowId) (w : World) (o : TripOffer)
    → find_by TripOffer.id id w.offers ≡ some o
    → find_by TripOffer.id o.id w.offers ≡ some o
own_offer id w o row = simp (find_by-key TripOffer.id id w.offers o row) row

-- Claiming an offer and giving the claim up again.
unclaim-claim :
    (id : RowId) (o : TripOffer) (os : List TripOffer)
    → find_by TripOffer.id id os ≡ some o
    → same_offer_status o.status OfferStatus.pending ≡ true
    → (swap_offer_status id OfferStatus.accepted OfferStatus.pending
        (swap_offer_status id OfferStatus.pending OfferStatus.accepted os).1).1
      ≡ os
unfolding swap_offer_status
unclaim-claim id o [] row open_ = cc
unclaim-claim id o (x ∷ xs) row open_ = elim (Bool-cases (x.id == id)) [
  | inl e ↦
      let first : x ≡ o = ground arith in
      let same_id : (o.id == id) ≡ true = rw first at e in
      let is_pending : o.status ≡ OfferStatus.pending = pending_of o.status open_ in
      rw (first, open_, same_id, same_id)
        (ap (λ st. record o { status = st } ∷ xs) (sym is_pending))
  | inr e ↦ rw (e, e) (ap (λ ys. x ∷ ys) (unclaim-claim id o xs (rw e at row) open_))
]

undo_hold-alone :
    (e : Env) (alone : IsAlone e) (taken : Bool) (id : RowId) (w : World)
    → (db : Db) × (undo_hold e taken id w ≡ (granted tt, set_db db w))
unfolding undo_hold
undo_hold-alone e alone false id w = (w.db, refl)
undo_hold-alone e alone true id w = (
  _,
  pause-step e 8 _ w alone
      ∙ ap (λ (r : Answer (Unit {0}) × Db). (reply_of r.0, set_db r.1 w))
          (refund-left (e.draws 1) id "match did not complete" w.db),
)

module _ (e : Env) (alone : IsAlone e) where
  roll_back-alone :
      (taken : Bool) (id offer : RowId) (why : TripRefusal) (w : World)
      → (db : Db) × (roll_back e taken id offer why w ≡ (
        denied why,
        set_offers
            (swap_offer_status offer OfferStatus.accepted OfferStatus.pending w.offers).1
            (set_db db w),
      ))
  unfolding roll_back
  roll_back-alone taken id offer why w =
      let (db, undone) = undo_hold-alone e alone taken id w in
      (
        db,
        bind-step (undo_hold e taken id) _ tt w (set_db db w) undone
            ∙ pause-step e 5 _ (set_db db w) alone
            ∙ swap_offers-step (swap_offer_status offer OfferStatus.accepted OfferStatus.pending) _
                (set_db db w) _ refl,
      )

  module _ (id : RowId) (o : TripOffer) (p : DriverProfile) (t : Trip) (os : List TripOffer)
      (w : World) (row : find_trip id w.trips ≡ some t) (open_trip : is_open t ≡ true)
      (claimed : (swap_offer_status o.id OfferStatus.accepted OfferStatus.pending w.offers).1
        ≡ os) where
    matched_row :
        (hash : String)
        → find_trip id
            (compare_and_swap_status id TripStatus.requested
              (set_matched p.id o.price_kobo hash e.now)
              w.trips).1
          ≡ some (set_matched p.id o.price_kobo hash e.now t)
    unfolding try_move updates
    matched_row hash =
        try_move-row id (Move.match p.id o.price_kobo hash e.now) w.trips t row open_trip

    match_trip-made :
        (taken : Bool) (pin hash : String)
        → (match_trip e taken id o p (some (pin, hash)) w).0
          ≡ granted (set_matched p.id o.price_kobo hash e.now t, pin)
    unfolding match_trip compare_and_swap_status
    match_trip-made taken pin hash =
        let out = set_matched p.id o.price_kobo hash e.now t in
        let cas =
          compare_and_swap_status id TripStatus.requested
            (set_matched p.id o.price_kobo hash e.now) in
        let v = set_trips (cas w.trips).1 w in
        let z = set_offers (supersede_other_pending id o.id v.offers) v in
        let finished : finish_match e id o.id v ≡ (granted out, z) =
          pause-step e 6 _ v alone
          ∙ bind-step (change (λ w. set_offers (supersede_other_pending id o.id w.offers) w)) _ tt v
              z refl
          ∙ pause-step e 7 _ z alone
          ∙ ap (λ (x : Option Trip). (found repository_failed x, z)) (matched_row hash) in
        ap (λ (r : Reply (Trip × String) × World). r.0)
          (pause-step e 4 _ w alone
            ∙ swap_trips-step cas _ w true (rw (row, open_trip) refl)
            ∙ bind-step (finish_match e id o.id) _ out v z finished)

    match_trip-Restored :
        (taken : Bool) (pin : Option (String × String))
        → Restored (set_offers os w) (match_trip e taken id o p pin w)
    unfolding match_trip
    match_trip-Restored taken none why h =
        let (db, back) = roll_back-alone taken id o.id pin_not_generated w in
        rw (bind-stop (roll_back e taken id o.id pin_not_generated) _ pin_not_generated w _ back)
          (refl, claimed)
    match_trip-Restored taken (some (pin, hash)) why h =
        absurd (granted_not_denied _ why (sym (match_trip-made taken pin hash) ∙ h))

  claim_offer-Restored :
      (id : RowId) (o : TripOffer) (p : DriverProfile) (t : Trip) (taken : Bool) (w : World)
      → find_trip id w.trips ≡ some t
      → is_open t ≡ true
      → find_by TripOffer.id o.id w.offers ≡ some o
      → same_offer_status o.status OfferStatus.pending ≡ true
      → Restored w (claim_offer e id o p taken w)
  unfolding claim_offer swap_offer_status
  claim_offer-Restored id o p t taken w row open_trip offer_row open_offer =
      let cas = swap_offer_status o.id OfferStatus.pending OfferStatus.accepted in
      same_run w _ (match_trip e taken id o p e.pin (set_offers (cas w.offers).1 w))
        (pause-step e 3 _ w alone ∙ swap_offers-step cas _ w true (rw (offer_row, open_offer) refl))
        (match_trip-Restored id o p t w.offers (set_offers (cas w.offers).1 w) row open_trip
          (unclaim-claim o.id o w.offers offer_row open_offer) taken e.pin)

-- Where nothing interleaves, an `AcceptOffer` that is refused, for whatever reason, leaves every
-- trip and every offer as it was: an offer that it has claimed is pending again.
pub accept_offer-restores :
    (c : Config) (e : Env) (user id offer : RowId) (w : World) (why : TripRefusal)
    → IsAlone e
    → (accept_offer c e user id offer w).0 ≡ denied why
    → ((accept_offer c e user id offer w).1.trips ≡ w.trips)
      × ((accept_offer c e user id offer w).1.offers ≡ w.offers)
unfolding accept_offer
accept_offer-restores c e user id offer w why alone =
    load-Restored w _ _ _
      (λ t row. deny_unless-Restored w _ _ _ (λ _. deny_unless-Restored w _ _ _ (λ open_trip.
        pause-Restored w e 0 _ alone (
          load-Restored w _ _ _ (λ o offer_row. deny_unless-Restored w _ _ _ (λ _.
            deny_unless-Restored w _ _ _ (λ open_offer. load-Restored w _ _ _ (λ p _.
              deny_unless-Restored w _ _ _ (λ _. pause-Restored w e 1 _ alone (
                look-Restored w _ _ (
                  deny_if-Restored w _ _ _ (
                    pause-Restored w e 2 _ alone (
                      pay-Restored w _ _ (λ taken db.
                        claim_offer-Restored e alone id o p t taken (set_db db w) row open_trip
                          (own_offer offer w o offer_row) open_offer))))))))))))))
      why
