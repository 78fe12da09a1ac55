-- ===== src/TripService/Steps.antt =====
-- The database steps of which the requests of internal/service/trip_service.go are made, and what
-- any sequence of them keeps.
use ridematch.Prelude.{ℕ, ◌≡◌, true, none, some, String, [], ◌∷◌, ◌==◌, All, Bool, not, ◌&&◌, arith}
use ridematch.Prelude.Int.{ℤ}
use ridematch.Prelude.Word.{IsAmount}
use ridematch.Prelude.Table.{save, All-update_by, All-update_where}
use ridematch.Ledger.Models.{RowId, Time}
use ridematch.Ledger.Store.{Draw}
use ridematch.Ledger.Balanced.{IsLedger}
use ridematch.EscrowService.{ensure_can_afford, hold, refund, on_trip_completed}
use ridematch.EscrowService.Fares.{
  ensure_can_afford-KeepsLedger, hold-KeepsLedger, refund-KeepsLedger,
  on_trip_completed-KeepsLedger,
}
use ridematch.Trips.{Trip, find_trip, is_open}
use ridematch.Trips.Moves.{Move, try_move, run_moves}
use ridematch.Trips.Lifecycle.{Follows, run_moves-Follows, Follows-refl, Follows-trans}
use ridematch.Trips.Offers.{
  TripOffer, OfferStatus, with_status, is_pending_on, swap_offer, swap_offer_status,
  supersede_other_pending, withdraw_all_pending,
}
use ridematch.TripService.{World, set_trips, set_offers, set_db, Env}

-- One step, with what the requests give it: new trips are open, and prices are amounts.
pub data Step : World → World → Type 0 where
  move_trip : (w : World) (id : RowId) (m : Move) → Step w (set_trips (try_move id m w.trips).1 w)
  add_trip :
      (w : World) (t : Trip)
      → find_trip t.id w.trips ≡ none
      → is_open t ≡ true
      → Step w (set_trips (t ∷ w.trips) w)
  move_offer :
      (w : World) (id : RowId) (from to : OfferStatus)
      → Step w (set_offers (swap_offer_status id from to w.offers).1 w)
  supersede :
      (w : World) (trip id : RowId)
      → Step w (set_offers (supersede_other_pending trip id w.offers) w)
  withdraw : (w : World) (trip : RowId) → Step w (set_offers (withdraw_all_pending trip w.offers) w)
  save_offer :
      (w : World) (o : TripOffer)
      → IsAmount o.price_kobo
      → Step w (set_offers (save TripOffer.id o w.offers) w)
  add_offer :
      (w : World) (o : TripOffer) → IsAmount o.price_kobo → Step w (set_offers (o ∷ w.offers) w)
  check_wallet :
      (w : World) (required : Bool) (d : Draw) (who : RowId) (price : ℤ)
      → Step w (set_db (ensure_can_afford required d who price w.db).1 w)
  take_fare :
      (w : World) (required : Bool) (d : Draw) (t : Trip) (payee who : RowId) (price : ℤ)
      → IsAmount price
      → Step w (set_db (hold required d t payee who price w.db).1 w)
  return_fare :
      (w : World) (d : Draw) (trip : RowId) (note : String)
      → Step w (set_db (refund d trip note w.db).1 w)
  schedule_release :
      (w : World) (required : Bool) (wait : Time) (d : Draw) (trip : RowId)
      → Step w (set_db (on_trip_completed required wait d trip w.db).1 w)

-- Any number of steps.
pub data Reach (w : World) : World → Type 0 where
  here : Reach w w
  next : {u v : World} → Reach w u → Step u v → Reach w v

pub Reach-trans : {u v w : World} → Reach u v → Reach v w → Reach u w
Reach-trans r here = r
Reach-trans r (next s st) = next (Reach-trans r s) st

-- The other requests, at any pause, take steps too.
abbrev pub IsConcurrent : Env → Type 0
IsConcurrent e = (n : ℕ) (w : World) → Reach w (e.others n w)

abbrev pub IsPriced : World → Type 0
IsPriced w = All (λ o. IsAmount o.price_kobo) w.offers

swap_offer-price :
    (from to : OfferStatus) (o : TripOffer) → (swap_offer from to o).price_kobo ≡ o.price_kobo
swap_offer-price from to o = ground arith

Step-IsPriced : {u v : World} → Step u v → IsPriced u → IsPriced v
unfolding swap_offer_status supersede_other_pending withdraw_all_pending
Step-IsPriced (move_trip w id m) p = p
Step-IsPriced (add_trip w t fresh open_) p = p
Step-IsPriced (move_offer w id from to) p =
    All-update_by TripOffer.id _ id (swap_offer from to) w.offers
      (λ o a _. rw (swap_offer-price from to o) a) p
Step-IsPriced (supersede w trip id) p =
    All-update_where (λ o. is_pending_on trip o && not (o.id == id))
      (with_status OfferStatus.superseded) _ w.offers (λ o a. a) p
Step-IsPriced (withdraw w trip) p =
    All-update_where (is_pending_on trip) (with_status OfferStatus.withdrawn) _ w.offers (λ o a. a)
      p
Step-IsPriced (save_offer w o a) p =
    All-update_by TripOffer.id _ o.id (λ _. o) w.offers (λ _ _ _. a) p
Step-IsPriced (add_offer w o a) p = (a, p)
Step-IsPriced (check_wallet w required d who price) p = p
Step-IsPriced (take_fare w required d t payee who price a) p = p
Step-IsPriced (return_fare w d trip note) p = p
Step-IsPriced (schedule_release w required wait d trip) p = p

pub Reach-IsPriced : {u v : World} → Reach u v → IsPriced u → IsPriced v
Reach-IsPriced here p = p
Reach-IsPriced (next r s) p = Step-IsPriced s (Reach-IsPriced r p)

Step-IsLedger : {u v : World} → Step u v → IsLedger u.db → IsLedger v.db
Step-IsLedger (move_trip w id m) b = b
Step-IsLedger (add_trip w t fresh open_) b = b
Step-IsLedger (move_offer w id from to) b = b
Step-IsLedger (supersede w trip id) b = b
Step-IsLedger (withdraw w trip) b = b
Step-IsLedger (save_offer w o a) b = b
Step-IsLedger (add_offer w o a) b = b
Step-IsLedger (check_wallet w required d who price) b =
    ensure_can_afford-KeepsLedger required d who price w.db b
Step-IsLedger (take_fare w required d t payee who price a) b =
    hold-KeepsLedger required d t payee who price a w.db b
Step-IsLedger (return_fare w d trip note) b = refund-KeepsLedger d trip note w.db b
Step-IsLedger (schedule_release w required wait d trip) b =
    on_trip_completed-KeepsLedger required wait d trip w.db b

pub Reach-IsLedger : {u v : World} → Reach u v → IsLedger u.db → IsLedger v.db
Reach-IsLedger here b = b
Reach-IsLedger (next r s) b = Step-IsLedger s (Reach-IsLedger r b)

-- A trip that is there, and what it is afterwards.
abbrev pub Continues : RowId → Trip → World → Type 0
Continues j t w = (u : Trip) × (find_trip j w.trips ≡ some u) × Follows t u

Step-Continues : {u v : World} (j : RowId) (t : Trip) → Step u v → Continues j t u → Continues j t v
unfolding run_moves
Step-Continues j t (move_trip w id m) (u, row, f) =
    let (v, there, g) = run_moves-Follows ((id, m) ∷ []) j w.trips u row in
    (v, there, Follows-trans t u v f g)
Step-Continues j t (add_trip w t' fresh open_) (u, row, f) = (u, ground arith, f)
Step-Continues j t (move_offer w id from to) k = k
Step-Continues j t (supersede w trip id) k = k
Step-Continues j t (withdraw w trip) k = k
Step-Continues j t (save_offer w o a) k = k
Step-Continues j t (add_offer w o a) k = k
Step-Continues j t (check_wallet w required d who price) k = k
Step-Continues j t (take_fare w required d t' payee who price a) k = k
Step-Continues j t (return_fare w d trip note) k = k
Step-Continues j t (schedule_release w required wait d trip) k = k

pub Reach-Continues :
    {u v : World} (j : RowId) (t : Trip)
    → Reach u v
    → find_trip j u.trips ≡ some t
    → Continues j t v
Reach-Continues j t here row = (t, row, Follows-refl t)
Reach-Continues j t (next r s) row = Step-Continues j t s (Reach-Continues j t r row)
