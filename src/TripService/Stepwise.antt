-- ===== src/TripService/Stepwise.antt =====
-- Every request of internal/service/trip_service.go is a row of database steps, whatever the other
-- requests do at its pauses.
use ridematch.Prelude.{ℕ, ◌≡◌, refl, Bool, true, false, Option, none, some, List, if◌then◌else◌}
use ridematch.Prelude.Word.{IsAmount}
use ridematch.Prelude.Table.{find_by, All-find_by}
use ridematch.Ledger.Models.{RowId}
use ridematch.EscrowService.{Service}
use ridematch.Trips.{Trip}
use ridematch.Trips.Offers.{TripOffer}
use ridematch.TripService.{
  World, set_trips, set_offers, set_db, TripRefusal, Reply, granted, denied, Session, ◌>>=◌, found,
  load, change, swap_trips, swap_offers, pay, Env, pause,
}
use ridematch.TripService.Steps.{
  Step, Reach, next, Reach-trans, IsConcurrent, IsPriced, Reach-IsPriced,
}

found-row :
    {A : Type 0} (o : Option A) (missing : TripRefusal) (a : A)
    → found missing o ≡ granted a
    → o ≡ some a
found-row none missing a h = cc
found-row (some x) missing a h = cc

-- A request that takes steps, from tables that steps have led to.
module _ (w0 : World) where
  abbrev pub TakesSteps : {A : Type 0} → Session A → Type 0
  TakesSteps s = (w : World) → Reach w0 w → Reach w0 (s w).1

  -- The rule for a chain: the rest may rely on what the first part has granted.
  pub given-TakesSteps :
      {A B : Type 0} (P : A → Type 0) (s : Session A) (rest : A → Session B)
      → ((w : World) → Reach w0 w → Reach w0 (s w).1 × ((a : A) → (s w).0 ≡ granted a → P a))
      → ((a : A) → P a → TakesSteps (rest a))
      → TakesSteps (s >>= rest)
  unfolding ◌>>=◌
  given-TakesSteps {A = A} {B = B} P s rest h k w r = go (s w) (h w r)
    where
      go :
          (x : Reply A × World)
          → Reach w0 x.1 × ((a : A) → x.0 ≡ granted a → P a)
          → Reach w0
              (elim x.0 as (λ _. Reply B × World) [
                | granted a ↦ rest a x.1
                | denied why ↦ (denied why, x.1)
              ]).1
      go (granted a, v) (q, p) = k a (p a refl) v q
      go (denied why, v) (q, p) = q

  pub bind-TakesSteps :
      {A B : Type 0} (s : Session A) (rest : A → Session B)
      → TakesSteps s
      → ((a : A) → TakesSteps (rest a))
      → TakesSteps (s >>= rest)
  bind-TakesSteps s rest h k =
      given-TakesSteps (λ _. Unit {0}) s rest (λ w r. (h w r, λ _ _. tt)) (λ a _. k a)

  pub then-TakesSteps :
      {A B : Type 0} (s : Session A) (rest : Session B)
      → TakesSteps s
      → TakesSteps rest
      → TakesSteps (s >>= λ _. rest)
  then-TakesSteps s rest h k = bind-TakesSteps s (λ _. rest) h (λ _. k)

  pub if-TakesSteps :
      {A : Type 0} (b : Bool) (s t : Session A)
      → TakesSteps s
      → TakesSteps t
      → TakesSteps (if b then s else t)
  if-TakesSteps true s t h k = h
  if-TakesSteps false s t h k = k

  pub change-TakesSteps : (f : World → World) → ((w : World) → Step w (f w)) → TakesSteps (change f)
  change-TakesSteps f st w r = next r (st w)

  pub swap_trips-TakesSteps :
      (f : List Trip → Bool × List Trip)
      → ((w : World) → Step w (set_trips (f w.trips).1 w))
      → TakesSteps (swap_trips f)
  swap_trips-TakesSteps f st w r = next r (st w)

  pub swap_offers-TakesSteps :
      (f : List TripOffer → Bool × List TripOffer)
      → ((w : World) → Step w (set_offers (f w.offers).1 w))
      → TakesSteps (swap_offers f)
  swap_offers-TakesSteps f st w r = next r (st w)

  pub pay-TakesSteps :
      {A : Type 0} (s : Service A)
      → ((w : World) → Step w (set_db (s w.db).1 w))
      → TakesSteps (pay s)
  pay-TakesSteps s st w r = next r (st w)

  pub pause-TakesSteps : (e : Env) (n : ℕ) → IsConcurrent e → TakesSteps (pause e n)
  pause-TakesSteps e n c w r = Reach-trans r (c n w)

  -- An offer that is loaded has an amount as its price.
  pub load_offer-TakesSteps :
      {B : Type 0} (id : RowId) (missing : TripRefusal) (rest : TripOffer → Session B)
      → IsPriced w0
      → ((o : TripOffer) → IsAmount o.price_kobo → TakesSteps (rest o))
      → TakesSteps (load (λ w. find_by TripOffer.id id w.offers) missing >>= rest)
  load_offer-TakesSteps id missing rest p k =
      given-TakesSteps (λ o. IsAmount o.price_kobo)
        (load (λ w. find_by TripOffer.id id w.offers) missing) rest
        (λ w r. (
          r,
          λ o row.
              All-find_by TripOffer.id (λ o. IsAmount o.price_kobo) id w.offers o
                (found-row (find_by TripOffer.id id w.offers) missing o row) (Reach-IsPriced r p),
        ))
        k
