-- ===== src/TripService/Chains.antt =====
-- Chains of parts of a request: internal/service/trip_service.go.
use ridematch.Prelude.{ℕ, ◌≡◌, refl, ap, Bool, true, false, not, Option, none, some, List}
use ridematch.Trips.{Trip}
use ridematch.Trips.Offers.{TripOffer}
use ridematch.TripService.{
  World, TripRefusal, Reply, granted, denied, Session, deny_if, ◌>>=◌, ◌>>◌, found, load, look,
  change, pause, swap_trips, swap_offers, set_trips, set_offers, Env,
}

-- No other request is served at the same time.
abbrev pub IsAlone : Env → Type 0
IsAlone e = (n : ℕ) (w : World) → e.others n w ≡ w

-- What a chain does after a first part that is granted.
pub bind-step :
    {A B : Type 0} (s : Session A) (rest : A → Session B) (a : A) (w v : World)
    → s w ≡ (granted a, v)
    → (s >>= rest) w ≡ rest a v
unfolding ◌>>=◌
bind-step {A = A} {B = B} s rest a w v h =
    ap
      (λ (x : Reply A × World). elim x.0 as (λ _. Reply B × World) [
        | granted y ↦ rest y x.1
        | denied why ↦ (denied why, x.1)
      ])
      h

-- Where a chain is granted, its first part has been.
pub bind-granted :
    {A B : Type 0} (s : Session A) (rest : A → Session B) (w : World) (b : B)
    → ((s >>= rest) w).0 ≡ granted b
    → (a : A) × ((s w).0 ≡ granted a) × ((rest a (s w).1).0 ≡ granted b)
unfolding ◌>>=◌
bind-granted {A = A} {B = B} s rest w b h = go (s w) h
  where
    go :
        (x : Reply A × World)
        → (elim x.0 as (λ _. Reply B × World) [
          | granted y ↦ rest y x.1
          | denied why ↦ (denied why, x.1)
        ]).0
          ≡ granted b
        → (a : A) × (x.0 ≡ granted a) × ((rest a x.1).0 ≡ granted b)
    go (granted a, v) k = (a, refl, k)
    go (denied why, v) k = cc

found-granted :
    {A : Type 0} (o : Option A) (missing : TripRefusal) (a : A)
    → found missing o ≡ granted a
    → o ≡ some a
found-granted none missing a h = cc
found-granted (some x) missing a h = cc

-- The same for each kind of first part.
pub load-granted :
    {A B : Type 0} (f : World → Option A) (missing : TripRefusal) (rest : A → Session B) (w : World)
    (b : B)
    → ((load f missing >>= rest) w).0 ≡ granted b
    → (a : A) × (f w ≡ some a) × ((rest a w).0 ≡ granted b)
load-granted f missing rest w b h =
    let (a, row, k) = bind-granted (load f missing) rest w b h in
    (a, found-granted (f w) missing a row, k)

pub deny_unless-granted :
    {B : Type 0} (good : Bool) (why : TripRefusal) (rest : Session B) (w : World) (b : B)
    → ((deny_if (not good) why >> rest) w).0 ≡ granted b
    → (good ≡ true) × ((rest w).0 ≡ granted b)
unfolding ◌>>=◌
deny_unless-granted true why rest w b h = (refl, h)
deny_unless-granted false why rest w b h = cc

pub deny_if-granted :
    {B : Type 0} (wrong : Bool) (why : TripRefusal) (rest : Session B) (w : World) (b : B)
    → ((deny_if wrong why >> rest) w).0 ≡ granted b
    → (wrong ≡ false) × ((rest w).0 ≡ granted b)
unfolding ◌>>=◌
deny_if-granted true why rest w b h = cc
deny_if-granted false why rest w b h = (refl, h)

pub change-granted :
    {B : Type 0} (f : World → World) (rest : Session B) (w : World) (b : B)
    → ((change f >> rest) w).0 ≡ granted b
    → (rest (f w)).0 ≡ granted b
unfolding ◌>>=◌
change-granted f rest w b h = h

pub look-granted :
    {A B : Type 0} (f : World → A) (rest : A → Session B) (w : World) (b : B)
    → ((look f >>= rest) w).0 ≡ granted b
    → (rest (f w) w).0 ≡ granted b
unfolding ◌>>=◌
look-granted f rest w b h = h

-- The next part of a chain, or its end.
pub load-step :
    {A B : Type 0} (f : World → Option A) (missing : TripRefusal) (rest : A → Session B) (w : World)
    (a : A)
    → f w ≡ some a
    → (load f missing >>= rest) w ≡ rest a w
load-step f missing rest w a h = bind-step (load f missing) rest a w w (rw h refl)

pub deny_unless-step :
    {B : Type 0} (good : Bool) (why : TripRefusal) (rest : Session B) (w : World)
    → good ≡ true
    → (deny_if (not good) why >> rest) w ≡ rest w
unfolding ◌>>=◌
deny_unless-step true why rest w h = refl
deny_unless-step false why rest w h = cc

pub deny_unless-stop :
    {B : Type 0} (good : Bool) (why : TripRefusal) (rest : Session B) (w : World)
    → good ≡ false
    → (deny_if (not good) why >> rest) w ≡ (denied why, w)
unfolding ◌>>=◌
deny_unless-stop true why rest w h = cc
deny_unless-stop false why rest w h = refl

pub pause-step :
    {B : Type 0} (e : Env) (n : ℕ) (rest : Session B) (w : World)
    → IsAlone e
    → (pause e n >> rest) w ≡ rest w
pause-step e n rest w alone = bind-step (pause e n) (λ _. rest) tt w w (rw (alone n w) refl)

pub swap_trips-step :
    {B : Type 0} (f : List Trip → Bool × List Trip) (rest : Bool → Session B) (w : World)
    (made : Bool)
    → (f w.trips).0 ≡ made
    → (swap_trips f >>= rest) w ≡ rest made (set_trips (f w.trips).1 w)
swap_trips-step f rest w made h =
    bind-step (swap_trips f) rest made w (set_trips (f w.trips).1 w) (rw h refl)

pub swap_offers-step :
    {B : Type 0} (f : List TripOffer → Bool × List TripOffer) (rest : Bool → Session B) (w : World)
    (made : Bool)
    → (f w.offers).0 ≡ made
    → (swap_offers f >>= rest) w ≡ rest made (set_offers (f w.offers).1 w)
swap_offers-step f rest w made h =
    bind-step (swap_offers f) rest made w (set_offers (f w.offers).1 w) (rw h refl)

pub bind-stop :
    {A B : Type 0} (s : Session A) (rest : A → Session B) (why : TripRefusal) (w v : World)
    → s w ≡ (denied why, v)
    → (s >>= rest) w ≡ (denied why, v)
unfolding ◌>>=◌
bind-stop {A = A} {B = B} s rest why w v h =
    ap
      (λ (x : Reply A × World). elim x.0 as (λ _. Reply B × World) [
        | granted y ↦ rest y x.1
        | denied z ↦ (denied z, x.1)
      ])
      h
