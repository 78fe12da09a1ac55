-- ===== src/Trips/Lifecycle.antt =====
-- Concurrent moves of trips: internal/repository/trip_repository.go, `CompareAndSwapStatus`.
use mathlib.Core.Path.{subst, sym}
use ridematch.Prelude.{
  ◌≡◌, refl, ◌∙◌, Bool, true, false, inl, inr, some, List, [], ◌∷◌, ◌==◌, arith, Bool-cases,
  Option-cases, if◌then◌else◌,
}
use mathlib.Core.Option
use ridematch.Prelude.Table.{find_by, find_by-update_by}
use ridematch.Ledger.Models.{RowId}
use ridematch.Trips.{TripStatus, same_status, Trip, swap_row, compare_and_swap_status}
use ridematch.Trips.Moves.{Move, expected, updates, try_move, run_moves}

-- A trip that no move leaves.
abbrev pub is_over : TripStatus → Bool
is_over TripStatus.completed = true
is_over TripStatus.cancelled = true
is_over TripStatus.expired = true
is_over _ = false

updates-id : (m : Move) (t : Trip) → (updates m t).id ≡ t.id
unfolding updates
updates-id (Move.match who price pin now) t = refl
updates-id (Move.pick_up now) t = refl
updates-id (Move.complete now) t = refl
updates-id (Move.cancel_requested now by reason) t = refl
updates-id (Move.cancel_matched now by reason) t = refl
updates-id Move.expire t = refl

-- No move leads back to the status that it expects.
updates-new : (m : Move) (t : Trip) → same_status (updates m t).status (expected m) ≡ false
unfolding updates
updates-new (Move.match who price pin now) t = refl
updates-new (Move.pick_up now) t = refl
updates-new (Move.complete now) t = refl
updates-new (Move.cancel_requested now by reason) t = refl
updates-new (Move.cancel_matched now by reason) t = refl
updates-new Move.expire t = refl

swap_row-id : (m : Move) (t : Trip) → (swap_row (expected m) (updates m) t).id ≡ t.id
swap_row-id m t = ground (arith, updates-id m t)

try_move-find :
    (j id : RowId) (m : Move) (ts : List Trip)
    → find_by Trip.id j (try_move id m ts).1 ≡ (
        if j == id
        then Option.map (swap_row (expected m) (updates m)) (find_by Trip.id id ts)
        else find_by Trip.id j ts)
unfolding try_move compare_and_swap_status
try_move-find j id m ts =
    find_by-update_by Trip.id j id (swap_row (expected m) (updates m)) ts
      (λ r e. swap_row-id m r ∙ e)

-- A move that is made.
pub try_move-row :
    (id : RowId) (m : Move) (ts : List Trip) (t : Trip)
    → find_by Trip.id id ts ≡ some t
    → same_status t.status (expected m) ≡ true
    → find_by Trip.id id (try_move id m ts).1 ≡ some (updates m t)
try_move-row id m ts t row now = ground (arith, try_move-find id id m ts)

-- Of two moves of a trip that expect the same status, the second is not made once the first has
-- been.
pub try_move-once :
    (id : RowId) (m other : Move) (ts : List Trip)
    → same_status (expected m) (expected other) ≡ true
    → (try_move id m ts).0 ≡ true
    → (try_move id other (try_move id m ts).1).0 ≡ false
unfolding try_move compare_and_swap_status
try_move-once id m other ts same made = elim (Option-cases (find_by Trip.id id ts)) [
  | inl missing ↦ ground arith
  | inr (t, row) ↦ ground (
    arith,
    updates-new m t,
    find_by-update_by Trip.id id id (swap_row (expected m) (updates m)) ts
        (λ r e. swap_row-id m r ∙ e),
  )
]

-- No move expects a status that is final.
not_expected : (m : Move) (s : TripStatus) → is_over s ≡ true → same_status s (expected m) ≡ false
not_expected (Move.match who price pin now) s h = ground arith
not_expected (Move.pick_up now) s h = ground arith
not_expected (Move.complete now) s h = ground arith
not_expected (Move.cancel_requested now by reason) s h = ground arith
not_expected (Move.cancel_matched now by reason) s h = ground arith
not_expected Move.expire s h = ground arith

swap_row-over :
    (m : Move) (t : Trip) → is_over t.status ≡ true → swap_row (expected m) (updates m) t ≡ t
swap_row-over m t h = rw (not_expected m t.status h) refl

try_move-over :
    (j id : RowId) (m : Move) (ts : List Trip) (t : Trip)
    → find_by Trip.id j ts ≡ some t
    → is_over t.status ≡ true
    → find_by Trip.id j (try_move id m ts).1 ≡ some t
try_move-over j id m ts t row h = ground (arith, try_move-find j id m ts, swap_row-over m t h)

-- A trip that is completed, cancelled or expired stays as it is, whatever moves are tried.
pub run_moves-over :
    (ms : List (RowId × Move)) (j : RowId) (ts : List Trip) (t : Trip)
    → find_by Trip.id j ts ≡ some t
    → is_over t.status ≡ true
    → find_by Trip.id j (run_moves ms ts) ≡ some t
unfolding run_moves
run_moves-over [] j ts t row h = row
run_moves-over ((id, m) ∷ ms) j ts t row h =
    run_moves-over ms j (try_move id m ts).1 t (try_move-over j id m ts t row h) h

-- The arrows of the diagram above `TripStatus`, and paths along them.
pub data Arrow : TripStatus → TripStatus → Type 0 where
  to_matched : Arrow TripStatus.requested TripStatus.matched
  to_picked_up : Arrow TripStatus.matched TripStatus.picked_up
  to_completed : Arrow TripStatus.picked_up TripStatus.completed
  to_expired : Arrow TripStatus.requested TripStatus.expired
  to_cancelled_early : Arrow TripStatus.requested TripStatus.cancelled
  to_cancelled_late : Arrow TripStatus.matched TripStatus.cancelled

pub data Leads : TripStatus → TripStatus → Type 0 where
  stay : {s : TripStatus} → Leads s s
  step : {s u v : TripStatus} → Arrow s u → Leads u v → Leads s v

-- A move follows one arrow.
updates-Arrow : (m : Move) (t : Trip) → Arrow (expected m) (updates m t).status
unfolding updates
updates-Arrow (Move.match who price pin now) t = to_matched
updates-Arrow (Move.pick_up now) t = to_picked_up
updates-Arrow (Move.complete now) t = to_completed
updates-Arrow (Move.cancel_requested now by reason) t = to_cancelled_early
updates-Arrow (Move.cancel_matched now by reason) t = to_cancelled_late
updates-Arrow Move.expire t = to_expired

eq_of_same_status : (a b : TripStatus) → same_status a b ≡ true → a ≡ b
eq_of_same_status a b h = ground arith

-- What a trip is after some moves, seen from what it was: the diagram leads from its old status to
-- the new one, and driver and price are kept once a driver has been matched.
pub record Follows (t u : Trip) : Type 0 where
  pub leads : Leads t.status u.status
  pub same_driver : same_status t.status TripStatus.requested ≡ false → u.driver_id ≡ t.driver_id
  pub same_price :
      same_status t.status TripStatus.requested ≡ false → u.agreed_price_kobo ≡ t.agreed_price_kobo
  pub not_reopened :
      same_status t.status TripStatus.requested ≡ false
      → same_status u.status TripStatus.requested ≡ false

Leads-trans : {a b c : TripStatus} → Leads a b → Leads b c → Leads a c
Leads-trans stay q = q
Leads-trans (step arrow p) q = step arrow (Leads-trans p q)

pub Follows-refl : (t : Trip) → Follows t t
Follows-refl t = record {
  leads = stay;
  same_driver = λ _. refl;
  same_price = λ _. refl;
  not_reopened = λ h. h;
}

pub Follows-trans : (t u v : Trip) → Follows t u → Follows u v → Follows t v
Follows-trans t u v f g = record {
  leads = Leads-trans f.leads g.leads;
  same_driver = λ h. g.same_driver (f.not_reopened h) ∙ f.same_driver h;
  same_price = λ h. g.same_price (f.not_reopened h) ∙ f.same_price h;
  not_reopened = λ h. g.not_reopened (f.not_reopened h);
}

swapped-keeps :
    (m : Move) (t : Trip)
    → same_status (expected m) TripStatus.requested ≡ false
    → ((updates m t).driver_id ≡ t.driver_id)
      × ((updates m t).agreed_price_kobo ≡ t.agreed_price_kobo)
unfolding updates
swapped-keeps (Move.match who price pin now) t h = cc
swapped-keeps (Move.pick_up now) t h = (refl, refl)
swapped-keeps (Move.complete now) t h = (refl, refl)
swapped-keeps (Move.cancel_requested now by reason) t h = (refl, refl)
swapped-keeps (Move.cancel_matched now by reason) t h = (refl, refl)
swapped-keeps Move.expire t h = (refl, refl)

never_requested :
    (m : Move) (t : Trip) → same_status (updates m t).status TripStatus.requested ≡ false
unfolding updates
never_requested (Move.match who price pin now) t = refl
never_requested (Move.pick_up now) t = refl
never_requested (Move.complete now) t = refl
never_requested (Move.cancel_requested now by reason) t = refl
never_requested (Move.cancel_matched now by reason) t = refl
never_requested Move.expire t = refl

swap_row-Follows :
    (m : Move) (t u : Trip) → Follows (swap_row (expected m) (updates m) t) u → Follows t u
swap_row-Follows m t u f = elim (Bool-cases (same_status t.status (expected m))) [
  | inr other ↦ rw other at f
  | inl now ↦
      let e = eq_of_same_status t.status (expected m) now in
      let g : Follows (updates m t) u = rw now at f in
      record {
        leads =
            step (subst (λ s. Arrow s (updates m t).status) (sym e) (updates-Arrow m t)) g.leads;
        same_driver = λ h. g.same_driver (never_requested m t) ∙ (swapped-keeps m t (rw e at h)).0;
        same_price = λ h. g.same_price (never_requested m t) ∙ (swapped-keeps m t (rw e at h)).1;
        not_reopened = λ h. g.not_reopened (never_requested m t);
      }
]

-- Whatever moves are tried on whatever trips in whatever order, a trip that is there stays there,
-- its status is reached along the arrows of the diagram in its model, and from its match on its
-- driver and its agreed price never change and it is never requested again.
pub run_moves-Follows :
    (ms : List (RowId × Move)) (j : RowId) (ts : List Trip) (t : Trip)
    → find_by Trip.id j ts ≡ some t
    → (u : Trip) × (find_by Trip.id j (run_moves ms ts) ≡ some u) × Follows t u
unfolding run_moves
run_moves-Follows [] j ts t row = (t, row, Follows-refl t)
run_moves-Follows ((id, m) ∷ ms) j ts t row = elim (Bool-cases (j == id)) [
  | inr other ↦
      run_moves-Follows ms j (try_move id m ts).1 t (ground (arith, try_move-find j id m ts))
  | inl same ↦
      let now : find_by Trip.id j (try_move id m ts).1
          ≡ some (swap_row (expected m) (updates m) t) =
        ground (arith, try_move-find j id m ts) in
      let (u, found, f) =
        run_moves-Follows ms j (try_move id m ts).1 (swap_row (expected m) (updates m) t) now in
      (u, found, swap_row-Follows m t u f)
]
