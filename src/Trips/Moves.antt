-- ===== src/Trips/Moves.antt =====
-- The moves of a trip that internal/service/trip_service.go makes by `CompareAndSwapStatus`: each
-- names the status that it expects and the columns that it writes.
use ridematch.Prelude.{Bool, some, String, List, [], ◌∷◌}
use ridematch.Prelude.Int.{ℤ}
use ridematch.Ledger.Models.{RowId, Time}
use ridematch.Trips.{TripStatus, CancelledBy, Trip, compare_and_swap_status}

-- A cancellation expects the status that the service has just read, which it lets be requested or
-- matched.
pub data Move : Type 0 where
  match : RowId → ℤ → String → Time → Move
  pick_up : Time → Move
  complete : Time → Move
  cancel_requested cancel_matched : Time → CancelledBy → String → Move
  expire : Move

abbrev pub expected : Move → TripStatus
expected (match who price pin now) = TripStatus.requested
expected (pick_up now) = TripStatus.matched
expected (complete now) = TripStatus.picked_up
expected (cancel_requested now by reason) = TripStatus.requested
expected (cancel_matched now by reason) = TripStatus.matched
expected expire = TripStatus.requested

-- The columns of each update.
abbrev pub set_matched : RowId → ℤ → String → Time → Trip → Trip
set_matched who price pin now t = record t {
  status = TripStatus.matched;
  driver_id = some who;
  agreed_price_kobo = some price;
  pickup_pin_hash = pin;
  matched_at = some now;
}

abbrev pub set_picked_up : Time → Trip → Trip
set_picked_up now t = record t { status = TripStatus.picked_up; pickup_confirmed_at = some now }

abbrev pub set_completed : Time → Trip → Trip
set_completed now t = record t { status = TripStatus.completed; completed_at = some now }

abbrev pub set_cancelled : Time → CancelledBy → String → Trip → Trip
set_cancelled now by reason t = record t {
  status = TripStatus.cancelled;
  cancelled_at = some now;
  cancelled_by = some by;
  cancel_reason = reason;
}

abbrev pub set_expired : Trip → Trip
set_expired t = record t { status = TripStatus.expired }

unfoldable pub updates : Move → Trip → Trip
updates (match who price pin now) = set_matched who price pin now
updates (pick_up now) = set_picked_up now
updates (complete now) = set_completed now
updates (cancel_requested now by reason) = set_cancelled now by reason
updates (cancel_matched now by reason) = set_cancelled now by reason
updates expire = set_expired

-- One move of one trip, and whether it was made.
unfoldable pub try_move : RowId → Move → List Trip → Bool × List Trip
try_move id m ts = compare_and_swap_status id (expected m) (updates m) ts

-- Moves of any trips, in the order in which the database takes them.
unfoldable pub run_moves : List (RowId × Move) → List Trip → List Trip
run_moves [] ts = ts
run_moves ((id, m) ∷ ms) ts = run_moves ms (try_move id m ts).1
