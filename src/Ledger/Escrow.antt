-- ===== src/Ledger/Escrow.antt =====
-- The escrow operations of internal/repository/ledger_repository.go.
use text.Mathlib.Text.{◌==◌ as str_eq}
use ridematch.Prelude.{
  ◌+◌, Bool, true, false, Option, none, some, String, List, ◌∷◌, ◌&&◌, not, ◌==◌, if◌then◌else◌,
}
use ridematch.Prelude.Int.{eqb_ℤ}
use ridematch.Prelude.Table.{find_where, find_by, update_where, save}
use ridematch.Ledger.Models.{
  RowId, Time, Account, Wallet, IdemKey, RefType, EscrowHold, EscrowStatus,
}
use ridematch.Ledger.Store.{
  Db, not_found, duplicate_key, invalid_transition, hold_conflict, Tx, Draw, pure, abort, query,
  or_abort, ◌>>=◌, ◌>>◌, abort_if, write, transaction,
}
use ridematch.Ledger.Post.{
  from_wallet, to_wallet, is_some, lock_wallet, ensure_wallet_tx, lock_one, post, once,
}

abbrev pub set_escrows : (List EscrowHold → List EscrowHold) → Db → Db
set_escrows f db = record db { escrows = f db.escrows }

abbrev pub is_held : EscrowStatus → Bool
is_held EscrowStatus.held = true
is_held _ = false

abbrev pub is_refunded : EscrowStatus → Bool
is_refunded EscrowStatus.refunded = true
is_refunded _ = false

-- `Status != EscrowHeld && Status != EscrowDisputed` is the early return of a settlement.
abbrev pub is_settled : EscrowStatus → Bool
is_settled EscrowStatus.held = false
is_settled EscrowStatus.disputed = false
is_settled _ = true

abbrev pub of_trip : RowId → EscrowHold → Bool
of_trip trip h = h.trip_id == trip

-- `FindEscrowByTrip`
unfoldable pub find_escrow_by_trip : RowId → Tx EscrowHold
find_escrow_by_trip trip = do
  or_abort (← query (λ db. find_where (of_trip trip) db.escrows)) not_found

-- A refunded hold opened again for a new attempt on its trip.
abbrev pub reopened : EscrowHold → EscrowHold → EscrowHold
reopened e h = record e {
  version = e.version + 1;
  status = EscrowStatus.held;
  payer_user_id = h.payer_user_id;
  payee_user_id = h.payee_user_id;
  payee_driver_id = h.payee_driver_id;
  amount_kobo = h.amount_kobo;
  release_after = none;
  released_at = none;
  refunded_at = none;
  dispute_reason = "";
  disputed_at = none;
  resolution = "";
  resolved_by = none;
}

abbrev pub opened : Draw → EscrowHold → EscrowHold
opened d h = record h { id = d.row_uuid; status = EscrowStatus.held; version = 1 }

-- `tx.Create(&out)`: the trip was just found to have no hold, so the primary key is what is left
-- of the unique indexes.
create_escrow : EscrowHold → Tx (Unit {0})
create_escrow h = do
  taken ← query (λ db. is_some (find_by EscrowHold.id h.id db.escrows))
  abort_if taken duplicate_key
  write (set_escrows (λ hs. h ∷ hs))

-- The end of `HoldEscrow`: the fare moves from the wallet to the pool and the row is saved.
unfoldable pub take_fare : Draw → Wallet → EscrowHold → Tx (EscrowHold × Bool)
take_fare d w out = do
  post d.tx_uuid d.now (IdemKey.escrow_hold out.trip_id out.version) RefType.trip out.trip_id
      "Fare held in escrow" (from_wallet Account.escrow w.id out.amount_kobo) (lock_one w)
  write (set_escrows (save EscrowHold.id out))
  pure (out, true)

abbrev pub same_hold : EscrowHold → EscrowHold → Bool
same_hold e h =
    (e.payee_driver_id == h.payee_driver_id)
    && (eqb_ℤ e.amount_kobo h.amount_kobo && (e.payer_user_id == h.payer_user_id))

-- The `switch` of `HoldEscrow` on the hold that the trip already has.
unfoldable pub hold_over : Draw → Wallet → EscrowHold → Option EscrowHold → Tx (EscrowHold × Bool)
unfolding create_escrow
hold_over d w h none = do create_escrow (opened d h); take_fare d w (opened d h)
hold_over d w h (some e) =
    if not (is_refunded e.status)
    then (if same_hold e h then pure (e, false) else abort hold_conflict)
    else take_fare d w (reopened e h)

-- `HoldEscrow`: the hold and whether this call has taken the fare.
unfoldable pub hold_escrow : Draw → EscrowHold → Tx (EscrowHold × Bool)
hold_escrow d h = transaction (do
  wallet ← ensure_wallet_tx d.wallet_uuid h.payer_user_id
  w ← lock_wallet wallet.id
  hold_over d w h (← query (λ db. find_where (of_trip h.trip_id) db.escrows)))

-- `MarkEscrowCompleted`
unfoldable pub mark_escrow_completed : RowId → Time → Tx (Unit {0})
mark_escrow_completed trip after = write (
    set_escrows (
      update_where (λ h. of_trip trip h && is_held h.status)
        (λ h. record h { release_after = some after })))

abbrev pub dispute : Time → String → EscrowHold → EscrowHold
dispute now reason h = record h {
  status = EscrowStatus.disputed;
  dispute_reason = reason;
  disputed_at = some now;
  release_after = none;
}

-- `DisputeEscrow`: an update that finds no held row is an invalid transition.
unfoldable pub dispute_escrow : Draw → RowId → String → Tx (Unit {0})
dispute_escrow d trip reason = do
  row ← query (λ db. is_some (find_where (λ h. of_trip trip h && is_held h.status) db.escrows))
  write
      (set_escrows (update_where (λ h. of_trip trip h && is_held h.status) (dispute d.now reason)))
  abort_if (not row) invalid_transition

-- `if note != "" { h.Resolution = note }`
abbrev pub noted : String → String → String
noted old note = if str_eq note "" then old else note

abbrev pub released_hold : Draw → String → EscrowHold → EscrowHold
released_hold d note h = record h {
  status = EscrowStatus.released;
  released_at = some d.now;
  resolution = noted h.resolution note;
}

abbrev pub refunded_hold : Draw → Option RowId → String → EscrowHold → EscrowHold
refunded_hold d by note h = record h {
  status = EscrowStatus.refunded;
  refunded_at = some d.now;
  resolved_by = by;
  resolution = noted h.resolution note;
}

-- The body of `ReleaseEscrow` once the hold is loaded.
unfoldable pub release_hold : Draw → String → EscrowHold → Tx Bool
release_hold d note h = if is_settled h.status then pure false else (do
  wallet ← ensure_wallet_tx d.wallet_uuid h.payee_user_id
  w ← lock_wallet wallet.id
  applied ← once (
      post d.tx_uuid d.now (IdemKey.escrow_release h.trip_id h.version) RefType.trip h.trip_id
        "Trip payment received" (to_wallet Account.escrow w.id h.amount_kobo) (lock_one w))
  (if applied
      then (do write (set_escrows (save EscrowHold.id (released_hold d note h))); pure true)
      else pure false))

-- `ReleaseEscrow`: the fare goes to the payee. False says that this call has moved nothing.
unfoldable pub release_escrow : Draw → RowId → String → Tx Bool
release_escrow d trip note = transaction (do
  h ← or_abort (← query (λ db. find_where (of_trip trip) db.escrows)) not_found
  release_hold d note h)

unfoldable pub refund_hold : Draw → Option RowId → String → EscrowHold → Tx Bool
refund_hold d by note h = if is_settled h.status then pure false else (do
  wallet ← ensure_wallet_tx d.wallet_uuid h.payer_user_id
  w ← lock_wallet wallet.id
  applied ← once (
      post d.tx_uuid d.now (IdemKey.escrow_refund h.trip_id h.version) RefType.trip h.trip_id
        "Trip payment refunded" (to_wallet Account.escrow w.id h.amount_kobo) (lock_one w))
  (if applied
      then (do write (set_escrows (save EscrowHold.id (refunded_hold d by note h))); pure true)
      else pure false))

-- `RefundEscrow`: the fare goes back to the payer.
unfoldable pub refund_escrow : Draw → RowId → Option RowId → String → Tx Bool
refund_escrow d trip by note = transaction (do
  h ← or_abort (← query (λ db. find_where (of_trip trip) db.escrows)) not_found
  refund_hold d by note h)
