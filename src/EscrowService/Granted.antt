-- ===== src/EscrowService/Granted.antt =====
-- Who may settle a fare: `ConfirmTrip` and `DisputeTrip` of internal/service/escrow_service.go.
use ridematch.Prelude.{
  ◌≡◌, arith, refl, ◌∙◌, sym, ap, ◌⊎◌, ◌&&◌, ◌||◌, true, inl, inr, some, String, List, Bool-cases,
  Option-cases, ◌==◌, ==_iff,
}
use ridematch.Prelude.Table.{find_where}
use ridematch.Ledger.Models.{RowId, EscrowHold, EscrowStatus}
use ridematch.Ledger.Store.{Db, Draw, Error, Result, Tx, ok, err}
use ridematch.Ledger.Escrow.{of_trip, is_held, find_escrow_by_trip, release_escrow, dispute_escrow}
use ridematch.Trips.{Trip, TripStatus, same_status, find_trip}
use ridematch.EscrowService.Settling.{call_good, find_hold}
use ridematch.EscrowService.{
  Answer, Service, call, after, answer, missing_hold, release, reload, confirm_hold, dispute_hold,
  done, refused, refuse, failed, may_confirm, may_dispute, confirm_trip, dispute_trip,
  dispute_failed,
}

-- A service that writes nothing.
abbrev IsReadOnly : {A : Type 0} → Service A → Type 0
IsReadOnly s = (db : Db) → (s db).1 ≡ db

call-tables :
    {A B : Type 0} (tx : Tx A) (good : A → Service B) (bad : Error → Service B)
    → ((a : A) → IsReadOnly (good a))
    → ((e : Error) → IsReadOnly (bad e))
    → (db : Db) → (call tx good bad db).1 ≡ (tx db).1
call-tables {A = A} {B = B} tx good bad g f db = go (tx db)
  where
    go :
        (r : Result A × Db)
        → (elim r.0 as (λ _. Answer B × Db) [ ok a ↦ good a r.1 | err e ↦ bad e r.1 ]).1 ≡ r.1
    go (ok a, left) = g a left
    go (err e, left) = f e left

after-tables :
    {A B : Type 0} (first : Service A) (rest : A → Service B)
    → ((a : A) → IsReadOnly (rest a))
    → (db : Db) → (after first rest db).1 ≡ (first db).1
after-tables {A = A} {B = B} first rest g db = go (first db)
  where
    go :
        (r : Answer A × Db)
        → (elim r.0 as (λ _. Answer B × Db) [
          | done a ↦ rest a r.1
          | refused why ↦ (refused why, r.1)
        ]).1
          ≡ r.1
    go (done a, left) = g a left
    go (refused why, left) = refl

find_escrow-tables : (trip : RowId) (db : Db) → (find_escrow_by_trip trip db).1 ≡ db
unfolding find_escrow_by_trip
find_escrow-tables trip db = elim (Option-cases (find_where (of_trip trip) db.escrows)) [
  | inl missing ↦ rw missing refl
  | inr (h, found) ↦ rw found refl
]

reload-IsReadOnly : (trip : RowId) (h : EscrowHold) → IsReadOnly (reload trip h)
reload-IsReadOnly trip h db =
    call-tables (find_escrow_by_trip trip) answer (λ e. answer h) (λ _ _. refl) (λ _ _. refl) db
    ∙ find_escrow-tables trip db

-- The end of `ConfirmTrip` leaves what `ReleaseEscrow` does.
confirmed-tables :
    (d : Draw) (trip : RowId) (note : String) (h : EscrowHold) (db : Db)
    → (after (release d trip note) (λ _. reload trip h) db).1 ≡ (release_escrow d trip note db).1
unfolding release
confirmed-tables d trip note h db =
    after-tables (release d trip note) (λ _. reload trip h) (λ _. reload-IsReadOnly trip h) db
    ∙ call-tables (release_escrow d trip note) (λ applied. answer tt) (λ e. refuse (failed e))
        (λ _ _. refl) (λ _ _. refl) db

module _ (d : Draw) (passenger trip : RowId) (t : Trip) (h x : EscrowHold) (db : Db) where
  confirm_hold-granted :
      (confirm_hold d passenger trip t h db).0 ≡ done x
      → (h.payer_user_id ≡ passenger)
        × (may_confirm t h ≡ true)
        × ((confirm_hold d passenger trip t h db).1
            ≡ (release_escrow d trip "confirmed by passenger" db).1)
  confirm_hold-granted = elim (Bool-cases (h.payer_user_id == passenger)) [
    | inr stranger ↦ rw stranger (λ e. cc)
    | inl payer ↦ elim (Bool-cases (may_confirm t h)) [
      | inr early ↦ rw (payer, early) (λ e. cc)
      | inl ready ↦
          rw (payer, ready)
            (λ e. (
              (==_iff h.payer_user_id passenger).0 payer,
              refl,
              confirmed-tables d trip "confirmed by passenger" h db,
            ))
    ]
  ]

  dispute_hold-granted :
      (reason : String)
      → (dispute_hold d passenger trip reason t h db).0 ≡ done x
      → (h.payer_user_id ≡ passenger)
        × (may_dispute t h ≡ true)
        × ((dispute_hold d passenger trip reason t h db).1 ≡ (dispute_escrow d trip reason db).1)
  dispute_hold-granted reason = elim (Bool-cases (h.payer_user_id == passenger)) [
    | inr stranger ↦ rw stranger (λ e. cc)
    | inl payer ↦ elim (Bool-cases (may_dispute t h)) [
      | inr early ↦ rw (payer, early) (λ e. cc)
      | inl ready ↦
          rw (payer, ready)
            (λ e. (
              (==_iff h.payer_user_id passenger).0 payer,
              refl,
              call-tables (dispute_escrow d trip reason) (λ _. reload trip h) dispute_failed
                  (λ _. reload-IsReadOnly trip h) (λ _ _. refl) db,
            ))
    ]
  ]

-- The answer of a service on a hold that it loads is the answer for the row.
module _ {A : Type 0} (trip : RowId) (good : EscrowHold → Service A) (db : Db) (x : A) where
  on_hold :
      (call (find_escrow_by_trip trip) good missing_hold db).0 ≡ done x
      → (h : EscrowHold) × (find_where (of_trip trip) db.escrows ≡ some h)
        × (call (find_escrow_by_trip trip) good missing_hold db ≡ good h db)
  unfolding find_escrow_by_trip
  on_hold = elim (Option-cases (find_where (of_trip trip) db.escrows)) [
    | inl missing ↦ rw missing (λ e. cc)
    | inr (h, found) ↦ rw found (λ e. (
      h,
      refl,
      call_good (find_escrow_by_trip trip) good missing_hold db h (find_hold trip h db found),
    ))
  ]

may_confirm-status :
    (s : TripStatus) (k : EscrowStatus)
    → (same_status s TripStatus.completed && is_held k) ≡ true
    → (s ≡ TripStatus.completed) × (k ≡ EscrowStatus.held)
may_confirm-status s k h = ground arith

may_dispute-status :
    (s : TripStatus) (k : EscrowStatus)
    → ((same_status s TripStatus.completed || same_status s TripStatus.picked_up) && is_held k)
      ≡ true
    → ((s ≡ TripStatus.completed) ⊎ (s ≡ TripStatus.picked_up)) × (k ≡ EscrowStatus.held)
may_dispute-status s k h = ground arith

-- Where `ConfirmTrip` succeeds, the trip is there and completed, its hold is there and was held,
-- the caller is the payer of the hold, and the tables are left as `ReleaseEscrow` of the trip
-- leaves them.
pub confirm_trip-granted :
    (d : Draw) (trips : List Trip) (passenger trip : RowId) (x : EscrowHold) (db : Db)
    → (confirm_trip d trips passenger trip db).0 ≡ done x
    → (t : Trip) × (h : EscrowHold) × (find_trip trip trips ≡ some t)
      × (find_where (of_trip trip) db.escrows ≡ some h)
      × (h.payer_user_id ≡ passenger)
      × (t.status ≡ TripStatus.completed)
      × (h.status ≡ EscrowStatus.held)
      × ((confirm_trip d trips passenger trip db).1
          ≡ (release_escrow d trip "confirmed by passenger" db).1)
unfolding confirm_trip
confirm_trip-granted d trips passenger trip x db = elim (Option-cases (find_trip trip trips)) [
  | inl missing ↦ rw missing (λ e. cc)
  | inr (t, found) ↦ rw found (λ e.
      let (h, row, same) = on_hold trip (confirm_hold d passenger trip t) db x e in
      let g = confirm_hold-granted d passenger trip t h x db (sym (ap (λ r. r.0) same) ∙ e) in
      let status = may_confirm-status t.status h.status g.1 in
      (t, h, refl, row, g.0, status.0, status.1, ap (λ r. r.1) same ∙ g.2))
]

-- Where `DisputeTrip` succeeds, the trip is there and completed or picked up, its hold is there
-- and was held, the caller is the payer of the hold, and the tables are left as `DisputeEscrow`
-- of the trip leaves them.
pub dispute_trip-granted :
    (d : Draw) (trips : List Trip) (passenger trip : RowId) (reason : String) (x : EscrowHold)
    (db : Db)
    → (dispute_trip d trips passenger trip reason db).0 ≡ done x
    → (t : Trip) × (h : EscrowHold) × (find_trip trip trips ≡ some t)
      × (find_where (of_trip trip) db.escrows ≡ some h)
      × (h.payer_user_id ≡ passenger)
      × ((t.status ≡ TripStatus.completed) ⊎ (t.status ≡ TripStatus.picked_up))
      × (h.status ≡ EscrowStatus.held)
      × ((dispute_trip d trips passenger trip reason db).1 ≡ (dispute_escrow d trip reason db).1)
unfolding dispute_trip
dispute_trip-granted d trips passenger trip reason x db =
    elim (Option-cases (find_trip trip trips)) [
      | inl missing ↦ rw missing (λ e. cc)
      | inr (t, found) ↦ rw found (λ e.
          let (h, row, same) = on_hold trip (dispute_hold d passenger trip reason t) db x e in
          let g =
            dispute_hold-granted d passenger trip t h x db reason (sym (ap (λ r. r.0) same) ∙ e) in
          let status = may_dispute-status t.status h.status g.1 in
          (t, h, refl, row, g.0, status.0, status.1, ap (λ r. r.1) same ∙ g.2))
    ]
