-- ===== src/EscrowService/Laws.antt =====
-- The escrow service, internal/service/escrow_service.go, and the balance of the ledger.
use ridematch.Prelude.{
  ℕ, suc, inl, inr, Option, some, String, List, [], ◌∷◌, ◌==◌, Bool-cases, Option-cases,
}
use ridematch.Prelude.Word.{IsAmount}
use ridematch.Prelude.Table.{find_where}
use ridematch.Ledger.Models.{RowId, Time, EscrowHold}
use ridematch.Ledger.Store.{Db, Error, Result, ok, err, Tx, Draw}
use ridematch.Ledger.Escrow.{
  is_settled, hold_escrow, of_trip, find_escrow_by_trip, dispute_escrow, release_escrow,
  refund_escrow,
}
use ridematch.Ledger.Balanced.{IsLedger}
use ridematch.Ledger.Operations.{Call, step, IsSound}
use ridematch.Ledger.Runs.{step-IsLedger}
use ridematch.Ledger.HoldLaws.{dispute_escrow-IsLedger}
use ridematch.Trips.{Trip, find_trip}
use ridematch.EscrowService.{
  Answer, Service, answer, refuse, call, after, missing_hold, release, reload, may_confirm,
  confirm_hold, confirm_trip, may_dispute, dispute_failed, dispute_hold, dispute_trip, Decision,
  decide, resolve_hold, admin_resolve, release_all, release_due, done, refused, failed, to_driver,
  to_passenger, other,
}

-- A service that keeps the ledger balanced, whatever it answers.
abbrev pub KeepsLedger : {A : Type 0} → Service A → Type 0
KeepsLedger s = (db : Db) → IsLedger db → IsLedger (s db).1

pub call-KeepsLedger :
    {A B : Type 0} (tx : Tx A) (good : A → Service B) (bad : Error → Service B)
    → ((db : Db) → IsLedger db → IsLedger (tx db).1)
    → ((a : A) → KeepsLedger (good a))
    → ((e : Error) → KeepsLedger (bad e))
    → KeepsLedger (call tx good bad)
call-KeepsLedger {A = A} {B = B} tx good bad t g f db b = go (tx db) (t db b)
  where
    go :
        (r : Result A × Db)
        → IsLedger r.1
        → IsLedger (elim r.0 as (λ _. Answer B × Db) [ ok a ↦ good a r.1 | err e ↦ bad e r.1 ]).1
    go (ok a, left) c = g a left c
    go (err e, left) c = f e left c

pub after-KeepsLedger :
    {A B : Type 0} (first : Service A) (rest : A → Service B)
    → KeepsLedger first
    → ((a : A) → KeepsLedger (rest a))
    → KeepsLedger (after first rest)
after-KeepsLedger {A = A} {B = B} first rest t g db b = go (first db) (t db b)
  where
    go :
        (r : Answer A × Db)
        → IsLedger r.1
        → IsLedger
            (elim r.0 as (λ _. Answer B × Db) [
              | done a ↦ rest a r.1
              | refused why ↦ (refused why, r.1)
            ]).1
    go (done a, left) c = g a left c
    go (refused why, left) c = c

-- The calls of the ledger that the service makes.
release_escrow-keeps :
    (d : Draw) (trip : RowId) (note : String) (db : Db)
    → IsLedger db
    → IsLedger (release_escrow d trip note db).1
unfolding step IsSound
release_escrow-keeps d trip note db b = step-IsLedger (Call.release d trip note) db tt b

pub refund_escrow-keeps :
    (d : Draw) (trip : RowId) (by : Option RowId) (note : String) (db : Db)
    → IsLedger db
    → IsLedger (refund_escrow d trip by note db).1
unfolding step IsSound
refund_escrow-keeps d trip by note db b = step-IsLedger (Call.refund d trip by note) db tt b

pub hold_escrow-keeps :
    (d : Draw) (h : EscrowHold)
    → IsAmount h.amount_kobo
    → (db : Db) → IsLedger db
    → IsLedger (hold_escrow d h db).1
unfolding step IsSound
hold_escrow-keeps d h fare db b = step-IsLedger (Call.hold d h) db fare b

find_escrow-keeps :
    (trip : RowId) (db : Db) → IsLedger db → IsLedger (find_escrow_by_trip trip db).1
unfolding find_escrow_by_trip
find_escrow-keeps trip db b = elim (Option-cases (find_where (of_trip trip) db.escrows)) [
  | inl missing ↦ rw missing b
  | inr (h, found) ↦ rw found b
]

reload-KeepsLedger : (trip : RowId) (h : EscrowHold) → KeepsLedger (reload trip h)
reload-KeepsLedger trip h =
    call-KeepsLedger (find_escrow_by_trip trip) answer (λ e. answer h) (find_escrow-keeps trip)
      (λ a db b. b) (λ e db b. b)

release-KeepsLedger : (d : Draw) (trip : RowId) (note : String) → KeepsLedger (release d trip note)
unfolding release
release-KeepsLedger d trip note =
    call-KeepsLedger (release_escrow d trip note) (λ applied. answer tt) (λ e. refuse (failed e))
      (release_escrow-keeps d trip note) (λ a db b. b) (λ e db b. b)

confirm_hold-KeepsLedger :
    (d : Draw) (passenger trip : RowId) (t : Trip) (h : EscrowHold)
    → KeepsLedger (confirm_hold d passenger trip t h)
confirm_hold-KeepsLedger d passenger trip t h db b =
    elim (Bool-cases (h.payer_user_id == passenger)) [
      | inr stranger ↦ rw stranger b
      | inl payer ↦ elim (Bool-cases (may_confirm t h)) [
        | inr early ↦ rw (payer, early) b
        | inl ready ↦
            rw (payer, ready)
              (after-KeepsLedger (release d trip "confirmed by passenger") (λ _. reload trip h)
                (release-KeepsLedger d trip "confirmed by passenger")
                (λ _. reload-KeepsLedger trip h) db b)
      ]
    ]

confirm_trip-IsLedger :
    (d : Draw) (trips : List Trip) (passenger trip : RowId) (db : Db)
    → IsLedger db
    → IsLedger (confirm_trip d trips passenger trip db).1
unfolding confirm_trip
confirm_trip-IsLedger d trips passenger trip db b = elim (Option-cases (find_trip trip trips)) [
  | inl missing ↦ rw missing b
  | inr (t, found) ↦ rw found (
      call-KeepsLedger (find_escrow_by_trip trip) (confirm_hold d passenger trip t) missing_hold
        (find_escrow-keeps trip) (confirm_hold-KeepsLedger d passenger trip t) (λ e db b. b) db b)
]

dispute_hold-KeepsLedger :
    (d : Draw) (passenger trip : RowId) (reason : String) (t : Trip) (h : EscrowHold)
    → KeepsLedger (dispute_hold d passenger trip reason t h)
dispute_hold-KeepsLedger d passenger trip reason t h db b =
    elim (Bool-cases (h.payer_user_id == passenger)) [
      | inr stranger ↦ rw stranger b
      | inl payer ↦ elim (Bool-cases (may_dispute t h)) [
        | inr early ↦ rw (payer, early) b
        | inl ready ↦
            rw (payer, ready)
              (call-KeepsLedger (dispute_escrow d trip reason) (λ _. reload trip h) dispute_failed
                (dispute_escrow-IsLedger d trip reason) (λ _. reload-KeepsLedger trip h)
                (λ e db b. b) db b)
      ]
    ]

dispute_trip-IsLedger :
    (d : Draw) (trips : List Trip) (passenger trip : RowId) (reason : String) (db : Db)
    → IsLedger db
    → IsLedger (dispute_trip d trips passenger trip reason db).1
unfolding dispute_trip
dispute_trip-IsLedger d trips passenger trip reason db b =
    elim (Option-cases (find_trip trip trips)) [
      | inl missing ↦ rw missing b
      | inr (t, found) ↦ rw found (
          call-KeepsLedger (find_escrow_by_trip trip) (dispute_hold d passenger trip reason t)
            missing_hold (find_escrow-keeps trip)
            (dispute_hold-KeepsLedger d passenger trip reason t) (λ e db b. b) db b)
    ]

decide-KeepsLedger :
    (d : Draw) (admin : RowId) (note : String) (trip : RowId) (decision : Decision)
    → KeepsLedger (decide d admin note trip decision)
decide-KeepsLedger d admin note trip to_driver db b = release-KeepsLedger d trip note db b
decide-KeepsLedger d admin note trip to_passenger db b =
    call-KeepsLedger (refund_escrow d trip (some admin) note) (λ applied. answer tt)
      (λ e. refuse (failed e)) (refund_escrow-keeps d trip (some admin) note) (λ a db b. b)
      (λ e db b. b) db b
decide-KeepsLedger d admin note trip other db b = b

resolve_hold-KeepsLedger :
    (d : Draw) (admin : RowId) (note : String) (decision : Decision) (trip : RowId) (h : EscrowHold)
    → KeepsLedger (resolve_hold d admin note decision trip h)
resolve_hold-KeepsLedger d admin note decision trip h db b =
    elim (Bool-cases (is_settled h.status)) [
      | inl settled ↦ rw settled b
      | inr open_hold ↦ rw open_hold (decide-KeepsLedger d admin note trip decision db b)
    ]

admin_resolve-IsLedger :
    (d : Draw) (admin trip : RowId) (decision : Decision) (note : String) (db : Db)
    → IsLedger db
    → IsLedger (admin_resolve d admin trip decision note db).1
unfolding admin_resolve
admin_resolve-IsLedger d admin trip decision note db b =
    call-KeepsLedger (find_escrow_by_trip trip) (resolve_hold d admin note decision trip)
      missing_hold (find_escrow-keeps trip) (resolve_hold-KeepsLedger d admin note decision trip)
      (λ e db b. b) db b

release_all-IsLedger :
    (draws : ℕ → Draw) (n : ℕ) (hs : List EscrowHold) (db : Db)
    → IsLedger db
    → IsLedger (release_all draws n hs db)
unfolding release_all
release_all-IsLedger draws n [] db b = b
release_all-IsLedger draws n (h ∷ hs) db b =
    release_all-IsLedger draws (suc n) hs
      (release (draws n) h.trip_id "auto-released after confirmation window" db).1
      (release-KeepsLedger (draws n) h.trip_id "auto-released after confirmation window" db b)

release_due-IsLedger :
    (draws : ℕ → Draw) (now : Time) (db : Db) → IsLedger db → IsLedger (release_due draws now db)
unfolding release_due
release_due-IsLedger draws now db b = release_all-IsLedger draws 0 _ db b

-- Whatever they answer, `ConfirmTrip`, `DisputeTrip`, `AdminResolve` and `ReleaseDue` leave
-- balanced tables balanced.
service-IsLedger :
    (d : Draw) (trips : List Trip) (user trip : RowId) (reason : String) (decision : Decision)
    (draws : ℕ → Draw) (db : Db)
    → IsLedger db
    → IsLedger (confirm_trip d trips user trip db).1
      × IsLedger (dispute_trip d trips user trip reason db).1
      × IsLedger (admin_resolve d user trip decision reason db).1
      × IsLedger (release_due draws d.now db)
service-IsLedger d trips user trip reason decision draws db b = (
  confirm_trip-IsLedger d trips user trip db b,
  dispute_trip-IsLedger d trips user trip reason db b,
  admin_resolve-IsLedger d user trip decision reason db b,
  release_due-IsLedger draws d.now db b,
)
