-- ===== src/EscrowService/Settling.antt =====
-- The settlements of internal/service/escrow_service.go: `AdminResolve` and the scan of `ReleaseDue`.
use ridematch.Prelude.{ℕ, ◌≡◌, refl, ◌∙◌, ap, true, false, some, String, List, All}
use ridematch.Prelude.Int.{◌+ℤ◌}
use ridematch.Prelude.Word.{IsAmount}
use ridematch.Prelude.Table.{find_where, find_by}
use ridematch.Ledger.Models.{RowId, Time, Wallet, IdemKey, EscrowHold}
use ridematch.Ledger.Store.{Db, Draw, Tx, Error, Result, ok, err}
use ridematch.Ledger.Post.{is_used}
use ridematch.Ledger.Escrow.{
  of_trip, is_settled, find_escrow_by_trip, release_escrow, refund_escrow, released_hold,
  refunded_hold,
}
use ridematch.Ledger.Balanced.{IsLedger}
use ridematch.Ledger.Paying.{release_escrow-pays, refund_escrow-pays}
use ridematch.Ledger.Due.{is_due, due_escrows}
use ridematch.Ledger.DueLaws.{All-where_rows, All-order_by, All-limit}
use ridematch.EscrowService.{
  Answer, Service, answer, refuse, call, missing_hold, release, Decision, decide, resolve_hold,
  admin_resolve, done, failed, to_driver, to_passenger,
}

-- A call of the ledger that succeeds.
pub call_good :
    {A B : Type 0} (tx : Tx A) (good : A → Service B) (bad : Error → Service B) (db : Db) (a : A)
    → tx db ≡ (ok a, db)
    → call tx good bad db ≡ good a db
call_good {A = A} {B = B} tx good bad db a h =
    ap
      (λ (r : Result A × Db). elim r.0 as (λ _. Answer B × Db) [
        | ok x ↦ good x r.1
        | err e ↦ bad e r.1
      ])
      h

pub find_hold :
    (trip : RowId) (h : EscrowHold) (db : Db)
    → find_where (of_trip trip) db.escrows ≡ some h
    → find_escrow_by_trip trip db ≡ (ok h, db)
unfolding find_escrow_by_trip
find_hold trip h db row = rw row refl

-- Every row of the scan for due fares is held and has reached its release time, for any limit on
-- the rows.
due_escrows-IsDue :
    (now : Time) (n : ℕ) (hs : List EscrowHold)
    → All (λ h. is_due now h ≡ true) (due_escrows now n hs)
unfolding due_escrows
due_escrows-IsDue now n hs =
    All-limit (λ h. is_due now h ≡ true) n _
      (All-order_by (λ h. is_due now h ≡ true) _ _ (All-where_rows (is_due now) hs))

module _ {A B : Type 0} (tx : Tx A) (good : A → Service B) (bad : Error → Service B) where
  -- A call of the ledger that succeeds, with what it wrote.
  call_wrote : (db : Db) (a : A) → (tx db).0 ≡ ok a → call tx good bad db ≡ good a (tx db).1
  call_wrote db a h =
      ap
        (λ (r : Result A). elim r as (λ _. Answer B × Db) [
          | ok x ↦ good x (tx db).1
          | err e ↦ bad e (tx db).1
        ])
        h

module _ (d : Draw) (admin trip : RowId) (note : String) (h : EscrowHold) (w : Wallet) (db : Db)
    (b : IsLedger db) (row : find_where (of_trip trip) db.escrows ≡ some h)
    (live : is_settled h.status ≡ false) (fits : IsAmount (w.balance_kobo +ℤ h.amount_kobo)) where
  resolves :
      (decision : Decision)
      → admin_resolve d admin trip decision note db ≡ decide d admin note trip decision db
  unfolding admin_resolve
  resolves decision =
      call_good (find_escrow_by_trip trip) (resolve_hold d admin note decision trip) missing_hold db
        h (find_hold trip h db row)
      ∙ rw live refl

  admin_resolve-releases :
      is_used d.tx_uuid (IdemKey.escrow_release h.trip_id h.version) db.transactions ≡ false
      → find_by Wallet.user_id h.payee_user_id db.wallets ≡ some w
      → let r = admin_resolve d admin trip to_driver note db in
        (r.0 ≡ done tt)
        × (find_by Wallet.id w.id r.1.wallets
            ≡ some (record w { balance_kobo = w.balance_kobo +ℤ h.amount_kobo }))
        × (find_by EscrowHold.id h.id r.1.escrows ≡ some (released_hold d note h))
  unfolding release
  admin_resolve-releases fresh user =
      let pays = release_escrow-pays d trip note h w db b row live fresh user fits in
      rw
        (
          resolves to_driver,
          call_wrote (release_escrow d trip note) (λ applied. answer tt) (λ e. refuse (failed e)) db
              true pays.0,
        )
        (refl, pays.1, pays.2)

  admin_resolve-refunds :
      is_used d.tx_uuid (IdemKey.escrow_refund h.trip_id h.version) db.transactions ≡ false
      → find_by Wallet.user_id h.payer_user_id db.wallets ≡ some w
      → let r = admin_resolve d admin trip to_passenger note db in
        (r.0 ≡ done tt)
        × (find_by Wallet.id w.id r.1.wallets
            ≡ some (record w { balance_kobo = w.balance_kobo +ℤ h.amount_kobo }))
        × (find_by EscrowHold.id h.id r.1.escrows ≡ some (refunded_hold d (some admin) note h))
  admin_resolve-refunds fresh user =
      let pays = refund_escrow-pays d trip (some admin) note h w db b row live fresh user fits in
      rw
        (
          resolves to_passenger,
          call_wrote (refund_escrow d trip (some admin) note) (λ applied. answer tt)
              (λ e. refuse (failed e)) db true pays.0,
        )
        (refl, pays.1, pays.2)

-- On balanced tables, where a trip has a hold that is held or disputed, the drawn transaction id
-- and the keys of its version are unused, and its payee and its payer have wallets that the fare
-- does not overflow: `AdminResolve` for the driver succeeds, the wallet of the payee grows by the
-- fare, and the row of the hold is marked as released with the note; for the passenger it
-- succeeds, the wallet of the payer grows by the fare, and the row is marked as refunded by the
-- admin with the note.
pub admin_resolve-pays :
    (d : Draw) (admin trip : RowId) (note : String) (h : EscrowHold) (payee payer : Wallet)
    (db : Db)
    → IsLedger db
    → find_where (of_trip trip) db.escrows ≡ some h
    → is_settled h.status ≡ false
    → is_used d.tx_uuid (IdemKey.escrow_release h.trip_id h.version) db.transactions ≡ false
    → is_used d.tx_uuid (IdemKey.escrow_refund h.trip_id h.version) db.transactions ≡ false
    → find_by Wallet.user_id h.payee_user_id db.wallets ≡ some payee
    → find_by Wallet.user_id h.payer_user_id db.wallets ≡ some payer
    → IsAmount (payee.balance_kobo +ℤ h.amount_kobo)
    → IsAmount (payer.balance_kobo +ℤ h.amount_kobo)
    → let r = admin_resolve d admin trip to_driver note db in
      let s = admin_resolve d admin trip to_passenger note db in
      (r.0 ≡ done tt)
      × (find_by Wallet.id payee.id r.1.wallets
          ≡ some (record payee { balance_kobo = payee.balance_kobo +ℤ h.amount_kobo }))
      × (find_by EscrowHold.id h.id r.1.escrows ≡ some (released_hold d note h))
      × (s.0 ≡ done tt)
      × (find_by Wallet.id payer.id s.1.wallets
          ≡ some (record payer { balance_kobo = payer.balance_kobo +ℤ h.amount_kobo }))
      × (find_by EscrowHold.id h.id s.1.escrows ≡ some (refunded_hold d (some admin) note h))
admin_resolve-pays d admin trip note h payee payer db b row live free_release free_refund is_payee
      is_payer payee_fits payer_fits =
    let r =
      admin_resolve-releases d admin trip note h payee db b row live payee_fits free_release
        is_payee in
    let s =
      admin_resolve-refunds d admin trip note h payer db b row live payer_fits free_refund
        is_payer in
    (r.0, r.1, r.2, s.0, s.1, s.2)
