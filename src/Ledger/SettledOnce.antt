-- ===== src/Ledger/SettledOnce.antt =====
-- `ReleaseEscrow` and `RefundEscrow` of internal/repository/ledger_repository.go, called again on a
-- fare that one of them has settled.
use mathlib.Core.Path.{subst}
use ridematch.Prelude.{
  ◌≡◌, refl, Bool, true, false, inl, inr, some, Option, String, ◌⊎◌, Bool-cases,
}
use ridematch.Prelude.Int.{pos}
use ridematch.Prelude.Table.{find_where}
use ridematch.Ledger.Models.{RowId, Account, RefType, IdemKey, Wallet, EscrowHold}
use ridematch.Ledger.Store.{Db, not_found, ok, Draw, ◌>>=◌}
use ridematch.Ledger.Post.{to_wallet, ensure_wallet_tx, lock_wallet, lock_one, once}
use ridematch.Ledger.Escrow.{
  of_trip, is_settled, released_hold, refunded_hold, release_hold, refund_hold, release_escrow,
  refund_escrow,
}
use ridematch.Ledger.Invariant.{Ensures, Ensures-bind, load_first, loaded}
use ridematch.Ledger.PostOne.{Posted}
use ridematch.Ledger.PostAll.{once-Posted, Settled}
use ridematch.Ledger.Balanced.{IsFare, IsLedger}
use ridematch.Ledger.Transfers.{to_wallet-IsPostable}
use ridematch.Ledger.WalletFirst.{wallet_first}
use ridematch.Ledger.EscrowLaws.{find_where-save, settling, save_if, hold-IsFare}

-- The trip's hold, as the row that the queries find, is settled.
abbrev IsClosed : RowId → Db → Type 0
IsClosed trip db =
    (h : EscrowHold) × (find_where (of_trip trip) db.escrows ≡ some h)
    × (is_settled h.status ≡ true)

-- What a settlement that says true leaves behind.
abbrev Closes : RowId → Bool → Db → Type 0
Closes trip done db = done ≡ true → IsClosed trip db

module _ (d : Draw) (h out : EscrowHold) (key : IdemKey) (desc : String) (trip : RowId)
    (fare : IsFare h) (closed : is_settled out.status ≡ true) (same_id : out.id ≡ h.id)
    (same_trip : out.trip_id ≡ h.trip_id) where
  finish-Closes :
      (w : Wallet) (db db' : Db) (applied : Bool)
      → IsLedger db
      → find_where (of_trip trip) db.escrows ≡ some h
      → ((applied ≡ true) × Posted (to_wallet Account.escrow w.id h.amount_kobo) db db')
        ⊎ ((applied ≡ false) × (db' ≡ db))
      → Ensures (Closes trip) (save_if d h out key desc applied db')
  finish-Closes w db db' true b row (inl (_, p)) = λ _. (
    out,
    rw p.same_escrows (find_where-save trip db.escrows h out b.escrow_keyed row same_id same_trip),
    closed,
  )
  finish-Closes w db db' true b row (inr (no_, _)) = cc
  finish-Closes w db db' false b row p = λ e. cc

  settle-Closes :
      (uuid user : RowId) (db : Db)
      → IsLedger db
      → find_where (of_trip trip) db.escrows ≡ some h
      → Ensures (Closes trip) (
          (ensure_wallet_tx uuid user >>= λ wallet. lock_wallet wallet.id >>= λ w.
          once (settling d h out key desc w) >>= save_if d h out key desc)
            db)
  settle-Closes uuid user db b row =
      wallet_first (Closes trip) (pos 0) (pos 0) db b uuid user
        (λ w. once (settling d h out key desc w) >>= save_if d h out key desc)
        (λ w db' b' same sync.
          Ensures-bind (Settled (to_wallet Account.escrow w.id h.amount_kobo) db') (Closes trip)
            (once (settling d h out key desc w)) (save_if d h out key desc) db'
            (once-Posted d.tx_uuid d.now key RefType.trip h.trip_id desc
              (to_wallet Account.escrow w.id h.amount_kobo) (lock_one w) db' b'.booked sync
              (to_wallet-IsPostable Account.escrow w.id h.amount_kobo fare))
            (λ applied db'' s. finish-Closes w db' db'' applied b' (simp same.escrows row) s.1))

release_hold-Closes :
    (d : Draw) (note : String) (trip : RowId) (h : EscrowHold) (db : Db)
    → IsLedger db
    → find_where (of_trip trip) db.escrows ≡ some h
    → IsFare h
    → Ensures (Closes trip) (release_hold d note h db)
unfolding release_hold
release_hold-Closes d note trip h db b row fare = elim (Bool-cases (is_settled h.status)) [
  | inl settled ↦ rw settled (λ e. cc)
  | inr open_hold ↦ rw open_hold (
      settle-Closes d h (released_hold d note h) (IdemKey.escrow_release h.trip_id h.version)
        "Trip payment received" trip fare refl refl refl d.wallet_uuid h.payee_user_id db b row)
]

refund_hold-Closes :
    (d : Draw) (by : Option RowId) (note : String) (trip : RowId) (h : EscrowHold) (db : Db)
    → IsLedger db
    → find_where (of_trip trip) db.escrows ≡ some h
    → IsFare h
    → Ensures (Closes trip) (refund_hold d by note h db)
unfolding refund_hold
refund_hold-Closes d by note trip h db b row fare = elim (Bool-cases (is_settled h.status)) [
  | inl settled ↦ rw settled (λ e. cc)
  | inr open_hold ↦ rw open_hold (
      settle-Closes d h (refunded_hold d by note h) (IdemKey.escrow_refund h.trip_id h.version)
        "Trip payment refunded" trip fare refl refl refl d.wallet_uuid h.payer_user_id db b row)
]

release_escrow-Closes :
    (d : Draw) (trip : RowId) (note : String) (db : Db)
    → IsLedger db
    → Ensures (Closes trip) (release_escrow d trip note db)
unfolding release_escrow
release_escrow-Closes d trip note db b =
    load_first (Closes trip) (find_where (of_trip trip) db.escrows) not_found (release_hold d note)
      db (λ h found. release_hold-Closes d note trip h db b found (hold-IsFare h trip db b found))

refund_escrow-Closes :
    (d : Draw) (trip : RowId) (by : Option RowId) (note : String) (db : Db)
    → IsLedger db
    → Ensures (Closes trip) (refund_escrow d trip by note db)
unfolding refund_escrow
refund_escrow-Closes d trip by note db b =
    load_first (Closes trip) (find_where (of_trip trip) db.escrows) not_found
      (refund_hold d by note) db
      (λ h found. refund_hold-Closes d by note trip h db b found (hold-IsFare h trip db b found))

-- Neither operation touches a settled fare.
abbrev IsFinal : RowId → Db → Type 0
IsFinal trip db =
    (d : Draw) (by : Option RowId) (note : String)
    → (release_escrow d trip note db ≡ (ok false, db))
      × (refund_escrow d trip by note db ≡ (ok false, db))

IsClosed-IsFinal : (trip : RowId) (db : Db) → IsClosed trip db → IsFinal trip db
unfolding release_escrow refund_escrow release_hold refund_hold
IsClosed-IsFinal trip db (h, row, closed) d by note = (
  loaded (find_where (of_trip trip) db.escrows) h not_found (release_hold d note) db (ok false) row
      (rw closed refl),
  loaded (find_where (of_trip trip) db.escrows) h not_found (refund_hold d by note) db (ok false)
      row (rw closed refl),
)

-- On balanced tables, once `ReleaseEscrow` has said true for a trip, a further release and a
-- refund of that trip both say false and change nothing.
pub release_escrow-once :
    (d : Draw) (trip : RowId) (note : String) (db db' : Db)
    → IsLedger db
    → release_escrow d trip note db ≡ (ok true, db')
    → (d' : Draw) (by : Option RowId) (note' : String)
    → (release_escrow d' trip note' db' ≡ (ok false, db'))
      × (refund_escrow d' trip by note' db' ≡ (ok false, db'))
release_escrow-once d trip note db db' b e =
    IsClosed-IsFinal trip db'
      (subst (Ensures (Closes trip)) e (release_escrow-Closes d trip note db b) refl)

-- On balanced tables, once `RefundEscrow` has said true for a trip, a release and a further
-- refund of that trip both say false and change nothing.
pub refund_escrow-once :
    (d : Draw) (trip : RowId) (by : Option RowId) (note : String) (db db' : Db)
    → IsLedger db
    → refund_escrow d trip by note db ≡ (ok true, db')
    → (d' : Draw) (by' : Option RowId) (note' : String)
    → (release_escrow d' trip note' db' ≡ (ok false, db'))
      × (refund_escrow d' trip by' note' db' ≡ (ok false, db'))
refund_escrow-once d trip by note db db' b e =
    IsClosed-IsFinal trip db'
      (subst (Ensures (Closes trip)) e (refund_escrow-Closes d trip by note db b) refl)
