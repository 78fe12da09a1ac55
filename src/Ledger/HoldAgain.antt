-- ===== src/Ledger/HoldAgain.antt =====
-- `HoldEscrow` of internal/repository/ledger_repository.go, called again on a trip whose fare it has
-- taken.
use mathlib.Core.Path.{subst}
use ridematch.Prelude.{
  ◌≡◌, refl, if◌then◌else◌, Bool, true, false, inl, inr, none, some, Option, arith, ◌⊎◌, Bool-cases,
  Option-cases, sym, ◌∙◌,
}
use ridematch.Prelude.Int.{ℤ, pos, ◌+ℤ◌, eqb_ℤ, eq_of_eqb_ℤ}
use ridematch.Prelude.Table.{find_by, find_where, save}
use ridematch.Ledger.Models.{Account, IdemKey, RefType, Wallet, EscrowHold, EscrowStatus}
use ridematch.Ledger.Store.{Db, ok, err, hold_conflict, Draw, query, ◌>>=◌, ◌>>◌, pure, write}
use ridematch.Ledger.Post.{from_wallet, ensure_wallet_tx, lock_wallet, lock_one, post}
use ridematch.Ledger.Escrow.{
  of_trip, is_refunded, same_hold, opened, reopened, set_escrows, take_fare, hold_over, hold_escrow,
}
use ridematch.Ledger.Invariant.{InSync, Ensures, Ensures-bind, Ensures-mono, Ensures-transaction}
use ridematch.Ledger.PostOne.{Posted}
use ridematch.Ledger.PostAll.{post-Posted}
use ridematch.Ledger.Balanced.{IsFare, IsLedger, Balanced, create_escrow-Balanced}
use ridematch.Ledger.Transfers.{from_wallet-IsPostable}
use ridematch.Ledger.EscrowLaws.{find_where-save}
use ridematch.Ledger.Paying.{user_row}
use ridematch.Ledger.HoldLaws.{hold_escrow-IsLedger, hold_over-new, hold_over-taken}
use ridematch.Ledger.WalletFirst.{wallet_first}

-- What a hold that says true leaves behind: the row of the trip is the one returned, it is held,
-- and it is on the terms that were asked for.
record Taken (h e : EscrowHold) (db : Db) : Type 0 where
  row : find_where (of_trip h.trip_id) db.escrows ≡ some e
  held : e.status ≡ EscrowStatus.held
  driver : e.payee_driver_id ≡ h.payee_driver_id
  amount : e.amount_kobo ≡ h.amount_kobo
  payer : e.payer_user_id ≡ h.payer_user_id

abbrev Takes : EscrowHold → EscrowHold × Bool → Db → Type 0
Takes h r db = r.1 ≡ true → Taken h r.0 db

module _ (d : Draw) (w : Wallet) (h : EscrowHold) (due : ℤ) where
  take_fare-Takes :
      (old out : EscrowHold) (db : Db)
      → Balanced due (pos 0) db
      → InSync (lock_one w) db
      → find_where (of_trip h.trip_id) db.escrows ≡ some old
      → out.id ≡ old.id
      → out.trip_id ≡ old.trip_id
      → IsFare out
      → ((db' : Db) → find_where (of_trip h.trip_id) db'.escrows ≡ some out → Taken h out db')
      → Ensures (Takes h) (take_fare d w out db)
  unfolding take_fare
  take_fare-Takes old out db b sync row same_id same_trip fare terms =
      Ensures-bind (λ _ db'. Posted (from_wallet Account.escrow w.id out.amount_kobo) db db')
        (Takes h)
        (post d.tx_uuid d.now (IdemKey.escrow_hold out.trip_id out.version) RefType.trip out.trip_id
          "Fare held in escrow" (from_wallet Account.escrow w.id out.amount_kobo) (lock_one w))
        (λ _. (do write (set_escrows (save EscrowHold.id out)); pure (out, true))) db
        (Ensures-mono (λ _ db'. _ × Posted (from_wallet Account.escrow w.id out.amount_kobo) db db')
          _ _ (λ _ db' p. p.1)
          (post-Posted d.tx_uuid d.now (IdemKey.escrow_hold out.trip_id out.version) RefType.trip
            out.trip_id "Fare held in escrow" (from_wallet Account.escrow w.id out.amount_kobo)
            (lock_one w) db b.booked sync
            (from_wallet-IsPostable Account.escrow w.id out.amount_kobo fare)))
        (λ _ db' p yes. terms _ (
          rw p.same_escrows
            (find_where-save h.trip_id db.escrows old out b.escrow_keyed row same_id same_trip)))

hold_over-Takes :
    (d : Draw) (w : Wallet) (h : EscrowHold) (o : Option EscrowHold) (db : Db)
    → IsLedger db
    → InSync (lock_one w) db
    → IsFare h
    → find_where (of_trip h.trip_id) db.escrows ≡ o
    → Ensures (Takes h) (hold_over d w h o db)
unfolding hold_over
hold_over-Takes d w h none db b sync fare e =
    elim (Option-cases (find_by EscrowHold.id d.row_uuid db.escrows)) [
      | inr (r, taken) ↦ rw (hold_over-taken d w h r db taken) tt
      | inl new ↦ rw (hold_over-new d w h db new) (
          take_fare-Takes d w h (pos 0 +ℤ h.amount_kobo) (opened d h) (opened d h) _
            (create_escrow-Balanced (opened d h) (pos 0) (pos 0) db b new fare) sync (ground arith)
            refl refl fare
            (λ db' r. record { row = r; held = refl; driver = refl; amount = refl; payer = refl }))
    ]
hold_over-Takes d w h (some e) db b sync fare found = elim (Bool-cases (is_refunded e.status)) [
  | inr live ↦ elim (Bool-cases (same_hold e h)) [
    | inl same ↦ rw (live, same) (λ x. cc)
    | inr other ↦ rw (live, other) tt
  ]
  | inl refunded ↦ rw refunded (
      take_fare-Takes d w h (pos 0) e (reopened e h) db b sync found refl refl fare
        (λ db' r. record { row = r; held = refl; driver = refl; amount = refl; payer = refl }))
]

hold_escrow-Takes :
    (d : Draw) (h : EscrowHold) (db : Db)
    → IsLedger db
    → IsFare h
    → Ensures (Takes h) (hold_escrow d h db)
unfolding hold_escrow
hold_escrow-Takes d h db b fare =
    Ensures-transaction (Takes h)
      (ensure_wallet_tx d.wallet_uuid h.payer_user_id >>= λ wallet. lock_wallet wallet.id >>= λ w.
        query (λ db. find_where (of_trip h.trip_id) db.escrows) >>= hold_over d w h)
      db
      (wallet_first (Takes h) (pos 0) (pos 0) db b d.wallet_uuid h.payer_user_id
        (λ w. query (λ db. find_where (of_trip h.trip_id) db.escrows) >>= hold_over d w h)
        (λ w db' b' same sync. hold_over-Takes d w h _ db' b' sync fare refl))

-- The terms of the fare, as the driver, the amount and the payer.
abbrev pub SameTerms : EscrowHold → EscrowHold → Type 0
SameTerms h e =
    (h.payee_driver_id ≡ e.payee_driver_id)
    × (h.amount_kobo ≡ e.amount_kobo)
    × (h.payer_user_id ≡ e.payer_user_id)

eqb_ℤ_refl : (a : ℤ) → eqb_ℤ a a ≡ true
eqb_ℤ_refl a = ground arith

same_hold-SameTerms : (e h : EscrowHold) → same_hold e h ≡ true → SameTerms h e
same_hold-SameTerms e h s = ground (arith, eq_of_eqb_ℤ e.amount_kobo h.amount_kobo)

SameTerms-same_hold : (e h : EscrowHold) → SameTerms h e → same_hold e h ≡ true
SameTerms-same_hold e h s = rw (s.0, s.1, s.2) (ground (arith, eqb_ℤ_refl e.amount_kobo))

-- A call on a trip that has an open hold, as its test of the terms says.
hold_escrow-open :
    (d : Draw) (h e : EscrowHold) (w : Wallet) (db : Db)
    → find_by Wallet.user_id h.payer_user_id db.wallets ≡ some w
    → find_by Wallet.id w.id db.wallets ≡ some w
    → find_where (of_trip h.trip_id) db.escrows ≡ some e
    → is_refunded e.status ≡ false
    → hold_escrow d h db ≡ ((if same_hold e h then ok (e, false) else err hold_conflict), db)
unfolding hold_escrow ensure_wallet_tx lock_wallet hold_over
hold_escrow-open d h e w db user row found live = ground arith

-- On balanced tables, where `HoldEscrow` has taken a fare that is a sum of money, a further call
-- for the same trip, by a payer who has a wallet, takes nothing and changes nothing: it returns
-- the hold and false if driver, amount and payer are those of the first call, and is a hold
-- conflict if they are not.
pub hold_escrow-once :
    (d d' : Draw) (h h' e : EscrowHold) (w : Wallet) (db db' : Db)
    → IsLedger db
    → IsFare h
    → hold_escrow d h db ≡ (ok (e, true), db')
    → h'.trip_id ≡ h.trip_id
    → find_by Wallet.user_id h'.payer_user_id db'.wallets ≡ some w
    → (SameTerms h' h × (hold_escrow d' h' db' ≡ (ok (e, false), db')))
      ⊎ (¬ SameTerms h' h × (hold_escrow d' h' db' ≡ (err hold_conflict, db')))
hold_escrow-once d d' h h' e w db db' b fare first same_trip user =
    let t : Taken h e db' =
      subst (Ensures (Takes h)) first (hold_escrow-Takes d h db b fare) refl in
    let b' : IsLedger db' =
      subst (Ensures (λ _ db'. IsLedger db')) first (hold_escrow-IsLedger d h db b fare) in
    let row = user_row h'.payer_user_id db'.wallets w b'.booked.keyed user in
    let found : find_where (of_trip h'.trip_id) db'.escrows ≡ some e = rw same_trip t.row in
    let live : is_refunded e.status ≡ false = rw t.held refl in
    let again = hold_escrow-open d' h' e w db' user row found live in
    elim (Bool-cases (same_hold e h')) [
      | inl same ↦
          let s = same_hold-SameTerms e h' same in
          inl ((s.0 ∙ t.driver, s.1 ∙ t.amount, s.2 ∙ t.payer), again ∙ rw same refl)
      | inr other ↦ inr (
        (λ s.
            let same =
              SameTerms-same_hold e h'
                (s.0 ∙ sym t.driver, s.1 ∙ sym t.amount, s.2 ∙ sym t.payer) in
            cc),
        again ∙ rw other refl,
      )
    ]
