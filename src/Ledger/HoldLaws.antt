-- ===== src/Ledger/HoldLaws.antt =====
-- `HoldEscrow`, `MarkEscrowCompleted` and `DisputeEscrow` of
-- internal/repository/ledger_repository.go and the balance of the ledger.
use ridematch.Prelude.{
  ◌≡◌, refl, ◌&&◌, Bool, true, inl, inr, none, some, Option, String, ◌∷◌, arith, Bool-cases,
  Option-cases,
}
use ridematch.Prelude.Int.{ℤ, pos, ◌+ℤ◌, ◌-ℤ◌, int_laws}
use ridematch.Prelude.Table.{
  find_where, find_by, save, update_where, IsKeyed-update_where, All-update_where,
  sum_by-update_where,
}
use ridematch.Ledger.Models.{RowId, Time, Account, RefType, IdemKey, Wallet, EscrowHold}
use ridematch.Ledger.Store.{Db, duplicate_key, query, err, Draw, ◌>>=◌, ◌>>◌, pure, write}
use ridematch.Ledger.Post.{from_wallet, ensure_wallet_tx, lock_wallet, lock_one, post}
use ridematch.Ledger.Escrow.{
  of_trip, set_escrows, is_held, is_refunded, opened, reopened, same_hold, mark_escrow_completed,
  dispute, dispute_escrow, hold_escrow, take_fare, hold_over,
}
use ridematch.Ledger.Sums.{held_amount}
use ridematch.Ledger.Invariant.{InSync, Ensures, Ensures-mono, Ensures-bind, Ensures-transaction}
use ridematch.Ledger.PostOne.{Posted}
use ridematch.Ledger.PostAll.{post-Posted}
use ridematch.Ledger.Balanced.{
  IsFare, Balanced, IsLedger, Posted-Balanced, save_escrow-Balanced, create_escrow-Balanced,
}
use ridematch.Ledger.Transfers.{from_wallet-IsPostable, posted-from_wallet}
use ridematch.Ledger.EscrowLaws.{Keeps, hold_row}
use ridematch.Ledger.WalletFirst.{wallet_first}

-- The end of a hold: the pool is paid what the row it replaces still lacks.
take_fare-IsLedger :
    (d : Draw) (w : Wallet) (old out : EscrowHold) (due : ℤ) (db : Db)
    → Balanced due (pos 0) db
    → InSync (lock_one w) db
    → find_by EscrowHold.id out.id db.escrows ≡ some old
    → IsFare out
    → held_amount out ≡ out.amount_kobo
    → due ≡ held_amount old
    → Ensures Keeps (take_fare d w out db)
unfolding take_fare
take_fare-IsLedger d w old out due db b sync row fare live owed =
    Ensures-bind (λ _ db'. Posted (from_wallet Account.escrow w.id out.amount_kobo) db db') Keeps
      (post d.tx_uuid d.now (IdemKey.escrow_hold out.trip_id out.version) RefType.trip out.trip_id
        "Fare held in escrow" (from_wallet Account.escrow w.id out.amount_kobo) (lock_one w))
      (λ _. (do write (set_escrows (save EscrowHold.id out)); pure (out, true))) db
      (Ensures-mono (λ _ db'. _ × Posted (from_wallet Account.escrow w.id out.amount_kobo) db db') _
        _ (λ _ db' p. p.1)
        (post-Posted d.tx_uuid d.now (IdemKey.escrow_hold out.trip_id out.version) RefType.trip
          out.trip_id "Fare held in escrow" (from_wallet Account.escrow w.id out.amount_kobo)
          (lock_one w) db b.booked sync
          (from_wallet-IsPostable Account.escrow w.id out.amount_kobo fare)))
      (λ _ db' p.
        save_escrow-Balanced old out (due -ℤ out.amount_kobo) (pos 0) (pos 0) db'
          (Posted-Balanced _ due (due -ℤ out.amount_kobo) (pos 0) (pos 0) db db' b p
            (posted-from_wallet Account.escrow w.id out.amount_kobo fare) (omega int_laws)
            (omega int_laws))
          (rw p.same_escrows row) fare (rw (live, ← owed) (omega int_laws)))

pub hold_over-new :
    (d : Draw) (w : Wallet) (h : EscrowHold) (db : Db)
    → find_by EscrowHold.id d.row_uuid db.escrows ≡ none
    → hold_over d w h none db ≡ take_fare d w (opened d h) (set_escrows (λ hs. opened d h ∷ hs) db)
unfolding hold_over
hold_over-new d w h db new = ground arith

pub hold_over-taken :
    (d : Draw) (w : Wallet) (h r : EscrowHold) (db : Db)
    → find_by EscrowHold.id d.row_uuid db.escrows ≡ some r
    → hold_over d w h none db ≡ (err duplicate_key, db)
unfolding hold_over
hold_over-taken d w h r db taken = ground arith

hold_over-IsLedger :
    (d : Draw) (w : Wallet) (h : EscrowHold) (o : Option EscrowHold) (db : Db)
    → IsLedger db
    → InSync (lock_one w) db
    → IsFare h
    → find_where (of_trip h.trip_id) db.escrows ≡ o
    → Ensures Keeps (hold_over d w h o db)
unfolding hold_over
hold_over-IsLedger d w h none db b sync fare e =
    elim (Option-cases (find_by EscrowHold.id d.row_uuid db.escrows)) [
      | inr (r, taken) ↦ rw (hold_over-taken d w h r db taken) tt
      | inl new ↦ rw (hold_over-new d w h db new) (
          take_fare-IsLedger d w (opened d h) (opened d h) (pos 0 +ℤ h.amount_kobo) _
            (create_escrow-Balanced (opened d h) (pos 0) (pos 0) db b new fare) sync (ground arith)
            fare refl (omega int_laws))
    ]
hold_over-IsLedger d w h (some e) db b sync fare found = elim (Bool-cases (is_refunded e.status)) [
  | inr live ↦ elim (Bool-cases (same_hold e h)) [
    | inl same ↦ rw (live, same) b
    | inr other ↦ rw (live, other) tt
  ]
  | inl refunded ↦ rw refunded (
      take_fare-IsLedger d w e (reopened e h) (pos 0) db b sync (hold_row e h.trip_id db b found)
        fare refl (ground arith))
]

-- Holding a fare keeps the ledger balanced, for every fare that is a sum of money.
pub hold_escrow-IsLedger :
    (d : Draw) (h : EscrowHold) (db : Db)
    → IsLedger db
    → IsFare h
    → Ensures (λ _ db'. IsLedger db') (hold_escrow d h db)
unfolding hold_escrow
hold_escrow-IsLedger d h db b fare =
    Ensures-transaction (λ _ db'. IsLedger db')
      (ensure_wallet_tx d.wallet_uuid h.payer_user_id >>= λ wallet. lock_wallet wallet.id >>= λ w.
        query (λ db. find_where (of_trip h.trip_id) db.escrows) >>= hold_over d w h)
      db
      (wallet_first (λ _ db'. IsLedger db') (pos 0) (pos 0) db b d.wallet_uuid h.payer_user_id
        (λ w. query (λ db. find_where (of_trip h.trip_id) db.escrows) >>= hold_over d w h)
        (λ w db' b' same sync. hold_over-IsLedger d w h _ db' b' sync fare refl))

-- A change to some holds that keeps ids and amounts, and keeps open holds open.
module _ (p : EscrowHold → Bool) (f : EscrowHold → EscrowHold) (db : Db) (b : IsLedger db)
    (same_id : (h : EscrowHold) → (f h).id ≡ h.id)
    (same_fare : (h : EscrowHold) → IsFare h → IsFare (f h))
    (same_held : (h : EscrowHold) → p h ≡ true → held_amount (f h) ≡ held_amount h) where
  update_escrows-IsLedger : IsLedger (set_escrows (update_where p f) db)
  update_escrows-IsLedger = record {
    booked = b.booked;
    zero = b.zero;
    escrow_keyed = IsKeyed-update_where EscrowHold.id p f same_id db.escrows b.escrow_keyed;
    escrow_amounts = All-update_where p f IsFare db.escrows same_fare b.escrow_amounts;
    escrow_pool = rw (sum_by-update_where p f held_amount db.escrows same_held) b.escrow_pool;
    withdrawal_keyed = b.withdrawal_keyed;
    withdrawal_amounts = b.withdrawal_amounts;
    payout_pool = b.payout_pool;
  }

pub mark_escrow_completed-IsLedger :
    (trip : RowId) (after : Time) (db : Db)
    → IsLedger db
    → IsLedger (mark_escrow_completed trip after db).1
unfolding mark_escrow_completed
mark_escrow_completed-IsLedger trip after db b =
    update_escrows-IsLedger (λ h. of_trip trip h && is_held h.status)
      (λ h. record h { release_after = some after }) db b (λ _. refl) (λ _ fare. fare) (λ _ _. refl)

held-dispute :
    (now : Time) (reason : String) (trip : RowId) (h : EscrowHold)
    → (of_trip trip h && is_held h.status) ≡ true
    → held_amount (dispute now reason h) ≡ held_amount h
held-dispute now reason trip h e = ground arith

-- A dispute parks the money where it is.
pub dispute_escrow-IsLedger :
    (d : Draw) (trip : RowId) (reason : String) (db : Db)
    → IsLedger db
    → IsLedger (dispute_escrow d trip reason db).1
unfolding dispute_escrow
dispute_escrow-IsLedger d trip reason db b =
    update_escrows-IsLedger (λ h. of_trip trip h && is_held h.status) (dispute d.now reason) db b
      (λ _. refl) (λ _ fare. fare) (held-dispute d.now reason trip)
