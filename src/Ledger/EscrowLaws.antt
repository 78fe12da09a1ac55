-- ===== src/Ledger/EscrowLaws.antt =====
-- `ReleaseEscrow` and `RefundEscrow` of internal/repository/ledger_repository.go and the balance
-- of the ledger.
use mathlib.Core.Path.{subst, sym}
use ridematch.Prelude.{
  ◌≡◌, refl, Bool, true, false, inl, inr, some, Option, String, List, [], ◌∷◌, arith, ◌⊎◌,
  Bool-cases, if◌then◌else◌,
}
use ridematch.Prelude.Int.{pos, ◌+ℤ◌, +ℤ_comm, int_laws}
use ridematch.Prelude.Word.{neg64-exact}
use ridematch.Prelude.Table.{find_where, find_by, find_where-key, All-find_by, save, IsKeyed}
use ridematch.Ledger.Models.{RowId, Account, RefType, IdemKey, Wallet, EscrowHold}
use ridematch.Ledger.Store.{Db, not_found, Tx, Draw, ◌>>=◌, ◌>>◌, pure, write}
use ridematch.Ledger.Post.{to_wallet, ensure_wallet_tx, lock_wallet, lock_one, post, once}
use ridematch.Ledger.Escrow.{
  of_trip, is_settled, set_escrows, released_hold, refunded_hold, release_hold, refund_hold,
  release_escrow, refund_escrow,
}
use ridematch.Ledger.Sums.{held_amount}
use ridematch.Ledger.Invariant.{Ensures, Ensures-bind, load_first}
use ridematch.Ledger.PostOne.{Posted}
use ridematch.Ledger.PostAll.{once-Posted, Settled}
use ridematch.Ledger.Balanced.{IsFare, IsLedger, Posted-Balanced, save_escrow-Balanced}
use ridematch.Ledger.Transfers.{to_wallet-IsPostable, posted-to_wallet}
use ridematch.Ledger.WalletFirst.{wallet_first}

abbrev pub Keeps : {A : Type 0} → A → Db → Type 0
Keeps _ db = IsLedger db

-- A saved row is found for its trip where the old one was.
pub find_where-save :
    (trip : RowId) (hs : List EscrowHold) (h out : EscrowHold)
    → IsKeyed EscrowHold.id hs
    → find_where (of_trip trip) hs ≡ some h
    → out.id ≡ h.id
    → out.trip_id ≡ h.trip_id
    → find_where (of_trip trip) (save EscrowHold.id out hs) ≡ some out
find_where-save trip [] h out u found i t = cc
find_where-save trip (x ∷ xs) h out u found i t =
    ground (
      arith,
      find_where-key EscrowHold.id (of_trip trip) xs h u.1,
      find_where-save trip xs h out u.1,
    )

-- A settlement of an open hold, to any wallet: what `ReleaseEscrow` and `RefundEscrow` share.
module _ (d : Draw) (h out : EscrowHold) (key : IdemKey) (desc : String) where
  abbrev pub settling : Wallet → Tx (Unit {0})
  settling w =
      post d.tx_uuid d.now key RefType.trip h.trip_id desc
        (to_wallet Account.escrow w.id h.amount_kobo) (lock_one w)

  abbrev pub save_if : Bool → Tx Bool
  save_if applied =
      if applied then (do write (set_escrows (save EscrowHold.id out)); pure true) else pure false

  module _ (open_hold : is_settled h.status ≡ false) (closed : is_settled out.status ≡ true)
      (same_id : out.id ≡ h.id) (same_amount : out.amount_kobo ≡ h.amount_kobo)
      (fare : IsFare h) where
    held_moves : h.amount_kobo +ℤ held_amount out ≡ pos 0 +ℤ held_amount h
    held_moves = ground (arith, +ℤ_comm h.amount_kobo (pos 0))

    save_settled :
        (w : Wallet) (db db' : Db)
        → IsLedger db
        → find_by EscrowHold.id h.id db.escrows ≡ some h
        → Posted (to_wallet Account.escrow w.id h.amount_kobo) db db'
        → IsLedger (set_escrows (save EscrowHold.id out) db')
    save_settled w db db' b row p =
        save_escrow-Balanced h out h.amount_kobo (pos 0) (pos 0) db'
          (Posted-Balanced _ (pos 0) h.amount_kobo (pos 0) (pos 0) db db' b p
            (posted-to_wallet Account.escrow w.id h.amount_kobo fare)
            (rw (neg64-exact h.amount_kobo fare) (omega int_laws)) (omega int_laws))
          (simp (same_id, p.same_escrows) row) (simp same_amount fare) held_moves

    finish :
        (w : Wallet) (db db' : Db) (applied : Bool)
        → IsLedger db
        → find_by EscrowHold.id h.id db.escrows ≡ some h
        → ((applied ≡ true) × Posted (to_wallet Account.escrow w.id h.amount_kobo) db db')
          ⊎ ((applied ≡ false) × (db' ≡ db))
        → Ensures Keeps (save_if applied db')
    finish w db db' true b row (inl (_, p)) = save_settled w db db' b row p
    finish w db db' true b row (inr (no_, _)) = cc
    finish w db db' false b row (inl (no_, _)) = cc
    finish w db db' false b row (inr (_, same)) = subst IsLedger (sym same) b

    settle-IsLedger :
        (uuid user : RowId) (db : Db)
        → IsLedger db
        → find_by EscrowHold.id h.id db.escrows ≡ some h
        → Ensures Keeps (
            (do
              wallet ← ensure_wallet_tx uuid user
              w ← lock_wallet wallet.id
              applied ← once (settling w)
              save_if applied)
              db)
    settle-IsLedger uuid user db b row =
        wallet_first Keeps (pos 0) (pos 0) db b uuid user (λ w. once (settling w) >>= save_if)
          (λ w db' b' same sync.
            Ensures-bind (Settled (to_wallet Account.escrow w.id h.amount_kobo) db') Keeps
              (once (settling w)) save_if db'
              (once-Posted d.tx_uuid d.now key RefType.trip h.trip_id desc
                (to_wallet Account.escrow w.id h.amount_kobo) (lock_one w) db' b'.booked sync
                (to_wallet-IsPostable Account.escrow w.id h.amount_kobo fare))
              (λ applied db'' s. finish w db' db'' applied b' (simp same.escrows row) s.1))

-- Every row of the table holds a sum of money, so the one that is found does.
module _ (h : EscrowHold) (trip : RowId) (db : Db) (b : IsLedger db)
    (found : find_where (of_trip trip) db.escrows ≡ some h) where
  pub hold_row : find_by EscrowHold.id h.id db.escrows ≡ some h
  hold_row = find_where-key EscrowHold.id (of_trip trip) db.escrows h b.escrow_keyed found

  pub hold-IsFare : IsFare h
  hold-IsFare = All-find_by EscrowHold.id IsFare h.id db.escrows h hold_row b.escrow_amounts

release_hold-IsLedger :
    (d : Draw) (note : String) (h : EscrowHold) (db : Db)
    → IsLedger db
    → find_by EscrowHold.id h.id db.escrows ≡ some h
    → IsFare h
    → Ensures Keeps (release_hold d note h db)
unfolding release_hold
release_hold-IsLedger d note h db b row fare = elim (Bool-cases (is_settled h.status)) [
  | inl settled ↦ rw settled b
  | inr open_hold ↦ rw open_hold (
      settle-IsLedger d h (released_hold d note h) (IdemKey.escrow_release h.trip_id h.version)
        "Trip payment received" open_hold refl refl refl fare d.wallet_uuid h.payee_user_id db b
        row)
]

refund_hold-IsLedger :
    (d : Draw) (by : Option RowId) (note : String) (h : EscrowHold) (db : Db)
    → IsLedger db
    → find_by EscrowHold.id h.id db.escrows ≡ some h
    → IsFare h
    → Ensures Keeps (refund_hold d by note h db)
unfolding refund_hold
refund_hold-IsLedger d by note h db b row fare = elim (Bool-cases (is_settled h.status)) [
  | inl settled ↦ rw settled b
  | inr open_hold ↦ rw open_hold (
      settle-IsLedger d h (refunded_hold d by note h) (IdemKey.escrow_refund h.trip_id h.version)
        "Trip payment refunded" open_hold refl refl refl fare d.wallet_uuid h.payer_user_id db b
        row)
]

-- Releasing a fare keeps the ledger balanced, whether or not anything moves.
pub release_escrow-IsLedger :
    (d : Draw) (trip : RowId) (note : String) (db : Db)
    → IsLedger db
    → Ensures (λ _ db'. IsLedger db') (release_escrow d trip note db)
unfolding release_escrow
release_escrow-IsLedger d trip note db b =
    load_first (λ _ db'. IsLedger db') (find_where (of_trip trip) db.escrows) not_found
      (release_hold d note) db
      (λ h found.
        release_hold-IsLedger d note h db b (hold_row h trip db b found)
          (hold-IsFare h trip db b found))

pub refund_escrow-IsLedger :
    (d : Draw) (trip : RowId) (by : Option RowId) (note : String) (db : Db)
    → IsLedger db
    → Ensures (λ _ db'. IsLedger db') (refund_escrow d trip by note db)
unfolding refund_escrow
refund_escrow-IsLedger d trip by note db b =
    load_first (λ _ db'. IsLedger db') (find_where (of_trip trip) db.escrows) not_found
      (refund_hold d by note) db
      (λ h found.
        refund_hold-IsLedger d by note h db b (hold_row h trip db b found)
          (hold-IsFare h trip db b found))
