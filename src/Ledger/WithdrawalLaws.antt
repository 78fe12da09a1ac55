-- ===== src/Ledger/WithdrawalLaws.antt =====
-- `CreateWithdrawal` of internal/repository/ledger_repository.go and the balance of the ledger.
use mathlib.Core.Path.{subst, sym}
use ridematch.Prelude.{◌≡◌, false, inl, inr, none, some, ◌∷◌, arith, Option-cases}
use ridematch.Prelude.Int.{pos, zero_+ℤ, int_laws}
use ridematch.Prelude.Table.{find_by}
use ridematch.Ledger.Models.{Account, RefType, IdemKey, Wallet, Withdrawal, is_terminal}
use ridematch.Ledger.Store.{Db, duplicate_key, Result, ok, err, Tx, Draw, ◌>>=◌, ◌>>◌, pure}
use ridematch.Ledger.Post.{from_wallet, lock_wallet, lock_one, post}
use ridematch.Ledger.Withdrawals.{
  WithdrawalGuard, set_withdrawals, new_row, check_guard, store_row, lock_funds, create_withdrawal,
}
use ridematch.Ledger.Invariant.{InSync, Ensures, Ensures-bind, Ensures-transaction}
use ridematch.Ledger.PostOne.{Posted}
use ridematch.Ledger.PostAll.{post-Posted}
use ridematch.Ledger.Balanced.{
  Balanced, IsLedger, IsPayout, Posted-Balanced, create_withdrawal-Balanced,
}
use ridematch.Ledger.Transfers.{from_wallet-IsPostable, posted-from_wallet}
use ridematch.Ledger.EscrowLaws.{Keeps}
use ridematch.Ledger.WalletFirst.{lock_wallet-row, lock_one-InSync}

-- The checks of a withdrawal read the tables and write nothing.
pub check_guard-same :
    (g : WithdrawalGuard) (w : Wallet) (wd : Withdrawal) (db : Db) → (check_guard g w wd db).1 ≡ db
unfolding check_guard
check_guard-same g w wd db = ground arith

module _ (d : Draw) (wd : Withdrawal) (w : Wallet) (db : Db) where
  abbrev locking : Tx Withdrawal
  locking = do
    post d.tx_uuid d.now (IdemKey.withdraw_lock d.row_uuid) RefType.withdrawal d.row_uuid
        "Withdrawal to bank" (from_wallet Account.payout_pending w.id wd.amount_kobo) (lock_one w)
    pure (new_row d wd)

  abbrev with_row : Db
  with_row = set_withdrawals (λ ws. new_row d wd ∷ ws) db

  store_row-new :
      find_by Withdrawal.id d.row_uuid db.withdrawals ≡ none
      → find_by Withdrawal.reference wd.reference db.withdrawals ≡ none
      → store_row d wd w db ≡ locking with_row
  unfolding store_row
  store_row-new h k = ground arith

  store_row-taken :
      (r : Withdrawal)
      → find_by Withdrawal.id d.row_uuid db.withdrawals ≡ some r
      → store_row d wd w db ≡ (err duplicate_key, db)
  unfolding store_row
  store_row-taken r h = ground arith

  store_row-used :
      (r : Withdrawal)
      → find_by Withdrawal.id d.row_uuid db.withdrawals ≡ none
      → find_by Withdrawal.reference wd.reference db.withdrawals ≡ some r
      → store_row d wd w db ≡ (err duplicate_key, db)
  unfolding store_row
  store_row-used r h k = ground arith

  module _ (b : IsLedger db) (sync : InSync (lock_one w) db) (payout : IsPayout wd)
      (live : is_terminal wd.status ≡ false)
      (new : find_by Withdrawal.id d.row_uuid db.withdrawals ≡ none) where
    -- The new row has put the payout pool in debt by its amount; the movement pays that.
    locking-IsLedger : Ensures Keeps (locking with_row)
    locking-IsLedger =
        let owing : Balanced (pos 0) wd.amount_kobo with_row =
          subst (λ z. Balanced (pos 0) z with_row) (rw live (zero_+ℤ wd.amount_kobo))
            (create_withdrawal-Balanced (new_row d wd) (pos 0) (pos 0) db b new payout) in
        Ensures-bind
          (λ _ db'.
            _ × Posted (from_wallet Account.payout_pending w.id wd.amount_kobo) with_row db')
          Keeps
          (post d.tx_uuid d.now (IdemKey.withdraw_lock d.row_uuid) RefType.withdrawal d.row_uuid
            "Withdrawal to bank" (from_wallet Account.payout_pending w.id wd.amount_kobo)
            (lock_one w))
          (λ _. pure (new_row d wd)) with_row
          (post-Posted d.tx_uuid d.now (IdemKey.withdraw_lock d.row_uuid) RefType.withdrawal
            d.row_uuid "Withdrawal to bank" (from_wallet Account.payout_pending w.id wd.amount_kobo)
            (lock_one w) with_row owing.booked sync
            (from_wallet-IsPostable Account.payout_pending w.id wd.amount_kobo payout.0))
          (λ _ db' p.
            Posted-Balanced _ (pos 0) (pos 0) wd.amount_kobo (pos 0) with_row db' owing p.1
              (posted-from_wallet Account.payout_pending w.id wd.amount_kobo payout.0)
              (omega int_laws) (omega int_laws))

  store_row-IsLedger :
      IsLedger db
      → InSync (lock_one w) db
      → IsPayout wd
      → is_terminal wd.status ≡ false
      → Ensures Keeps (store_row d wd w db)
  store_row-IsLedger b sync payout live =
      elim (Option-cases (find_by Withdrawal.id d.row_uuid db.withdrawals)) [
        | inr (r, taken) ↦ rw (store_row-taken r taken) tt
        | inl new ↦ elim (Option-cases (find_by Withdrawal.reference wd.reference db.withdrawals)) [
          | inr (r, used) ↦ rw (store_row-used r new used) tt
          | inl unused ↦ rw (store_row-new new unused) (locking-IsLedger b sync payout live new)
        ]
      ]

-- What an action that writes nothing ensures.
Ensures-same : {A : Type 0} (r : Result A × Db) (db : Db) → r.1 ≡ db → Ensures (λ _ db'. db' ≡ db) r
Ensures-same (ok a, db') db h = h
Ensures-same (err e, db') db h = tt

-- Asking for a payout keeps the ledger balanced: the wallet pays the pool what the row says.
pub create_withdrawal-IsLedger :
    (d : Draw) (wd : Withdrawal) (g : WithdrawalGuard) (db : Db)
    → IsLedger db
    → IsPayout wd
    → is_terminal wd.status ≡ false
    → Ensures (λ _ db'. IsLedger db') (create_withdrawal d wd g db)
unfolding create_withdrawal lock_funds
create_withdrawal-IsLedger d wd g db b payout live =
    Ensures-transaction (λ _ db'. IsLedger db')
      (lock_wallet wd.wallet_id >>= λ w. check_guard g w wd >> store_row d wd w) db
      (Ensures-bind (λ w db'. (db' ≡ db) × (find_by Wallet.id w.id db.wallets ≡ some w))
        (λ _ db'. IsLedger db') (lock_wallet wd.wallet_id)
        (λ w. check_guard g w wd >> store_row d wd w) db (lock_wallet-row wd.wallet_id db)
        (λ w db' q.
          subst
            (λ e. Ensures (λ _ db''. IsLedger db'') ((check_guard g w wd >> store_row d wd w) e))
            (sym q.0)
            (Ensures-bind (λ _ db''. db'' ≡ db) (λ _ db''. IsLedger db'') (check_guard g w wd)
              (λ _. store_row d wd w) db
              (Ensures-same (check_guard g w wd db) db (check_guard-same g w wd db))
              (λ _ db'' same.
                subst (λ e. Ensures (λ _ d'. IsLedger d') (store_row d wd w e)) (sym same)
                  (store_row-IsLedger d wd w db b (lock_one-InSync w db q.1) payout live)))))
