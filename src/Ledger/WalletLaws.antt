-- ===== src/Ledger/WalletLaws.antt =====
-- The wallet operations of internal/repository/ledger_repository.go and the balance of the
-- ledger.
use mathlib.Core.Path.{subst, sym}
use ridematch.Prelude.{
  ℕ, ◌+◌, ◌≡◌, refl, ◌&&◌, Bool, inl, inr, some, String, ltb, leb, Bool-cases, Option-cases,
}
use ridematch.Prelude.Int.{pos}
use ridematch.Prelude.Table.{find_by, update_by}
use ridematch.Ledger.Models.{RowId, Time, Wallet}
use ridematch.Ledger.Store.{Db, Result, ok, err, Tx, Draw, ◌>>=◌, write}
use ridematch.Ledger.Post.{set_wallets, lock_wallet}
use ridematch.Ledger.Wallets.{
  ensure_wallet, update_wallet_security, count_pin_failure, record_pin_failure, set_wallet_frozen,
}
use ridematch.Ledger.Invariant.{Ensures, Ensures-bind, Ensures-transaction}
use ridematch.Ledger.Balanced.{IsLedger}
use ridematch.Ledger.EscrowLaws.{Keeps}
use ridematch.Ledger.SameFunds.{SameFunds-update_by, SameFunds-Books}
use ridematch.Ledger.WalletFirst.{
  with_fresh-Balanced, ensure_wallet_tx-found, ensure_wallet_tx-fresh, ensure_wallet_tx-taken,
  lock_wallet-row,
}

module _ (key : Wallet → ℕ) (k : ℕ) (f : Wallet → Wallet) (db : Db) (b : IsLedger db)
    (same_id : (w : Wallet) → (f w).id ≡ w.id)
    (same_balance : (w : Wallet) → (f w).balance_kobo ≡ w.balance_kobo) where
  update_wallets-IsLedger : IsLedger (set_wallets (update_by key k f) db)
  update_wallets-IsLedger = record {
    booked =
        SameFunds-Books db.wallets (update_by key k f db.wallets) db.entries
          (SameFunds-update_by key k f db.wallets same_id same_balance) b.booked;
    zero = b.zero;
    escrow_keyed = b.escrow_keyed;
    escrow_amounts = b.escrow_amounts;
    escrow_pool = b.escrow_pool;
    withdrawal_keyed = b.withdrawal_keyed;
    withdrawal_amounts = b.withdrawal_amounts;
    payout_pool = b.payout_pool;
  }

pub ensure_wallet-IsLedger :
    (d : Draw) (user : RowId) (db : Db) → IsLedger db → IsLedger (ensure_wallet d user db).1
unfolding ensure_wallet
ensure_wallet-IsLedger d user db b = elim (Option-cases (find_by Wallet.user_id user db.wallets)) [
  | inr (w, found) ↦ rw (ensure_wallet_tx-found d.wallet_uuid user db w found) b
  | inl missing ↦ elim (Option-cases (find_by Wallet.id d.wallet_uuid db.wallets)) [
    | inr (w, taken) ↦ rw (ensure_wallet_tx-taken d.wallet_uuid user db w missing taken) b
    | inl new ↦
        rw (ensure_wallet_tx-fresh d.wallet_uuid user db missing new)
          (with_fresh-Balanced d.wallet_uuid user (pos 0) (pos 0) db new b)
  ]
]

-- A stale copy of a wallet cannot overwrite its balance.
pub update_wallet_security-IsLedger :
    (w : Wallet) (db : Db) → IsLedger db → IsLedger (update_wallet_security w db).1
unfolding update_wallet_security
update_wallet_security-IsLedger w db b =
    update_wallets-IsLedger Wallet.id w.id _ db b (λ _. refl) (λ _. refl)

count_pin_failure-IsLedger :
    (d : Draw) (id : RowId) (max : ℕ) (lock_for : Time) (w : Wallet) (db : Db)
    → IsLedger db
    → Ensures Keeps (count_pin_failure d id max lock_for w db)
unfolding count_pin_failure
count_pin_failure-IsLedger d id max lock_for w db b =
    elim (Bool-cases (ltb 0 max && leb max (w.pin_failed_attempts + 1))) [
      | inl locks ↦ rw locks (update_wallets-IsLedger Wallet.id id _ db b (λ _. refl) (λ _. refl))
      | inr counts ↦ rw counts (update_wallets-IsLedger Wallet.id id _ db b (λ _. refl) (λ _. refl))
    ]

pub record_pin_failure-IsLedger :
    (d : Draw) (id : RowId) (max : ℕ) (lock_for : Time) (db : Db)
    → IsLedger db
    → Ensures (λ _ db'. IsLedger db') (record_pin_failure d id max lock_for db)
unfolding record_pin_failure
record_pin_failure-IsLedger d id max lock_for db b =
    Ensures-transaction (λ _ db'. IsLedger db')
      (lock_wallet id >>= count_pin_failure d id max lock_for) db
      (Ensures-bind (λ w db'. (db' ≡ db) × (find_by Wallet.id w.id db.wallets ≡ some w))
        (λ _ db'. IsLedger db') (lock_wallet id) (count_pin_failure d id max lock_for) db
        (lock_wallet-row id db)
        (λ w db' q.
          subst (λ e. Ensures Keeps (count_pin_failure d id max lock_for w e)) (sym q.0)
            (count_pin_failure-IsLedger d id max lock_for w db b)))

-- A second action that keeps the ledger balanced, after one that does.
bind-IsLedger :
    {A B : Type 0} (m : Tx A) (f : A → Tx B) (db : Db)
    → IsLedger (m db).1
    → ((a : A) (db' : Db) → IsLedger db' → IsLedger (f a db').1)
    → IsLedger ((m >>= f) db).1
bind-IsLedger {A = A} {B = B} m f db b h = go (m db) b
  where
    go :
        (r : Result A × Db)
        → IsLedger r.1
        → IsLedger (elim r.0 as (λ _. Result B × Db) [ ok a ↦ f a r.1 | err e ↦ (err e, r.1) ]).1
    go (ok a, db') q = h a db' q
    go (err e, db') q = q

pub set_wallet_frozen-IsLedger :
    (d : Draw) (user : RowId) (frozen : Bool) (reason : String) (db : Db)
    → IsLedger db
    → IsLedger (set_wallet_frozen d user frozen reason db).1
unfolding set_wallet_frozen
set_wallet_frozen-IsLedger d user frozen reason db b =
    bind-IsLedger (ensure_wallet d user)
      (λ _. write (
        set_wallets (
          update_by Wallet.user_id user
            (λ r. record r { withdrawals_frozen = frozen; frozen_reason = reason }))))
      db (ensure_wallet-IsLedger d user db b)
      (λ _ db' b'. update_wallets-IsLedger Wallet.user_id user _ db' b' (λ _. refl) (λ _. refl))
