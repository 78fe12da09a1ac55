-- ===== src/Ledger/WalletFirst.antt =====
-- How a money movement begins: the user's wallet is made if it is missing, and its row is locked
-- (`ensureWalletTx` and `lockWallet` of internal/repository/ledger_repository.go).
use ridematch.Prelude.{◌≡◌, refl, inl, inr, none, some, ◌∷◌, arith, Option-cases}
use ridematch.Prelude.Int.{ℤ, zero_+ℤ}
use mathlib.Core.Path.{subst, sym}
use ridematch.Prelude.Table.{find_by, find_by-key}
use ridematch.Ledger.Models.{RowId, Wallet}
use ridematch.Ledger.Store.{Db, record_not_found, ok, err, Tx, ◌>>=◌}
use ridematch.Ledger.Post.{set_wallets, fresh_wallet, lock_wallet, ensure_wallet_tx, lock_one}
use ridematch.Ledger.Invariant.{IsBooked, InSync, Ensures, Ensures-bind}
use ridematch.Ledger.Balanced.{Balanced}

abbrev pub with_fresh : RowId → RowId → Db → Db
with_fresh uuid user = set_wallets (λ ws. fresh_wallet uuid user ∷ ws)

-- The three ways in which `ensureWalletTx` can end.
module _ (uuid user : RowId) (db : Db) where
  pub ensure_wallet_tx-found :
      (w : Wallet)
      → find_by Wallet.user_id user db.wallets ≡ some w
      → ensure_wallet_tx uuid user db ≡ (ok w, db)
  unfolding ensure_wallet_tx
  ensure_wallet_tx-found w h = ground arith

  pub ensure_wallet_tx-fresh :
      find_by Wallet.user_id user db.wallets ≡ none
      → find_by Wallet.id uuid db.wallets ≡ none
      → ensure_wallet_tx uuid user db ≡ (ok (fresh_wallet uuid user), with_fresh uuid user db)
  unfolding ensure_wallet_tx
  ensure_wallet_tx-fresh h k = ground arith

  pub ensure_wallet_tx-taken :
      (w : Wallet)
      → find_by Wallet.user_id user db.wallets ≡ none
      → find_by Wallet.id uuid db.wallets ≡ some w
      → ensure_wallet_tx uuid user db ≡ (err record_not_found, db)
  unfolding ensure_wallet_tx
  ensure_wallet_tx-taken w h k = ground arith

-- A wallet under a new id keeps the books: no entry names it.
with_fresh-IsBooked :
    (uuid user : RowId) (db : Db)
    → find_by Wallet.id uuid db.wallets ≡ none
    → IsBooked db
    → IsBooked (with_fresh uuid user db)
with_fresh-IsBooked uuid user db new b = record {
  keyed = (new, b.keyed);
  nonneg = λ id w h. ground (arith, b.nonneg id w);
  agrees = λ id w h. ground (arith, b.agrees id w, b.unknown id);
  unknown = λ id h. ground (arith, b.unknown id);
  balances = rw zero_+ℤ b.balances;
}

pub with_fresh-Balanced :
    (uuid user : RowId) (due pay : ℤ) (db : Db)
    → find_by Wallet.id uuid db.wallets ≡ none
    → Balanced due pay db
    → Balanced due pay (with_fresh uuid user db)
with_fresh-Balanced uuid user due pay db new b = record {
  booked = with_fresh-IsBooked uuid user db new b.booked;
  zero = b.zero;
  escrow_keyed = b.escrow_keyed;
  escrow_amounts = b.escrow_amounts;
  escrow_pool = b.escrow_pool;
  withdrawal_keyed = b.withdrawal_keyed;
  withdrawal_amounts = b.withdrawal_amounts;
  payout_pool = b.payout_pool;
}

-- Only the wallets may differ.
pub record SameTables (db db' : Db) : Type 0 where
  pub transactions : db'.transactions ≡ db.transactions
  pub entries : db'.entries ≡ db.entries
  pub topups : db'.topups ≡ db.topups
  pub escrows : db'.escrows ≡ db.escrows
  pub withdrawals : db'.withdrawals ≡ db.withdrawals

SameTables-refl : (db : Db) → SameTables db db
SameTables-refl db = record {
  transactions = refl;
  entries = refl;
  topups = refl;
  escrows = refl;
  withdrawals = refl;
}

module _ (due pay : ℤ) (db : Db) (b : Balanced due pay db) where
  pub ensure_wallet_tx-Balanced :
      (uuid user : RowId)
      → Ensures (λ _ db'. Balanced due pay db' × SameTables db db') (ensure_wallet_tx uuid user db)
  ensure_wallet_tx-Balanced uuid user =
      elim (Option-cases (find_by Wallet.user_id user db.wallets)) [
        | inr (w, found) ↦ rw (ensure_wallet_tx-found uuid user db w found) (b, SameTables-refl db)
        | inl missing ↦ elim (Option-cases (find_by Wallet.id uuid db.wallets)) [
          | inr (w, taken) ↦ rw (ensure_wallet_tx-taken uuid user db w missing taken) tt
          | inl new ↦ rw (ensure_wallet_tx-fresh uuid user db missing new) (
            with_fresh-Balanced uuid user due pay db new b,
            record {
              transactions = refl;
              entries = refl;
              topups = refl;
              escrows = refl;
              withdrawals = refl;
            },
          )
        ]
      ]

pub lock_wallet-row :
    (id : RowId) (db : Db)
    → Ensures
        (λ w db'. (db' ≡ db) × (find_by Wallet.id w.id db.wallets ≡ some w))
        (lock_wallet id db)
unfolding lock_wallet
lock_wallet-row id db = elim (Option-cases (find_by Wallet.id id db.wallets)) [
  | inr (w, found) ↦ rw found (refl, simp (find_by-key Wallet.id id db.wallets w found) found)
  | inl missing ↦ rw missing tt
]

-- A row that was just locked is in step with its table.
pub lock_one-InSync :
    (w : Wallet) (db : Db) → find_by Wallet.id w.id db.wallets ≡ some w → InSync (lock_one w) db
lock_one-InSync w db row j v h = ground arith

-- The start of every movement that credits or charges a user: what follows may count on a locked
-- row, on the books, and on all other tables being as they were.
module _ {A : Type 0} (Q : A → Db → Type 0) (due pay : ℤ) (db : Db) (b : Balanced due pay db) where
  pub wallet_first :
      (uuid user : RowId) (f : Wallet → Tx A)
      → ((w : Wallet) (db' : Db)
          → Balanced due pay db'
          → SameTables db db'
          → InSync (lock_one w) db'
          → Ensures Q (f w db'))
      → Ensures Q ((ensure_wallet_tx uuid user >>= λ wallet. lock_wallet wallet.id >>= f) db)
  wallet_first uuid user f h =
      Ensures-bind (λ _ db'. Balanced due pay db' × SameTables db db') Q
        (ensure_wallet_tx uuid user) (λ wallet. lock_wallet wallet.id >>= f) db
        (ensure_wallet_tx-Balanced due pay db b uuid user)
        (λ wallet db' p.
          Ensures-bind (λ w db''. (db'' ≡ db') × (find_by Wallet.id w.id db'.wallets ≡ some w)) Q
            (lock_wallet wallet.id) f db' (lock_wallet-row wallet.id db')
            (λ w db'' q.
              subst (λ d. Ensures Q (f w d)) (sym q.0)
                (h w db' p.0 p.1 (lock_one-InSync w db' q.1))))
