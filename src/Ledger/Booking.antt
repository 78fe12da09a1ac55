-- ===== src/Ledger/Booking.antt =====
-- One more entry in the books: the writes of `post`, internal/repository/ledger_repository.go.
use ridematch.Prelude.{◌≡◌, true, false, some, List, ◌∷◌, arith, ◌==◌, if◌then◌else◌}
use ridematch.Prelude.Int.{ℤ, ◌+ℤ◌, zero_+ℤ, +ℤ_comm, int_laws}
use ridematch.Prelude.Word.{IsAmount, add64}
use ridematch.Prelude.Table.{find_by, find_by-update_by, IsKeyed-update_by, sum_by-update_by}
use ridematch.Ledger.Models.{RowId, Time, Account, same_account, Wallet, LedgerEntry}
use ridematch.Ledger.Store.{Db}
use ridematch.Ledger.Post.{Posting, add_entry, set_balance, pool_entry, wallet_entry}
use ridematch.Ledger.Sums.{account_total, wallet_total, names_wallet}
use ridematch.Ledger.Invariant.{IsBooked}

-- One more entry, in each sum.
pub wallet_total-cons :
    (id : RowId) (e : LedgerEntry) (es : List LedgerEntry)
    → wallet_total id (e ∷ es) ≡ (
        if names_wallet id e.wallet_id
        then e.amount_kobo +ℤ wallet_total id es
        else wallet_total id es)
wallet_total-cons id e es = ground (arith, zero_+ℤ (wallet_total id es))

pub account_total-cons :
    (a : Account) (e : LedgerEntry) (es : List LedgerEntry)
    → account_total a (e ∷ es) ≡ (
        if same_account e.account a
        then e.amount_kobo +ℤ account_total a es
        else account_total a es)
account_total-cons a e es = ground (arith, zero_+ℤ (account_total a es))

-- The row that an id finds once a balance is written.
pub find_by-set_balance :
    (j : RowId) (w : Wallet) (v : ℤ) (db : Db)
    → find_by Wallet.id w.id db.wallets ≡ some w
    → find_by Wallet.id j (set_balance w.id v db).wallets
      ≡ (if j == w.id then some (record w { balance_kobo = v }) else find_by Wallet.id j db.wallets)
find_by-set_balance j w v db h = ground (
  arith,
  find_by-update_by Wallet.id j w.id (λ r. record r { balance_kobo = v }) db.wallets (λ _ e. e),
)

-- The state once a wallet posting is written.
abbrev pub after : RowId → Time → Posting → Wallet → Db → Db
after tx now p w db =
    add_entry (wallet_entry tx now p (record w { balance_kobo = add64 w.balance_kobo p.amount }))
      (set_balance w.id (add64 w.balance_kobo p.amount) db)

pub after-find :
    (tx : RowId) (now : Time) (p : Posting) (w : Wallet) (db : Db) (j : RowId)
    → find_by Wallet.id w.id db.wallets ≡ some w
    → find_by Wallet.id j (after tx now p w db).wallets ≡ (
        if j == w.id
        then some (record w { balance_kobo = add64 w.balance_kobo p.amount })
        else find_by Wallet.id j db.wallets)
after-find tx now p w db j row = find_by-set_balance j w (add64 w.balance_kobo p.amount) db row

module _ (tx : RowId) (now : Time) (p : Posting) (w : Wallet) (db : Db) (booked : IsBooked db)
    (is_wallet : same_account p.account Account.wallet ≡ true)
    (row : find_by Wallet.id w.id db.wallets ≡ some w)
    (amount : IsAmount (add64 w.balance_kobo p.amount))
    (exact : add64 w.balance_kobo p.amount ≡ w.balance_kobo +ℤ p.amount) where
  entry_of :
      (id : RowId)
      → wallet_total id (after tx now p w db).entries ≡ (
          if w.id == id then p.amount +ℤ wallet_total id db.entries else wallet_total id db.entries)
  entry_of id =
      wallet_total-cons id
        (wallet_entry tx now p (record w { balance_kobo = add64 w.balance_kobo p.amount }))
        db.entries

  pub wallet_entry-IsBooked : IsBooked (after tx now p w db)
  wallet_entry-IsBooked = record {
    keyed = IsKeyed-update_by Wallet.id w.id _ db.wallets (λ _ e. e) booked.keyed;
    nonneg = λ id v h. ground (arith, after-find tx now p w db id row, booked.nonneg id v);
    agrees = λ id v h. ground (
      arith,
      after-find tx now p w db id row,
      booked.agrees id v,
      booked.agrees w.id w,
      entry_of id,
      exact,
      +ℤ_comm p.amount w.balance_kobo,
    );
    unknown =
        λ id h. ground (arith, after-find tx now p w db id row, booked.unknown id, entry_of id);
    balances = grind (
      int_laws,
      sum_by-update_by Wallet.id Wallet.balance_kobo w.id
          (λ r. record r { balance_kobo = add64 w.balance_kobo p.amount }) db.wallets w row,
      booked.balances,
      exact,
    );
  }

-- A pool entry says nothing of any wallet.
pub pool_entry-IsBooked :
    (tx : RowId) (now : Time) (p : Posting) (db : Db)
    → same_account p.account Account.wallet ≡ false
    → IsBooked db
    → IsBooked (add_entry (pool_entry tx now p) db)
pool_entry-IsBooked tx now p db pool booked = record {
  keyed = booked.keyed;
  nonneg = booked.nonneg;
  agrees = λ id v h. ground (arith, zero_+ℤ (wallet_total id db.entries), booked.agrees id v);
  unknown = λ id h. ground (arith, zero_+ℤ (wallet_total id db.entries), booked.unknown id);
  balances =
      ground (
        arith,
        account_total-cons Account.wallet (pool_entry tx now p) db.entries,
        booked.balances,
      );
}
