-- ===== src/Ledger/PostOne.antt =====
-- One round of the loop in `post`: internal/repository/ledger_repository.go.
use ridematch.Prelude.{
  ◌≡◌, refl, true, false, inl, inr, none, some, List, [], ◌∷◌, arith, Bool-cases, Option-cases,
}
use ridematch.Prelude.Int.{ℤ, pos, ltb_ℤ, ◌+ℤ◌, +ℤ_zero, +ℤ_comm, int_laws}
use ridematch.Prelude.Word.{IsInt64, add64, add64-nonneg}
use ridematch.Prelude.Table.{find_by, save, find_by-save, find_by-key}
use ridematch.Ledger.Models.{RowId, Time, Account, same_account, Wallet, LedgerEntry}
use ridematch.Ledger.Store.{Db, not_locked, insufficient_funds, ok, err}
use ridematch.Ledger.Post.{Posting, add_entry, pool_entry, wallet_entry, post_one}
use ridematch.Ledger.Sums.{entries_total, account_total, posted_to, posted}
use ridematch.Ledger.Invariant.{IsBooked, InSync, Ensures}
use ridematch.Ledger.Booking.{
  after, after-find, account_total-cons, wallet_entry-IsBooked, pool_entry-IsBooked,
}

-- What `post` promises: the books agree after it as before, each account and the whole ledger
-- have moved by what was posted, and no other table has changed.
pub record Posted (ps : List Posting) (db db' : Db) : Type 0 where
  pub booked : IsBooked db'
  pub accounts :
      (a : Account) → account_total a db'.entries ≡ account_total a db.entries +ℤ posted_to a ps
  pub total : entries_total db'.entries ≡ entries_total db.entries +ℤ posted ps
  pub same_topups : db'.topups ≡ db.topups
  pub same_escrows : db'.escrows ≡ db.escrows
  pub same_withdrawals : db'.withdrawals ≡ db.withdrawals

-- One entry with a posting's account and amount moves the sums by that posting.
entry_accounts :
    (a : Account) (e : LedgerEntry) (p : Posting) (es : List LedgerEntry)
    → e.account ≡ p.account
    → e.amount_kobo ≡ p.amount
    → account_total a (e ∷ es) ≡ account_total a es +ℤ posted_to a (p ∷ [])
entry_accounts a e p es h k = ground (
  arith,
  account_total-cons a e es,
  +ℤ_zero p.amount,
  +ℤ_zero (pos 0),
  +ℤ_zero (account_total a es),
  +ℤ_comm p.amount (account_total a es),
)

entry_total : (amount total : ℤ) → amount +ℤ total ≡ total +ℤ (amount +ℤ pos 0)
entry_total amount total = omega int_laws

module _ (tx : RowId) (now : Time) (p : Posting) (locked : List Wallet) (db : Db) where
  post_one-pool :
      same_account p.account Account.wallet ≡ false
      → post_one tx now p locked db ≡ (ok locked, add_entry (pool_entry tx now p) db)
  unfolding post_one
  post_one-pool h = ground arith

  post_one-missing :
      same_account p.account Account.wallet ≡ true
      → find_by Wallet.id p.wallet_id locked ≡ none
      → post_one tx now p locked db ≡ (err not_locked, db)
  unfolding post_one
  post_one-missing h k = ground arith

  post_one-short :
      (w : Wallet)
      → same_account p.account Account.wallet ≡ true
      → find_by Wallet.id p.wallet_id locked ≡ some w
      → ltb_ℤ (add64 w.balance_kobo p.amount) (pos 0) ≡ true
      → post_one tx now p locked db ≡ (err insufficient_funds, db)
  unfolding post_one
  post_one-short w h k l = ground arith

  post_one-wallet :
      (w : Wallet)
      → same_account p.account Account.wallet ≡ true
      → find_by Wallet.id p.wallet_id locked ≡ some w
      → ltb_ℤ (add64 w.balance_kobo p.amount) (pos 0) ≡ false
      → post_one tx now p locked db ≡ (
        ok (save Wallet.id (record w { balance_kobo = add64 w.balance_kobo p.amount }) locked),
        after tx now p w db,
      )
  unfolding post_one
  post_one-wallet w h k l = ground arith

  pool_Posted :
      same_account p.account Account.wallet ≡ false
      → IsBooked db
      → Posted (p ∷ []) db (add_entry (pool_entry tx now p) db)
  pool_Posted pool booked = record {
    booked = pool_entry-IsBooked tx now p db pool booked;
    accounts = λ a. entry_accounts a (pool_entry tx now p) p db.entries refl refl;
    total = entry_total p.amount (entries_total db.entries);
    same_topups = refl;
    same_escrows = refl;
    same_withdrawals = refl;
  }

  module _ (w : Wallet) (found : find_by Wallet.id p.wallet_id locked ≡ some w)
      (sync : InSync locked db) where
    -- The locked copy stands in the map, and in its table, under its own id.
    locked_id : w.id ≡ p.wallet_id
    locked_id = find_by-key Wallet.id p.wallet_id locked w found

    locked_row : find_by Wallet.id w.id db.wallets ≡ some w
    locked_row = sync w.id w (simp locked_id found)

    wallet_InSync :
        InSync
          (save Wallet.id (record w { balance_kobo = add64 w.balance_kobo p.amount }) locked)
          (after tx now p w db)
    wallet_InSync j v h = ground (
      arith,
      after-find tx now p w db j locked_row,
      find_by-save Wallet.id j (record w { balance_kobo = add64 w.balance_kobo p.amount }) w locked
          (simp locked_id found),
      sync j v,
    )

    wallet_Posted :
        IsBooked db
        → IsInt64 p.amount
        → same_account p.account Account.wallet ≡ true
        → ltb_ℤ (add64 w.balance_kobo p.amount) (pos 0) ≡ false
        → Posted (p ∷ []) db (after tx now p w db)
    wallet_Posted booked range is_wallet enough =
        let (exact, fits) =
          add64-nonneg w.balance_kobo p.amount (booked.nonneg w.id w locked_row) range
            (ground arith) in
        record {
          booked =
              wallet_entry-IsBooked tx now p w db booked is_wallet locked_row (rw exact fits) exact;
          accounts = λ a.
              entry_accounts a
                (wallet_entry tx now p (record w { balance_kobo = add64 w.balance_kobo p.amount }))
                p db.entries refl refl;
          total = entry_total p.amount (entries_total db.entries);
          same_topups = refl;
          same_escrows = refl;
          same_withdrawals = refl;
        }

  -- A wallet posting that goes through leaves the books agreed and the locked copy in step.
  pub post_one-Posted :
      IsBooked db
      → InSync locked db
      → IsInt64 p.amount
      → Ensures
          (λ locked' db'. Posted (p ∷ []) db db' × InSync locked' db')
          (post_one tx now p locked db)
  post_one-Posted booked sync range = elim (Bool-cases (same_account p.account Account.wallet)) [
    | inr pool ↦ rw (post_one-pool pool) (pool_Posted pool booked, sync)
    | inl is_wallet ↦ elim (Option-cases (find_by Wallet.id p.wallet_id locked)) [
      | inl missing ↦ rw (post_one-missing is_wallet missing) tt
      | inr (w, found) ↦ elim (Bool-cases (ltb_ℤ (add64 w.balance_kobo p.amount) (pos 0))) [
        | inl short ↦ rw (post_one-short w is_wallet found short) tt
        | inr enough ↦
            rw (post_one-wallet w is_wallet found enough)
              (wallet_Posted w found sync booked range is_wallet enough, wallet_InSync w found sync)
      ]
    ]
  ]
