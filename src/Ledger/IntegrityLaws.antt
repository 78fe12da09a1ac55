-- ===== src/Ledger/IntegrityLaws.antt =====
-- The report of `Integrity` in internal/repository/ledger_repository.go against the tables.
use ridematch.Prelude.{◌≡◌, refl, ◌∙◌, true, some, List, [], ◌∷◌, arith}
use mathlib.Core.Path.{sym, ap}
use ridematch.Prelude.Int.{ℤ, pos, ◌+ℤ◌, eqb_ℤ, eq_of_eqb_ℤ, int_laws, +ℤ_zero}
use ridematch.Prelude.Word.{add64, wrap64}
use ridematch.Prelude.Table.{sum_by, find_by, IsKeyed}
use ridematch.Ledger.Models.{RowId, Account, Wallet, LedgerEntry}
use ridematch.Ledger.Store.{Db}
use ridematch.Ledger.Sums.{
  entries_total, account_total, wallet_total, balance_total, held_amount, in_flight_amount,
}
use ridematch.Ledger.Balanced.{IsLedger}
use ridematch.Ledger.Integrity.{
  accounts, sum_accounts, mismatched, is_empty, find_problems, problems_of, integrity,
}

-- A sum in int64 that has been cut early is cut to the same value at the end.
pub add64-wrap64 : (a b : ℤ) → add64 (wrap64 a) b ≡ wrap64 (a +ℤ b)
unfolding add64 wrap64 ◌+ℤ◌
add64-wrap64 a b = ground arith

-- The account sums partition the entries.
pub accounts-entries_total :
    (es : List LedgerEntry)
    → account_total Account.wallet es
        +ℤ account_total Account.escrow es
        +ℤ account_total Account.payout_pending es
        +ℤ account_total Account.external_in es
        +ℤ account_total Account.external_out es
        +ℤ account_total Account.fees es
      ≡ entries_total es
accounts-entries_total [] = omega int_laws
accounts-entries_total (e ∷ es) = grind (int_laws, accounts-entries_total es)

sum_accounts-wrap64 :
    (a : ℤ) (es : List LedgerEntry)
    → sum_accounts (wrap64 a) accounts es ≡ wrap64 (a +ℤ entries_total es)
unfolding sum_accounts
sum_accounts-wrap64 a es =
    simp add64-wrap64 (ap wrap64 (grind (int_laws, accounts-entries_total es)))

-- A wallet table whose rows all agree with the entries has no drift.
mismatched-none :
    (es : List LedgerEntry) (ws : List Wallet)
    → IsKeyed Wallet.id ws
    → ((id : RowId) (w : Wallet)
        → find_by Wallet.id id ws ≡ some w
        → w.balance_kobo ≡ wallet_total id es)
    → mismatched es ws ≡ []
unfolding mismatched
mismatched-none es [] u h = refl
mismatched-none es (w ∷ ws) u h = ground (arith, h w.id w, mismatched-none es ws u.1)

sum_accounts-zero :
    (es : List LedgerEntry) → entries_total es ≡ pos 0 → sum_accounts (pos 0) accounts es ≡ pos 0
unfolding wrap64 ◌+ℤ◌
sum_accounts-zero es h = sum_accounts-wrap64 (pos 0) es ∙ rw h refl

eqb_ℤ-same : (a b : ℤ) → a ≡ b → eqb_ℤ a b ≡ true
eqb_ℤ-same a b h = ground arith

find_problems-none :
    (sum balances wallet_entries pool held pending in_flight : ℤ) (drifted : List RowId)
    → sum ≡ pos 0
    → balances ≡ wallet_entries
    → pool ≡ held
    → pending ≡ in_flight
    → drifted ≡ []
    → find_problems sum balances wallet_entries pool held pending in_flight drifted ≡ []
find_problems-none sum balances wallet_entries pool held pending in_flight drifted h k l m n =
    rw
      (
        eqb_ℤ-same sum (pos 0) h,
        eqb_ℤ-same balances wallet_entries k,
        eqb_ℤ-same pool held l,
        eqb_ℤ-same pending in_flight m,
        n,
      )
      refl

-- On a ledger whose tables agree, the report is empty.
pub integrity-IsLedger :
    (db : Db) → IsLedger db → ((integrity db).ok ≡ true) × ((integrity db).problems ≡ [])
unfolding integrity
integrity-IsLedger db b =
    let none_found : problems_of db ≡ [] =
      find_problems-none _ _ _ _ _ _ _ _ (sum_accounts-zero db.entries b.zero) b.booked.balances
        (sym (+ℤ_zero _) ∙ b.escrow_pool) (sym (+ℤ_zero _) ∙ b.payout_pool)
        (mismatched-none db.entries db.wallets b.booked.keyed b.booked.agrees) in
    (rw none_found refl, none_found)

drift-none :
    (es : List LedgerEntry) (ws : List Wallet) (id : RowId) (w : Wallet)
    → mismatched es ws ≡ []
    → find_by Wallet.id id ws ≡ some w
    → w.balance_kobo ≡ wallet_total id es
unfolding mismatched
drift-none es [] id w h row = cc
drift-none es (x ∷ xs) id w h row =
    ground (arith, eq_of_eqb_ℤ x.balance_kobo (wallet_total x.id es), drift-none es xs id w)

find_problems-empty :
    (sum balances wallet_entries pool held pending in_flight : ℤ) (drifted : List RowId)
    → is_empty (find_problems sum balances wallet_entries pool held pending in_flight drifted)
      ≡ true
    → (balances ≡ wallet_entries) × (pool ≡ held) × (pending ≡ in_flight) × (drifted ≡ [])
find_problems-empty sum balances wallet_entries pool held pending in_flight drifted h = ground (
  arith,
  eq_of_eqb_ℤ balances wallet_entries,
  eq_of_eqb_ℤ pool held,
  eq_of_eqb_ℤ pending in_flight,
)

-- If the integrity report is OK, the wallet balances add up to the wallet entries, the escrow
-- entries to the open holds, the payout entries to the payouts under way, and any wallet that is
-- there has the balance that its entries add up to.
pub integrity-vouches :
    (db : Db) (id : RowId) (w : Wallet)
    → (integrity db).ok ≡ true
    → find_by Wallet.id id db.wallets ≡ some w
    → (balance_total db.wallets ≡ account_total Account.wallet db.entries)
      × (account_total Account.escrow db.entries ≡ sum_by held_amount db.escrows)
      × (account_total Account.payout_pending db.entries ≡ sum_by in_flight_amount db.withdrawals)
      × (w.balance_kobo ≡ wallet_total id db.entries)
unfolding integrity
integrity-vouches db id w h row =
    let v = find_problems-empty (sum_accounts (pos 0) accounts db.entries) _ _ _ _ _ _ _ h in
    (v.0, v.1, v.2, drift-none db.entries db.wallets id w v.3 row)
