-- ===== src/Ledger/Conservation.antt =====
-- The money that came in, after a run of calls of internal/repository/ledger_repository.go.
use ridematch.Prelude.{◌≡◌, some, List, All}
use ridematch.Prelude.Int.{pos, ◌+ℤ◌, int_laws}
use ridematch.Prelude.Word.{IsAmount}
use ridematch.Prelude.Table.{sum_by, find_by}
use ridematch.Ledger.Models.{RowId, Account, Wallet}
use ridematch.Ledger.Store.{Db, empty_db}
use ridematch.Ledger.Sums.{
  account_total, wallet_total, balance_total, held_amount, in_flight_amount,
}
use ridematch.Ledger.Balanced.{IsLedger}
use ridematch.Ledger.IntegrityLaws.{accounts-entries_total}
use ridematch.Ledger.Operations.{Call, run, IsSound}
use ridematch.Ledger.Runs.{run-IsLedger, empty_db-IsLedger}

-- All that came in, which the entries of its account count below zero, is in the wallets, in fares
-- that are held, in payouts under way, paid out, or kept as fees.
conserves :
    (db : Db)
    → IsLedger db
    → balance_total db.wallets
        +ℤ sum_by held_amount db.escrows
        +ℤ sum_by in_flight_amount db.withdrawals
        +ℤ account_total Account.external_out db.entries
        +ℤ account_total Account.fees db.entries
        +ℤ account_total Account.external_in db.entries
      ≡ pos 0
conserves db b = grind (
  int_laws,
  accounts-entries_total db.entries,
  b.zero,
  b.booked.balances,
  b.escrow_pool,
  b.payout_pool,
)

-- After any list of sound calls made from empty tables, the wallet balances, the fares held, the
-- payouts under way, the money paid out, the fees and the entries for money received add up to
-- zero.
pub run-conserves :
    (cs : List Call)
    → All IsSound cs
    → let db = run cs empty_db in
      balance_total db.wallets
        +ℤ sum_by held_amount db.escrows
        +ℤ sum_by in_flight_amount db.withdrawals
        +ℤ account_total Account.external_out db.entries
        +ℤ account_total Account.fees db.entries
        +ℤ account_total Account.external_in db.entries
      ≡ pos 0
run-conserves cs s = conserves (run cs empty_db) (run-IsLedger cs empty_db s empty_db-IsLedger)

-- After any list of sound calls made from empty tables, each wallet has a balance that is an
-- int64 and not negative, and that is the sum of the entries which name the wallet.
pub run-solvent :
    (cs : List Call) (id : RowId) (w : Wallet)
    → All IsSound cs
    → find_by Wallet.id id (run cs empty_db).wallets ≡ some w
    → IsAmount w.balance_kobo × (w.balance_kobo ≡ wallet_total id (run cs empty_db).entries)
run-solvent cs id w s row =
    let b = run-IsLedger cs empty_db s empty_db-IsLedger in
    (b.booked.nonneg id w row, b.booked.agrees id w row)
