-- ===== src/Ledger/Integrity.antt =====
-- `Integrity` of internal/repository/ledger_repository.go: the report that compares the entries
-- with the rows they stand for.
use ridematch.Prelude.{ℕ, Bool, true, false, not, List, [], ◌∷◌, ◌++◌, if◌then◌else◌, length}
use ridematch.Prelude.Int.{ℤ, pos, eqb_ℤ}
use ridematch.Prelude.Word.{add64}
use ridematch.Prelude.Table.{sum_by}
use ridematch.Ledger.Models.{RowId, Account, Wallet, LedgerEntry}
use ridematch.Ledger.Store.{Db}
use ridematch.Ledger.Sums.{
  account_total, wallet_total, balance_total, held_amount, in_flight_amount,
}

-- The messages of the report.
pub data Problem : Type 0 where
  entries_off wallets_off escrow_off payouts_off : Problem
  wallets_drifted : ℕ → Problem

-- `IntegrityReport`
pub record IntegrityReport : Type 0 where
  pub entries_sum_kobo : ℤ
  pub wallet_balances_kobo : ℤ
  pub wallet_entries_kobo : ℤ
  pub escrow_pool_kobo : ℤ
  pub escrow_held_kobo : ℤ
  pub payout_pending_kobo : ℤ
  pub withdrawals_in_flight_kobo : ℤ
  pub external_in_kobo : ℤ
  pub external_out_kobo : ℤ
  pub fees_kobo : ℤ
  pub mismatched_wallets : List RowId
  pub problems : List Problem
  pub ok : Bool

-- The accounts in the order of their constants. The query returns one row per account in use, and
-- an account without entries adds nothing to the loop.
abbrev pub accounts : List Account
accounts =
    Account.wallet ∷ Account.escrow ∷ Account.payout_pending ∷ Account.external_in
    ∷ Account.external_out ∷ Account.fees ∷ []

-- `rep.EntriesSumKobo += a.Total`, in int64.
unfoldable pub sum_accounts : ℤ → List Account → List LedgerEntry → ℤ
sum_accounts acc [] es = acc
sum_accounts acc (a ∷ rest) es = sum_accounts (add64 acc (account_total a es)) rest es

-- The per-wallet drift: wallets whose balance is not the sum of their entries.
unfoldable pub mismatched : List LedgerEntry → List Wallet → List RowId
mismatched es [] = []
mismatched es (w ∷ ws) =
    let rest = mismatched es ws in
    if eqb_ℤ w.balance_kobo (wallet_total w.id es) then rest else w.id ∷ rest

abbrev pub problem_if : Bool → Problem → List Problem
problem_if c p = if c then p ∷ [] else []

abbrev pub is_empty {ℓ} : {A : Type ℓ} → List A → Bool
is_empty [] = true
is_empty (_ ∷ _) = false

-- The five comparisons, in their order.
abbrev pub find_problems : ℤ → ℤ → ℤ → ℤ → ℤ → ℤ → ℤ → List RowId → List Problem
find_problems sum balances wallet_entries pool held pending in_flight drifted =
    problem_if (not (eqb_ℤ sum (pos 0))) entries_off
    ++ (problem_if (not (eqb_ℤ balances wallet_entries)) wallets_off
        ++ (problem_if (not (eqb_ℤ pool held)) escrow_off
            ++ (problem_if (not (eqb_ℤ pending in_flight)) payouts_off
                ++ problem_if (not (is_empty drifted)) (wallets_drifted (length drifted)))))

abbrev pub problems_of : Db → List Problem
problems_of db =
    find_problems (sum_accounts (pos 0) accounts db.entries) (balance_total db.wallets)
      (account_total Account.wallet db.entries) (account_total Account.escrow db.entries)
      (sum_by held_amount db.escrows) (account_total Account.payout_pending db.entries)
      (sum_by in_flight_amount db.withdrawals) (mismatched db.entries db.wallets)

-- `Integrity`
unfoldable pub integrity : Db → IntegrityReport
integrity db = record {
  entries_sum_kobo = sum_accounts (pos 0) accounts db.entries;
  wallet_balances_kobo = balance_total db.wallets;
  wallet_entries_kobo = account_total Account.wallet db.entries;
  escrow_pool_kobo = account_total Account.escrow db.entries;
  escrow_held_kobo = sum_by held_amount db.escrows;
  payout_pending_kobo = account_total Account.payout_pending db.entries;
  withdrawals_in_flight_kobo = sum_by in_flight_amount db.withdrawals;
  external_in_kobo = account_total Account.external_in db.entries;
  external_out_kobo = account_total Account.external_out db.entries;
  fees_kobo = account_total Account.fees db.entries;
  mismatched_wallets = mismatched db.entries db.wallets;
  problems = problems_of db;
  ok = is_empty (problems_of db);
}
