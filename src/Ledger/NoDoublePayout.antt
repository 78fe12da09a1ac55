-- ===== src/Ledger/NoDoublePayout.antt =====
-- The two ends of a withdrawal in internal/repository/ledger_repository.go, one after the other.
use mathlib.Core.Path.{subst}
use ridematch.Prelude.{◌≡◌, refl, true, false, Option, String, ◌∙◌, arith}
use ridematch.Ledger.Models.{RowId, Withdrawal, WithdrawalStatus}
use ridematch.Ledger.Store.{Db, not_found, invalid_transition, ok, err, Draw}
use ridematch.Ledger.Withdrawals.{is_returned}
use ridematch.Ledger.Payouts.{
  is_paid, pay_row, return_row, finalize_withdrawal_success, finalize_withdrawal_failure,
}
use ridematch.Prelude.Table.{find_by}
use ridematch.Ledger.Invariant.{Ensures, loaded}
use ridematch.Ledger.Balanced.{IsLedger}
use ridematch.Ledger.PaidOnce.{HasStatus, Marks, success-Marks, failure-Marks}
use ridematch.Ledger.FinalLaws.{is_refused, pay_row-paid, pay_row-refused}
use ridematch.Ledger.ReturnLaws.{return_row-done, return_row-refused, finalize-open}

module _ (id : RowId) (db : Db) where
  paid_stays :
      HasStatus is_paid id db
      → (d : Draw) (flw : Option RowId) (final : WithdrawalStatus) (reason : String)
        (reviewer : Option RowId)
      → is_returned final ≡ true
      → (finalize_withdrawal_success d id flw db ≡ (ok false, db))
        × (finalize_withdrawal_failure d id final reason reviewer db ≡ (err invalid_transition, db))
  unfolding finalize_withdrawal_success
  paid_stays (w, row, paid) d flw final reason reviewer returned =
      let kept : is_returned w.status ≡ false = ground arith in
      (
        loaded (find_by Withdrawal.id id db.withdrawals) w not_found (pay_row d flw) db (ok false)
            row (pay_row-paid d flw w db paid),
        finalize-open d id final reason reviewer db returned
            ∙ loaded (find_by Withdrawal.id id db.withdrawals) w not_found
                (return_row d final reason reviewer) db (err invalid_transition) row
                (return_row-refused d final reason reviewer w db kept paid),
      )

  returned_stays :
      HasStatus is_returned id db
      → (d : Draw) (flw : Option RowId) (final : WithdrawalStatus) (reason : String)
        (reviewer : Option RowId)
      → is_returned final ≡ true
      → (finalize_withdrawal_success d id flw db ≡ (err invalid_transition, db))
        × (finalize_withdrawal_failure d id final reason reviewer db ≡ (ok false, db))
  unfolding finalize_withdrawal_success
  returned_stays (w, row, returned_before) d flw final reason reviewer returned =
      let unpaid : is_paid w.status ≡ false = ground arith in
      let refused : is_refused w.status ≡ true = ground arith in
      (
        loaded (find_by Withdrawal.id id db.withdrawals) w not_found (pay_row d flw) db
            (err invalid_transition) row (pay_row-refused d flw w db unpaid refused),
        finalize-open d id final reason reviewer db returned
            ∙ loaded (find_by Withdrawal.id id db.withdrawals) w not_found
                (return_row d final reason reviewer) db (ok false) row
                (return_row-done d final reason reviewer w db returned_before),
      )

-- On balanced tables, once `FinalizeWithdrawalSuccess` has said true for a withdrawal, calling it
-- again says false, and `FinalizeWithdrawalFailure` with a status of failed or rejected is an
-- invalid transition; neither changes the tables.
pub success-once :
    (d : Draw) (id : RowId) (flw : Option RowId) (db db' : Db)
    → IsLedger db
    → finalize_withdrawal_success d id flw db ≡ (ok true, db')
    → (d' : Draw) (flw' : Option RowId) (final : WithdrawalStatus) (reason : String)
      (reviewer : Option RowId)
    → is_returned final ≡ true
    → (finalize_withdrawal_success d' id flw' db' ≡ (ok false, db'))
      × (finalize_withdrawal_failure d' id final reason reviewer db'
          ≡ (err invalid_transition, db'))
success-once d id flw db db' b e =
    paid_stays id db' (subst (Ensures (Marks is_paid id)) e (success-Marks d id flw db b) refl)

-- On balanced tables, once `FinalizeWithdrawalFailure` has said true for a withdrawal,
-- `FinalizeWithdrawalSuccess` is an invalid transition, and a further failure with a status of
-- failed or rejected says false; neither changes the tables.
pub failure-once :
    (d : Draw) (id : RowId) (final : WithdrawalStatus) (reason : String) (reviewer : Option RowId)
    (db db' : Db)
    → IsLedger db
    → finalize_withdrawal_failure d id final reason reviewer db ≡ (ok true, db')
    → (d' : Draw) (flw : Option RowId) (final' : WithdrawalStatus) (reason' : String)
      (reviewer' : Option RowId)
    → is_returned final' ≡ true
    → (finalize_withdrawal_success d' id flw db' ≡ (err invalid_transition, db'))
      × (finalize_withdrawal_failure d' id final' reason' reviewer' db' ≡ (ok false, db'))
failure-once d id final reason reviewer db db' b e =
    returned_stays id db' (
      subst (Ensures (Marks is_returned id)) e (failure-Marks d id final reason reviewer db b) refl)
