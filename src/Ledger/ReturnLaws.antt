-- ===== src/Ledger/ReturnLaws.antt =====
-- `FinalizeWithdrawalFailure` of internal/repository/ledger_repository.go and the balance of the
-- ledger.
use mathlib.Core.Path.{subst, sym}
use ridematch.Prelude.{◌≡◌, refl, true, false, inl, inr, some, Option, String, arith, Bool-cases}
use ridematch.Prelude.Int.{int_laws}
use ridematch.Prelude.Word.{neg64-exact}
use ridematch.Prelude.Table.{find_by, All-find_by}
use ridematch.Ledger.Models.{
  RowId, Account, RefType, IdemKey, Wallet, Withdrawal, WithdrawalStatus, is_terminal,
}
use ridematch.Ledger.Store.{
  Db, not_found, invalid_transition, invalid_final_status, or_abort, ok, err, Tx, Draw, ◌>>=◌,
  transaction,
}
use ridematch.Ledger.Post.{to_wallet, lock_wallet, lock_one, post, once}
use ridematch.Ledger.Withdrawals.{is_returned}
use ridematch.Ledger.Payouts.{is_paid, returned_row, return_row, finalize_withdrawal_failure}
use ridematch.Ledger.Sums.{in_flight_amount}
use ridematch.Ledger.Invariant.{Ensures, Ensures-bind, load_first}
use ridematch.Ledger.PostAll.{Settled, once-Posted}
use ridematch.Ledger.Balanced.{IsLedger, IsPayout}
use ridematch.Ledger.Transfers.{to_wallet-IsPostable, posted-to_wallet}
use ridematch.Ledger.EscrowLaws.{Keeps}
use ridematch.Ledger.FinalLaws.{save_if, finish, own_row}
use ridematch.Ledger.WalletFirst.{lock_wallet-row, lock_one-InSync}

is_returned-is_terminal : (s : WithdrawalStatus) → is_returned s ≡ true → is_terminal s ≡ true
is_returned-is_terminal s h = ground arith

module _ (d : Draw) (final : WithdrawalStatus) (reason : String) (reviewer : Option RowId)
    (wd : Withdrawal) where
  abbrev pub returning : Wallet → Tx (Unit {0})
  returning w =
      post d.tx_uuid d.now (IdemKey.withdraw_return wd.id) RefType.withdrawal wd.id
        "Withdrawal returned to wallet" (to_wallet Account.payout_pending w.id wd.amount_kobo)
        (lock_one w)

  abbrev out : Withdrawal
  out = returned_row d final reason reviewer wd

  pub return_row-done :
      (db : Db)
      → is_returned wd.status ≡ true
      → return_row d final reason reviewer wd db ≡ (ok false, db)
  unfolding return_row
  return_row-done db h = rw h

  pub return_row-refused :
      (db : Db)
      → is_returned wd.status ≡ false
      → is_paid wd.status ≡ true
      → return_row d final reason reviewer wd db ≡ (err invalid_transition, db)
  unfolding return_row
  return_row-refused db h k = rw (h, k)

  pub return_row-open :
      (db : Db)
      → is_returned wd.status ≡ false
      → is_paid wd.status ≡ false
      → return_row d final reason reviewer wd db
        ≡ (lock_wallet wd.wallet_id >>= λ w. once (returning w) >>= save_if out) db
  unfolding return_row
  return_row-open db h k = rw (h, k)

  module _ (db : Db) (b : IsLedger db) (row : find_by Withdrawal.id wd.id db.withdrawals ≡ some wd)
      (payout : IsPayout wd) (closed : is_terminal final ≡ true) where
    return_open-IsLedger :
        is_returned wd.status ≡ false
        → is_paid wd.status ≡ false
        → Ensures Keeps ((lock_wallet wd.wallet_id >>= λ w. once (returning w) >>= save_if out) db)
    return_open-IsLedger kept unpaid =
        Ensures-bind (λ w db'. (db' ≡ db) × (find_by Wallet.id w.id db.wallets ≡ some w)) Keeps
          (lock_wallet wd.wallet_id) (λ w. once (returning w) >>= save_if out) db
          (lock_wallet-row wd.wallet_id db)
          (λ w db' q.
            subst (λ e. Ensures Keeps ((once (returning w) >>= save_if out) e)) (sym q.0)
              (Ensures-bind (Settled (to_wallet Account.payout_pending w.id wd.amount_kobo) db)
                Keeps (once (returning w)) (save_if out) db
                (once-Posted d.tx_uuid d.now (IdemKey.withdraw_return wd.id) RefType.withdrawal
                  wd.id "Withdrawal returned to wallet"
                  (to_wallet Account.payout_pending w.id wd.amount_kobo) (lock_one w) db b.booked
                  (lock_one-InSync w db q.1)
                  (to_wallet-IsPostable Account.payout_pending w.id wd.amount_kobo payout.0))
                (λ applied db'' s.
                  finish wd out closed refl payout
                    (to_wallet Account.payout_pending w.id wd.amount_kobo) db db'' applied b row
                    (posted-to_wallet Account.payout_pending w.id wd.amount_kobo payout.0)
                    (omega int_laws)
                    (rw (neg64-exact wd.amount_kobo payout.0, still_open) (omega int_laws)) s.1)))
      where
        still_open : in_flight_amount wd ≡ wd.amount_kobo
        still_open = ground arith

    return_row-IsLedger : Ensures Keeps (return_row d final reason reviewer wd db)
    return_row-IsLedger = elim (Bool-cases (is_returned wd.status)) [
      | inl done ↦ rw (return_row-done db done) b
      | inr kept ↦ elim (Bool-cases (is_paid wd.status)) [
        | inl paid ↦ rw (return_row-refused db kept paid) tt
        | inr unpaid ↦ rw (return_row-open db kept unpaid) (return_open-IsLedger kept unpaid)
      ]
    ]

pub finalize-guarded :
    (d : Draw) (id : RowId) (final : WithdrawalStatus) (reason : String) (reviewer : Option RowId)
    (db : Db)
    → is_returned final ≡ false
    → finalize_withdrawal_failure d id final reason reviewer db ≡ (err invalid_final_status, db)
unfolding finalize_withdrawal_failure
finalize-guarded d id final reason reviewer db h = rw h

pub finalize-open :
    (d : Draw) (id : RowId) (final : WithdrawalStatus) (reason : String) (reviewer : Option RowId)
    (db : Db)
    → is_returned final ≡ true
    → finalize_withdrawal_failure d id final reason reviewer db
      ≡ transaction
          (or_abort (find_by Withdrawal.id id db.withdrawals) not_found
            >>= return_row d final reason reviewer)
          db
unfolding finalize_withdrawal_failure
finalize-open d id final reason reviewer db h = rw h

-- A payout that fails keeps the ledger balanced: the pool gives the wallet its money back.
pub finalize_withdrawal_failure-IsLedger :
    (d : Draw) (id : RowId) (final : WithdrawalStatus) (reason : String) (reviewer : Option RowId)
    (db : Db)
    → IsLedger db
    → Ensures (λ _ db'. IsLedger db') (finalize_withdrawal_failure d id final reason reviewer db)
finalize_withdrawal_failure-IsLedger d id final reason reviewer db b =
    elim (Bool-cases (is_returned final)) [
      | inr other ↦ rw (finalize-guarded d id final reason reviewer db other) tt
      | inl final_ok ↦ rw (finalize-open d id final reason reviewer db final_ok) (
          load_first (λ _ db'. IsLedger db') (find_by Withdrawal.id id db.withdrawals) not_found
            (return_row d final reason reviewer) db
            (λ wd found.
              return_row-IsLedger d final reason reviewer wd db b (own_row id wd db found)
                (All-find_by Withdrawal.id IsPayout id db.withdrawals wd found b.withdrawal_amounts)
                (is_returned-is_terminal final final_ok)))
    ]
