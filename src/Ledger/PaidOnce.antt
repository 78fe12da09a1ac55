-- ===== src/Ledger/PaidOnce.antt =====
-- `FinalizeWithdrawalSuccess` and `FinalizeWithdrawalFailure` of
-- internal/repository/ledger_repository.go, called again on a withdrawal that one of them has
-- finished.
use mathlib.Core.Path.{subst, sym}
use ridematch.Prelude.{
  ◌≡◌, refl, Bool, true, false, inl, inr, some, Option, String, List, [], arith, ◌⊎◌, Bool-cases,
}
use ridematch.Prelude.Word.{neg64-IsInt64, IsAmount-IsInt64}
use ridematch.Prelude.Table.{find_by, find_by-key, find_by-save, All-find_by}
use ridematch.Ledger.Models.{RowId, Account, RefType, IdemKey, Wallet, Withdrawal, WithdrawalStatus}
use ridematch.Ledger.Store.{Db, not_found, Result, Draw, ◌>>=◌}
use ridematch.Ledger.Post.{Posting, to_wallet, lock_wallet, lock_one, once}
use ridematch.Ledger.Withdrawals.{is_returned}
use ridematch.Ledger.Payouts.{
  is_paid, paid_postings, paid_row, returned_row, pay_row, return_row, finalize_withdrawal_success,
  finalize_withdrawal_failure,
}
use ridematch.Ledger.Invariant.{Ensures, Ensures-bind, load_first}
use ridematch.Ledger.PostOne.{Posted}
use ridematch.Ledger.PostAll.{once-Posted, Settled}
use ridematch.Ledger.Balanced.{IsPayout, IsLedger}
use ridematch.Ledger.Transfers.{to_wallet-IsPostable}
use ridematch.Ledger.WalletFirst.{lock_wallet-row, lock_one-InSync}
use ridematch.Ledger.FinalLaws.{
  save_if, own_row, paying, is_refused, pay_row-paid, pay_row-refused, pay_row-open,
}
use ridematch.Ledger.ReturnLaws.{
  returning, return_row-done, return_row-refused, return_row-open, finalize-guarded, finalize-open,
}

-- The row of a withdrawal has a status of the given kind.
abbrev pub HasStatus : (WithdrawalStatus → Bool) → RowId → Db → Type 0
HasStatus p id db =
    (w : Withdrawal) × (find_by Withdrawal.id id db.withdrawals ≡ some w) × (p w.status ≡ true)

abbrev pub Marks : (WithdrawalStatus → Bool) → RowId → Bool → Db → Type 0
Marks p id done db = done ≡ true → HasStatus p id db

module _ (p : WithdrawalStatus → Bool) (wd out : Withdrawal) (same_id : out.id ≡ wd.id)
    (marked : p out.status ≡ true) where
  finish-Marks :
      (ps : List Posting) (db db' : Db) (applied : Bool)
      → find_by Withdrawal.id wd.id db.withdrawals ≡ some wd
      → ((applied ≡ true) × Posted ps db db') ⊎ ((applied ≡ false) × (db' ≡ db))
      → Ensures (Marks p wd.id) (save_if out applied db')
  finish-Marks ps db db' true row (inl (_, q)) = λ _.
      let there : find_by Withdrawal.id out.id db'.withdrawals ≡ some wd =
        simp (same_id, q.same_withdrawals) row in
      (out, ground (arith, find_by-save Withdrawal.id wd.id out wd db'.withdrawals there), marked)
  finish-Marks ps db db' true row (inr (no_, _)) = cc
  finish-Marks ps db db' false row q = λ e. cc

pay_row-Marks :
    (d : Draw) (flw : Option RowId) (wd : Withdrawal) (db : Db)
    → IsLedger db
    → find_by Withdrawal.id wd.id db.withdrawals ≡ some wd
    → IsPayout wd
    → Ensures (Marks is_paid wd.id) (pay_row d flw wd db)
pay_row-Marks d flw wd db b row payout = elim (Bool-cases (is_paid wd.status)) [
  | inl paid ↦ rw (pay_row-paid d flw wd db paid) (λ e. cc)
  | inr unpaid ↦ elim (Bool-cases (is_refused wd.status)) [
    | inl refused ↦ rw (pay_row-refused d flw wd db unpaid refused) tt
    | inr open_row ↦ rw (pay_row-open d flw wd db unpaid open_row) (
        Ensures-bind (Settled (paid_postings wd) db) (Marks is_paid wd.id) (once (paying d flw wd))
          (save_if (paid_row d flw wd)) db
          (once-Posted d.tx_uuid d.now (IdemKey.withdraw_paid wd.id) RefType.withdrawal wd.id
            "Withdrawal paid" (paid_postings wd) [] db b.booked (λ _ _ e. cc)
            (
              neg64-IsInt64 wd.amount_kobo,
              (IsAmount-IsInt64 wd.net_kobo payout.2, (IsAmount-IsInt64 wd.fee_kobo payout.1, tt)),
            ))
          (λ applied db' s.
            finish-Marks is_paid wd (paid_row d flw wd) refl refl (paid_postings wd) db db' applied
              row s.1))
  ]
]

module _ (d : Draw) (final : WithdrawalStatus) (reason : String) (reviewer : Option RowId)
    (returned : is_returned final ≡ true) where
  return_open-Marks :
      (wd : Withdrawal) (db : Db)
      → IsLedger db
      → find_by Withdrawal.id wd.id db.withdrawals ≡ some wd
      → IsPayout wd
      → Ensures (Marks is_returned wd.id) (
          (lock_wallet wd.wallet_id >>= λ w.
          once (returning d final reason reviewer wd w)
          >>= save_if (returned_row d final reason reviewer wd))
            db)
  return_open-Marks wd db b row payout =
      Ensures-bind (λ w db'. (db' ≡ db) × (find_by Wallet.id w.id db.wallets ≡ some w))
        (Marks is_returned wd.id) (lock_wallet wd.wallet_id)
        (λ w.
          once (returning d final reason reviewer wd w)
          >>= save_if (returned_row d final reason reviewer wd))
        db (lock_wallet-row wd.wallet_id db)
        (λ w db' q.
          subst
            (λ e. Ensures (Marks is_returned wd.id) (
              (once (returning d final reason reviewer wd w)
                  >>= save_if (returned_row d final reason reviewer wd))
                e))
            (sym q.0)
            (Ensures-bind (Settled (to_wallet Account.payout_pending w.id wd.amount_kobo) db)
              (Marks is_returned wd.id) (once (returning d final reason reviewer wd w))
              (save_if (returned_row d final reason reviewer wd)) db
              (once-Posted d.tx_uuid d.now (IdemKey.withdraw_return wd.id) RefType.withdrawal wd.id
                "Withdrawal returned to wallet"
                (to_wallet Account.payout_pending w.id wd.amount_kobo) (lock_one w) db b.booked
                (lock_one-InSync w db q.1)
                (to_wallet-IsPostable Account.payout_pending w.id wd.amount_kobo payout.0))
              (λ applied db'' s.
                finish-Marks is_returned wd (returned_row d final reason reviewer wd) refl returned
                  (to_wallet Account.payout_pending w.id wd.amount_kobo) db db'' applied row s.1)))

  return_row-Marks :
      (wd : Withdrawal) (db : Db)
      → IsLedger db
      → find_by Withdrawal.id wd.id db.withdrawals ≡ some wd
      → IsPayout wd
      → Ensures (Marks is_returned wd.id) (return_row d final reason reviewer wd db)
  return_row-Marks wd db b row payout = elim (Bool-cases (is_returned wd.status)) [
    | inl done ↦ rw (return_row-done d final reason reviewer wd db done) (λ e. cc)
    | inr kept ↦ elim (Bool-cases (is_paid wd.status)) [
      | inl paid ↦ rw (return_row-refused d final reason reviewer wd db kept paid) tt
      | inr unpaid ↦
          rw (return_row-open d final reason reviewer wd db kept unpaid)
            (return_open-Marks wd db b row payout)
    ]
  ]

-- The row that an id finds has that id.
marked_row :
    (p : WithdrawalStatus → Bool) (id : RowId) (wd : Withdrawal) (r : Result Bool × Db)
    → wd.id ≡ id
    → Ensures (Marks p wd.id) r
    → Ensures (Marks p id) r
marked_row p id wd r e h = subst (λ i. Ensures (Marks p i) r) e h

pub success-Marks :
    (d : Draw) (id : RowId) (flw : Option RowId) (db : Db)
    → IsLedger db
    → Ensures (Marks is_paid id) (finalize_withdrawal_success d id flw db)
unfolding finalize_withdrawal_success
success-Marks d id flw db b =
    load_first (Marks is_paid id) (find_by Withdrawal.id id db.withdrawals) not_found
      (pay_row d flw) db
      (λ wd found.
        marked_row is_paid id wd _ (find_by-key Withdrawal.id id db.withdrawals wd found) (
          pay_row-Marks d flw wd db b (own_row id wd db found)
            (All-find_by Withdrawal.id IsPayout id db.withdrawals wd found b.withdrawal_amounts)))

pub failure-Marks :
    (d : Draw) (id : RowId) (final : WithdrawalStatus) (reason : String) (reviewer : Option RowId)
    (db : Db)
    → IsLedger db
    → Ensures (Marks is_returned id) (finalize_withdrawal_failure d id final reason reviewer db)
failure-Marks d id final reason reviewer db b = elim (Bool-cases (is_returned final)) [
  | inr other ↦ rw (finalize-guarded d id final reason reviewer db other) tt
  | inl final_ok ↦ rw (finalize-open d id final reason reviewer db final_ok) (
      load_first (Marks is_returned id) (find_by Withdrawal.id id db.withdrawals) not_found
        (return_row d final reason reviewer) db
        (λ wd found.
          marked_row is_returned id wd _ (find_by-key Withdrawal.id id db.withdrawals wd found) (
            return_row-Marks d final reason reviewer final_ok wd db b (own_row id wd db found) (
              All-find_by Withdrawal.id IsPayout id db.withdrawals wd found b.withdrawal_amounts))))
]
