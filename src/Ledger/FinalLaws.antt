-- ===== src/Ledger/FinalLaws.antt =====
-- `FinalizeWithdrawalSuccess` of internal/repository/ledger_repository.go and the balance of the
-- ledger.
use mathlib.Core.Path.{subst, sym}
use ridematch.Prelude.{
  ◌≡◌, refl, ap, Bool, true, false, inl, inr, some, Option, List, [], ◌∷◌, arith, ◌⊎◌, Bool-cases,
  if◌then◌else◌,
}
use ridematch.Prelude.Int.{pos, ◌+ℤ◌, +ℤ_comm, eqb_ℤ, eq_of_eqb_ℤ, int_laws, pos_part, neg_part}
use ridematch.Prelude.Word.{neg64-exact, split_exact, neg64-IsInt64, IsAmount-IsInt64}
use ridematch.Prelude.Table.{find_by, find_by-key, save, All-find_by}
use ridematch.Ledger.Models.{
  RowId, Account, RefType, IdemKey, Withdrawal, WithdrawalStatus, is_terminal,
}
use ridematch.Ledger.Store.{
  Db, not_found, invalid_transition, ok, err, Tx, Draw, ◌>>=◌, ◌>>◌, pure, write,
}
use ridematch.Ledger.Post.{Posting, posting_sum, post, once}
use ridematch.Ledger.Withdrawals.{set_withdrawals, status_in}
use ridematch.Ledger.Payouts.{
  is_paid, paid_postings, paid_row, pay_row, finalize_withdrawal_success,
}
use ridematch.Ledger.Sums.{posted, posted_to, in_flight_amount}
use ridematch.Ledger.Invariant.{Ensures, Ensures-bind, load_first}
use ridematch.Ledger.PostOne.{Posted}
use ridematch.Ledger.PostAll.{Settled, once-Posted}
use ridematch.Ledger.Balanced.{IsLedger, IsPayout, Posted-Balanced, update_withdrawal-Balanced}
use ridematch.Ledger.EscrowLaws.{Keeps}

abbrev pub save_if : Withdrawal → Bool → Tx Bool
save_if out applied =
    if applied then (do write (set_withdrawals (save Withdrawal.id out)); pure true) else pure false

-- A withdrawal that is saved in a final state no longer counts for the payout pool.
module _ (wd out : Withdrawal) (closed : is_terminal out.status ≡ true) (same_id : out.id ≡ wd.id)
    (payout : IsPayout out) where
  pub finish :
      (ps : List Posting) (db db' : Db) (applied : Bool)
      → IsLedger db
      → find_by Withdrawal.id wd.id db.withdrawals ≡ some wd
      → posted ps ≡ pos 0
      → posted_to Account.escrow ps ≡ pos 0
      → posted_to Account.payout_pending ps +ℤ in_flight_amount wd ≡ pos 0
      → ((applied ≡ true) × Posted ps db db') ⊎ ((applied ≡ false) × (db' ≡ db))
      → Ensures Keeps (save_if out applied db')
  finish ps db db' true b row even none_held paid (inl (_, p)) =
      update_withdrawal-Balanced wd out.id (λ _. out) (pos 0) (in_flight_amount wd) (pos 0) db'
        (Posted-Balanced ps (pos 0) (pos 0) (pos 0) (in_flight_amount wd) db db' b p even
          (rw none_held (omega int_laws)) (sym paid))
        (simp (same_id, p.same_withdrawals) row) (λ _ _. refl) (λ _ _ _. payout)
        (rw closed (+ℤ_comm (in_flight_amount wd) (pos 0)))
  finish ps db db' true b row even none_held paid (inr (no_, _)) = cc
  finish ps db db' false b row even none_held paid (inl (no_, _)) = cc
  finish ps db db' false b row even none_held paid (inr (_, same)) = subst IsLedger (sym same) b

pub own_row :
    (id : RowId) (wd : Withdrawal) (db : Db)
    → find_by Withdrawal.id id db.withdrawals ≡ some wd
    → find_by Withdrawal.id wd.id db.withdrawals ≡ some wd
own_row id wd db found = simp (find_by-key Withdrawal.id id db.withdrawals wd found) found

posted-paid_postings :
    (wd : Withdrawal)
    → IsPayout wd
    → eqb_ℤ (posting_sum (pos 0) (paid_postings wd)) (pos 0) ≡ true
    → posted (paid_postings wd) ≡ pos 0
unfolding posting_sum
posted-paid_postings wd h e =
    let even = split_exact wd.amount_kobo wd.net_kobo wd.fee_kobo h.0 h.2 h.1 (eq_of_eqb_ℤ _ _ e) in
    rw (neg64-exact wd.amount_kobo h.0) (omega (int_laws, ap pos_part even, ap neg_part even))

abbrev pub is_refused : WithdrawalStatus → Bool
is_refused s =
    status_in s
      (WithdrawalStatus.failed ∷ WithdrawalStatus.rejected ∷ WithdrawalStatus.pending_review ∷ [])

module _ (d : Draw) (flw : Option RowId) (wd : Withdrawal) where
  abbrev pub paying : Tx (Unit {0})
  paying =
      post d.tx_uuid d.now (IdemKey.withdraw_paid wd.id) RefType.withdrawal wd.id "Withdrawal paid"
        (paid_postings wd) []

  pub pay_row-paid : (db : Db) → is_paid wd.status ≡ true → pay_row d flw wd db ≡ (ok false, db)
  unfolding pay_row
  pay_row-paid db h = rw h

  pub pay_row-refused :
      (db : Db)
      → is_paid wd.status ≡ false
      → is_refused wd.status ≡ true
      → pay_row d flw wd db ≡ (err invalid_transition, db)
  unfolding pay_row
  pay_row-refused db h k = rw (h, k)

  pub pay_row-open :
      (db : Db)
      → is_paid wd.status ≡ false
      → is_refused wd.status ≡ false
      → pay_row d flw wd db ≡ (once paying >>= save_if (paid_row d flw wd)) db
  unfolding pay_row
  pay_row-open db h k = rw (h, k)

  pay_row-IsLedger :
      (db : Db)
      → IsLedger db
      → find_by Withdrawal.id wd.id db.withdrawals ≡ some wd
      → IsPayout wd
      → Ensures Keeps (pay_row d flw wd db)
  pay_row-IsLedger db b row payout = elim (Bool-cases (is_paid wd.status)) [
    | inl paid ↦ rw (pay_row-paid db paid) b
    | inr unpaid ↦ elim (Bool-cases (is_refused wd.status)) [
      | inl refused ↦ rw (pay_row-refused db unpaid refused) tt
      | inr open_row ↦ rw (pay_row-open db unpaid open_row) (
          Ensures-bind (Settled (paid_postings wd) db) Keeps (once paying)
            (save_if (paid_row d flw wd)) db
            (once-Posted d.tx_uuid d.now (IdemKey.withdraw_paid wd.id) RefType.withdrawal wd.id
              "Withdrawal paid" (paid_postings wd) [] db b.booked (λ _ _ e. cc)
              (
                neg64-IsInt64 wd.amount_kobo,
                (
                  IsAmount-IsInt64 wd.net_kobo payout.2,
                  (IsAmount-IsInt64 wd.fee_kobo payout.1, tt),
                ),
              ))
            (λ applied db' s.
              finish wd (paid_row d flw wd) refl refl payout (paid_postings wd) db db' applied b row
                (posted-paid_postings wd payout s.0) (omega int_laws)
                (rw (neg64-exact wd.amount_kobo payout.0, still_open unpaid open_row)
                  (omega int_laws))
                s.1))
    ]
  ]
    where
      still_open :
          is_paid wd.status ≡ false
          → is_refused wd.status ≡ false
          → in_flight_amount wd ≡ wd.amount_kobo
      still_open h k = ground arith

-- A confirmed payout keeps the ledger balanced: the pool pays the bank and the fee.
pub finalize_withdrawal_success-IsLedger :
    (d : Draw) (id : RowId) (flw : Option RowId) (db : Db)
    → IsLedger db
    → Ensures (λ _ db'. IsLedger db') (finalize_withdrawal_success d id flw db)
unfolding finalize_withdrawal_success
finalize_withdrawal_success-IsLedger d id flw db b =
    load_first (λ _ db'. IsLedger db') (find_by Withdrawal.id id db.withdrawals) not_found
      (pay_row d flw) db
      (λ wd found.
        pay_row-IsLedger d flw wd db b (own_row id wd db found)
          (All-find_by Withdrawal.id IsPayout id db.withdrawals wd found b.withdrawal_amounts))
