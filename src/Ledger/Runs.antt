-- ===== src/Ledger/Runs.antt =====
-- Runs of calls of internal/repository/ledger_repository.go from an empty database.
use ridematch.Prelude.{
  ℕ, ◌≡◌, refl, true, false, Option, String, List, [], ◌∷◌, Bool-cases, inl, inr, All,
}
use ridematch.Prelude.Int.{ℤ, int_laws}
use ridematch.Prelude.Word.{IsAmount}
use ridematch.Prelude.Table.{find_by, find_where}
use ridematch.Ledger.Models.{
  RowId, Time, WalletTopup, EscrowHold, Withdrawal, WithdrawalStatus, is_terminal,
}
use ridematch.Ledger.Store.{
  Db, empty_db, Result, ok, err, Tx, Draw, ◌>>=◌, or_abort, query, not_found, transaction,
}
use ridematch.Ledger.Post.{lock_wallet, ensure_wallet_tx}
use ridematch.Ledger.Wallets
use ridematch.Ledger.Topups
use ridematch.Ledger.Escrow
use ridematch.Ledger.Withdrawals
use ridematch.Ledger.Payouts
use ridematch.Ledger.Withdrawals.{WithdrawalGuard, is_returned}
use ridematch.Ledger.Payouts.{Column}
use ridematch.Ledger.Integrity.{integrity}
use ridematch.Ledger.IntegrityLaws.{integrity-IsLedger}
use ridematch.Ledger.Invariant.{Ensures}
use ridematch.Ledger.Balanced.{IsFare, IsPayout, IsLedger}
use ridematch.Ledger.EscrowLaws.{release_escrow-IsLedger, refund_escrow-IsLedger}
use ridematch.Ledger.HoldLaws.{
  hold_escrow-IsLedger, mark_escrow_completed-IsLedger, dispute_escrow-IsLedger,
}
use ridematch.Ledger.TopupLaws.{
  create_topup-IsLedger, update_topup-IsLedger, expire_stale_topups-IsLedger, credit_topup-IsLedger,
}
use ridematch.Ledger.WithdrawalLaws.{create_withdrawal-IsLedger}
use ridematch.Ledger.PayoutLaws.{transition_withdrawal-IsLedger}
use ridematch.Ledger.FinalLaws.{finalize_withdrawal_success-IsLedger}
use ridematch.Ledger.ReturnLaws.{
  finalize-guarded, finalize-open, finalize_withdrawal_failure-IsLedger,
}
use ridematch.Ledger.WalletLaws.{
  ensure_wallet-IsLedger, update_wallet_security-IsLedger, record_pin_failure-IsLedger,
  set_wallet_frozen-IsLedger,
}
use ridematch.Ledger.Operations.{Call, step, run, IsSound}

-- A transaction that fails leaves the tables as they were.
pub transaction-IsLedger :
    {A : Type 0} (m : Tx A) (db : Db)
    → IsLedger db
    → Ensures (λ _ db'. IsLedger db') (transaction m db)
    → IsLedger (transaction m db).1
transaction-IsLedger {A = A} m db b p = go (m db) p
  where
    go :
        (r : Result A × Db)
        → Ensures {A = A}
            (λ _ db'. IsLedger db')
            (elim r.0 as (λ _. Result A × Db) [ ok a ↦ (ok a, r.1) | err e ↦ (err e, db) ])
        → IsLedger (elim r.0 as (λ _. Result A × Db) [ ok a ↦ (ok a, r.1) | err e ↦ (err e, db) ]).1
    go (ok a, db') q = q
    go (err e, db') q = b

pub empty_db-IsLedger : IsLedger empty_db
empty_db-IsLedger = record {
  booked = record {
    keyed = tt;
    nonneg = λ id w h. cc;
    agrees = λ id w h. cc;
    unknown = λ id h. refl;
    balances = refl;
  };
  zero = refl;
  escrow_keyed = tt;
  escrow_amounts = tt;
  escrow_pool = omega int_laws;
  withdrawal_keyed = tt;
  withdrawal_amounts = tt;
  payout_pool = omega int_laws;
}

fail_pin-IsLedger :
    (d : Draw) (id : RowId) (max : ℕ) (lock_for : Time) (db : Db)
    → IsLedger db
    → IsLedger (Wallets.record_pin_failure d id max lock_for db).1
unfolding Wallets.record_pin_failure
fail_pin-IsLedger d id max lock_for db b =
    transaction-IsLedger (lock_wallet id >>= Wallets.count_pin_failure d id max lock_for) db b
      (record_pin_failure-IsLedger d id max lock_for db b)

credit-IsLedger :
    (d : Draw) (id : RowId) (paid amount : ℤ) (flw : RowId) (db : Db)
    → IsAmount paid × IsAmount amount
    → IsLedger db
    → IsLedger (Topups.credit_topup d id paid amount flw db).1
unfolding Topups.credit_topup
credit-IsLedger d id paid amount flw db s b =
    transaction-IsLedger
      (or_abort (find_by WalletTopup.id id db.topups) not_found
        >>= Topups.credit_row d paid amount flw)
      db b (credit_topup-IsLedger d paid amount flw s.0 s.1 id db b)

hold-IsLedger :
    (d : Draw) (h : EscrowHold) (db : Db)
    → IsFare h
    → IsLedger db
    → IsLedger (Escrow.hold_escrow d h db).1
unfolding Escrow.hold_escrow
hold-IsLedger d h db s b =
    transaction-IsLedger
      (ensure_wallet_tx d.wallet_uuid h.payer_user_id >>= λ wallet. lock_wallet wallet.id >>= λ w.
        query (λ db. find_where (Escrow.of_trip h.trip_id) db.escrows) >>= Escrow.hold_over d w h)
      db b (hold_escrow-IsLedger d h db b s)

release-IsLedger :
    (d : Draw) (trip : RowId) (note : String) (db : Db)
    → IsLedger db
    → IsLedger (Escrow.release_escrow d trip note db).1
unfolding Escrow.release_escrow
release-IsLedger d trip note db b =
    transaction-IsLedger
      (or_abort (find_where (Escrow.of_trip trip) db.escrows) not_found
        >>= Escrow.release_hold d note)
      db b (release_escrow-IsLedger d trip note db b)

refund-IsLedger :
    (d : Draw) (trip : RowId) (by : Option RowId) (note : String) (db : Db)
    → IsLedger db
    → IsLedger (Escrow.refund_escrow d trip by note db).1
unfolding Escrow.refund_escrow
refund-IsLedger d trip by note db b =
    transaction-IsLedger
      (or_abort (find_where (Escrow.of_trip trip) db.escrows) not_found
        >>= Escrow.refund_hold d by note)
      db b (refund_escrow-IsLedger d trip by note db b)

withdraw-IsLedger :
    (d : Draw) (wd : Withdrawal) (g : WithdrawalGuard) (db : Db)
    → IsPayout wd × (is_terminal wd.status ≡ false)
    → IsLedger db
    → IsLedger (Withdrawals.create_withdrawal d wd g db).1
unfolding Withdrawals.create_withdrawal
withdraw-IsLedger d wd g db s b =
    transaction-IsLedger (lock_wallet wd.wallet_id >>= Withdrawals.lock_funds d wd g) db b
      (create_withdrawal-IsLedger d wd g db b s.0 s.1)

pay-IsLedger :
    (d : Draw) (id : RowId) (flw : Option RowId) (db : Db)
    → IsLedger db
    → IsLedger (Payouts.finalize_withdrawal_success d id flw db).1
unfolding Payouts.finalize_withdrawal_success
pay-IsLedger d id flw db b =
    transaction-IsLedger
      (or_abort (find_by Withdrawal.id id db.withdrawals) not_found >>= Payouts.pay_row d flw) db b
      (finalize_withdrawal_success-IsLedger d id flw db b)

return-IsLedger :
    (d : Draw) (id : RowId) (final : WithdrawalStatus) (reason : String) (reviewer : Option RowId)
    (db : Db)
    → IsLedger db
    → IsLedger (Payouts.finalize_withdrawal_failure d id final reason reviewer db).1
return-IsLedger d id final reason reviewer db b = elim (Bool-cases (is_returned final)) [
  | inr other ↦ rw (finalize-guarded d id final reason reviewer db other) b
  | inl final_ok ↦
      let kept = finalize_withdrawal_failure-IsLedger d id final reason reviewer db b in
      rw (finalize-open d id final reason reviewer db final_ok) (
        transaction-IsLedger
          (or_abort (find_by Withdrawal.id id db.withdrawals) not_found
            >>= Payouts.return_row d final reason reviewer)
          db b (rw (finalize-open d id final reason reviewer db final_ok) at kept))
]

-- Every sound call, whether it succeeds or fails, leaves balanced tables balanced: ids are
-- unique, each balance is a sum of money and what its entries add up to, all entries add up to
-- zero, and the escrow and payout accounts are what the open holds and withdrawals say.
pub step-IsLedger : (c : Call) (db : Db) → IsSound c → IsLedger db → IsLedger (step c db)
unfolding step IsSound
step-IsLedger (Call.ensure d user) db s b = ensure_wallet-IsLedger d user db b
step-IsLedger (Call.secure w) db s b = update_wallet_security-IsLedger w db b
step-IsLedger (Call.fail_pin d id max lock_for) db s b = fail_pin-IsLedger d id max lock_for db b
step-IsLedger (Call.freeze d user frozen reason) db s b =
    set_wallet_frozen-IsLedger d user frozen reason db b
step-IsLedger (Call.start_topup t) db s b = create_topup-IsLedger t db b
step-IsLedger (Call.change_topup t) db s b = update_topup-IsLedger t db b
step-IsLedger (Call.expire before) db s b = expire_stale_topups-IsLedger before db b
step-IsLedger (Call.credit d id paid amount flw) db s b =
    credit-IsLedger d id paid amount flw db s b
step-IsLedger (Call.hold d h) db s b = hold-IsLedger d h db s b
step-IsLedger (Call.complete trip after) db s b = mark_escrow_completed-IsLedger trip after db b
step-IsLedger (Call.contest d trip reason) db s b = dispute_escrow-IsLedger d trip reason db b
step-IsLedger (Call.release d trip note) db s b = release-IsLedger d trip note db b
step-IsLedger (Call.refund d trip by note) db s b = refund-IsLedger d trip by note db b
step-IsLedger (Call.withdraw d wd g) db s b = withdraw-IsLedger d wd g db s b
step-IsLedger (Call.transition d id from to cs) db s b =
    transition_withdrawal-IsLedger d from to cs id db b s.0 s.1
step-IsLedger (Call.pay d id flw) db s b = pay-IsLedger d id flw db b
step-IsLedger (Call.return d id final reason reviewer) db s b =
    return-IsLedger d id final reason reviewer db b

-- Whatever sound calls are made in whatever order, the ledger stays balanced.
pub run-IsLedger : (cs : List Call) (db : Db) → All IsSound cs → IsLedger db → IsLedger (run cs db)
unfolding run
run-IsLedger [] db s b = b
run-IsLedger (c ∷ cs) db s b = run-IsLedger cs (step c db) s.1 (step-IsLedger c db s.0 b)

-- After any list of sound calls made from empty tables, the integrity report is OK and lists no
-- problem. A call is sound if its amounts are sums of money (int64, not negative), a withdrawal
-- that it makes has a status that is not final, and a bare transition is from and to statuses
-- that are not final.
pub integrity-run :
    (cs : List Call)
    → All IsSound cs
    → ((integrity (run cs empty_db)).ok ≡ true) × ((integrity (run cs empty_db)).problems ≡ [])
integrity-run cs s =
    integrity-IsLedger (run cs empty_db) (run-IsLedger cs empty_db s empty_db-IsLedger)
