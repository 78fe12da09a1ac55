-- ===== src/Ledger/Guard.antt =====
-- What the checks of `CreateWithdrawal` in internal/repository/ledger_repository.go let through.
use ridematch.Prelude.{◌≡◌, ap, true, false, inl, inr, ◌⊎◌, none, some, ◌<◌, arith}
use ridematch.Prelude.Int.{pos, ◌≤ℤ◌, ltb_ℤ}
use ridematch.Prelude.Word.{add64}
use ridematch.Prelude.Table.{find_where, find_by}
use ridematch.Ledger.Models.{Wallet, Withdrawal}
use ridematch.Ledger.Store.{Db, Error, not_found, ok, err, Result, Draw}
use ridematch.Ledger.Post.{lock_wallet}
use ridematch.Ledger.Withdrawals.{
  WithdrawalGuard, is_driver, is_repeat, used_today, check_guard, store_row, lock_funds,
  create_withdrawal,
}
use ridematch.Ledger.Invariant.{loaded, bind-err}

-- A frozen wallet pays no driver withdrawal; a cap, a window for repeats and a daily limit bind
-- where they are set, the limit on driver withdrawals alone.
pub record IsAllowed (g : WithdrawalGuard) (w : Wallet) (wd : Withdrawal) (db : Db) : Type 0 where
  pub not_frozen : is_driver wd.kind ≡ true → w.withdrawals_frozen ≡ false
  pub in_cap : ltb_ℤ (pos 0) g.cooldown_cap ≡ true → wd.amount_kobo ≤ℤ g.cooldown_cap
  pub no_repeat : 0 < g.duplicate_window → find_where (is_repeat g w wd) db.withdrawals ≡ none
  pub in_limit :
      ltb_ℤ (pos 0) g.daily_limit_kobo ≡ true
      → is_driver wd.kind ≡ true
      → add64 (used_today g w db.withdrawals) wd.amount_kobo ≤ℤ g.daily_limit_kobo

module _ (g : WithdrawalGuard) (w : Wallet) (wd : Withdrawal) (db : Db) where
  -- The checks write nothing.
  check_guard-same : (check_guard g w wd db).1 ≡ db
  unfolding check_guard
  check_guard-same = ground arith

  check_guard-IsAllowed : check_guard g w wd db ≡ (ok tt, db) → IsAllowed g w wd db
  unfolding check_guard
  check_guard-IsAllowed h = record {
    not_frozen = λ e. ground arith;
    in_cap = λ e. ground arith;
    no_repeat = λ e. ground arith;
    in_limit = λ e k. ground arith;
  }

  IsAllowed-check_guard : IsAllowed g w wd db → check_guard g w wd db ≡ (ok tt, db)
  unfolding check_guard
  IsAllowed-check_guard a = ground (arith, a.not_frozen, a.in_cap, a.no_repeat, a.in_limit)

-- Refused by the checks, a withdrawal is refused with no write.
guard_refuses :
    (d : Draw) (g : WithdrawalGuard) (w : Wallet) (wd : Withdrawal) (db : Db) (e : Error)
    → check_guard g w wd db ≡ (err e, db)
    → lock_funds d wd g w db ≡ (err e, db)
unfolding lock_funds
guard_refuses d g w wd db e h = bind-err (check_guard g w wd) (λ _. store_row d wd w) db db e h

check_guard-ends :
    (g : WithdrawalGuard) (w : Wallet) (wd : Withdrawal) (db : Db)
    → (check_guard g w wd db ≡ (ok tt, db)) ⊎ ((e : Error) × (check_guard g w wd db ≡ (err e, db)))
check_guard-ends g w wd db = go (check_guard g w wd db) (check_guard-same g w wd db)
  where
    go :
        (r : Result (Unit {0}) × Db)
        → r.1 ≡ db
        → (r ≡ (ok tt, db)) ⊎ ((e : Error) × (r ≡ (err e, db)))
    go (ok tt, db') h = inl (ap (λ x. (ok tt, x)) h)
    go (err e, db') h = inr (e, ap (λ x. (err e, x)) h)

-- Where `CreateWithdrawal` succeeds, the wallet that it draws on was not frozen for a driver
-- withdrawal, the amount was within a cap that is set, no repeat was there within a window that
-- is set, and a driver withdrawal stayed within a daily limit that is set, as the int64 sum of
-- the code has it.
pub create_withdrawal-IsAllowed :
    (d : Draw) (wd out : Withdrawal) (g : WithdrawalGuard) (w : Wallet) (db db' : Db)
    → find_by Wallet.id wd.wallet_id db.wallets ≡ some w
    → create_withdrawal d wd g db ≡ (ok out, db')
    → IsAllowed g w wd db
unfolding create_withdrawal lock_wallet
create_withdrawal-IsAllowed d wd out g w db db' row h = elim (check_guard-ends g w wd db) [
  | inl passes ↦ check_guard-IsAllowed g w wd db passes
  | inr (e, refused) ↦
      let ends =
        loaded (find_by Wallet.id wd.wallet_id db.wallets) w not_found (lock_funds d wd g) db
          (err e) row (guard_refuses d g w wd db e refused) in
      cc
]
