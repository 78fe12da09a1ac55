-- ===== src/Ledger/Balanced.antt =====
-- Double entry across the money tables of internal/repository/ledger_repository.go: what the
-- ledger keeps for trips and for payouts against the holds and the withdrawals.
use ridematch.Prelude.{◌≡◌, refl, sym, none, some, List, ◌∷◌, All}
use mathlib.Core.Path.{subst}
use ridematch.Prelude.Int.{ℤ, pos, ◌+ℤ◌, int_laws}
use ridematch.Prelude.Word.{IsAmount}
use ridematch.Prelude.Table.{
  sum_by, find_by, save, update_by, IsKeyed, IsKeyed-update_by, sum_by-update_by, All-update_by,
}
use ridematch.Ledger.Models.{RowId, Account, EscrowHold, Withdrawal}
use ridematch.Ledger.Store.{Db}
use ridematch.Ledger.Post.{Posting}
use ridematch.Ledger.Escrow.{set_escrows}
use ridematch.Ledger.Withdrawals.{set_withdrawals}
use ridematch.Ledger.Sums.{
  entries_total, account_total, held_amount, in_flight_amount, posted_to, posted,
}
use ridematch.Ledger.Invariant.{IsBooked}
use ridematch.Ledger.PostOne.{Posted}

-- A hold's amount, and a withdrawal's three amounts, are sums of money.
abbrev pub IsFare : EscrowHold → Type 0
IsFare h = IsAmount h.amount_kobo

abbrev pub IsPayout : Withdrawal → Type 0
IsPayout w = IsAmount w.amount_kobo × IsAmount w.fee_kobo × IsAmount w.net_kobo

-- The tables agree but for `due`, which the escrow pool is still owed, and `pay`, which the payout
-- pool is still owed: the middle of an operation.
pub record Balanced (due pay : ℤ) (db : Db) : Type 0 where
  pub booked : IsBooked db
  pub zero : entries_total db.entries ≡ pos 0
  pub escrow_keyed : IsKeyed EscrowHold.id db.escrows
  pub escrow_amounts : All IsFare db.escrows
  pub escrow_pool : account_total Account.escrow db.entries +ℤ due ≡ sum_by held_amount db.escrows
  pub withdrawal_keyed : IsKeyed Withdrawal.id db.withdrawals
  pub withdrawal_amounts : All IsPayout db.withdrawals
  pub payout_pool :
      account_total Account.payout_pending db.entries +ℤ pay
      ≡ sum_by in_flight_amount db.withdrawals

-- Between two operations nothing is owed.
abbrev pub IsLedger : Db → Type 0
IsLedger db = Balanced (pos 0) (pos 0) db

-- A movement that is balanced pays what it posts to each pool.
pub Posted-Balanced :
    (ps : List Posting) (due due' pay pay' : ℤ) (db db' : Db)
    → Balanced due pay db
    → Posted ps db db'
    → posted ps ≡ pos 0
    → due ≡ posted_to Account.escrow ps +ℤ due'
    → pay ≡ posted_to Account.payout_pending ps +ℤ pay'
    → Balanced due' pay' db'
Posted-Balanced ps due due' pay pay' db db' b p z e f = record {
  booked = p.booked;
  zero = grind (int_laws, p.total, b.zero, z);
  escrow_keyed = subst (IsKeyed EscrowHold.id) (sym p.same_escrows) b.escrow_keyed;
  escrow_amounts = subst (All IsFare) (sym p.same_escrows) b.escrow_amounts;
  escrow_pool = rw p.same_escrows (grind (int_laws, p.accounts Account.escrow, b.escrow_pool, e));
  withdrawal_keyed = subst (IsKeyed Withdrawal.id) (sym p.same_withdrawals) b.withdrawal_keyed;
  withdrawal_amounts = subst (All IsPayout) (sym p.same_withdrawals) b.withdrawal_amounts;
  payout_pool =
      rw p.same_withdrawals (grind (int_laws, p.accounts Account.payout_pending, b.payout_pool, f));
}

-- A hold that is saved leaves the pool owed what its held amount has changed by.
pub save_escrow-Balanced :
    (old out : EscrowHold) (due due' pay : ℤ) (db : Db)
    → Balanced due pay db
    → find_by EscrowHold.id out.id db.escrows ≡ some old
    → IsFare out
    → due +ℤ held_amount out ≡ due' +ℤ held_amount old
    → Balanced due' pay (set_escrows (save EscrowHold.id out) db)
save_escrow-Balanced old out due due' pay db b row fare e = record {
  booked = b.booked;
  zero = b.zero;
  escrow_keyed =
      IsKeyed-update_by EscrowHold.id out.id (λ _. out) db.escrows (λ _ _. refl) b.escrow_keyed;
  escrow_amounts =
      All-update_by EscrowHold.id IsFare out.id (λ _. out) db.escrows (λ _ _ _. fare)
        b.escrow_amounts;
  escrow_pool = grind (
    int_laws,
    sum_by-update_by EscrowHold.id held_amount out.id (λ _. out) db.escrows old row,
    b.escrow_pool,
    e,
  );
  withdrawal_keyed = b.withdrawal_keyed;
  withdrawal_amounts = b.withdrawal_amounts;
  payout_pool = b.payout_pool;
}

pub create_escrow-Balanced :
    (h : EscrowHold) (due pay : ℤ) (db : Db)
    → Balanced due pay db
    → find_by EscrowHold.id h.id db.escrows ≡ none
    → IsFare h
    → Balanced (due +ℤ held_amount h) pay (set_escrows (λ hs. h ∷ hs) db)
create_escrow-Balanced h due pay db b new fare = record {
  booked = b.booked;
  zero = b.zero;
  escrow_keyed = (new, b.escrow_keyed);
  escrow_amounts = (fare, b.escrow_amounts);
  escrow_pool = grind (int_laws, b.escrow_pool);
  withdrawal_keyed = b.withdrawal_keyed;
  withdrawal_amounts = b.withdrawal_amounts;
  payout_pool = b.payout_pool;
}

-- The same for a withdrawal and the payout pool.
pub update_withdrawal-Balanced :
    (old : Withdrawal) (k : RowId) (f : Withdrawal → Withdrawal) (due pay pay' : ℤ) (db : Db)
    → Balanced due pay db
    → find_by Withdrawal.id k db.withdrawals ≡ some old
    → ((r : Withdrawal) → r.id ≡ k → (f r).id ≡ k)
    → ((r : Withdrawal) → IsPayout r → r.id ≡ k → IsPayout (f r))
    → pay +ℤ in_flight_amount (f old) ≡ pay' +ℤ in_flight_amount old
    → Balanced due pay' (set_withdrawals (update_by Withdrawal.id k f) db)
update_withdrawal-Balanced old k f due pay pay' db b row same payout e = record {
  booked = b.booked;
  zero = b.zero;
  escrow_keyed = b.escrow_keyed;
  escrow_amounts = b.escrow_amounts;
  escrow_pool = b.escrow_pool;
  withdrawal_keyed = IsKeyed-update_by Withdrawal.id k f db.withdrawals same b.withdrawal_keyed;
  withdrawal_amounts =
      All-update_by Withdrawal.id IsPayout k f db.withdrawals payout b.withdrawal_amounts;
  payout_pool = grind (
    int_laws,
    sum_by-update_by Withdrawal.id in_flight_amount k f db.withdrawals old row,
    b.payout_pool,
    e,
  );
}

pub create_withdrawal-Balanced :
    (w : Withdrawal) (due pay : ℤ) (db : Db)
    → Balanced due pay db
    → find_by Withdrawal.id w.id db.withdrawals ≡ none
    → IsPayout w
    → Balanced due (pay +ℤ in_flight_amount w) (set_withdrawals (λ ws. w ∷ ws) db)
create_withdrawal-Balanced w due pay db b new payout = record {
  booked = b.booked;
  zero = b.zero;
  escrow_keyed = b.escrow_keyed;
  escrow_amounts = b.escrow_amounts;
  escrow_pool = b.escrow_pool;
  withdrawal_keyed = (new, b.withdrawal_keyed);
  withdrawal_amounts = (payout, b.withdrawal_amounts);
  payout_pool = grind (int_laws, b.payout_pool);
}
