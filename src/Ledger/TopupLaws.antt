-- ===== src/Ledger/TopupLaws.antt =====
-- The top-up operations of internal/repository/ledger_repository.go and the balance of the
-- ledger.
use mathlib.Core.Path.{subst, sym}
use ridematch.Prelude.{
  ◌≡◌, Bool, true, false, inl, inr, List, ◌∷◌, ◌⊎◌, Bool-cases, Option-cases, if◌then◌else◌, All,
}
use ridematch.Prelude.Int.{ℤ, pos, int_laws}
use ridematch.Prelude.Word.{
  IsAmount, neg64-exact, sub64-exact, sub64-IsInt64, neg64-IsInt64, IsAmount-IsInt64,
}
use ridematch.Prelude.Table.{find_by, save, update_where}
use ridematch.Ledger.Models.{RowId, Time, RefType, IdemKey, Wallet, WalletTopup, TopupStatus}
use ridematch.Ledger.Store.{Db, not_found, Tx, Draw, ◌>>=◌, ◌>>◌, pure, write}
use ridematch.Ledger.Post.{lock_one, post, once}
use ridematch.Ledger.Topups.{
  is_stale, is_successful, set_topups, topup_postings, credited, create_topup, update_topup,
  expire_stale_topups, credit_row, credit_topup,
}
use ridematch.Ledger.Sums.{posted}
use ridematch.Ledger.Invariant.{Ensures, Ensures-bind, load_first}
use ridematch.Ledger.PostOne.{Posted}
use ridematch.Ledger.PostAll.{IsPostable, once-Posted, Settled}
use ridematch.Ledger.Balanced.{IsLedger, Posted-Balanced}
use ridematch.Ledger.EscrowLaws.{Keeps}
use ridematch.Ledger.WalletFirst.{wallet_first}

-- No invariant speaks of the top-ups.
set_topups-IsLedger :
    (f : List WalletTopup → List WalletTopup) (db : Db) → IsLedger db → IsLedger (set_topups f db)
set_topups-IsLedger f db b = record {
  booked = b.booked;
  zero = b.zero;
  escrow_keyed = b.escrow_keyed;
  escrow_amounts = b.escrow_amounts;
  escrow_pool = b.escrow_pool;
  withdrawal_keyed = b.withdrawal_keyed;
  withdrawal_amounts = b.withdrawal_amounts;
  payout_pool = b.payout_pool;
}

pub create_topup-IsLedger :
    (t : WalletTopup) (db : Db) → IsLedger db → IsLedger (create_topup t db).1
unfolding create_topup
create_topup-IsLedger t db b = elim (Option-cases (find_by WalletTopup.id t.id db.topups)) [
  | inr (r, taken) ↦ rw taken b
  | inl new ↦ elim (Option-cases (find_by WalletTopup.tx_ref t.tx_ref db.topups)) [
    | inr (r, used) ↦ rw (new, used) b
    | inl unused ↦ rw (new, unused) (set_topups-IsLedger (λ ts. t ∷ ts) db b)
  ]
]

pub update_topup-IsLedger :
    (t : WalletTopup) (db : Db) → IsLedger db → IsLedger (update_topup t db).1
unfolding update_topup
update_topup-IsLedger t db b = set_topups-IsLedger (save WalletTopup.id t) db b

pub expire_stale_topups-IsLedger :
    (before : Time) (db : Db) → IsLedger db → IsLedger (expire_stale_topups before db).1
unfolding expire_stale_topups
expire_stale_topups-IsLedger before db b =
    set_topups-IsLedger
      (update_where (is_stale before) (λ t. record t { status = TopupStatus.expired })) db b

module _ (d : Draw) (paid credit : ℤ) (flw : RowId) (paid_amount : IsAmount paid)
    (credit_amount : IsAmount credit) where
  pub topup_postings-IsPostable : (w : RowId) → All IsPostable (topup_postings w paid credit)
  topup_postings-IsPostable w =
      (neg64-IsInt64 paid, (IsAmount-IsInt64 credit credit_amount, (sub64-IsInt64 paid credit, tt)))

  posted-topup_postings : (w : RowId) → posted (topup_postings w paid credit) ≡ pos 0
  posted-topup_postings w =
      rw (neg64-exact paid paid_amount, sub64-exact paid credit paid_amount credit_amount)
        (omega int_laws)

  abbrev pub crediting : WalletTopup → Wallet → Tx (Unit {0})
  crediting t w =
      post d.tx_uuid d.now (IdemKey.topup t.id) RefType.topup t.id "Wallet top-up"
        (topup_postings w.id paid credit) (lock_one w)

  abbrev pub save_if : WalletTopup → Bool → Tx (WalletTopup × Bool)
  save_if t applied =
      if applied
      then (do
        write (set_topups (save WalletTopup.id (credited d t paid credit flw)))
        pure (credited d t paid credit flw, true))
      else pure (t, false)

  finish :
      (t : WalletTopup) (w : Wallet) (db db' : Db) (applied : Bool)
      → IsLedger db
      → ((applied ≡ true) × Posted (topup_postings w.id paid credit) db db')
        ⊎ ((applied ≡ false) × (db' ≡ db))
      → Ensures Keeps (save_if t applied db')
  finish t w db db' true b (inl (_, p)) =
      set_topups-IsLedger (save WalletTopup.id (credited d t paid credit flw)) db' (
        Posted-Balanced _ (pos 0) (pos 0) (pos 0) (pos 0) db db' b p (posted-topup_postings w.id)
          (omega int_laws) (omega int_laws))
  finish t w db db' true b (inr (no_, _)) = cc
  finish t w db db' false b (inl (no_, _)) = cc
  finish t w db db' false b (inr (_, same)) = subst IsLedger (sym same) b

  credit_row-IsLedger :
      (t : WalletTopup) (db : Db) → IsLedger db → Ensures Keeps (credit_row d paid credit flw t db)
  unfolding credit_row
  credit_row-IsLedger t db b = elim (Bool-cases (is_successful t.status)) [
    | inl done ↦ rw done b
    | inr new ↦ rw new (
        wallet_first Keeps (pos 0) (pos 0) db b d.wallet_uuid t.user_id
          (λ w. once (crediting t w) >>= save_if t)
          (λ w db' b' same sync.
            Ensures-bind (Settled (topup_postings w.id paid credit) db') Keeps
              (once (crediting t w)) (save_if t) db'
              (once-Posted d.tx_uuid d.now (IdemKey.topup t.id) RefType.topup t.id "Wallet top-up"
                (topup_postings w.id paid credit) (lock_one w) db' b'.booked sync
                (topup_postings-IsPostable w.id))
              (λ applied db'' s. finish t w db' db'' applied b' s.1)))
  ]

  -- Crediting a top-up keeps the ledger balanced.
  pub credit_topup-IsLedger :
      (id : RowId) (db : Db)
      → IsLedger db
      → Ensures (λ _ db'. IsLedger db') (credit_topup d id paid credit flw db)
  unfolding credit_topup
  credit_topup-IsLedger id db b =
      load_first (λ _ db'. IsLedger db') (find_by WalletTopup.id id db.topups) not_found
        (credit_row d paid credit flw) db (λ t found. credit_row-IsLedger t db b)
