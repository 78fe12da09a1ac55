-- ===== src/Ledger/CreditedOnce.antt =====
-- `CreditTopup` of internal/repository/ledger_repository.go, called again on a top-up that it has
-- credited.
use mathlib.Core.Path.{subst}
use ridematch.Prelude.{◌≡◌, refl, Bool, true, false, inl, inr, some, arith, ◌⊎◌, Bool-cases}
use ridematch.Prelude.Int.{ℤ, pos}
use ridematch.Prelude.Word.{IsAmount}
use ridematch.Prelude.Table.{find_by, find_by-key, find_by-save}
use ridematch.Ledger.Models.{RowId, RefType, IdemKey, Wallet, WalletTopup}
use ridematch.Ledger.Store.{Db, not_found, ok, Draw, ◌>>=◌}
use ridematch.Ledger.Post.{lock_one, once}
use ridematch.Ledger.Topups.{is_successful, topup_postings, credited, credit_row, credit_topup}
use ridematch.Ledger.Invariant.{Ensures, Ensures-bind, load_first, loaded}
use ridematch.Ledger.PostOne.{Posted}
use ridematch.Ledger.PostAll.{once-Posted, Settled}
use ridematch.Ledger.Balanced.{IsLedger}
use ridematch.Ledger.WalletFirst.{wallet_first}
use ridematch.Ledger.TopupLaws.{topup_postings-IsPostable, crediting, save_if}

-- The row that a credit returns is the row that the table has, and it is successful.
abbrev Credits : RowId → WalletTopup × Bool → Db → Type 0
Credits id r db =
    r.1 ≡ true
    → (find_by WalletTopup.id id db.topups ≡ some r.0) × (is_successful r.0.status ≡ true)

module _ (d : Draw) (paid credit : ℤ) (flw : RowId) (paid_amount : IsAmount paid)
    (credit_amount : IsAmount credit) where
  finish-Credits :
      (t : WalletTopup) (w : Wallet) (db db' : Db) (applied : Bool)
      → find_by WalletTopup.id t.id db.topups ≡ some t
      → ((applied ≡ true) × Posted (topup_postings w.id paid credit) db db')
        ⊎ ((applied ≡ false) × (db' ≡ db))
      → Ensures (Credits t.id) (save_if d paid credit flw paid_amount credit_amount t applied db')
  finish-Credits t w db db' true row (inl (_, q)) = λ _.
      let there : find_by WalletTopup.id t.id db'.topups ≡ some t = simp q.same_topups row in
      (
        ground (
          arith,
          find_by-save WalletTopup.id t.id (credited d t paid credit flw) t db'.topups there,
        ),
        refl,
      )
  finish-Credits t w db db' true row (inr (no_, _)) = cc
  finish-Credits t w db db' false row q = λ e. cc

  credit_row-Credits :
      (t : WalletTopup) (db : Db)
      → IsLedger db
      → find_by WalletTopup.id t.id db.topups ≡ some t
      → Ensures (Credits t.id) (credit_row d paid credit flw t db)
  unfolding credit_row
  credit_row-Credits t db b row = elim (Bool-cases (is_successful t.status)) [
    | inl done ↦ rw done (λ e. cc)
    | inr new ↦ rw new (
        wallet_first (Credits t.id) (pos 0) (pos 0) db b d.wallet_uuid t.user_id
          (λ w.
            once (crediting d paid credit flw paid_amount credit_amount t w)
            >>= save_if d paid credit flw paid_amount credit_amount t)
          (λ w db' b' same sync.
            Ensures-bind (Settled (topup_postings w.id paid credit) db') (Credits t.id)
              (once (crediting d paid credit flw paid_amount credit_amount t w))
              (save_if d paid credit flw paid_amount credit_amount t) db'
              (once-Posted d.tx_uuid d.now (IdemKey.topup t.id) RefType.topup t.id "Wallet top-up"
                (topup_postings w.id paid credit) (lock_one w) db' b'.booked sync
                (topup_postings-IsPostable d paid credit flw paid_amount credit_amount w.id))
              (λ applied db'' s. finish-Credits t w db' db'' applied (simp same.topups row) s.1)))
  ]

  credit_topup-Credits :
      (id : RowId) (db : Db)
      → IsLedger db
      → Ensures (Credits id) (credit_topup d id paid credit flw db)
  unfolding credit_topup
  credit_topup-Credits id db b =
      load_first (Credits id) (find_by WalletTopup.id id db.topups) not_found
        (credit_row d paid credit flw) db
        (λ t found.
          let same = find_by-key WalletTopup.id id db.topups t found in
          subst (λ i. Ensures (Credits i) (credit_row d paid credit flw t db)) same
            (credit_row-Credits t db b (simp same found)))

  -- On balanced tables, once `CreditTopup` with amounts that are sums of money has credited a
  -- top-up, any further call for it returns the same row, says false and changes nothing,
  -- whatever amounts it is given.
  pub credit_topup-once :
      (id : RowId) (t : WalletTopup) (db db' : Db)
      → IsLedger db
      → credit_topup d id paid credit flw db ≡ (ok (t, true), db')
      → (d' : Draw) (paid' credit' : ℤ) (flw' : RowId)
      → credit_topup d' id paid' credit' flw' db' ≡ (ok (t, false), db')
  unfolding credit_topup
  credit_topup-once id t db db' b e d' paid' credit' flw' =
      let c = subst (Ensures (Credits id)) e (credit_topup-Credits id db b) refl in
      loaded (find_by WalletTopup.id id db'.topups) t not_found (credit_row d' paid' credit' flw')
        db' (ok (t, false)) c.0 (unfold credit_row in (rw c.1 refl))
