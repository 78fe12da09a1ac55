-- ===== src/Ledger/Paying.antt =====
-- A movement from a pool to one wallet by `post`, `ReleaseEscrow` and `RefundEscrow`:
-- internal/repository/ledger_repository.go.
use ridematch.Prelude.{◌≡◌, refl, ◌∙◌, ap, true, false, some, Option, String, List, [], ◌∷◌, arith}
use ridematch.Prelude.Int.{ℤ, pos, ◌+ℤ◌, ◌-ℤ◌, eqb_ℤ, ltb_ℤ, one_sign, int_laws}
use ridematch.Prelude.Word.{IsAmount, neg64, add64, neg64-exact, add64-exact, IsAmount-IsInt64}
use ridematch.Prelude.Table.{IsKeyed, find_by-save, find_by, find_where, save, find_by-update_by}
use ridematch.Ledger.Models.{
  RowId, Time, Account, same_account, Wallet, IdemKey, RefType, EscrowHold,
}
use ridematch.Ledger.Store.{Db, not_found, Draw, ok, ◌>>=◌}
use ridematch.Ledger.Post.{
  wallet_posting, pool_posting, to_wallet, lock_one, post, post_all, post_one, posting_sum, is_used,
  ensure_wallet_tx, lock_wallet, once, settle, set_balance, add_entry, wallet_entry, pool_entry,
}
use ridematch.Ledger.Escrow.{
  of_trip, set_escrows, is_settled, release_hold, released_hold, release_escrow, refund_hold,
  refunded_hold, refund_escrow,
}
use ridematch.Ledger.PostAll.{post-fresh, header}
use ridematch.Ledger.Invariant.{wrote, bind-ok}
use ridematch.Ledger.Balanced.{IsLedger}
use ridematch.Ledger.EscrowLaws.{hold_row, hold-IsFare, settling, save_if}
use ridematch.Ledger.WalletFirst.{ensure_wallet_tx-found}

-- The tables after a credit: two entries and a new balance.
abbrev pub after_credit : RowId → Time → Account → Wallet → ℤ → Db → Db
after_credit tx now pool w a db =
    let w' = record w { balance_kobo = add64 w.balance_kobo a } in
    add_entry (wallet_entry tx now (wallet_posting w.id a) w') (
      set_balance w.id (add64 w.balance_kobo a)
        (add_entry (pool_entry tx now (pool_posting pool (neg64 a))) db))

module _ (tx : RowId) (now : Time) (pool : Account) (w : Wallet) (a : ℤ) (db : Db)
    (is_pool : same_account pool Account.wallet ≡ false)
    (fits : ltb_ℤ (add64 w.balance_kobo a) (pos 0) ≡ false) where
  to_wallet-posts :
      post_all tx now (to_wallet pool w.id a) (lock_one w) db
      ≡ (ok tt, after_credit tx now pool w a db)
  unfolding post_all post_one
  to_wallet-posts = ground arith

-- A debit of the pool and the credit of a wallet are balanced in int64.
to_wallet-even :
    (pool : Account) (w : RowId) (a : ℤ)
    → IsAmount a
    → eqb_ℤ (posting_sum (pos 0) (to_wallet pool w a)) (pos 0) ≡ true
unfolding posting_sum
to_wallet-even pool w a h =
    let first : add64 (pos 0) (pos 0 -ℤ a) ≡ pos 0 +ℤ (pos 0 -ℤ a) =
      add64-exact (pos 0) (pos 0 -ℤ a) (omega (int_laws, one_sign (pos 0 +ℤ (pos 0 -ℤ a)))) in
    let second : add64 (pos 0 +ℤ (pos 0 -ℤ a)) a ≡ pos 0 +ℤ (pos 0 -ℤ a) +ℤ a =
      add64-exact (pos 0 +ℤ (pos 0 -ℤ a)) a
        (omega (int_laws, one_sign (pos 0 +ℤ (pos 0 -ℤ a) +ℤ a))) in
    let zero_sum : pos 0 +ℤ (pos 0 -ℤ a) +ℤ a ≡ pos 0 = omega int_laws in
    rw (neg64-exact a h, first, second, zero_sum) refl

-- A settlement of a hold by the movement of its fare to the wallet of `user`.
module _ (d : Draw) (h out : EscrowHold) (user : RowId) (key : IdemKey) (desc : String) (w : Wallet)
    (db : Db) (user_row : find_by Wallet.user_id user db.wallets ≡ some w)
    (row : find_by Wallet.id w.id db.wallets ≡ some w)
    (fresh : is_used d.tx_uuid key db.transactions ≡ false) (fare : IsAmount h.amount_kobo)
    (fits : IsAmount (w.balance_kobo +ℤ h.amount_kobo)) where
  abbrev with_header : Db
  with_header = record db {
    transactions =
        header d.tx_uuid d.now key RefType.trip h.trip_id desc
          (to_wallet Account.escrow w.id h.amount_kobo) (lock_one w) db
        ∷ db.transactions;
  }

  abbrev settled : Db
  settled =
      set_escrows (save EscrowHold.id out)
        (after_credit d.tx_uuid d.now Account.escrow w h.amount_kobo with_header)

  exact : add64 w.balance_kobo h.amount_kobo ≡ w.balance_kobo +ℤ h.amount_kobo
  exact = add64-exact w.balance_kobo h.amount_kobo (IsAmount-IsInt64 _ fits)

  credit_posts :
      post d.tx_uuid d.now key RefType.trip h.trip_id desc
        (to_wallet Account.escrow w.id h.amount_kobo)
        (lock_one w)
        db
      ≡ (ok tt, after_credit d.tx_uuid d.now Account.escrow w h.amount_kobo with_header)
  credit_posts =
      post-fresh d.tx_uuid d.now key RefType.trip h.trip_id desc
        (to_wallet Account.escrow w.id h.amount_kobo) (lock_one w) db
        (to_wallet-even Account.escrow w.id h.amount_kobo fare) fresh
      ∙ to_wallet-posts d.tx_uuid d.now Account.escrow w h.amount_kobo with_header refl
          (rw exact (ground arith))

  locked : lock_wallet w.id db ≡ (ok w, db)
  unfolding lock_wallet
  locked = rw row refl

  settle_pays :
      (ensure_wallet_tx d.wallet_uuid user >>= λ wallet. lock_wallet wallet.id >>= λ w.
      once (settling d h out key desc w) >>= save_if d h out key desc)
        db
      ≡ (ok true, settled)
  settle_pays =
      let pays = settling d h out key desc in
      let ends = save_if d h out key desc in
      bind-ok (ensure_wallet_tx d.wallet_uuid user)
        (λ wallet. lock_wallet wallet.id >>= λ w. once (pays w) >>= ends) db db w
        (ensure_wallet_tx-found d.wallet_uuid user db w user_row)
      ∙ bind-ok (lock_wallet w.id) (λ w. once (pays w) >>= ends) db db w locked
      ∙ bind-ok (once (pays w)) ends db
          (after_credit d.tx_uuid d.now Account.escrow w h.amount_kobo with_header) true
          (ap settle credit_posts)

  settled_rows :
      find_by EscrowHold.id h.id db.escrows ≡ some h
      → out.id ≡ h.id
      → (find_by Wallet.id w.id settled.wallets
          ≡ some (record w { balance_kobo = w.balance_kobo +ℤ h.amount_kobo }))
        × (find_by EscrowHold.id h.id settled.escrows ≡ some out)
  settled_rows held same = (
    ground (
      arith,
      exact,
      find_by-update_by Wallet.id w.id w.id
          (λ r. record r { balance_kobo = add64 w.balance_kobo h.amount_kobo }) db.wallets
          (λ _ k. k),
    ),
    ground (arith, find_by-save EscrowHold.id h.id out h db.escrows),
  )

-- The row that is found by its user is the row of its id.
pub user_row :
    (user : RowId) (ws : List Wallet) (w : Wallet)
    → IsKeyed Wallet.id ws
    → find_by Wallet.user_id user ws ≡ some w
    → find_by Wallet.id w.id ws ≡ some w
user_row user [] w u h = cc
user_row user (x ∷ xs) w u h = ground (arith, user_row user xs w u.1)

-- On balanced tables, where a trip has a hold that is held or disputed, the drawn transaction id
-- and the release key of its version are unused, and its payee has a wallet that the fare does
-- not overflow, `ReleaseEscrow` says true, the balance of that wallet grows by the fare, and the
-- row of the hold is marked as released.
pub release_escrow-pays :
    (d : Draw) (trip : RowId) (note : String) (h : EscrowHold) (w : Wallet) (db : Db)
    → IsLedger db
    → find_where (of_trip trip) db.escrows ≡ some h
    → is_settled h.status ≡ false
    → is_used d.tx_uuid (IdemKey.escrow_release h.trip_id h.version) db.transactions ≡ false
    → find_by Wallet.user_id h.payee_user_id db.wallets ≡ some w
    → IsAmount (w.balance_kobo +ℤ h.amount_kobo)
    → let r = release_escrow d trip note db in
      (r.0 ≡ ok true)
      × (find_by Wallet.id w.id r.1.wallets
          ≡ some (record w { balance_kobo = w.balance_kobo +ℤ h.amount_kobo }))
      × (find_by EscrowHold.id h.id r.1.escrows ≡ some (released_hold d note h))
unfolding release_escrow release_hold
release_escrow-pays d trip note h w db b found open_hold fresh user fits =
    let fare = hold-IsFare h trip db b found in
    let row = user_row h.payee_user_id db.wallets w b.booked.keyed user in
    let key = IdemKey.escrow_release h.trip_id h.version in
    let out = released_hold d note h in
    let desc : String = "Trip payment received" in
    let ends : release_escrow d trip note db
        ≡ (ok true, settled d h out h.payee_user_id key desc w db user row fresh fare fits) =
      wrote (find_where (of_trip trip) db.escrows) h not_found (release_hold d note) db _ true found
        (rw open_hold
          (settle_pays d h out h.payee_user_id key desc w db user row fresh fare fits)) in
    let rows =
      settled_rows d h out h.payee_user_id key desc w db user row fresh fare fits
        (hold_row h trip db b found) refl in
    rw ends (refl, rows.0, rows.1)

-- On balanced tables, where a trip has a hold that is held or disputed, the refund key of its
-- version is unused, and its payer has a wallet that the fare does not overflow, `RefundEscrow`
-- says true, the balance of that wallet grows by the fare, and the row of the hold is marked as
-- refunded.
pub refund_escrow-pays :
    (d : Draw) (trip : RowId) (by : Option RowId) (note : String) (h : EscrowHold) (w : Wallet)
    (db : Db)
    → IsLedger db
    → find_where (of_trip trip) db.escrows ≡ some h
    → is_settled h.status ≡ false
    → is_used d.tx_uuid (IdemKey.escrow_refund h.trip_id h.version) db.transactions ≡ false
    → find_by Wallet.user_id h.payer_user_id db.wallets ≡ some w
    → IsAmount (w.balance_kobo +ℤ h.amount_kobo)
    → let r = refund_escrow d trip by note db in
      (r.0 ≡ ok true)
      × (find_by Wallet.id w.id r.1.wallets
          ≡ some (record w { balance_kobo = w.balance_kobo +ℤ h.amount_kobo }))
      × (find_by EscrowHold.id h.id r.1.escrows ≡ some (refunded_hold d by note h))
unfolding refund_escrow refund_hold
refund_escrow-pays d trip by note h w db b found open_hold fresh user fits =
    let fare = hold-IsFare h trip db b found in
    let row = user_row h.payer_user_id db.wallets w b.booked.keyed user in
    let key = IdemKey.escrow_refund h.trip_id h.version in
    let out = refunded_hold d by note h in
    let desc : String = "Trip payment refunded" in
    let ends : refund_escrow d trip by note db
        ≡ (ok true, settled d h out h.payer_user_id key desc w db user row fresh fare fits) =
      wrote (find_where (of_trip trip) db.escrows) h not_found (refund_hold d by note) db _ true
        found
        (rw open_hold
          (settle_pays d h out h.payer_user_id key desc w db user row fresh fare fits)) in
    let rows =
      settled_rows d h out h.payer_user_id key desc w db user row fresh fare fits
        (hold_row h trip db b found) refl in
    rw ends (refl, rows.0, rows.1)
