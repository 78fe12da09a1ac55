-- ===== src/Ledger/Topups.antt =====
-- The top-up operations of internal/repository/ledger_repository.go.
use ridematch.Prelude.{
  ℕ, Bool, true, false, Option, none, some, List, [], ◌∷◌, ◌&&◌, ◌||◌, ltb, if◌then◌else◌,
}
use ridematch.Prelude.Int.{ℤ}
use ridematch.Prelude.Word.{sub64, neg64}
use ridematch.Prelude.Table.{find_by, update_where, count_where, save}
use ridematch.Ledger.Models.{RowId, Time, Account, IdemKey, RefType, WalletTopup, TopupStatus}
use ridematch.Ledger.Store.{
  Db, not_found, duplicate_key, Tx, Draw, pure, query, or_abort, ◌>>=◌, ◌>>◌, abort_if, write,
  transaction,
}
use ridematch.Ledger.Post.{
  Posting, wallet_posting, pool_posting, is_some, lock_wallet, ensure_wallet_tx, lock_one, post,
  once,
}

abbrev pub set_topups : (List WalletTopup → List WalletTopup) → Db → Db
set_topups f db = record db { topups = f db.topups }

abbrev pub is_successful : TopupStatus → Bool
is_successful TopupStatus.successful = true
is_successful _ = false

abbrev pub is_pending : TopupStatus → Bool
is_pending TopupStatus.pending = true
is_pending _ = false

-- `CreateTopup`, under the primary key and the unique index on the reference.
unfoldable pub create_topup : WalletTopup → Tx (Unit {0})
create_topup t = do
  taken ← query (λ db. is_some (find_by WalletTopup.id t.id db.topups))
  used ← query (λ db. is_some (find_by WalletTopup.tx_ref t.tx_ref db.topups))
  abort_if (taken || used) duplicate_key
  write (set_topups (λ ts. t ∷ ts))

-- `FindTopupByID`, `FindTopupByTxRef`
unfoldable pub find_topup_by_id : RowId → Tx WalletTopup
find_topup_by_id id = do or_abort (← query (λ db. find_by WalletTopup.id id db.topups)) not_found

unfoldable pub find_topup_by_tx_ref : RowId → Tx WalletTopup
find_topup_by_tx_ref ref = do
  or_abort (← query (λ db. find_by WalletTopup.tx_ref ref db.topups)) not_found

-- `UpdateTopup`
unfoldable pub update_topup : WalletTopup → Tx (Unit {0})
update_topup t = write (set_topups (save WalletTopup.id t))

abbrev pub is_before : Option Time → Time → Bool
is_before none t = false
is_before (some e) t = ltb e t

abbrev pub is_stale : Time → WalletTopup → Bool
is_stale before t = is_pending t.status && is_before t.expires_at before

-- `ExpireStaleTopups`: how many rows it has marked.
unfoldable pub expire_stale_topups : Time → Tx ℕ
expire_stale_topups before = do
  stale ← query (λ db. count_where (is_stale before) db.topups)
  write
      (set_topups (update_where (is_stale before) (λ t. record t { status = TopupStatus.expired })))
  pure stale

-- The postings of `CreditTopup`.
abbrev pub topup_postings : RowId → ℤ → ℤ → List Posting
topup_postings w paid credit =
    pool_posting Account.external_in (neg64 paid)
    ∷ wallet_posting w credit
    ∷ pool_posting Account.fees (sub64 paid credit)
    ∷ []

abbrev pub credited : Draw → WalletTopup → ℤ → ℤ → RowId → WalletTopup
credited d t paid credit flw = record t {
  status = TopupStatus.successful;
  flw_transaction_id = some flw;
  paid_kobo = paid;
  credited_kobo = credit;
  completed_at = some d.now;
  failure_reason = "";
}

-- The body of `CreditTopup` once the row is loaded.
unfoldable pub credit_row : Draw → ℤ → ℤ → RowId → WalletTopup → Tx (WalletTopup × Bool)
credit_row d paid credit flw t = if is_successful t.status then pure (t, false) else (do
  wallet ← ensure_wallet_tx d.wallet_uuid t.user_id
  w ← lock_wallet wallet.id
  applied ← once (
      post d.tx_uuid d.now (IdemKey.topup t.id) RefType.topup t.id "Wallet top-up"
        (topup_postings w.id paid credit) (lock_one w))
  (if applied
      then (do
        write (set_topups (save WalletTopup.id (credited d t paid credit flw)))
        pure (credited d t paid credit flw, true))
      else pure (t, false)))

-- `CreditTopup`: the row and whether this call has credited the wallet.
unfoldable pub credit_topup : Draw → RowId → ℤ → ℤ → RowId → Tx (WalletTopup × Bool)
credit_topup d id paid credit flw = transaction (do
  t ← or_abort (← query (λ db. find_by WalletTopup.id id db.topups)) not_found
  credit_row d paid credit flw t)
