-- ===== src/Ledger/Post.antt =====
-- The internals of internal/repository/ledger_repository.go: postings, wallet locks, and `post`,
-- which writes one ledger transaction.
use ridematch.Prelude.{
  Bool, true, false, not, Option, none, some, List, [], ◌∷◌, ◌||◌, String, if◌then◌else◌,
}
use ridematch.Prelude.Int.{ℤ, pos, ltb_ℤ, eqb_ℤ}
use ridematch.Prelude.Word.{add64, neg64}
use ridematch.Prelude.Table.{find_where, find_by, update_by, save}
use ridematch.Ledger.Models.{
  RowId, Time, Account, same_account, Wallet, IdemKey, same_key, RefType, LedgerTransaction,
  LedgerEntry,
}
use ridematch.Ledger.Store.{
  Db, Error, Result, ok, err, not_found, already_processed, insufficient_funds, unbalanced,
  not_locked, record_not_found, Tx, pure, query, or_abort, ◌>>=◌, ◌>>◌, abort_if, write,
}

-- `posting`; a pool posting names no wallet.
pub record Posting : Type 0 where
  pub account : Account
  pub wallet_id : RowId
  pub amount : ℤ

abbrev pub wallet_posting : RowId → ℤ → Posting
wallet_posting w a = record { account = Account.wallet; wallet_id = w; amount = a }

abbrev pub pool_posting : Account → ℤ → Posting
pool_posting p a = record { account = p; wallet_id = 0; amount = a }

-- The two postings of a movement between one wallet and one pool, in the order of the code: the
-- side that pays stands first.
abbrev pub from_wallet : Account → RowId → ℤ → List Posting
from_wallet p w a = wallet_posting w (neg64 a) ∷ pool_posting p a ∷ []

abbrev pub to_wallet : Account → RowId → ℤ → List Posting
to_wallet p w a = pool_posting p (neg64 a) ∷ wallet_posting w a ∷ []

abbrev pub set_wallets : (List Wallet → List Wallet) → Db → Db
set_wallets f db = record db { wallets = f db.wallets }

abbrev pub is_some {ℓ} : {A : Type ℓ} → Option A → Bool
is_some none = false
is_some (some _) = true

-- `lockWallet`: SELECT … FOR UPDATE by id.
unfoldable pub lock_wallet : RowId → Tx Wallet
lock_wallet id = do or_abort (← query (λ db. find_by Wallet.id id db.wallets)) not_found

abbrev pub fresh_wallet : RowId → RowId → Wallet
fresh_wallet id user = record {
  id = id;
  user_id = user;
  balance_kobo = pos 0;
  currency = "NGN";
  pin_hash = "";
  pin_set_at = none;
  pin_failed_attempts = 0;
  pin_locked_until = none;
  cooldown_until = none;
  withdrawals_frozen = false;
  frozen_reason = "";
}

-- `tx.Create(&w)` under the primary key and the unique index on the user, and the second look-up by
-- user where that is a duplicate. GORM's own error for a missing row is passed on as it is.
create_wallet : Wallet → Tx Wallet
create_wallet w = do
  taken ← query (λ db. is_some (find_by Wallet.id w.id db.wallets))
  owned ← query (λ db. is_some (find_by Wallet.user_id w.user_id db.wallets))
  (if taken || owned
      then (do
        or_abort (← query (λ db. find_by Wallet.user_id w.user_id db.wallets)) record_not_found)
      else (do write (set_wallets (λ ws. w ∷ ws)); pure w))

-- `ensureWalletTx`; `uuid` is the id that the create hook draws. A collision of ids is the one way
-- to fail: the second look-up by user then finds nothing.
unfoldable pub ensure_wallet_tx : RowId → RowId → Tx Wallet
unfolding create_wallet
ensure_wallet_tx uuid user = do
  existing ← query (λ db. find_by Wallet.user_id user db.wallets)
  elim existing [ some w ↦ pure w | none ↦ create_wallet (fresh_wallet uuid user) ]

-- `lockOne`
abbrev pub lock_one : Wallet → List Wallet
lock_one w = w ∷ []

-- The sum that `post` checks, in int64.
unfoldable pub posting_sum : ℤ → List Posting → ℤ
posting_sum acc [] = acc
posting_sum acc (p ∷ ps) = posting_sum (add64 acc p.amount) ps

abbrev pub has_key : IdemKey → List LedgerTransaction → Bool
has_key k ts = is_some (find_where (λ t. same_key t.idempotency_key k) ts)

abbrev pub is_used : RowId → IdemKey → List LedgerTransaction → Bool
is_used id key ts = is_some (find_by LedgerTransaction.id id ts) || has_key key ts

-- `tx.Create(&lt)` under the primary key and the unique index on the idempotency key: the code takes
-- a collision with either for a movement that was made before.
unfoldable pub create_transaction : LedgerTransaction → Tx (Unit {0})
create_transaction t = do
  used ← query (λ db. is_used t.id t.idempotency_key db.transactions)
  abort_if used already_processed
  write (λ db. record db { transactions = t ∷ db.transactions })

abbrev pub add_entry : LedgerEntry → Db → Db
add_entry e db = record db { entries = e ∷ db.entries }

abbrev pub set_balance : RowId → ℤ → Db → Db
set_balance id v = set_wallets (update_by Wallet.id id (λ w. record w { balance_kobo = v }))

abbrev pub pool_entry : RowId → Time → Posting → LedgerEntry
pool_entry tx now p = record {
  transaction_id = tx;
  account = p.account;
  wallet_id = none;
  amount_kobo = p.amount;
  balance_after = none;
  created_at = now;
}

abbrev pub wallet_entry : RowId → Time → Posting → Wallet → LedgerEntry
wallet_entry tx now p w = record {
  transaction_id = tx;
  account = p.account;
  wallet_id = some w.id;
  amount_kobo = p.amount;
  balance_after = some w.balance_kobo;
  created_at = now;
}

-- One round of the loop in `post`, on the map of locked wallets. The map holds pointers: the new
-- balance stays in it for the next round.
unfoldable pub post_one : RowId → Time → Posting → List Wallet → Tx (List Wallet)
post_one tx now p locked =
    if same_account p.account Account.wallet
    then (do
      w ← or_abort (find_by Wallet.id p.wallet_id locked) not_locked
      let w' = record w { balance_kobo = add64 w.balance_kobo p.amount }
      abort_if (ltb_ℤ w'.balance_kobo (pos 0)) insufficient_funds
      write (set_balance w.id w'.balance_kobo)
      write (add_entry (wallet_entry tx now p w'))
      pure (save Wallet.id w' locked))
    else (do write (add_entry (pool_entry tx now p)); pure locked)

unfoldable pub post_all : RowId → Time → List Posting → List Wallet → Tx (Unit {0})
post_all tx now [] locked = pure tt
post_all tx now (p ∷ ps) locked = post_one tx now p locked >>= post_all tx now ps

-- `post`; `tx` is the UUID of the new transaction, `now` the clock.
unfoldable pub post :
    RowId → Time → IdemKey → RefType → RowId → String → List Posting → List Wallet → Tx (Unit {0})
post tx now key ref_type ref_id desc ps locked = do
  abort_if (not (eqb_ℤ (posting_sum (pos 0) ps) (pos 0))) unbalanced
  create_transaction (record {
    id = tx;
    idempotency_key = key;
    ref_type = ref_type;
    ref_id = ref_id;
    description = desc;
    created_at = now;
  })
  post_all tx now ps locked

abbrev pub is_processed : Error → Bool
is_processed already_processed = true
is_processed _ = false

-- `if errors.Is(err, ErrAlreadyProcessed) { return nil }`: false says that the movement had been
-- made before.
abbrev pub settle : Result (Unit {0}) × Db → Result Bool × Db
settle (ok _, db) = (ok true, db)
settle (err e, db) = if is_processed e then (ok false, db) else (err e, db)

abbrev pub once : Tx (Unit {0}) → Tx Bool
once m db = settle (m db)
