-- ===== src/Ledger/Store.antt =====
-- The money tables, and what a database transaction does with them. Row locks serialise the
-- transactions on a wallet, a hold or a withdrawal, so each runs as one step from table state to
-- table state. A body keeps what it wrote when it fails; `transaction` is what rolls back.
use ridematch.Prelude.{Bool, Option, none, some, List, [], if◌then◌else◌}
use ridematch.Ledger.Models.{
  RowId, Time, Wallet, LedgerTransaction, LedgerEntry, WalletTopup, EscrowHold, Withdrawal,
}

pub record Db : Type 0 where
  pub wallets : List Wallet
  pub transactions : List LedgerTransaction
  pub entries : List LedgerEntry
  pub topups : List WalletTopup
  pub escrows : List EscrowHold
  pub withdrawals : List Withdrawal

abbrev pub empty_db : Db
empty_db = record {
  wallets = [];
  transactions = [];
  entries = [];
  topups = [];
  escrows = [];
  withdrawals = [];
}

-- The repository's sentinel errors, and the errors that `post` and the database make.
pub data Error : Type 0 where
  not_found already_processed insufficient_funds daily_limit wallet_frozen : Error
  invalid_transition cooldown_cap duplicate_withdrawal hold_conflict : Error
  unbalanced not_locked duplicate_key record_not_found invalid_final_status : Error

pub data Result {ℓ} (A : Type ℓ) : Type ℓ where
  ok : A → Result A
  err : Error → Result A

-- The body of a transaction: what it returns, and the tables that it leaves.
abbrev pub Tx : Type 0 → Type 0
Tx A = Db → Result A × Db

-- A write that cannot fail.
abbrev pub write : (Db → Db) → Tx (Unit {0})
write f db = (ok tt, f db)

abbrev pub abort : {A : Type 0} → Error → Tx A
abort e db = (err e, db)

-- `if cond { return ErrX }`
abbrev pub abort_if : Bool → Error → Tx (Unit {0})
abort_if wrong e db = (if wrong then err e else ok tt, db)

-- A read of the tables.
abbrev pub query : {A : Type 0} → (Db → A) → Tx A
query read db = (ok (read db), db)

abbrev pub pure : {A : Type 0} → A → Tx A
pure a db = (ok a, db)

-- The row that a look-up has found, or the error for a missing one.
abbrev pub or_abort : {A : Type 0} → Option A → Error → Tx A
or_abort (some row) missing = pure row
or_abort none missing = abort missing

-- `if err != nil { return err }` after every call.
infixl 5 ◌>>=◌ ◌>>◌
abbrev pub ◌>>=◌ : {A B : Type 0} → Tx A → (A → Tx B) → Tx B
◌>>=◌ first rest db =
    let (result, left) = first db in elim result [ ok a ↦ rest a left | err e ↦ (err e, left) ]

abbrev pub ◌>>◌ : {A B : Type 0} → Tx A → Tx B → Tx B
first >> rest = first >>= λ _. rest

-- `db.Transaction(fn)`: an error undoes every write.
abbrev pub transaction : {A : Type 0} → Tx A → Tx A
transaction body db =
    let (result, left) = body db in elim result [ ok a ↦ (ok a, left) | err e ↦ (err e, db) ]

-- What one call takes from outside: the clock, and the UUIDs of the rows that it may create.
pub record Draw : Type 0 where
  pub now : Time
  pub wallet_uuid : RowId
  pub tx_uuid : RowId
  pub row_uuid : RowId
