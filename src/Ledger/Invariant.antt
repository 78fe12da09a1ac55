-- ===== src/Ledger/Invariant.antt =====
-- The invariants of the money tables, and how the body of a transaction keeps them.
use ridematch.Prelude.{◌≡◌, refl, Option, none, some, List}
use mathlib.Core.Path.{subst, sym, ap}
use ridematch.Prelude.Int.{pos}
use ridematch.Prelude.Word.{IsAmount}
use ridematch.Prelude.Table.{find_by, IsKeyed}
use ridematch.Ledger.Models.{RowId, Account, Wallet, LedgerEntry}
use ridematch.Ledger.Store.{Db, Error, Result, ok, err, Tx, or_abort, ◌>>=◌, transaction}
use ridematch.Ledger.Sums.{account_total, wallet_total, balance_total}

-- What the wallet rows and the entries say of one another.
pub record Books (wallets : List Wallet) (entries : List LedgerEntry) : Type 0 where
  pub keyed : IsKeyed Wallet.id wallets
  pub nonneg :
      (id : RowId) (w : Wallet) → find_by Wallet.id id wallets ≡ some w → IsAmount w.balance_kobo
  pub agrees :
      (id : RowId) (w : Wallet)
      → find_by Wallet.id id wallets ≡ some w
      → w.balance_kobo ≡ wallet_total id entries
  pub unknown : (id : RowId) → find_by Wallet.id id wallets ≡ none → wallet_total id entries ≡ pos 0
  pub balances : balance_total wallets ≡ account_total Account.wallet entries

abbrev pub IsBooked : Db → Type 0
IsBooked db = Books db.wallets db.entries

-- The locked wallets are as their rows.
abbrev pub InSync : List Wallet → Db → Type 0
InSync locked db =
    (id : RowId) (w : Wallet)
    → find_by Wallet.id id locked ≡ some w
    → find_by Wallet.id id db.wallets ≡ some w

-- What holds of the result and the tables when a body ends without an error.
abbrev pub Ensures : {A : Type 0} → (A → Db → Type 0) → Result A × Db → Type 0
Ensures P (ok a, db) = P a db
Ensures P (err e, db) = Unit

pub Ensures-mono :
    {A : Type 0} (P Q : A → Db → Type 0) (r : Result A × Db)
    → ((a : A) (db : Db) → P a db → Q a db)
    → Ensures P r
    → Ensures Q r
Ensures-mono P Q (ok a, db) h p = h a db p
Ensures-mono P Q (err e, db) h p = tt

-- The rule for a chain: what the first part ensures is given to the second.
pub Ensures-bind :
    {A B : Type 0} (P : A → Db → Type 0) (Q : B → Db → Type 0) (m : Tx A) (f : A → Tx B) (db : Db)
    → Ensures P (m db)
    → ((a : A) (db' : Db) → P a db' → Ensures Q (f a db'))
    → Ensures Q ((m >>= f) db)
Ensures-bind P Q m f db p h = go (m db) p
  where
    go :
        (r : Result _ × Db)
        → Ensures P r
        → Ensures Q (elim r.0 [ ok a ↦ f a r.1 | err e ↦ (err e, r.1) ])
    go (ok a, db') q = h a db' q
    go (err e, db') q = tt

-- What the body of a transaction ensures, the transaction does.
pub Ensures-transaction :
    {A : Type 0} (P : A → Db → Type 0) (m : Tx A) (db : Db)
    → Ensures P (m db)
    → Ensures P (transaction m db)
Ensures-transaction P m db p = go (m db) p
  where
    go :
        (r : Result _ × Db)
        → Ensures P r
        → Ensures P (elim r.0 [ ok a ↦ (ok a, r.1) | err e ↦ (err e, db) ])
    go (ok a, db') q = q
    go (err e, db') q = tt

-- A transaction that begins by loading a row which must be there.
pub load_first :
    {A B : Type 0} (Q : B → Db → Type 0) (o : Option A) (e : Error) (f : A → Tx B) (db : Db)
    → ((a : A) → o ≡ some a → Ensures Q (f a db))
    → Ensures Q (transaction (or_abort o e >>= f) db)
load_first Q none e f db h = tt
load_first Q (some a) e f db h = Ensures-transaction Q (f a) db (h a refl)

-- A transaction that loads a row and then writes nothing ends as that part of it does.
unwritten :
    {B : Type 0} (m : Tx B) (db : Db) (r : Result B) → m db ≡ (r, db) → transaction m db ≡ (r, db)
unwritten {B = B} m db r h = subst (λ x. close x ≡ (r, db)) (sym h) (go r)
  where
    close : Result B × Db → Result B × Db
    close x = elim x.0 as (λ _. Result B × Db) [ ok b ↦ (ok b, x.1) | err e ↦ (err e, db) ]

    go : (r : Result B) → close (r, db) ≡ (r, db)
    go (ok b) = refl
    go (err e) = refl

pub loaded :
    {A B : Type 0} (o : Option A) (a : A) (e : Error) (f : A → Tx B) (db : Db) (r : Result B)
    → o ≡ some a
    → f a db ≡ (r, db)
    → transaction (or_abort o e >>= f) db ≡ (r, db)
loaded o a e f db r h k =
    subst (λ x. transaction (or_abort x e >>= f) db ≡ (r, db)) (sym h) (unwritten (f a) db r k)

-- A chain ends where its first part fails.
pub bind-err :
    {A B : Type 0} (m : Tx A) (f : A → Tx B) (db db' : Db) (e : Error)
    → m db ≡ (err e, db')
    → (m >>= f) db ≡ (err e, db')
bind-err {A = A} {B = B} m f db db' e h =
    ap
      (λ (r : Result A × Db). elim r.0 as (λ _. Result B × Db) [
        | ok a ↦ f a r.1
        | err e ↦ (err e, r.1)
      ])
      h

pub bind-ok :
    {A B : Type 0} (m : Tx A) (f : A → Tx B) (db db' : Db) (a : A)
    → m db ≡ (ok a, db')
    → (m >>= f) db ≡ f a db'
bind-ok {A = A} {B = B} m f db db' a h =
    ap
      (λ (r : Result A × Db). elim r.0 as (λ _. Result B × Db) [
        | ok a ↦ f a r.1
        | err e ↦ (err e, r.1)
      ])
      h

-- A transaction that loads a row and succeeds on it keeps what it wrote.
pub wrote :
    {A B : Type 0} (o : Option A) (a : A) (e : Error) (f : A → Tx B) (db db' : Db) (b : B)
    → o ≡ some a
    → f a db ≡ (ok b, db')
    → transaction (or_abort o e >>= f) db ≡ (ok b, db')
wrote {A = A} {B = B} o a e f db db' b h k =
    subst (λ x. transaction (or_abort x e >>= f) db ≡ (ok b, db')) (sym h)
      (ap
        (λ (r : Result B × Db). elim r.0 as (λ _. Result B × Db) [
          | ok x ↦ (ok x, r.1)
          | err x ↦ (err x, db)
        ])
        k)
