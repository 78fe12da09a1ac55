-- ===== src/WalletService/Chains.antt =====
-- Parts of an operation of internal/service/wallet_service.go in a row, and the balance of the
-- ledger.
use ridematch.Prelude.{◌≡◌, refl, ap, ◌∙◌, Bool, true, false, Option, none, some, if◌then◌else◌}
use ridematch.Ledger.Store.{Db, Error, Result, ok, err, Tx}
use ridematch.Ledger.Balanced.{IsLedger}
use ridematch.EscrowService.{Refusal, Answer, done, refused, Service, answer, refuse}
use ridematch.EscrowService.Laws.{KeepsLedger, call-KeepsLedger, after-KeepsLedger}
use ridematch.WalletService.{◌>>=◌, ledger, attempt, need}

pub bind-keeps :
    {A B : Type 0} (s : Service A) (rest : A → Service B)
    → KeepsLedger s
    → ((a : A) → KeepsLedger (rest a))
    → KeepsLedger (s >>= rest)
unfolding ◌>>=◌
bind-keeps s rest h k = after-KeepsLedger s rest h k

-- The rest has to keep it only for what the first part can come to.
pub bind-keeps_when :
    {A B : Type 0} (s : Service A) (rest : A → Service B)
    → KeepsLedger s
    → ((a : A) (db : Db) → (s db).0 ≡ done a → KeepsLedger (rest a))
    → KeepsLedger (s >>= rest)
unfolding ◌>>=◌
bind-keeps_when {A = A} {B = B} s rest h k db b = go (s db) refl (h db b)
  where
    go :
        (x : Answer A × Db)
        → s db ≡ x
        → IsLedger x.1
        → IsLedger
            (elim x.0 as (λ _. Answer B × Db) [
              | done y ↦ rest y x.1
              | refused why ↦ (refused why, x.1)
            ]).1
    go (done a, left) e l = k a db (ap (λ (x : Answer A × Db). x.0) e) left l
    go (refused why, left) e l = l

pub then-keeps :
    {A B : Type 0} (s : Service A) (rest : Service B)
    → KeepsLedger s
    → KeepsLedger rest
    → KeepsLedger (s >>= λ _. rest)
then-keeps s rest h k = bind-keeps s (λ _. rest) h (λ _. k)

pub if-keeps :
    {A : Type 0} (b : Bool) (s t : Service A)
    → KeepsLedger s
    → KeepsLedger t
    → KeepsLedger (if b then s else t)
if-keeps true s t h k = h
if-keeps false s t h k = k

-- A call of the ledger that keeps it balanced.
abbrev pub TxKeeps : {A : Type 0} → Tx A → Type 0
TxKeeps tx = (db : Db) → IsLedger db → IsLedger (tx db).1

pub ledger-keeps :
    {A : Type 0} (why : Error → Refusal) (tx : Tx A) → TxKeeps tx → KeepsLedger (ledger why tx)
unfolding ledger
ledger-keeps why tx h =
    call-KeepsLedger tx answer (λ e. refuse (why e)) h (λ a db b. b) (λ e db b. b)

pub attempt-keeps : {A : Type 0} (tx : Tx A) → TxKeeps tx → KeepsLedger (attempt tx)
unfolding attempt
attempt-keeps tx h =
    call-KeepsLedger tx (λ a. answer (ok a)) (λ e. answer (err e)) h (λ a db b. b) (λ e db b. b)

pub need-keeps : {A : Type 0} (o : Option A) (why : Refusal) → KeepsLedger (need o why)
need-keeps none why db b = b
need-keeps (some a) why db b = b

-- The next part of a chain.
pub bind-step :
    {A B : Type 0} (s : Service A) (rest : A → Service B) (a : A) (db left : Db)
    → s db ≡ (done a, left)
    → (s >>= rest) db ≡ rest a left
unfolding ◌>>=◌
bind-step {A = A} {B = B} s rest a db left h =
    ap
      (λ (x : Answer A × Db). elim x.0 as (λ _. Answer B × Db) [
        | done y ↦ rest y x.1
        | refused why ↦ (refused why, x.1)
      ])
      h

pub ledger-step :
    {A B : Type 0} (why : Error → Refusal) (tx : Tx A) (rest : A → Service B) (a : A) (db left : Db)
    → tx db ≡ (ok a, left)
    → (ledger why tx >>= rest) db ≡ rest a left
unfolding ledger
ledger-step {A = A} why tx rest a db left h = bind-step (ledger why tx) rest a db left (
    ap
      (λ (x : Result A × Db). elim x.0 as (λ _. Answer A × Db) [
        | ok y ↦ (done y, x.1)
        | err e ↦ (refused (why e), x.1)
      ])
      h)

-- Where a chain is done, its first part has been.
pub bind-done :
    {A B : Type 0} (s : Service A) (rest : A → Service B) (db : Db) (b : B)
    → ((s >>= rest) db).0 ≡ done b
    → (a : A) × ((s db).0 ≡ done a) × ((rest a (s db).1).0 ≡ done b)
unfolding ◌>>=◌
bind-done {A = A} {B = B} s rest db b h = go (s db) h
  where
    go :
        (x : Answer A × Db)
        → (elim x.0 as (λ _. Answer B × Db) [
          | done y ↦ rest y x.1
          | refused why ↦ (refused why, x.1)
        ]).0
          ≡ done b
        → (a : A) × (x.0 ≡ done a) × ((rest a x.1).0 ≡ done b)
    go (done a, left) k = (a, refl, k)
    go (refused why, left) k = cc

-- A part that changes no table.
abbrev pub IsRead : {A : Type 0} → Service A → Type 0
IsRead s = (db : Db) → (s db).1 ≡ db

pub bind-IsRead :
    {A B : Type 0} (s : Service A) (rest : A → Service B)
    → IsRead s
    → ((a : A) → IsRead (rest a))
    → IsRead (s >>= rest)
unfolding ◌>>=◌
bind-IsRead {A = A} {B = B} s rest h k db = go (s db) (h db)
  where
    go :
        (x : Answer A × Db)
        → x.1 ≡ db
        → (elim x.0 as (λ _. Answer B × Db) [
          | done y ↦ rest y x.1
          | refused why ↦ (refused why, x.1)
        ]).1
          ≡ db
    go (done a, left) e = k a left ∙ e
    go (refused why, left) e = e

pub need-IsRead : {A : Type 0} (o : Option A) (why : Refusal) → IsRead (need o why)
need-IsRead none why db = refl
need-IsRead (some a) why db = refl
