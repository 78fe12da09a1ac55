-- ===== src/Ledger/SameFunds.antt =====
-- Writes to the PIN, cooldown and freeze columns of a wallet row, as
-- internal/repository/ledger_repository.go makes them.
use ridematch.Prelude.{ℕ, ◌≡◌, refl, inl, inr, none, some, List, [], ◌∷◌, arith, ◌==◌, Bool-cases}
use ridematch.Prelude.Table.{find_by, update_by, IsKeyed}
use ridematch.Ledger.Models.{RowId, Wallet, LedgerEntry}
use ridematch.Ledger.Sums.{balance_total}
use ridematch.Ledger.Invariant.{Books}

-- Two tables of wallets with the same ids and balances, row by row.
abbrev pub SameFunds : List Wallet → List Wallet → Type 0
SameFunds [] [] = Unit
SameFunds [] (v ∷ vs) = ⊥
SameFunds (w ∷ ws) [] = ⊥
SameFunds (w ∷ ws) (v ∷ vs) = (v.id ≡ w.id) × (v.balance_kobo ≡ w.balance_kobo) × SameFunds ws vs

SameFunds-refl : (ws : List Wallet) → SameFunds ws ws
SameFunds-refl [] = tt
SameFunds-refl (w ∷ ws) = (refl, refl, SameFunds-refl ws)

pub SameFunds-update_by :
    (key : Wallet → ℕ) (k : ℕ) (f : Wallet → Wallet) (ws : List Wallet)
    → ((w : Wallet) → (f w).id ≡ w.id)
    → ((w : Wallet) → (f w).balance_kobo ≡ w.balance_kobo)
    → SameFunds ws (update_by key k f ws)
SameFunds-update_by key k f [] hi hb = tt
SameFunds-update_by key k f (w ∷ ws) hi hb = elim (Bool-cases (key w == k)) [
  | inl e ↦ rw e (hi w, hb w, SameFunds-refl ws)
  | inr e ↦ rw e (refl, refl, SameFunds-update_by key k f ws hi hb)
]

SameFunds-found :
    (k : RowId) (v : Wallet) (ws vs : List Wallet)
    → SameFunds ws vs
    → find_by Wallet.id k vs ≡ some v
    → (w : Wallet) × (find_by Wallet.id k ws ≡ some w) × (v.balance_kobo ≡ w.balance_kobo)
SameFunds-found k v [] [] s h = cc
SameFunds-found k v [] (y ∷ vs) s h = absurd s
SameFunds-found k v (x ∷ ws) [] s h = absurd s
SameFunds-found k v (x ∷ ws) (y ∷ vs) s h = elim (Bool-cases (y.id == k)) [
  | inl e ↦ (x, ground arith, ground arith)
  | inr e ↦ (let r = SameFunds-found k v ws vs s.2 (rw e at h) in (r.0, ground arith, r.2))
]

SameFunds-missing :
    (k : RowId) (ws vs : List Wallet)
    → SameFunds ws vs
    → find_by Wallet.id k vs ≡ none
    → find_by Wallet.id k ws ≡ none
SameFunds-missing k [] [] s h = refl
SameFunds-missing k [] (y ∷ vs) s h = absurd s
SameFunds-missing k (x ∷ ws) [] s h = absurd s
SameFunds-missing k (x ∷ ws) (y ∷ vs) s h = ground (arith, SameFunds-missing k ws vs s.2)

SameFunds-missing_rev :
    (k : RowId) (ws vs : List Wallet)
    → SameFunds ws vs
    → find_by Wallet.id k ws ≡ none
    → find_by Wallet.id k vs ≡ none
SameFunds-missing_rev k [] [] s h = refl
SameFunds-missing_rev k [] (y ∷ vs) s h = absurd s
SameFunds-missing_rev k (x ∷ ws) [] s h = refl
SameFunds-missing_rev k (x ∷ ws) (y ∷ vs) s h = ground (arith, SameFunds-missing_rev k ws vs s.2)

SameFunds-IsKeyed :
    (ws vs : List Wallet) → SameFunds ws vs → IsKeyed Wallet.id ws → IsKeyed Wallet.id vs
SameFunds-IsKeyed [] [] s u = tt
SameFunds-IsKeyed [] (y ∷ vs) s u = absurd s
SameFunds-IsKeyed (x ∷ ws) [] s u = tt
SameFunds-IsKeyed (x ∷ ws) (y ∷ vs) s u =
    (SameFunds-missing_rev y.id ws vs s.2 (rw s.0 u.0), SameFunds-IsKeyed ws vs s.2 u.1)

balance_total-SameFunds :
    (ws vs : List Wallet) → SameFunds ws vs → balance_total vs ≡ balance_total ws
balance_total-SameFunds [] [] s = refl
balance_total-SameFunds [] (y ∷ vs) s = absurd s
balance_total-SameFunds (x ∷ ws) [] s = absurd s
balance_total-SameFunds (x ∷ ws) (y ∷ vs) s = rw (s.1, balance_total-SameFunds ws vs s.2)

pub SameFunds-Books :
    (ws vs : List Wallet) (es : List LedgerEntry) → SameFunds ws vs → Books ws es → Books vs es
SameFunds-Books ws vs es s b = record {
  keyed = SameFunds-IsKeyed ws vs s b.keyed;
  nonneg = λ id v h. (let r = SameFunds-found id v ws vs s h in rw r.2 (b.nonneg id r.0 r.1));
  agrees = λ id v h. (let r = SameFunds-found id v ws vs s h in rw r.2 (b.agrees id r.0 r.1));
  unknown = λ id h. b.unknown id (SameFunds-missing id ws vs s h);
  balances = rw (balance_total-SameFunds ws vs s) b.balances;
}
