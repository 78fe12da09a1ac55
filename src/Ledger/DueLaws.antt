-- ===== src/Ledger/DueLaws.antt =====
-- What every row of a scan has: the queries of internal/repository/ledger_repository.go.
use ridematch.Prelude.{ℕ, zero, suc, ◌≡◌, Bool, true, inl, inr, List, [], ◌∷◌, leb, Bool-cases, All}
use ridematch.Ledger.Due.{where_rows, order_by, insert, limit}

module _ {R : Type 0} where
  pub All-where_rows : (p : R → Bool) (rs : List R) → All (λ r. p r ≡ true) (where_rows p rs)
  All-where_rows p [] = tt
  All-where_rows p (r ∷ rs) = elim (Bool-cases (p r)) [
    | inl e ↦ rw e (e, All-where_rows p rs)
    | inr e ↦ rw e (All-where_rows p rs)
  ]

  module _ (P : R → Type 0) where
    All-insert : (key : R → ℕ) (r : R) (rs : List R) → P r → All P rs → All P (insert key r rs)
    All-insert key r [] p a = (p, tt)
    All-insert key r (x ∷ xs) p a = elim (Bool-cases (leb (key r) (key x))) [
      | inl e ↦ rw e (p, a)
      | inr e ↦ rw e (a.0, All-insert key r xs p a.1)
    ]

    pub All-order_by : (key : R → ℕ) (rs : List R) → All P rs → All P (order_by key rs)
    All-order_by key [] a = tt
    All-order_by key (r ∷ rs) a = All-insert key r (order_by key rs) a.0 (All-order_by key rs a.1)

    pub All-limit : (n : ℕ) (rs : List R) → All P rs → All P (limit n rs)
    All-limit zero rs a = tt
    All-limit (suc n) [] a = tt
    All-limit (suc n) (r ∷ rs) a = (a.0, All-limit n rs a.1)

    -- A property that every row has is kept by a map that keeps it.
    pub All-mono : (Q : R → Type 0) (rs : List R) → ((r : R) → P r → Q r) → All P rs → All Q rs
    All-mono Q [] h a = tt
    All-mono Q (r ∷ rs) h a = (h r a.0, All-mono Q rs h a.1)
