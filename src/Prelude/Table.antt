-- ===== src/Prelude/Table.antt =====
-- A database table: its rows, found and written by a key. Where a key is a primary key or has a
-- unique index, at most one row has a given value of it, so the first row is the only one.
use mathlib.Core.Path.{◌≡◌, refl, subst}
use mathlib.Core.Bool.{Bool, true}
use mathlib.Core.Logic.{◌⊎◌, inl, inr}
use mathlib.Core.Option
use mathlib.Core.Option.{Option, none, some}
use mathlib.Core.List.{List, [], ◌∷◌}
use native.Mathlib.Omega.{arith}
use Prim.Native.Nat.{ℕ, ◌+◌, ◌≤◌}
use ridematch.Prelude.Tests.{leb, ◌==◌, ==_iff, Bool-cases, Option-cases, if◌then◌else◌}
use ridematch.Prelude.Lists.{All}
use ridematch.Prelude.Int.{ℤ, pos, ◌+ℤ◌, int_laws}

module _ {ℓ} {R : Type ℓ} where
  -- The first row that fits: `First(&row, cond)`.
  abbrev pub find_where : (R → Bool) → List R → Option R
  find_where p [] = none
  find_where p (r ∷ rs) = if p r then some r else find_where p rs

  -- `Where(cond).Updates(…)`: every row that fits is changed.
  abbrev pub update_where : (R → Bool) → (R → R) → List R → List R
  update_where p f [] = []
  update_where p f (r ∷ rs) = (if p r then f r else r) ∷ update_where p f rs

  -- `Count`
  abbrev pub count_where : (R → Bool) → List R → ℕ
  count_where p [] = 0
  count_where p (r ∷ rs) = (if p r then 1 else 0) + count_where p rs

  -- `COALESCE(SUM(f), 0)` over the rows.
  abbrev pub sum_by : (R → ℤ) → List R → ℤ
  sum_by f [] = pos 0
  sum_by f (r ∷ rs) = f r +ℤ sum_by f rs

-- The latest row that fits: `Order("created_at DESC").First(&row)`.
module _ {ℓ} {R : Type ℓ} (time : R → ℕ) (fits : R → Bool) where
  abbrev later : R → Option R → Option R
  later r none = some r
  later r (some best) = if leb (time best) (time r) then some r else some best

  abbrev pub find_latest : List R → Option R
  find_latest [] = none
  find_latest (r ∷ rs) = if fits r then later r (find_latest rs) else find_latest rs

  pub find_latest-fits : (rs : List R) (r : R) → find_latest rs ≡ some r → fits r ≡ true
  find_latest-fits [] r h = cc
  find_latest-fits (x ∷ xs) r h = ground (arith, find_latest-fits xs r)

  -- Every row that fits is from `n` at the latest.
  abbrev pub Until : ℕ → List R → Type 0
  Until n = All (λ x. fits x ≡ true → time x ≤ n)

  Until-mono : (n m : ℕ) (rs : List R) → n ≤ m → Until n rs → Until m rs
  Until-mono n m [] h a = tt
  Until-mono n m (r ∷ rs) h a = ((λ f. let early = a.0 f in omega arith), Until-mono n m rs h a.1)

  find_latest-none : (n : ℕ) (rs : List R) → find_latest rs ≡ none → Until n rs
  find_latest-none n [] h = tt
  find_latest-none n (r ∷ rs) h = elim (Option-cases (find_latest rs)) [
    | inl e ↦ ((λ f. ground arith), find_latest-none n rs e)
    | inr (best, e) ↦ ground arith
  ]

  pub find_latest-newest : (rs : List R) (r : R) → find_latest rs ≡ some r → Until (time r) rs
  find_latest-newest [] r h = tt
  find_latest-newest (x ∷ xs) r h = elim (Option-cases (find_latest xs)) [
    | inl e ↦ ((λ f. ground arith), find_latest-none (time r) xs e)
    | inr (best, e) ↦
        let later_than_best : time best ≤ time r = ground arith in
        (
          (λ f. ground arith),
          Until-mono (time best) (time r) xs later_than_best (find_latest-newest xs best e),
        )
  ]

  pub All-find_latest {κ} :
      (P : R → Type κ) (rs : List R) (r : R) → find_latest rs ≡ some r → All P rs → P r
  All-find_latest P [] r h a = cc
  All-find_latest P (x ∷ xs) r h a = elim (latest_from x xs r h) [
    | inl q ↦ subst P q a.0
    | inr e ↦ All-find_latest P xs r e a.1
  ]
    where
      latest_from :
          (x : R) (xs : List R) (r : R)
          → find_latest (x ∷ xs) ≡ some r
          → (x ≡ r) ⊎ (find_latest xs ≡ some r)
      latest_from x xs r h = elim (Option-cases (find_latest xs)) [
        | inl e ↦ ground arith
        | inr (best, e) ↦ ground arith
      ]

module _ {ℓ} {R : Type ℓ} (key : R → ℕ) where
  abbrev pub find_by : ℕ → List R → Option R
  find_by k [] = none
  find_by k (r ∷ rs) = if key r == k then some r else find_by k rs

  -- A write to the row that has the key: `Model(…).Where("id = ?", k).Update(…)`.
  abbrev pub update_by : ℕ → (R → R) → List R → List R
  update_by k f [] = []
  update_by k f (r ∷ rs) = if key r == k then f r ∷ rs else r ∷ update_by k f rs

  -- `Save(&row)`: every column of the row with this key.
  abbrev pub save : R → List R → List R
  save r = update_by (key r) (λ _. r)

  -- No two rows have one key.
  abbrev pub IsKeyed : List R → Type ℓ
  IsKeyed [] = Unit
  IsKeyed (r ∷ rs) = (find_by (key r) rs ≡ none) × IsKeyed rs

  pub find_by-key : (k : ℕ) (rs : List R) (r : R) → find_by k rs ≡ some r → key r ≡ k
  find_by-key k [] r h = cc
  find_by-key k (x ∷ rs) r h = ground (arith, find_by-key k rs r)

  -- What a key finds after a write to one row.
  pub find_by-update_by :
      (j k : ℕ) (f : R → R) (rs : List R)
      → ((r : R) → key r ≡ k → key (f r) ≡ k)
      → find_by j (update_by k f rs)
        ≡ (if j == k then Option.map f (find_by k rs) else find_by j rs)
  find_by-update_by j k f [] h = ground arith
  find_by-update_by j k f (r ∷ rs) h = ground (arith, h r, find_by-update_by j k f rs h)

  pub find_by-save :
      (j : ℕ) (r old : R) (rs : List R)
      → find_by (key r) rs ≡ some old
      → find_by j (save r rs) ≡ (if j == key r then some r else find_by j rs)
  find_by-save j r old rs h = ground (arith, find_by-update_by j (key r) (λ _. r) rs (λ _ _. refl))

  pub IsKeyed-update_by :
      (k : ℕ) (f : R → R) (rs : List R)
      → ((r : R) → key r ≡ k → key (f r) ≡ k)
      → IsKeyed rs
      → IsKeyed (update_by k f rs)
  IsKeyed-update_by k f [] h u = tt
  IsKeyed-update_by k f (r ∷ rs) h u =
      ground (arith, h r, IsKeyed-update_by k f rs h u.1, find_by-update_by (key r) k f rs h)

  -- The row that some test finds first is the row that its own key finds.
  pub find_where-key :
      (p : R → Bool) (rs : List R) (r : R)
      → IsKeyed rs
      → find_where p rs ≡ some r
      → find_by (key r) rs ≡ some r
  find_where-key p [] r u h = cc
  find_where-key p (x ∷ rs) r u h = ground (arith, find_where-key p rs r u.1)

  -- A write to one row moves a sum by what it changes in that row.
  pub sum_by-update_by :
      (g : R → ℤ) (k : ℕ) (f : R → R) (rs : List R) (r : R)
      → find_by k rs ≡ some r
      → sum_by g (update_by k f rs) +ℤ g r ≡ sum_by g rs +ℤ g (f r)
  sum_by-update_by g k f [] r h = cc
  sum_by-update_by g k f (x ∷ rs) r h = grind (int_laws, sum_by-update_by g k f rs r)

  pub All-update_by {κ} :
      (P : R → Type κ) (k : ℕ) (f : R → R) (rs : List R)
      → ((r : R) → P r → key r ≡ k → P (f r))
      → All P rs
      → All P (update_by k f rs)
  All-update_by P k f [] h a = tt
  All-update_by P k f (r ∷ rs) h a = elim (Bool-cases (key r == k)) [
    | inl e ↦ rw e (h r a.0 ((==_iff (key r) k).0 e), a.1)
    | inr e ↦ rw e (a.0, All-update_by P k f rs h a.1)
  ]

  All-missing {κ} :
      (Q : R → Type κ) (k : ℕ) (rs : List R) → find_by k rs ≡ none → All (λ r. key r ≡ k → Q r) rs
  All-missing Q k [] h = tt
  All-missing Q k (r ∷ rs) h = elim (Bool-cases (key r == k)) [
    | inl e ↦ ground arith
    | inr e ↦ ((λ same. ground arith), All-missing Q k rs (rw e at h))
  ]

  -- After a write to the row with a key, that row is as written.
  pub All-written {κ} :
      (Q : R → Type κ) (k : ℕ) (f : R → R) (rs : List R)
      → IsKeyed rs
      → ((r : R) → Q (f r))
      → All (λ r. key r ≡ k → Q r) (update_by k f rs)
  All-written Q k f [] u h = tt
  All-written Q k f (r ∷ rs) u h = elim (Bool-cases (key r == k)) [
    | inl e ↦
        let same = (==_iff (key r) k).0 e in rw e ((λ _. h r), All-missing Q k rs (rw same at u.0))
    | inr e ↦ rw e ((λ same. ground arith), All-written Q k f rs u.1 h)
  ]

  pub update_by-missing :
      (k : ℕ) (f : R → R) (rs : List R) → find_by k rs ≡ none → update_by k f rs ≡ rs
  update_by-missing k f [] h = refl
  update_by-missing k f (r ∷ rs) h = ground (arith, update_by-missing k f rs)

  pub update_by-same :
      (k : ℕ) (f : R → R) (rs : List R) (r : R)
      → find_by k rs ≡ some r
      → f r ≡ r
      → update_by k f rs ≡ rs
  update_by-same k f [] r h e = cc
  update_by-same k f (x ∷ rs) r h e = ground (arith, update_by-same k f rs r)

  pub All-find_by {κ} :
      (P : R → Type κ) (k : ℕ) (rs : List R) (r : R) → find_by k rs ≡ some r → All P rs → P r
  All-find_by P k [] r h a = cc
  All-find_by P k (x ∷ rs) r h a = elim (Bool-cases (key x == k)) [
    | inl e ↦ let q : x ≡ r = ground arith in subst P q a.0
    | inr e ↦ All-find_by P k rs r (rw e at h) a.1
  ]

  -- A write to every row that fits, which leaves the keys alone.
  module _ (p : R → Bool) (f : R → R) (keeps_key : (r : R) → key (f r) ≡ key r) where
    find_by-update_where-none :
        (k : ℕ) (rs : List R) → find_by k rs ≡ none → find_by k (update_where p f rs) ≡ none
    find_by-update_where-none k [] h = refl
    find_by-update_where-none k (r ∷ rs) h =
        ground (arith, keeps_key r, find_by-update_where-none k rs)

    pub IsKeyed-update_where : (rs : List R) → IsKeyed rs → IsKeyed (update_where p f rs)
    IsKeyed-update_where [] u = tt
    IsKeyed-update_where (r ∷ rs) u =
        ground (
          arith,
          keeps_key r,
          IsKeyed-update_where rs u.1,
          find_by-update_where-none (key r) rs u.0,
        )

module _ {ℓ} {R : Type ℓ} (p : R → Bool) (f : R → R) where
  pub All-update_where {κ} :
      (P : R → Type κ) (rs : List R)
      → ((r : R) → P r → P (f r))
      → All P rs
      → All P (update_where p f rs)
  All-update_where P [] h a = tt
  All-update_where P (r ∷ rs) h a = elim (Bool-cases (p r)) [
    | inl e ↦ rw e (h r a.0, All-update_where P rs h a.1)
    | inr e ↦ rw e (a.0, All-update_where P rs h a.1)
  ]

  pub sum_by-update_where :
      (g : R → ℤ) (rs : List R)
      → ((r : R) → p r ≡ true → g (f r) ≡ g r)
      → sum_by g (update_where p f rs) ≡ sum_by g rs
  sum_by-update_where g [] h = refl
  sum_by-update_where g (r ∷ rs) h = ground (arith, h r, sum_by-update_where g rs h)
