-- ===== src/Ledger/PostAll.antt =====
-- `post` as a whole: internal/repository/ledger_repository.go.
use ridematch.Prelude.{
  ◌≡◌, refl, sym, ◌∙◌, Bool, true, false, inl, inr, List, [], ◌∷◌, arith, Bool-cases, All, String,
  ◌⊎◌,
}
use mathlib.Core.Path.{subst}
use ridematch.Prelude.Int.{pos, eqb_ℤ, int_laws}
use ridematch.Prelude.Word.{IsInt64}
use ridematch.Ledger.Models.{RowId, Time, Wallet, IdemKey, RefType, LedgerTransaction}
use ridematch.Ledger.Store.{Db, unbalanced, already_processed, Result, ok, err, Tx}
use ridematch.Ledger.Post.{
  Posting, post_one, post_all, posting_sum, is_used, create_transaction, post, once, settle,
  is_processed,
}
use ridematch.Ledger.Invariant.{IsBooked, InSync, Ensures, Ensures-bind, Ensures-mono}
use ridematch.Ledger.PostOne.{Posted, post_one-Posted}

abbrev pub IsPostable : Posting → Type 0
IsPostable p = IsInt64 p.amount

Posted-nil : (db : Db) → IsBooked db → Posted [] db db
Posted-nil db b = record {
  booked = b;
  accounts = λ a. omega int_laws;
  total = omega int_laws;
  same_topups = refl;
  same_escrows = refl;
  same_withdrawals = refl;
}

-- Two movements one after the other.
Posted-cons :
    (p : Posting) (ps : List Posting) (db db' db'' : Db)
    → Posted (p ∷ []) db db'
    → Posted ps db' db''
    → Posted (p ∷ ps) db db''
Posted-cons p ps db db' db'' h k = record {
  booked = k.booked;
  accounts = λ a. grind (int_laws, h.accounts a, k.accounts a);
  total = grind (int_laws, h.total, k.total);
  same_topups = k.same_topups ∙ h.same_topups;
  same_escrows = k.same_escrows ∙ h.same_escrows;
  same_withdrawals = k.same_withdrawals ∙ h.same_withdrawals;
}

post_all-Posted :
    (tx : RowId) (now : Time) (ps : List Posting) (locked : List Wallet) (db : Db)
    → IsBooked db
    → InSync locked db
    → All IsPostable ps
    → Ensures (λ _ db'. Posted ps db db') (post_all tx now ps locked db)
unfolding post_all
post_all-Posted tx now [] locked db b s r = Posted-nil db b
post_all-Posted tx now (p ∷ ps) locked db b s r =
    Ensures-bind (λ locked' db'. Posted (p ∷ []) db db' × InSync locked' db')
      (λ _ db'. Posted (p ∷ ps) db db') (post_one tx now p locked) (post_all tx now ps) db
      (post_one-Posted tx now p locked db b s r.0)
      (λ locked' db' h.
        Ensures-mono (λ _ db''. Posted ps db' db'') (λ _ db''. Posted (p ∷ ps) db db'') _
          (λ _ db'' k. Posted-cons p ps db db' db'' h.0 k)
          (post_all-Posted tx now ps locked' db' h.0.booked h.1 r.1))

-- The loop never says that a movement had been made before: only the unique key does.
abbrev IsNewError : {A : Type 0} → Result A × Db → Type 0
IsNewError (ok a, db) = Unit
IsNewError (err e, db) = is_processed e ≡ false

post_one-IsNewError :
    (tx : RowId) (now : Time) (p : Posting) (locked : List Wallet) (db : Db)
    → IsNewError (post_one tx now p locked db)
unfolding post_one
post_one-IsNewError tx now p locked db = ground arith

IsNewError-bind :
    {A B : Type 0} (r : Result A × Db) (f : A → Tx B)
    → IsNewError r
    → ((a : A) (db : Db) → IsNewError (f a db))
    → IsNewError {A = B} (elim r.0 [ ok a ↦ f a r.1 | err e ↦ (err e, r.1) ])
IsNewError-bind (ok a, db) f n h = h a db
IsNewError-bind (err e, db) f n h = n

post_all-IsNewError :
    (tx : RowId) (now : Time) (ps : List Posting) (locked : List Wallet) (db : Db)
    → IsNewError (post_all tx now ps locked db)
unfolding post_all
post_all-IsNewError tx now [] locked db = tt
post_all-IsNewError tx now (p ∷ ps) locked db =
    IsNewError-bind (post_one tx now p locked db) (post_all tx now ps)
      (post_one-IsNewError tx now p locked db) (post_all-IsNewError tx now ps)

settle-new :
    (P : Db → Type 0) (r : Result (Unit {0}) × Db)
    → IsNewError r
    → Ensures (λ _ db'. P db') r
    → Ensures (λ done db'. (done ≡ true) × P db') (settle r)
settle-new P (ok _, db') _ p = (refl, p)
settle-new P (err e, db') new p = rw new tt

-- What a movement under `once` leaves: it has been made now, or had been made before and changes
-- nothing. It is balanced in int64 in either case.
abbrev pub Settled : List Posting → Db → Bool → Db → Type 0
Settled ps db done db' =
    (eqb_ℤ (posting_sum (pos 0) ps) (pos 0) ≡ true)
    × (((done ≡ true) × Posted ps db db') ⊎ ((done ≡ false) × (db' ≡ db)))

module _ (tx : RowId) (now : Time) (key : IdemKey) (ref_type : RefType) (ref_id : RowId)
    (desc : String) (ps : List Posting) (locked : List Wallet) (db : Db) where
  abbrev pub header : LedgerTransaction
  header = record {
    id = tx;
    idempotency_key = key;
    ref_type = ref_type;
    ref_id = ref_id;
    description = desc;
    created_at = now;
  }

  abbrev pub posting : Tx (Unit {0})
  posting = post tx now key ref_type ref_id desc ps locked

  abbrev with_header : Db
  with_header = record db { transactions = header ∷ db.transactions }

  pub post-unbalanced :
      eqb_ℤ (posting_sum (pos 0) ps) (pos 0) ≡ false → posting db ≡ (err unbalanced, db)
  unfolding post
  post-unbalanced h = ground arith

  -- A key that has been used stops the movement before anything is written.
  pub post-used :
      eqb_ℤ (posting_sum (pos 0) ps) (pos 0) ≡ true
      → is_used tx key db.transactions ≡ true
      → posting db ≡ (err already_processed, db)
  unfolding post create_transaction
  post-used h k = ground arith

  pub post-fresh :
      eqb_ℤ (posting_sum (pos 0) ps) (pos 0) ≡ true
      → is_used tx key db.transactions ≡ false
      → posting db ≡ post_all tx now ps locked with_header
  unfolding post create_transaction
  post-fresh h k = ground arith

  -- The books hold with the header written, which no sum reads.
  header-Posted : (db' : Db) → Posted ps with_header db' → Posted ps db db'
  header-Posted db' h = record {
    booked = h.booked;
    accounts = h.accounts;
    total = h.total;
    same_topups = h.same_topups;
    same_escrows = h.same_escrows;
    same_withdrawals = h.same_withdrawals;
  }

  fresh-Posted :
      IsBooked db
      → InSync locked db
      → All IsPostable ps
      → Ensures (λ _ db'. Posted ps db db') (post_all tx now ps locked with_header)
  fresh-Posted b s r =
      Ensures-mono (λ _ db'. Posted ps with_header db') (λ _ db'. Posted ps db db') _
        (λ _ db' h. header-Posted db' h) (post_all-Posted tx now ps locked with_header b s r)

  pub once-Posted :
      IsBooked db → InSync locked db → All IsPostable ps → Ensures (Settled ps db) (once posting db)
  once-Posted b s r = elim (Bool-cases (eqb_ℤ (posting_sum (pos 0) ps) (pos 0))) [
    | inr off ↦ subst (λ r. Ensures (Settled ps db) (settle r)) (sym (post-unbalanced off)) tt
    | inl even ↦ elim (Bool-cases (is_used tx key db.transactions)) [
      | inl used ↦
          subst (λ r. Ensures (Settled ps db) (settle r)) (sym (post-used even used))
            (even, inr (refl, refl))
      | inr fresh ↦
          subst (λ r. Ensures (Settled ps db) (settle r)) (sym (post-fresh even fresh))
            (Ensures-mono (λ done db'. (done ≡ true) × Posted ps db db') (Settled ps db) _
              (λ _ db' h. (even, inl h))
              (settle-new (Posted ps db) _ (post_all-IsNewError tx now ps locked with_header)
                (fresh-Posted b s r)))
    ]
  ]

  pub post-Posted :
      IsBooked db
      → InSync locked db
      → All IsPostable ps
      → Ensures
          (λ _ db'. (eqb_ℤ (posting_sum (pos 0) ps) (pos 0) ≡ true) × Posted ps db db')
          (posting db)
  post-Posted b s r = elim (Bool-cases (eqb_ℤ (posting_sum (pos 0) ps) (pos 0))) [
    | inr off ↦ rw (post-unbalanced off) tt
    | inl even ↦ elim (Bool-cases (is_used tx key db.transactions)) [
      | inl used ↦ rw (post-used even used) tt
      | inr fresh ↦
          rw (post-fresh even fresh) (
            Ensures-mono (λ _ db'. Posted ps db db') _ _ (λ _ db' h. (even, h))
              (fresh-Posted b s r))
    ]
  ]
