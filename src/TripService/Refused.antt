-- ===== src/TripService/Refused.antt =====
-- Requests of internal/service/trip_service.go that leave the trips and the offers alone when they
-- are refused: the rules for a chain.
use ridematch.Prelude.{
  ℕ, ◌≡◌, refl, sym, Bool, true, false, not, inl, inr, Option, some, Bool-cases, Option-cases,
}
use mathlib.Core.Path.{subst}
use ridematch.Ledger.Store.{Db}
use ridematch.EscrowService.{Answer, Service}
use ridematch.TripService.{
  World, set_db, TripRefusal, Reply, granted, denied, Session, deny_if, ◌>>=◌, ◌>>◌, load, look,
  pay, reply_of, Env, pause,
}
use ridematch.TripService.Chains.{
  IsAlone, bind-stop, load-step, deny_unless-step, deny_unless-stop, pause-step,
}

-- What a request that is refused leaves: the trips and the offers as they were.
abbrev pub Restored : {A : Type 0} → World → Reply A × World → Type 0
Restored w r =
    (why : TripRefusal) → r.0 ≡ denied why → (r.1.trips ≡ w.trips) × (r.1.offers ≡ w.offers)

pub same_run :
    {A : Type 0} (w : World) (r r' : Reply A × World) → r ≡ r' → Restored w r' → Restored w r
same_run w r r' h k = subst (Restored w) (sym h) k

-- Chains of reads.
pub load-Restored :
    {A B : Type 0} (w : World) (f : World → Option A) (missing : TripRefusal) (rest : A → Session B)
    → ((a : A) → f w ≡ some a → Restored w (rest a w))
    → Restored w ((load f missing >>= rest) w)
load-Restored w f missing rest k = elim (Option-cases (f w)) [
  | inr (a, row) ↦ same_run w _ (rest a w) (load-step f missing rest w a row) (k a row)
  | inl none_ ↦
      λ why h. rw (bind-stop (load f missing) rest missing w w (rw none_ refl)) (refl, refl)
]

pub deny_unless-Restored :
    {B : Type 0} (w : World) (good : Bool) (why : TripRefusal) (rest : Session B)
    → (good ≡ true → Restored w (rest w))
    → Restored w ((deny_if (not good) why >> rest) w)
deny_unless-Restored w good why rest k = elim (Bool-cases good) [
  | inl passed ↦ same_run w _ (rest w) (deny_unless-step good why rest w passed) (k passed)
  | inr failed ↦ λ why' h. rw (deny_unless-stop good why rest w failed) (refl, refl)
]

pub deny_if-Restored :
    {B : Type 0} (w : World) (wrong : Bool) (why : TripRefusal) (rest : Session B)
    → Restored w (rest w)
    → Restored w ((deny_if wrong why >> rest) w)
unfolding ◌>>=◌
deny_if-Restored w true why rest k why' h = (refl, refl)
deny_if-Restored w false why rest k why' h = k why' h

pub pause-Restored :
    {B : Type 0} (w : World) (e : Env) (n : ℕ) (rest : Session B)
    → IsAlone e
    → Restored w (rest w)
    → Restored w ((pause e n >> rest) w)
pause-Restored w e n rest alone k = same_run w _ (rest w) (pause-step e n rest w alone) k

pub pay-Restored :
    {A B : Type 0} (w : World) (s : Service A) (rest : A → Session B)
    → ((a : A) (db : Db) → Restored (set_db db w) (rest a (set_db db w)))
    → Restored w ((pay s >>= rest) w)
unfolding ◌>>=◌
pay-Restored {A = A} {B = B} w s rest k why h = go (s w.db) h
  where
    after_pay : Answer A × Db → Reply B × World
    after_pay r = elim (reply_of r.0) as (λ _. Reply B × World) [
      | granted a ↦ rest a (set_db r.1 w)
      | denied z ↦ (denied z, set_db r.1 w)
    ]

    go :
        (r : Answer A × Db)
        → (after_pay r).0 ≡ denied why
        → ((after_pay r).1.trips ≡ w.trips) × ((after_pay r).1.offers ≡ w.offers)
    go (Answer.done a, db) h = k a db why h
    go (Answer.refused z, db) h = (refl, refl)

pub granted_not_denied : {A : Type 0} (a : A) (why : TripRefusal) → granted a ≡ denied why → ⊥
granted_not_denied a why h = cc

pub look-Restored :
    {A B : Type 0} (w : World) (f : World → A) (rest : A → Session B)
    → Restored w (rest (f w) w)
    → Restored w ((look f >>= rest) w)
unfolding ◌>>=◌
look-Restored w f rest k = k
