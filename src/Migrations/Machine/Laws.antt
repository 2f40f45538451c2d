-- ===== src/Migrations/Machine/Laws.antt =====
-- Rules for runs that may be interrupted (packages/migrations/src/runner.mjs over file-store.mjs).
use wendkeep.Prelude.{
  ℕ, zero, suc, ◌≡◌, refl, ap, sym, subst, ◌≢◌, Option, none, some, ◌⊎◌, inl, inr,
}
use wendkeep.Prelude.Result.{Result, ok, err}
use wendkeep.Migrations.Data.{MigrationError}
use wendkeep.Migrations.Machine.{
  Disk, Machine, Stop, interrupted, thrown, Run, continue, return, try, fault, commit,
}

-- What a run may end in: it returns and `done` holds, or it is interrupted, had a budget, and leaves
-- a disk with `safe`. No error is thrown.
pub Meets {ℓ} :
    {A : Type ℓ}
    → (Disk → Type 0)
    → (A → Disk → Type 0)
    → Option ℕ
    → Machine × Result Stop A
    → Type 0
Meets safe done start (w, ok a) = (start ≡ none → w.budget ≡ none) × done a w.disk
Meets safe done start (w, err interrupted) = (start ≢ none) × safe w.disk
Meets safe done start (w, err (thrown e)) = ⊥

-- The budget at the start may be replaced by an earlier one.
Meets-earlier {ℓ} :
    {A : Type ℓ} (safe : Disk → Type 0) (done : A → Disk → Type 0) (start later : Option ℕ)
    (o : Machine × Result Stop A)
    → (start ≡ none → later ≡ none)
    → Meets safe done later o
    → Meets safe done start o
unfolding Meets
Meets-earlier safe done start later (w, ok a) same h = (λ q. h.0 (same q), h.1)
Meets-earlier safe done start later (w, err interrupted) same h = (λ q. h.0 (same q), h.1)
Meets-earlier safe done start later (w, err (thrown e)) same h = h

module _ {ℓ κ} {A : Type ℓ} {B : Type κ} (safe : Disk → Type 0) where
  -- A run after a run that meets its conditions.
  pub Meets-continue :
      (mid : A → Disk → Type 0) (done : B → Disk → Type 0) (start : Option ℕ) (k : A → Run B)
      (o : Machine × Result Stop A)
      → Meets safe mid start o
      → ((a : A) (w : Machine) → mid a w.disk → Meets safe done w.budget (k a w))
      → Meets safe done start (continue k o)
  unfolding Meets
  Meets-continue mid done start k (w, ok a) h rest =
      Meets-earlier safe done start w.budget (k a w) h.0 (rest a w h.1)
  Meets-continue mid done start k (w, err interrupted) h rest = h
  Meets-continue mid done start k (w, err (thrown e)) h rest = absurd h

fault-Meets :
    (safe : Disk → Type 0) (d : Disk) (start : Option ℕ)
    → safe d
    → Meets safe (λ _ d'. d' ≡ d) start (fault (record { disk = d; budget = start }))
unfolding Meets fault
fault-Meets safe d none h = (λ q. refl, refl)
fault-Meets safe d (some zero) h = (λ q. cc, h)
fault-Meets safe d (some (suc n)) h = (λ q. cc, refl)

-- A hook call changes no file.
Meets-fault :
    (safe : Disk → Type 0) (w : Machine)
    → safe w.disk
    → Meets safe (λ _ d. d ≡ w.disk) w.budget (fault w)
Meets-fault safe w h = fault-Meets safe w.disk w.budget h

-- A write is made whole, or the disk stays as it was.
Meets-commit :
    (safe : Disk → Type 0) (change : Disk → Disk) (w : Machine)
    → safe w.disk
    → Meets safe (λ _ d. d ≡ change w.disk) w.budget (commit change w)
unfolding commit Meets
Meets-commit safe change w h =
    Meets-continue safe (λ _ d. d ≡ w.disk) (λ _ d. d ≡ change w.disk) w.budget
      (λ _ w'. (record w' { disk = change w'.disk }, ok tt)) (fault w) (Meets-fault safe w h)
      (λ _ w' e. (λ q. q, ap change e))

pub Meets-weaken {ℓ} :
    {A : Type ℓ} (safe : Disk → Type 0) (done done' : A → Disk → Type 0) (start : Option ℕ)
    (o : Machine × Result Stop A)
    → ((a : A) (d : Disk) → done a d → done' a d)
    → Meets safe done start o
    → Meets safe done' start o
unfolding Meets
Meets-weaken safe done done' start (w, ok a) weaker h = (h.0, weaker a w.disk h.1)
Meets-weaken safe done done' start (w, err interrupted) weaker h = h
Meets-weaken safe done done' start (w, err (thrown e)) weaker h = h

-- A call that returns.
pub Meets-try :
    {A : Type 0} (safe : Disk → Type 0) (r : Result MigrationError A) (a : A) (w : Machine)
    → r ≡ ok a
    → Meets safe (λ x d. (x ≡ a) × (d ≡ w.disk)) w.budget (try r w)
unfolding Meets
Meets-try safe r a w h = rw h (λ q. q, (refl, refl))

-- What holds before a hook call holds behind it.
pub Meets-hook :
    (safe done : Disk → Type 0) (w : Machine)
    → safe w.disk
    → done w.disk
    → Meets safe (λ _ d. done d) w.budget (fault w)
Meets-hook safe done w h now =
    Meets-weaken safe (λ _ d. d ≡ w.disk) (λ _ d. done d) w.budget (fault w)
      (λ _ d e. subst done (sym e) now) (Meets-fault safe w h)

-- What holds of the changed disk holds behind the write.
pub Meets-write :
    (safe done : Disk → Type 0) (change : Disk → Disk) (w : Machine)
    → safe w.disk
    → done (change w.disk)
    → Meets safe (λ _ d. done d) w.budget (commit change w)
Meets-write safe done change w h now =
    Meets-weaken safe (λ _ d. d ≡ change w.disk) (λ _ d. done d) w.budget (commit change w)
      (λ _ d e. subst done (sym e) now) (Meets-commit safe change w h)

pub Meets-return {ℓ} :
    {A : Type ℓ} (safe : Disk → Type 0) (done : A → Disk → Type 0) (a : A) (w : Machine)
    → done a w.disk
    → Meets safe done w.budget (return a w)
unfolding Meets
Meets-return safe done a w h = (λ q. q, h)

-- More may be left by an interruption.
pub Meets-safer {ℓ} :
    {A : Type ℓ} (safe safe' : Disk → Type 0) (done : A → Disk → Type 0) (start : Option ℕ)
    (o : Machine × Result Stop A)
    → ((d : Disk) → safe d → safe' d)
    → Meets safe done start o
    → Meets safe' done start o
unfolding Meets
Meets-safer safe safe' done start (w, ok a) more h = h
Meets-safer safe safe' done start (w, err interrupted) more h = (h.0, more w.disk h.1)
Meets-safer safe safe' done start (w, err (thrown e)) more h = h

-- A run that meets its conditions returns, or it is interrupted.
pub Meets-cases {ℓ} :
    {A : Type ℓ} (safe : Disk → Type 0) (done : A → Disk → Type 0) (start : Option ℕ)
    (o : Machine × Result Stop A)
    → Meets safe done start o
    → ((a : A) × (w : Machine) × (o ≡ (w, ok a)) × done a w.disk)
      ⊎ ((w : Machine) × (o ≡ (w, err interrupted)) × (start ≢ none) × safe w.disk)
unfolding Meets
Meets-cases safe done start (w, ok a) h = inl (a, w, refl, h.1)
Meets-cases safe done start (w, err interrupted) h = inr (w, refl, h.0, h.1)
Meets-cases safe done start (w, err (thrown e)) h = absurd h
