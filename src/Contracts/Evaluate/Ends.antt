-- ===== src/Contracts/Evaluate/Ends.antt =====
-- The loops of `evaluateTaskContracts` end: a sweep that changes something completes a contract that
-- was open (packages/contracts/src/task-contracts.mjs).
use wendkeep.Prelude.{
  ℕ, zero, suc, ◌≤◌, ◌<◌, ◌≡◌, refl, Bool, true, false, not, List, [], ◌∷◌, ◌++◌, arith, keep,
  length, length-keep, inl, inr, ◌⊎◌, sym, ◌∙◌, subst, ap,
}
use wendkeep.Prelude.Text.{Text, text_eq_refl, includes}
use wendkeep.Contracts.Task.Data.{TaskContract}
use wendkeep.Contracts.Evaluate.{
  Snapshot, evaluate_task_contract, visit, sweep, sweep_loop, completed_tasks,
}
use wendkeep.Contracts.Evaluate.Data.{Options}
use wendkeep.Contracts.Evaluate.Completable.{
  In, here, there, Keeps, includes-snoc, visit-cases, sweep-Keeps, sweep_loop-changed,
  sweep_loop-still,
}

-- The contracts whose task is not completed.
abbrev open_in : List TaskContract → List Text → ℕ
open_in cs done = length (keep (λ (c : TaskContract). not (includes done c.task_id)) cs)

-- A contract that a sweep completes.
abbrev Completes : List TaskContract → List Text → List Text → Type 0
Completes cs done done' =
    (c : TaskContract) × In c cs
    × (includes done c.task_id ≡ false)
    × (includes done' c.task_id ≡ true)

open_in_le :
    (cs : List TaskContract) (done done' : List Text)
    → Keeps done done'
    → open_in cs done' ≤ open_in cs done
open_in_le [] done done' k = omega arith
open_in_le (c ∷ cs) done done' k = ground (arith, open_in_le cs done done' k, k c.task_id)

open_in_lt :
    (cs : List TaskContract) (done done' : List Text) (c : TaskContract)
    → Keeps done done'
    → In c cs
    → includes done c.task_id ≡ false
    → includes done' c.task_id ≡ true
    → open_in cs done' < open_in cs done
open_in_lt [] done done' c k i before after = elim i [ ]
open_in_lt (_ ∷ cs) done done' c k here before after =
    rw (before, after) (ground (arith, open_in_le cs done done' k))
open_in_lt (d ∷ cs) done done' c k (there i) before after =
    ground (arith, open_in_lt cs done done' c k i before after, k d.task_id)

visit-true : (o : Options) (c : TaskContract) (done : List Text) → (visit o c (done, true)).1 ≡ true
visit-true o c done = elim (visit-cases o c done true) [
  | inl (e, _) ↦ rw e refl
  | inr (e, _, _) ↦ rw e refl
]

sweep-true :
    (o : Options) (cs : List TaskContract) (done : List Text) (changed : Bool)
    → changed ≡ true
    → (sweep o cs (done, changed)).1 ≡ true
unfolding sweep
sweep-true o [] done changed e = e
sweep-true o (c ∷ cs) done changed e =
    sweep-true o cs (visit o c (done, changed)).0 (visit o c (done, changed)).1
      (subst (λ b. (visit o c (done, b)).1 ≡ true) (sym e) (visit-true o c done))

-- A contract that a set does not complete further.
abbrev pub IsSettled : Options → List Text → TaskContract → Type 0
IsSettled o done c =
    (includes done c.task_id ≡ true) ⊎ ((evaluate_task_contract o done c).can_complete ≡ false)

-- What a sweep did: nothing, as every contract is settled; or it completed one.
abbrev Swept : Options → List TaskContract → List Text → List Text × Bool → Type 0
Swept o cs done r =
    ((r ≡ (done, false)) × ((c : TaskContract) → In c cs → IsSettled o done c))
    ⊎ ((r.1 ≡ true) × Completes cs done r.0)

sweep-Swept :
    (o : Options) (cs : List TaskContract) (done : List Text)
    → Swept o cs done (sweep o cs (done, false))
unfolding sweep
sweep-Swept o [] done = inl (refl, λ c i. elim i [ ])
sweep-Swept o (c ∷ cs) done = elim (visit-cases o c done false) [
  | inl (e, settled) ↦
      subst (λ r. Swept o (c ∷ cs) done (sweep o cs r)) (sym e)
        (elim (sweep-Swept o cs done) [
          | inl (still, others) ↦ inl (still, λ d i. settled_at c d settled i others)
          | inr (moved, (d, i, before, after)) ↦ inr (moved, (d, there i, before, after))
        ])
  | inr (e, before, can) ↦
      subst (λ r. Swept o (c ∷ cs) done (sweep o cs r)) (sym e)
        (inr (
          sweep-true o cs (done ++ c.task_id ∷ []) true refl,
          (
            c,
            here,
            before,
            sweep-Keeps o cs (done ++ c.task_id ∷ []) true c.task_id
                (rw (includes-snoc done c.task_id c.task_id, text_eq_refl c.task_id, before) refl),
          ),
        ))
]
  where
    settled_at :
        (c d : TaskContract)
        → IsSettled o done c
        → In d (c ∷ cs)
        → ((d : TaskContract) → In d cs → IsSettled o done d)
        → IsSettled o done d
    settled_at c _ settled here others = settled
    settled_at c d settled (there i) others = others d i

-- Enough fuel leaves the loop with a set that no sweep changes.
sweep_loop-settled :
    (s : Snapshot) (f : ℕ) (done : List Text)
    → open_in s.contracts done < f
    → sweep s.options s.contracts (sweep_loop f s done, false) ≡ (sweep_loop f s done, false)
sweep_loop-settled s zero done fits = absurd (omega (arith, fits))
sweep_loop-settled s (suc f) done fits =
    let next = (sweep s.options s.contracts (done, false)).0 in
    elim (sweep-Swept s.options s.contracts done) [
      | inl (still, _) ↦
          let ends : sweep_loop (suc f) s done ≡ done =
            sweep_loop-still f s done (ap (λ (r : List Text × Bool). r.1) still)
            ∙ ap (λ (r : List Text × Bool). r.0) still in
          rw ends still
      | inr (moved, (c, i, before, after)) ↦
          let fewer =
            open_in_lt s.contracts done next c (sweep-Keeps s.options s.contracts done false) i
              before after in
          rw (sweep_loop-changed f s done moved)
            (sweep_loop-settled s f next (omega (arith, fewer, fits)))
    ]

-- The loops of evaluateTaskContracts end by themselves: the bound of the model, one sweep more than
-- there are contracts, is never what stops them, since a further sweep of the set that they return
-- neither completes a task nor sets the flag.
pub completed_tasks_settled :
    (s : Snapshot)
    → sweep s.options s.contracts (completed_tasks s, false) ≡ (completed_tasks s, false)
unfolding completed_tasks
completed_tasks_settled s =
    sweep_loop-settled s (suc (length s.contracts)) []
      (omega (arith, length-keep (λ (c : TaskContract). not (includes [] c.task_id)) s.contracts))

-- Every contract is then settled.
pub completed_tasks-IsSettled :
    (s : Snapshot) (c : TaskContract) → In c s.contracts → IsSettled s.options (completed_tasks s) c
completed_tasks-IsSettled s c i = elim (sweep-Swept s.options s.contracts (completed_tasks s)) [
  | inl (_, settled) ↦ settled c i
  | inr (moved, _) ↦ cc (moved, ap (λ (r : List Text × Bool). r.1) (completed_tasks_settled s))
]
