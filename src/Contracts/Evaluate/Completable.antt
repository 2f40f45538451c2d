-- ===== src/Contracts/Evaluate/Completable.antt =====
-- The tasks that can be completed at all, and that the loops of `evaluateTaskContracts` complete no
-- other (packages/contracts/src/task-contracts.mjs).
use wendkeep.Prelude.{
  ℕ, zero, suc, ◌≡◌, refl, Bool, true, false, ◌&&◌, ◌||◌, List, [], ◌∷◌, ◌++◌, arith, All,
  All-append, inl, inr, ◌⊎◌, Bool-cases, any-append, sym, ◌∙◌, subst, ap,
}
use wendkeep.Prelude.Text.{Text, text_eq, eq_of_text_eq, includes, trim}
use wendkeep.Contracts.Strings.{filled, unique_strings}
use wendkeep.Contracts.Strings.Laws.{AreTrimmed, includes-unique_strings, map-trim_of_AreTrimmed}
use wendkeep.Contracts.Task.Data.{TaskContract}
use wendkeep.Contracts.Evaluate.{Snapshot, evaluate_task_contract, visit, sweep, sweep_loop}
use wendkeep.Contracts.Evaluate.Data.{Options}
use wendkeep.Contracts.Evaluate.Laws.{MeetsOwn, evaluate_task_contract_lem}

-- A contract of the list.
pub data In (c : TaskContract) : List TaskContract → Type 0 where
  here : {cs : List TaskContract} → In c (c ∷ cs)
  there : {d : TaskContract} {cs : List TaskContract} → In c cs → In c (d ∷ cs)

-- A task is completable if a contract for it meets what it asks for and the tasks it depends on
-- are completable. No task on a cycle of dependencies is.
mutual
  pub data Completable (s : Snapshot) : Text → Type 0 where
    completable :
        (c : TaskContract)
        → In c s.contracts
        → MeetsOwn s.options c
        → AllCompletable s (unique_strings c.dependencies)
        → Completable s c.task_id

  pub data AllCompletable (s : Snapshot) : List Text → Type 0 where
    none_left : AllCompletable s []
    one_more :
        {id : Text} {ids : List Text}
        → Completable s id
        → AllCompletable s ids
        → AllCompletable s (id ∷ ids)

abbrev pub HasTrimmedIds : List TaskContract → Type 0
HasTrimmedIds cs = All (λ (c : TaskContract). trim c.task_id ≡ c.task_id) cs

-- Growth: a sweep keeps what is completed.
abbrev pub Keeps : List Text → List Text → Type 0
Keeps done done' = (id : Text) → includes done id ≡ true → includes done' id ≡ true

pub includes-snoc :
    (done : List Text) (t id : Text)
    → includes (done ++ t ∷ []) id ≡ (includes done id || text_eq t id)
includes-snoc done t id = ground (arith, any-append (λ x. text_eq x id) done (t ∷ []))

pub visit-cases :
    (o : Options) (c : TaskContract) (done : List Text) (changed : Bool)
    → ((visit o c (done, changed) ≡ (done, changed))
        × ((includes done c.task_id ≡ true)
            ⊎ ((evaluate_task_contract o done c).can_complete ≡ false)))
      ⊎ ((visit o c (done, changed) ≡ (done ++ c.task_id ∷ [], true))
          × (includes done c.task_id ≡ false)
          × ((evaluate_task_contract o done c).can_complete ≡ true))
unfolding visit
visit-cases o c done changed = elim (Bool-cases (includes done c.task_id)) [
  | inl e ↦ inl (rw e refl, inl e)
  | inr e ↦ elim (Bool-cases (evaluate_task_contract o done c).can_complete) [
    | inl k ↦ inr (rw (e, k) refl, e, k)
    | inr k ↦ inl (rw (e, k) refl, inr k)
  ]
]

pub visit-Keeps :
    (o : Options) (c : TaskContract) (done : List Text) (changed : Bool)
    → Keeps done (visit o c (done, changed)).0
visit-Keeps o c done changed id h = elim (visit-cases o c done changed) [
  | inl (e, _) ↦ rw e h
  | inr (e, _, _) ↦ rw e (rw (includes-snoc done c.task_id id, h) refl)
]

pub sweep-Keeps :
    (o : Options) (cs : List TaskContract) (done : List Text) (changed : Bool)
    → Keeps done (sweep o cs (done, changed)).0
unfolding sweep
sweep-Keeps o [] done changed id h = h
sweep-Keeps o (c ∷ cs) done changed id h =
    sweep-Keeps o cs (visit o c (done, changed)).0 (visit o c (done, changed)).1 id
      (visit-Keeps o c done changed id h)

pub sweep_loop-changed :
    (f : ℕ) (s : Snapshot) (done : List Text)
    → (sweep s.options s.contracts (done, false)).1 ≡ true
    → sweep_loop (suc f) s done ≡ sweep_loop f s (sweep s.options s.contracts (done, false)).0
unfolding sweep_loop
sweep_loop-changed f s done e = rw (e, sweep_loop) refl

pub sweep_loop-still :
    (f : ℕ) (s : Snapshot) (done : List Text)
    → (sweep s.options s.contracts (done, false)).1 ≡ false
    → sweep_loop (suc f) s done ≡ (sweep s.options s.contracts (done, false)).0
unfolding sweep_loop
sweep_loop-still f s done e = rw (e, sweep_loop) refl

pub All-includes {κ} :
    (P : Text → Type κ) (xs : List Text) (t : Text) → All P xs → includes xs t ≡ true → P t
All-includes P [] t h e = cc
All-includes P (x ∷ xs) t h e = elim (Bool-cases (text_eq x t)) [
  | inl same ↦ subst P (eq_of_text_eq x t same) h.0
  | inr other ↦ All-includes P xs t h.1 (ground arith)
]

In-All {κ} :
    (P : TaskContract → Type κ) (cs : List TaskContract) (c : TaskContract)
    → All P cs
    → In c cs
    → P c
In-All P [] c h i = elim i [ ]
In-All P (_ ∷ cs) c h here = h.0
In-All P (d ∷ cs) c h (there i) = In-All P cs c h.1 i

pub includes-unique_trimmed :
    (xs : List Text) (t : Text)
    → AreTrimmed xs
    → includes (unique_strings xs) t ≡ (filled t && includes xs t)
includes-unique_trimmed xs t h =
    includes-unique_strings xs t
    ∙ ap (λ ys. filled t && includes ys t) (map-trim_of_AreTrimmed xs h)

module _ (s : Snapshot) (trimmed : HasTrimmedIds s.contracts) where
  Completable-trim : (id : Text) → Completable s id → trim id ≡ id
  Completable-trim _ (completable c i m deps) =
      In-All (λ (d : TaskContract). trim d.task_id ≡ d.task_id) s.contracts c trimmed i

  pub AreTrimmed-of_Completable : (xs : List Text) → All (Completable s) xs → AreTrimmed xs
  AreTrimmed-of_Completable [] h = tt
  AreTrimmed-of_Completable (x ∷ xs) h = (Completable-trim x h.0, AreTrimmed-of_Completable xs h.1)

  pub AllCompletable-of_All :
      (done ids : List Text)
      → All (Completable s) done
      → All (λ id. includes (unique_strings done) id ≡ true) ids
      → AllCompletable s ids
  AllCompletable-of_All done [] sound h = none_left
  AllCompletable-of_All done (id ∷ ids) sound h =
      let there_is : includes done id ≡ true =
        ground
          (arith, h.0, includes-unique_trimmed done id (AreTrimmed-of_Completable done sound)) in
      one_more (All-includes (Completable s) done id sound there_is)
        (AllCompletable-of_All done ids sound h.1)

  visit_sound :
      (c : TaskContract) (done : List Text) (changed : Bool)
      → In c s.contracts
      → All (Completable s) done
      → All (Completable s) (visit s.options c (done, changed)).0
  visit_sound c done changed i sound = elim (visit-cases s.options c done changed) [
    | inl (e, _) ↦ rw e sound
    | inr (e, _, can) ↦
        let (own, deps) = (evaluate_task_contract_lem s.options done c).0.0 can in
        rw e (
          All-append (Completable s) done (c.task_id ∷ []) sound
            (completable c i own (AllCompletable-of_All done _ sound deps), tt))
  ]

  sweep_sound :
      (cs : List TaskContract) (done : List Text) (changed : Bool)
      → ((c : TaskContract) → In c cs → In c s.contracts)
      → All (Completable s) done
      → All (Completable s) (sweep s.options cs (done, changed)).0
  unfolding sweep
  sweep_sound [] done changed of_s sound = sound
  sweep_sound (c ∷ cs) done changed of_s sound =
      sweep_sound cs (visit s.options c (done, changed)).0 (visit s.options c (done, changed)).1
        (λ d i. of_s d (there i)) (visit_sound c done changed (of_s c here) sound)

  pub sweep_loop_sound :
      (f : ℕ) (done : List Text)
      → All (Completable s) done
      → All (Completable s) (sweep_loop f s done)
  unfolding sweep_loop
  sweep_loop_sound zero done sound = sound
  sweep_loop_sound (suc f) done sound =
      let next = sweep_sound s.contracts done false (λ c i. i) sound in
      elim (Bool-cases (sweep s.options s.contracts (done, false)).1) [
        | inl e ↦
            subst (All (Completable s)) (sym (sweep_loop-changed f s done e))
              (sweep_loop_sound f _ next)
        | inr e ↦ subst (All (Completable s)) (sym (sweep_loop-still f s done e)) next
      ]
