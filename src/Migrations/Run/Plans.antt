-- ===== src/Migrations/Run/Plans.antt =====
-- A plan of the control plane finds each of its steps by the id
-- (packages/migrations/src/registry.mjs, and the map `stepsById` of runner.mjs).
use wendkeep.Prelude.{
  ℕ, zero, suc, ◌+◌, ◌-◌, ◌≤◌, ◌<◌, ◌≡◌, ◌≢◌, false, some, List, [], ◌∷◌, ◌++◌, arith, find,
}
use wendkeep.Prelude.Text.{Text, text_eq, text_eq_refl, text_eq_ne, decimal, decimal_from}
use wendkeep.Prelude.Table.{lookup}
use wendkeep.Migrations.Registry.{control_plane_targets, create_step, steps_from, step_id}
use wendkeep.Migrations.Run.Perform.{find_step}
use wendkeep.Migrations.Run.Loop.{Finds}

append_cancel {ℓ} : {A : Type ℓ} (s t u : List A) → s ++ t ≡ s ++ u → t ≡ u
append_cancel [] t u e = e
append_cancel (a ∷ s) t u e = append_cancel s t u (cc e)

decimal_digit : (n : ℕ) → n < 10 → decimal n ≡ (48 + n) ∷ []
unfolding decimal decimal_from
decimal_digit n h = ground arith

-- The versions of the control plane have one digit, so ids of different steps differ.
step_id-ne :
    (r : Text) (a b : ℕ) → a < 9 → b < 9 → a ≢ b → text_eq (step_id r a) (step_id r b) ≡ false
unfolding step_id
step_id-ne r a b ha hb ne = text_eq_ne _ _ (λ e.
    let tail = append_cancel r _ _ e in
    ne (ground (arith, tail, decimal_digit a (omega arith), decimal_digit b (omega arith))))

find-step_id :
    (r : Text) (k v n : ℕ)
    → v ≤ k
    → k < v + n
    → v + n ≤ 9
    → find (λ s. text_eq s.id (step_id r k)) (steps_from r v n) ≡ some (create_step r k)
unfolding steps_from create_step
find-step_id r k v zero lo hi top = absurd (omega arith)
find-step_id r k v (suc n) lo hi top =
    ground (arith, text_eq_refl (step_id r k), step_id-ne r v k, find-step_id r k (v + 1) n)

target-le : (r : Text) (t : ℕ) → lookup r control_plane_targets ≡ some t → t ≤ 9
unfolding lookup
target-le r t h = ground arith

pub control_plane-Finds :
    (r : Text) (v t : ℕ)
    → lookup r control_plane_targets ≡ some t
    → v ≤ t
    → Finds
        (record { resource = r; from_version = v; to_version = t; steps = steps_from r v (t - v) })
        r
        v
        (t - v)
unfolding Finds find_step
control_plane-Finds r v t known le k lo hi =
    ground (arith, find-step_id r k v (t - v) lo hi (omega (arith, target-le r t known)))
