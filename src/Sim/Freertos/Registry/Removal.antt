-- ===== src/Sim/Freertos/Registry/Removal.antt =====
-- What `_registry_remove` of sim/ports/sim_freertos.c leaves in the table of the tasks.
use micro_tech.Prelude.{
  ℕ, zero, suc, ◌+◌, ◌-◌, ◌<◌, ◌≤◌, ◌≡◌, ◌≢◌, ◌↔◌, inl, inr, refl, ap, ◌∙◌, sym, true, Option, none,
  some, ◌==◌, if◌then◌else◌, arith, Bool-cases, ==_iff,
}
use micro_tech.Sim.Freertos.Registry.{
  Registry, is_task, index_of, remove_at, remove_found, registry_remove, IsListed, IsValid,
}

is_task_iff : (o : Option ℕ) (task : ℕ) → (is_task o task ≡ true) ↔ (o ≡ some task)
is_task_iff none task = ground arith
is_task_iff (some t) task = ground (arith, ==_iff t task)

-- What the loop comes to.
index_of-some :
    (tasks : ℕ → Option ℕ) (task left i k : ℕ)
    → index_of tasks task left i ≡ some k
    → (i ≤ k) × (k < i + left) × (tasks k ≡ some task)
unfolding index_of
index_of-some tasks task zero i k h = ground arith
index_of-some tasks task (suc left) i k h =
    ground (arith, index_of-some tasks task left (i + 1) k, is_task_iff (tasks i) task)

index_of-none :
    (tasks : ℕ → Option ℕ) (task left i : ℕ)
    → index_of tasks task left i ≡ none
    → (k : ℕ) → i ≤ k
    → k < i + left
    → tasks k ≢ some task
unfolding index_of
index_of-none tasks task zero i h k lo hi = absurd (omega (arith, lo, hi))
index_of-none tasks task (suc left) i h k lo hi = elim (Bool-cases (is_task (tasks i) task)) [
  | inl e ↦ ground (arith, e)
  | inr e ↦ elim (Bool-cases (k == i)) [
    | inl q ↦ λ f. ground (arith, is_task_iff (tasks i) task, ==_iff k i)
    | inr q ↦
        index_of-none tasks task left (i + 1) (ground (arith, e)) k (ground (arith))
          (omega (arith, hi))
  ]
]

-- The table after the removal of the task at the index `k`.
module _ (r : Registry) (v : IsValid r) (task k : ℕ) (in_table : k < r.task_count)
    (at_k : r.tasks k ≡ some task) where
  -- Where the entry stood before that has the index `i` now.
  abbrev origin : ℕ → ℕ
  origin i = if i == k then r.task_count - 1 else i

  tasks-remove_at : (i : ℕ) → i < r.task_count - 1 → (remove_at k r).tasks i ≡ r.tasks (origin i)
  tasks-remove_at i h = ground (arith, in_table)

  origin_in : (i : ℕ) → i < r.task_count - 1 → (origin i < r.task_count) × (origin i ≢ k)
  origin_in i h = ground (arith, in_table)

  origin_inj : (i j : ℕ) → i < r.task_count - 1 → j < r.task_count - 1 → origin i ≡ origin j → i ≡ j
  origin_inj i j hi hj e = ground (arith, in_table)

  remove_at-IsValid : IsValid (remove_at k r)
  remove_at-IsValid = record {
    fits = omega (arith, v.fits);
    once = λ i j t hi hj ei ej. origin_inj i j hi hj (
        v.once (origin i) (origin j) t (origin_in i hi).0 (origin_in j hj).0
          (sym (tasks-remove_at i hi) ∙ ei) (sym (tasks-remove_at j hj) ∙ ej));
  }

  remove_at-lists : (u : ℕ) → IsListed u (remove_at k r) ↔ (IsListed u r × (u ≢ task))
  remove_at-lists u = (there, back)
    where
      there : IsListed u (remove_at k r) → IsListed u r × (u ≢ task)
      there (i, h, e) =
          let e' : r.tasks (origin i) ≡ some u = sym (tasks-remove_at i h) ∙ e in
          (
            (origin i, (origin_in i h).0, e'),
            λ (q : u ≡ task). (origin_in i h).1 (
                v.once (origin i) k task (origin_in i h).0 in_table (e' ∙ ap (λ (t : ℕ). some t) q)
                  at_k),
          )

      back : IsListed u r × (u ≢ task) → IsListed u (remove_at k r)
      back ((j, h, e), apart) =
          let away : j ≢ k = λ (q : j ≡ k). apart (ground (arith, e, at_k, q)) in
          elim (Bool-cases (j == r.task_count - 1)) [
            | inl q ↦
                let below : k < r.task_count - 1 = ground (arith, ==_iff j (r.task_count - 1)) in
                (k, below, tasks-remove_at k below ∙ ground (arith, e, ==_iff j (r.task_count - 1)))
            | inr q ↦
                let below : j < r.task_count - 1 = ground (arith, ==_iff j (r.task_count - 1)) in
                (j, below, tasks-remove_at j below ∙ ground (arith, e, away))
          ]

-- A removal, whether the task is in the table or not.
pub registry_remove_lem :
    (task : ℕ) (r : Registry)
    → IsValid r
    → IsValid (registry_remove task r)
      × ((u : ℕ) → IsListed u (registry_remove task r) ↔ (IsListed u r × (u ≢ task)))
unfolding registry_remove
registry_remove_lem task r v = go (index_of r.tasks task r.task_count 0) refl
  where
    go :
        (o : Option ℕ)
        → index_of r.tasks task r.task_count 0 ≡ o
        → IsValid (remove_found o r)
          × ((u : ℕ) → IsListed u (remove_found o r) ↔ (IsListed u r × (u ≢ task)))
    go none e = (
      v,
      λ u. (
        λ (i, h, f). (
          (i, h, f),
          λ (q : u ≡ task).
              index_of-none r.tasks task r.task_count 0 e i (omega arith) (omega (arith, h))
                (f ∙ ap (λ (t : ℕ). some t) q),
        ),
        λ (l, apart). l,
      ),
    )
    go (some k) e =
        let (lo, hi, at_k) = index_of-some r.tasks task r.task_count 0 k e in
        let in_table : k < r.task_count = omega (arith, hi) in
        (remove_at-IsValid r v task k in_table at_k, remove_at-lists r v task k in_table at_k)
