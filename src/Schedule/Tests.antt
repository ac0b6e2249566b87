-- ===== src/Schedule/Tests.antt =====
-- The theorem on the assignment of tasks at two chosen tasks.
use tkernel.Base.{
  ℕ, ◌≡◌, ◌⊎◌, refl, sym, ◌∙◌, none, some, inl, inr, ◌==◌, Bool-cases, eq_of_==, if◌then◌else◌,
}
use tkernel.Sample.{sample}
use tkernel.Schedule.Assign.{Tasks, single_core_assign}
use tkernel.Schedule.Single.{Injective, single_core_assign-once}

abbrev two_tasks : Tasks
two_tasks i = if i == 0 then some 7 else if i == 1 then some 8 else none

two_tasks-Injective : Injective two_tasks
two_tasks-Injective i j ne e = elim (Bool-cases (i == 0)) [
  | inl a ↦ elim (Bool-cases (j == 0)) [
    | inl b ↦ absurd (ne (eq_of_== i 0 a ∙ sym (eq_of_== j 0 b)))
    | inr b ↦ elim (Bool-cases (j == 1)) [ inl c ↦ cc | inr c ↦ cc ]
  ]
  | inr a ↦ elim (Bool-cases (i == 1)) [
    | inr b ↦ rw (a, b) refl
    | inl b ↦ elim (Bool-cases (j == 0)) [
      | inl c ↦ cc
      | inr c ↦ elim (Bool-cases (j == 1)) [
        | inl d ↦ absurd (ne (eq_of_== i 1 b ∙ sym (eq_of_== j 1 d)))
        | inr d ↦ cc
      ]
    ]
  ]
]

single_core_assign-once_example :
    Injective (single_core_assign sample two_tasks)
    × ((i : ℕ)
        → (single_core_assign sample two_tasks i ≡ none)
          ⊎ ((j : ℕ) × (single_core_assign sample two_tasks i ≡ two_tasks j)))
single_core_assign-once_example = single_core_assign-once sample two_tasks two_tasks-Injective
