-- ===== src/Schedule/Single.antt =====
-- kernel/tkernel/smp_src/ready_queue.c, `single_core_assign`: no task is put on two processors.
use tkernel.Base.{
  ℕ, zero, suc, ◌+◌, ◌≡◌, ◌≢◌, ◌⊎◌, inl, inr, refl, sym, ◌∙◌, Bool, true, false, none, some, ◌==◌,
  Bool-cases, Option-cases, eq_of_==, ne_of_==, ==-ne, if◌then◌else◌, update, update_self,
}
use tkernel.Kernel.{Kernel}
use tkernel.Schedule.Assign.{
  Tasks, Placing, place, place_bound, place_running, place_rest, single_core_assign, first_index,
}

-- No task stands at two places of an array.
abbrev pub Injective : Tasks → Type 0
Injective tasks = (i j : ℕ) → i ≢ j → tasks i ≡ tasks j → tasks i ≡ none

-- Each entry of `sch` is an entry of `tasks` that is no longer left.
pub record Placed (tasks : Tasks) (s : Placing) : Type 0 where
  pub origin : (i : ℕ) → (s.sch i ≡ none) ⊎ ((j : ℕ) × (s.sch i ≡ tasks j) × (s.left j ≡ none))
  pub rest : (j : ℕ) → (s.left j ≡ none) ⊎ (s.left j ≡ tasks j)
  pub once : Injective s.sch

-- What is left and what is placed have nothing in common.
apart :
    (tasks : Tasks) (s : Placing)
    → Injective tasks
    → Placed tasks s
    → (i j : ℕ) → s.left j ≡ s.sch i
    → s.left j ≡ none
apart tasks s inj p i j e = elim (p.rest j) [
  | inl gone ↦ gone
  | inr still ↦ elim (p.origin i) [
    | inl free ↦ e ∙ free
    | inr (j', a, b) ↦ elim (Bool-cases (j == j')) [
      | inl same ↦ rw (eq_of_== j j' same) b
      | inr differ ↦ still ∙ inj j j' (ne_of_== j j' differ) (sym still ∙ (e ∙ a))
    ]
  ]
]

abbrev moved : Placing → ℕ → ℕ → Placing
moved s i0 j = record { sch = update s.sch i0 (s.left j); left = update s.left j none }

moved-once :
    (tasks : Tasks) (s : Placing) (i0 j : ℕ)
    → Injective tasks
    → Placed tasks s
    → Injective (moved s i0 j).sch
moved-once tasks s i0 j inj p i i' ne = elim (Bool-cases (i0 == i)) [
  | inl here ↦
      rw (here, ==-ne i0 i' (λ h. ne (sym (eq_of_== i0 i here) ∙ h))) (apart tasks s inj p i' j)
  | inr other ↦ elim (Bool-cases (i0 == i')) [
    | inl here ↦ rw (other, here) (λ e. e ∙ apart tasks s inj p i j (sym e))
    | inr other' ↦ rw (other, other') (p.once i i' ne)
  ]
]

moved-Placed :
    (tasks : Tasks) (s : Placing) (i0 j : ℕ)
    → Injective tasks
    → Placed tasks s
    → Placed tasks (moved s i0 j)
moved-Placed tasks s i0 j inj p = record {
  origin = λ i. elim (Bool-cases (i0 == i)) [
    | inl here ↦ rw here (elim (p.rest j) [
      | inl gone ↦ inl gone
      | inr still ↦ inr (j, still, update_self s.left j none)
    ])
    | inr other ↦ rw other (elim (p.origin i) [
      | inl free ↦ inl free
      | inr (j', a, b) ↦ inr (
        j',
        a,
        (elim (Bool-cases (j == j')) [ inl same ↦ rw same refl | inr differ ↦ rw differ b ]),
      )
    ])
  ];
  rest = λ j'. elim (Bool-cases (j == j')) [
    | inl same ↦ rw same (inl refl)
    | inr differ ↦ rw differ (p.rest j')
  ];
  once = moved-once tasks s i0 j inj p;
}

place-Placed :
    (k : Kernel) (tasks : Tasks) (test : ℕ → Bool) (s : Placing) (j : ℕ)
    → Injective tasks
    → Placed tasks s
    → Placed tasks (place k test s j)
unfolding place
place-Placed k tasks test s j inj p =
    elim (first_index test k.num_proc 0)
      as (λ o. Placed tasks (elim o [ none ↦ s | some i ↦ moved s i j ])) [
        | none ↦ p
        | some i ↦ moved-Placed tasks s i j inj p
      ]

module _ (k : Kernel) (tasks : Tasks) (inj : Injective tasks) where
  if-Placed :
      (b : Bool) (s s' : Placing)
      → Placed tasks s
      → Placed tasks s'
      → Placed tasks (if b then s else s')
  if-Placed true s s' p p' = p
  if-Placed false s s' p p' = p'

  place_bound-Placed : (n j : ℕ) (s : Placing) → Placed tasks s → Placed tasks (place_bound k s n j)
  unfolding place_bound
  place_bound-Placed zero j s p = p
  place_bound-Placed (suc n) j s p = elim (Option-cases (s.left j)) [
    | inl e ↦ rw (e, place_bound) p
    | inr (t, e) ↦
        rw (e, place_bound)
          (place_bound-Placed n (j + 1) _ (if-Placed _ s _ p (place-Placed k tasks _ s j inj p)))
  ]

  place_running-Placed :
      (n j : ℕ) (s : Placing) → Placed tasks s → Placed tasks (place_running k s n j)
  unfolding place_running
  place_running-Placed zero j s p = p
  place_running-Placed (suc n) j s p =
      place_running-Placed n (j + 1) _ (if-Placed _ s _ p (place-Placed k tasks _ s j inj p))

  place_rest-Placed : (n j : ℕ) (s : Placing) → Placed tasks s → Placed tasks (place_rest k s n j)
  unfolding place_rest
  place_rest-Placed zero j s p = p
  place_rest-Placed (suc n) j s p =
      place_rest-Placed n (j + 1) _ (if-Placed _ s _ p (place-Placed k tasks _ s j inj p))

start-Placed : (tasks : Tasks) → Placed tasks (record { sch = λ i. none; left = tasks })
start-Placed tasks = record {
  origin = λ i. inl refl;
  rest = λ j. inr refl;
  once = λ i i' ne e. refl;
}

-- Where no chosen task stands twice in the array, `single_core_assign` puts no task on two
-- processors, and whatever it puts on a processor is one of the chosen tasks.
pub single_core_assign-once :
    (k : Kernel) (tasks : Tasks)
    → Injective tasks
    → Injective (single_core_assign k tasks)
      × ((i : ℕ)
          → (single_core_assign k tasks i ≡ none)
            ⊎ ((j : ℕ) × (single_core_assign k tasks i ≡ tasks j)))
unfolding single_core_assign
single_core_assign-once k tasks inj =
    let p = place_rest-Placed k tasks inj k.num_proc 0 _ (
      place_running-Placed k tasks inj k.num_proc 0 _
        (place_bound-Placed k tasks inj k.num_proc 0 _ (start-Placed tasks))) in
    (p.once, λ i. elim (p.origin i) [ inl free ↦ inl free | inr (j, a, b) ↦ inr (j, a) ])
