-- ===== src/Timer/Blocks.antt =====
-- kernel/tkernel/smp_src/timer.c: the events of one event block in a queue.
use tkernel.Base.{
  ℕ, ◌≡◌, refl, Bool, true, false, List, [], ◌∷◌, Bool-cases, inl, inr, if◌then◌else◌, ltb, subst,
  ◌≢◌,
}
use tkernel.Kernel.{Kernel, Tmeb, Callback}
use tkernel.Timer.{enqueue_tmeb, unlink, unlink_block}

-- The times of the events of a block.
abbrev pub times_of : (Callback → Bool) → List Tmeb → List ℕ
times_of own [] = []
times_of own (e ∷ l) = let rest = times_of own l in if own e.callback then e.time ∷ rest else rest

-- The block is in no queue.
pub record Unlinked (own : Callback → Bool) (k : Kernel) : Type 0 where
  pub timer : times_of own k.timer_queue ≡ []
  pub handed : (p : ℕ) → times_of own (k.obj.handler_queue p).hdrque ≡ []

times_of-unlink : (own : Callback → Bool) (l : List Tmeb) → times_of own (unlink own l) ≡ []
unfolding unlink
times_of-unlink own [] = refl
times_of-unlink own (e ∷ l) = elim (Bool-cases (own e.callback)) [
  | inl mine ↦ rw mine (times_of-unlink own l)
  | inr other ↦ rw (other, other) (times_of-unlink own l)
]

pub unlink_block-Unlinked : (k : Kernel) (own : Callback → Bool) → Unlinked own (unlink_block k own)
unfolding unlink_block
unlink_block-Unlinked k own = record {
  timer = times_of-unlink own k.timer_queue;
  handed = λ p. times_of-unlink own (k.obj.handler_queue p).hdrque;
}

times_of_nil :
    (own : Callback → Bool) (q : Tmeb) (l : List Tmeb)
    → times_of own (q ∷ l) ≡ []
    → (own q.callback ≡ false) × (times_of own l ≡ [])
times_of_nil own q l h = elim (Bool-cases (own q.callback)) [
  | inl mine ↦
      absurd
        (no_cons (subst (λ b. (if b then q.time ∷ times_of own l else times_of own l) ≡ []) mine h))
  | inr other ↦
      (other, subst (λ b. (if b then q.time ∷ times_of own l else times_of own l) ≡ []) other h)
]
  where
    no_cons : {x : ℕ} {r : List ℕ} → x ∷ r ≢ []
    no_cons e = cc

pub times_of-enqueue_tmeb :
    (own : Callback → Bool) (event : Tmeb) (l : List Tmeb)
    → own event.callback ≡ true
    → times_of own l ≡ []
    → times_of own (enqueue_tmeb event l) ≡ event.time ∷ []
unfolding enqueue_tmeb
times_of-enqueue_tmeb own event [] mine free = rw mine refl
times_of-enqueue_tmeb own event (q ∷ l) mine free =
    let (other, later) = times_of_nil own q l free in
    elim (Bool-cases (ltb event.time q.time)) [
      | inl lt ↦ rw (lt, mine, other, later) refl
      | inr ge ↦ rw (ge, other) (times_of-enqueue_tmeb own event l mine later)
    ]
