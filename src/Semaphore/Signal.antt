-- ===== src/Semaphore/Signal.antt =====
-- What a signal promises: counts are neither lost nor made up, and nobody is left waiting whom the
-- count could serve.
use tkernel.Base.{
  ℕ, ◌-◌, ◌+◌, ◌≤◌, ◌<◌, ◌≡◌, Bool, true, false, List, [], ◌∷◌, arith, refl, inl, inr, ltb, leb,
  Bool-cases, if◌then◌else◌, ap,
}
use tkernel.Kernel.Lists.{NotIn, Distinct, Among, Among-NotIn}
use tkernel.Semaphore.Frame.{Outcome, grant}

-- What the tasks of a list ask for together.
abbrev pub total : (ℕ → ℕ) → List ℕ → ℕ
total need [] = 0
total need (t ∷ l) = need t + total need l

pub grant_conserves :
    (skip : Bool) (need : ℕ → ℕ) (n : ℕ) (l : List ℕ)
    → (grant skip need n l).remaining + total need (grant skip need n l).released ≡ n
unfolding grant
grant_conserves skip need n [] = omega arith
grant_conserves skip need n (t ∷ l) =
    ground (arith, grant_conserves skip need n l, grant_conserves skip need (n - need t) l)

-- Nobody whom the count could serve waits: the first task, or with TA_CNT any task.
abbrev pub EachShort : (ℕ → ℕ) → ℕ → List ℕ → Type 0
EachShort need n [] = Unit {0}
EachShort need n (t ∷ l) = (n < need t) × EachShort need n l

abbrev pub FirstShort : (ℕ → ℕ) → ℕ → List ℕ → Type 0
FirstShort need n [] = Unit {0}
FirstShort need n (t ∷ l) = n < need t

abbrev pub Settled : Bool → (ℕ → ℕ) → ℕ → List ℕ → Type 0
Settled true = EachShort
Settled false = FirstShort

-- Each task of the list asks for something.
abbrev pub Asking : (ℕ → ℕ) → List ℕ → Type 0
Asking need [] = Unit {0}
Asking need (t ∷ l) = (0 < need t) × Asking need l

EachShort-zero : (need : ℕ → ℕ) (l : List ℕ) → Asking need l → EachShort need 0 l
EachShort-zero need [] h = tt
EachShort-zero need (t ∷ l) h = (h.0, EachShort-zero need l h.1)

FirstShort-zero : (need : ℕ → ℕ) (l : List ℕ) → Asking need l → FirstShort need 0 l
FirstShort-zero need [] h = tt
FirstShort-zero need (t ∷ l) h = h.0

-- A count that only falls stays too small.
pub grant-le :
    (skip : Bool) (need : ℕ → ℕ) (n : ℕ) (l : List ℕ) → (grant skip need n l).remaining ≤ n
unfolding grant
grant-le skip need n [] = omega arith
grant-le skip need n (t ∷ l) =
    ground (arith, grant-le skip need n l, grant-le skip need (n - need t) l)

pub grant-Settled :
    (skip : Bool) (need : ℕ → ℕ) (n : ℕ) (l : List ℕ)
    → Asking need l
    → Settled skip need (grant skip need n l).remaining (grant skip need n l).waiting
unfolding grant
grant-Settled true need n [] h = tt
grant-Settled false need n [] h = tt
grant-Settled true need n (t ∷ l) h = ground (
  arith,
  grant-Settled true need n l h.1,
  grant-Settled true need (n - need t) l h.1,
  grant-le true need n l,
  EachShort-zero need l h.1,
)
grant-Settled false need n (t ∷ l) h =
    ground (arith, grant-Settled false need (n - need t) l h.1, FirstShort-zero need l h.1)

-- The tasks of a list that no longer wait.
abbrev pub not_waiting : (ℕ → Bool) → List ℕ → List ℕ
not_waiting waits [] = []
not_waiting waits (t ∷ l) = let rest = not_waiting waits l in if waits t then rest else t ∷ rest

-- The first list has some of the second, in their order.
data Picked : List ℕ → List ℕ → Type 0 where
  end : Picked [] []
  pass : {t : ℕ} {r l : List ℕ} → Picked r l → Picked r (t ∷ l)
  pick : {t : ℕ} {r l : List ℕ} → Picked r l → Picked (t ∷ r) (t ∷ l)

pick_none : (l : List ℕ) → Picked [] l
pick_none [] = end
pick_none (t ∷ l) = pass (pick_none l)

grant-Picked :
    (skip : Bool) (need : ℕ → ℕ) (n : ℕ) (l : List ℕ) → Picked (grant skip need n l).released l
unfolding grant
grant-Picked skip need n [] = end
grant-Picked skip need n (t ∷ l) = elim (Bool-cases (ltb n (need t))) [
  | inl short ↦ rw short (either _ skip (grant-Picked skip need n l))
  | inr enough ↦ elim (Bool-cases (leb (n - need t) 0)) [
    | inl out ↦ rw (enough, out) (pick (pick_none l))
    | inr more ↦ rw (enough, more) (pick (grant-Picked skip need (n - need t) l))
  ]
]
  where
    either :
        (o : Outcome) (b : Bool)
        → Picked o.released l
        → Picked
            (if b
              then record o { waiting = t ∷ o.waiting }
              else record { remaining = n; released = []; waiting = t ∷ l }).released
            (t ∷ l)
    either o true p = pass p
    either o false p = pick_none (t ∷ l)

Picked-NotIn : (u : ℕ) {r l : List ℕ} → Picked r l → NotIn u l → NotIn u r
Picked-NotIn u end h = tt
Picked-NotIn u (pass p) h = Picked-NotIn u p h.1
Picked-NotIn u (pick p) h = (h.0, Picked-NotIn u p h.1)

not_waiting-Picked :
    (waits : ℕ → Bool) {r l : List ℕ}
    → Picked r l
    → Distinct l
    → ((u : ℕ) → Among u r → waits u ≡ false)
    → ((u : ℕ) → Among u l → NotIn u r → waits u ≡ true)
    → not_waiting waits l ≡ r
not_waiting-Picked waits end d woken asleep = refl
not_waiting-Picked waits (pass {t} p) d woken asleep =
    rw (asleep t (inl refl) (Picked-NotIn t p d.0))
      (not_waiting-Picked waits p d.1 woken (λ u a. asleep u (inr a)))
not_waiting-Picked waits (pick {t} {r} {l} p) d woken asleep = rw (woken t (inl refl)) (
    ap (◌∷◌ t) (
      not_waiting-Picked waits p d.1 (λ u a. woken u (inr a))
        (λ u a n. asleep u (inr a) ((λ e. Among-NotIn u l a (rw (← e) d.0)), n))))

-- Where exactly the released tasks wait no longer, they are the ones found by looking at each.
pub not_waiting-grant :
    (skip : Bool) (need : ℕ → ℕ) (waits : ℕ → Bool) (n : ℕ) (l : List ℕ)
    → Distinct l
    → ((u : ℕ) → Among u (grant skip need n l).released → waits u ≡ false)
    → ((u : ℕ) → Among u l → NotIn u (grant skip need n l).released → waits u ≡ true)
    → not_waiting waits l ≡ (grant skip need n l).released
not_waiting-grant skip need waits n l = not_waiting-Picked waits (grant-Picked skip need n l)
