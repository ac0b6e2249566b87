-- ===== src/Wait/Tpri.antt =====
-- kernel/tkernel/smp_src/wait.c, `queue_insert_tpri`: the order of a wait queue by priority.
use tkernel.Base.{
  ℕ, ◌+◌, ◌≤◌, ◌≡◌, inl, inr, refl, ap, List, [], ◌∷◌, ◌++◌, arith, ltb, Bool-cases, ltb→lt, ltb→ge,
}
use tkernel.Wait.{insert_tpri}

-- Each task of a list has priority number `m` or above; each has `m` or below.
abbrev pub NoneBelow : (ℕ → ℕ) → ℕ → List ℕ → Type 0
NoneBelow pri m [] = Unit {0}
NoneBelow pri m (t ∷ l) = (m ≤ pri t) × NoneBelow pri m l

abbrev pub NoneAbove : (ℕ → ℕ) → ℕ → List ℕ → Type 0
NoneAbove pri m [] = Unit {0}
NoneAbove pri m (t ∷ l) = (pri t ≤ m) × NoneAbove pri m l

abbrev pub InOrder : (ℕ → ℕ) → List ℕ → Type 0
InOrder pri [] = Unit {0}
InOrder pri (t ∷ l) = NoneBelow pri (pri t) l × InOrder pri l

NoneBelow-le : (pri : ℕ → ℕ) (m n : ℕ) (l : List ℕ) → m ≤ n → NoneBelow pri n l → NoneBelow pri m l
NoneBelow-le pri m n [] h a = tt
NoneBelow-le pri m n (t ∷ l) h a = (ground (arith, a.0), NoneBelow-le pri m n l h a.1)

NoneBelow-insert :
    (pri : ℕ → ℕ) (m t : ℕ) (l : List ℕ)
    → m ≤ pri t
    → NoneBelow pri m l
    → NoneBelow pri m (insert_tpri pri t l)
unfolding insert_tpri
NoneBelow-insert pri m t [] h a = (h, tt)
NoneBelow-insert pri m t (x ∷ l) h a = elim (Bool-cases (ltb (pri t) (pri x))) [
  | inl lt ↦ rw lt (h, a)
  | inr ge ↦ rw ge (a.0, NoneBelow-insert pri m t l h a.1)
]

-- How a task enters a wait queue: behind all tasks of its priority or a higher one, in front of
-- all of a lower one.
pub record Queued (pri : ℕ → ℕ) (t : ℕ) (l l' : List ℕ) : Type 0 where
  pub front : List ℕ
  pub back : List ℕ
  pub before : l ≡ front ++ back
  pub after : l' ≡ front ++ (t ∷ back)
  pub no_lower : NoneAbove pri (pri t) front
  pub lower : NoneBelow pri (pri t + 1) back
  pub in_order : InOrder pri l'

-- In a wait queue in the order of the priorities `queue_insert_tpri` puts a task behind all tasks
-- of its priority or a higher one and in front of all of a lower one; the others keep their places,
-- and the queue stays in order.
pub insert_tpri-Queued :
    (pri : ℕ → ℕ) (t : ℕ) (l : List ℕ) → InOrder pri l → Queued pri t l (insert_tpri pri t l)
unfolding insert_tpri
insert_tpri-Queued pri t [] s = record {
  front = [];
  back = [];
  before = refl;
  after = refl;
  no_lower = tt;
  lower = tt;
  in_order = (tt, tt);
}
insert_tpri-Queued pri t (x ∷ l) s = elim (Bool-cases (ltb (pri t) (pri x))) [
  | inl lt ↦
      let le = ltb→lt (pri t) (pri x) lt in
      rw lt (record {
        front = [];
        back = x ∷ l;
        before = refl;
        after = refl;
        no_lower = tt;
        lower = (omega arith, NoneBelow-le pri (pri t + 1) (pri x) l (omega arith) s.0);
        in_order = ((omega arith, NoneBelow-le pri (pri t) (pri x) l (omega arith) s.0), s);
      })
  | inr ge ↦
      let p = insert_tpri-Queued pri t l s.1 in
      rw ge (record {
        front = x ∷ p.front;
        back = p.back;
        before = ap (◌∷◌ x) p.before;
        after = ap (◌∷◌ x) p.after;
        no_lower = (ltb→ge (pri t) (pri x) ge, p.no_lower);
        lower = p.lower;
        in_order = (NoneBelow-insert pri (pri x) t l (ltb→ge (pri t) (pri x) ge) s.0, p.in_order);
      })
]
