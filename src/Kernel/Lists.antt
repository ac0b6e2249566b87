-- ===== src/Kernel/Lists.antt =====
-- Lists of tasks without a repetition.
use tkernel.Base.{ℕ, ◌≡◌, ◌≢◌, ◌⊎◌, refl, sym, ap, List, [], ◌∷◌, ◌++◌, inl, inr, ==-refl, ==-ne}
use tkernel.Kernel.Queue.{remove}

abbrev pub NotIn : ℕ → List ℕ → Type 0
NotIn t [] = Unit {0}
NotIn t (x ∷ l) = (x ≢ t) × NotIn t l

abbrev pub Distinct : List ℕ → Type 0
Distinct [] = Unit {0}
Distinct (x ∷ l) = NotIn x l × Distinct l

abbrev pub Among : ℕ → List ℕ → Type 0
Among t [] = ⊥
Among t (x ∷ l) = (x ≡ t) ⊎ Among t l

pub remove-NotIn : (t : ℕ) (l : List ℕ) → NotIn t l → remove t l ≡ l
unfolding remove
remove-NotIn t [] h = refl
remove-NotIn t (x ∷ l) h = rw (==-ne x t h.0) (ap (◌∷◌ x) (remove-NotIn t l h.1))

pub NotIn-append : (t : ℕ) (xs ys : List ℕ) → NotIn t (xs ++ ys) → NotIn t xs × NotIn t ys
NotIn-append t [] ys h = (tt, h)
NotIn-append t (x ∷ xs) ys h = let r = NotIn-append t xs ys h.1 in ((h.0, r.0), r.1)

pub append-NotIn : (t : ℕ) (xs ys : List ℕ) → NotIn t xs → NotIn t ys → NotIn t (xs ++ ys)
append-NotIn t [] ys a b = b
append-NotIn t (x ∷ xs) ys a b = (a.0, append-NotIn t xs ys a.1 b)

pub Distinct-middle :
    (xs : List ℕ) (t : ℕ) (ys : List ℕ)
    → Distinct (xs ++ (t ∷ ys))
    → NotIn t xs × NotIn t ys × Distinct (xs ++ ys)
Distinct-middle [] t ys d = (tt, d.0, d.1)
Distinct-middle (x ∷ xs) t ys d =
    let r = Distinct-middle xs t ys d.1 in
    let n = NotIn-append x xs (t ∷ ys) d.0 in
    ((λ e. n.1.0 (sym e), r.0), r.1, (append-NotIn x xs ys n.0 n.1.1, r.2))

pub remove-middle :
    (xs : List ℕ) (t : ℕ) (ys : List ℕ)
    → Distinct (xs ++ (t ∷ ys))
    → remove t (xs ++ (t ∷ ys)) ≡ xs ++ ys
unfolding remove
remove-middle [] t ys d = rw (==-refl t) (remove-NotIn t ys d.0)
remove-middle (x ∷ xs) t ys d =
    let n = NotIn-append x xs (t ∷ ys) d.0 in
    rw (==-ne x t (λ e. n.1.0 (sym e))) (ap (◌∷◌ x) (remove-middle xs t ys d.1))

pub Among-NotIn : (t : ℕ) (l : List ℕ) → Among t l → NotIn t l → ⊥
Among-NotIn t [] a h = a
Among-NotIn t (x ∷ l) (inl e) h = h.0 e
Among-NotIn t (x ∷ l) (inr a) h = Among-NotIn t l a h.1
