-- ===== src/Mailbox/Chain.antt =====
-- kernel/tkernel/smp_src/mailbox.c: the messages that are linked from an address on.
use tkernel.Base.{ℕ, ◌^◌, ◌<◌, ◌≤◌, ◌≡◌, subst, sym, List, [], ◌∷◌, ◌++◌, arith}
use tkernel.Str.{Mem, store_word}
use tkernel.MessageBuffer.Ring.{Apart}
use tkernel.FixedPool.Blocks.{load_word-Apart}
use tkernel.Mailbox.{nextmsg}

-- From the address `a` on the messages `l` are linked.
unfoldable pub IsQueue : Mem → ℕ → List ℕ → Type 0
IsQueue m a [] = a ≡ 0
IsQueue m a (x ∷ l) = (a ≡ x) × (0 < x) × (x < 2 ^ 32) × IsQueue m (nextmsg m x) l

-- The area of `n` bytes at `p` is apart from those of the messages of a list; the areas of the messages
-- are apart from each other.
abbrev pub Far : ℕ → ℕ → List ℕ → Type 0
Far n p [] = Unit {0}
Far n p (x ∷ l) = Apart x n p n × Far n p l

abbrev pub Spread : ℕ → List ℕ → Type 0
Spread n [] = Unit {0}
Spread n (x ∷ l) = Far n x l × Spread n l

pub Far_word : (n x p : ℕ) → 4 ≤ n → Apart x n p n → Apart x 4 p 4
Far_word n x p h a = ground (arith, a)

pub Apart-sym : (n x p : ℕ) → Apart x n p n → Apart p n x n
Apart-sym n x p a = ground (arith, a)

-- A store of a word apart from the messages leaves them linked.
pub IsQueue-store :
    (n : ℕ) (m : Mem) (p v a : ℕ) (l : List ℕ)
    → 4 ≤ n
    → Far n p l
    → IsQueue m a l
    → IsQueue (store_word m p v) a l
unfolding IsQueue
IsQueue-store n m p v a [] h f q = q
IsQueue-store n m p v a (x ∷ l) h f q = (
  q.0,
  q.1,
  q.2,
  subst (λ y. IsQueue (store_word m p v) y l) (sym (load_word-Apart m p v x (Far_word n x p h f.0)))
      (IsQueue-store n m p v (nextmsg m x) l h f.1 q.3),
)

pub Far-append : (n p : ℕ) (l r : List ℕ) → Far n p l → Far n p r → Far n p (l ++ r)
Far-append n p [] r a b = b
Far-append n p (x ∷ l) r a b = (a.0, Far-append n p l r a.1 b)

-- A message that is apart from the others may be the last.
pub Spread-last : (n p : ℕ) (l : List ℕ) → Spread n l → Far n p l → Spread n (l ++ (p ∷ []))
Spread-last n p [] s f = (tt, tt)
Spread-last n p (x ∷ l) s f =
    (Far-append n x l (p ∷ []) s.0 (Apart-sym n x p f.0, tt), Spread-last n p l s.1 f.1)
