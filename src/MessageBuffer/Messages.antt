-- ===== src/MessageBuffer/Messages.antt =====
-- kernel/tkernel/smp_src/messagebuf.c: the messages that a buffer holds, in their order.
use mathlib.Core.Path.{fun_ext}
use tkernel.Base.{
  ltb, ℕ, ◌+◌, ◌%◌, ◌<◌, ◌≡◌, refl, ap, subst, ◌∙◌, List, [], ◌∷◌, ◌++◌, arith, if◌then◌else◌, ltb,
}
use tkernel.Str.{Mem}
use tkernel.Kernel.{Mbfcb}
use tkernel.MessageBuffer.Buffer.{headersz, roundsz, load_word}
use tkernel.MessageBuffer.Ring.{wrap}

-- A message: its size and its bytes.
pub record Message : Type 0 where
  pub size : ℕ
  pub byte : ℕ → ℕ

-- The message at `src`, `n` bytes long.
abbrev pub message_at : Mem → ℕ → ℕ → Message
message_at m src n = record { size = n; byte = λ i. if ltb i n then m (src + i) else 0 }

pub message_at_same :
    (m m' : Mem) (src n : ℕ)
    → ((i : ℕ) → i < n → m' (src + i) ≡ m (src + i))
    → message_at m' src n ≡ message_at m src n
message_at_same m m' src n same =
    let of_bytes : (ℕ → ℕ) → Message = λ f. record { size = n; byte = f } in
    ap of_bytes (fun_ext (λ i. ground (arith, same i)))

-- The bytes that the messages take in the buffer.
unfoldable pub used : List Message → ℕ
used [] = 0
used (x ∷ l) = headersz + roundsz x.size + used l

-- At the position `p` of the ring of `s` bytes at `b` the message stands.
unfoldable pub At : Mem → ℕ → ℕ → ℕ → Message → Type 0
At m b s p x =
    (load_word m (b + wrap s p) ≡ x.size)
    × ((i : ℕ) → i < x.size → m (b + wrap s (p + headersz + i)) ≡ x.byte i)

-- From the position `p` on, the ring holds the messages.
unfoldable pub Holds : Mem → ℕ → ℕ → ℕ → List Message → Type 0
Holds m b s p [] = Unit
Holds m b s p (x ∷ l) = At m b s p x × Holds m b s (p + (headersz + roundsz x.size)) l

-- The control block and the memory agree that the buffer holds just these messages.
pub record IsMbf (m : Mem) (cb : Mbfcb) (l : List Message) : Type 0 where
  pub bufsz_words : cb.bufsz % 4 ≡ 0
  pub head_words : cb.head % 4 ≡ 0
  pub head_inside : cb.head < cb.bufsz
  pub room : used l + cb.frbufsz ≡ cb.bufsz
  pub tail_behind : cb.tail ≡ wrap cb.bufsz (cb.head + used l)
  pub holds : Holds m cb.buffer cb.bufsz cb.head l

pub used_words : (l : List Message) → used l % 4 ≡ 0
unfolding used
used_words [] = refl
used_words (x ∷ l) = ground (arith, used_words l)

pub used-++ :
    (l : List Message) (x : Message) → used (l ++ (x ∷ [])) ≡ used l + (headersz + roundsz x.size)
unfolding used
used-++ [] x = ground arith
used-++ (y ∷ l) x = ground (arith, used-++ l x)

wrap_next : (s p k : ℕ) → s % 4 ≡ 0 → p % 4 ≡ 0 → k < 4 → wrap s p + k ≡ wrap s (p + k)
wrap_next s p k hs hp lt = ground arith

byte_move :
    (m m' : Mem) (b s p p' k : ℕ)
    → s % 4 ≡ 0
    → p % 4 ≡ 0
    → p' % 4 ≡ 0
    → ((i : ℕ) → i < 4 → m' (b + wrap s (p' + i)) ≡ m (b + wrap s (p + i)))
    → k < 4
    → m' (b + wrap s p' + k) ≡ m (b + wrap s p + k)
byte_move m m' b s p p' k hs hp hp' same lt =
    ap m' (omega (arith, wrap_next s p' k hs hp' lt))
    ∙ same k lt
    ∙ ap m (omega (arith, wrap_next s p k hs hp lt))

load_word_move :
    (m m' : Mem) (b s p p' : ℕ)
    → s % 4 ≡ 0
    → p % 4 ≡ 0
    → p' % 4 ≡ 0
    → ((i : ℕ) → i < 4 → m' (b + wrap s (p' + i)) ≡ m (b + wrap s (p + i)))
    → load_word m' (b + wrap s p') ≡ load_word m (b + wrap s p)
load_word_move m m' b s p p' hs hp hp' same = ground (
  arith,
  byte_move m m' b s p p' 0 hs hp hp' same (omega arith),
  byte_move m m' b s p p' 1 hs hp hp' same (omega arith),
  byte_move m m' b s p p' 2 hs hp hp' same (omega arith),
  byte_move m m' b s p p' 3 hs hp hp' same (omega arith),
)

shift_same :
    (m m' : Mem) (b s p p' d i : ℕ)
    → m' (b + wrap s (p' + (d + i))) ≡ m (b + wrap s (p + (d + i)))
    → m' (b + wrap s (p' + d + i)) ≡ m (b + wrap s (p + d + i))
shift_same m m' b s p p' d i e =
    ap (λ q. m' (b + wrap s q)) (omega arith) ∙ e ∙ ap (λ q. m (b + wrap s q)) (omega arith)

-- Only the bytes of the messages matter.
pub At-move :
    (m m' : Mem) (b s : ℕ) (x : Message) (p p' : ℕ)
    → s % 4 ≡ 0
    → p % 4 ≡ 0
    → p' % 4 ≡ 0
    → ((i : ℕ) → i < headersz + x.size → m' (b + wrap s (p' + i)) ≡ m (b + wrap s (p + i)))
    → At m b s p x
    → At m' b s p' x
unfolding At
At-move m m' b s x p p' hs hp hp' same (w, at) = (
  load_word_move m m' b s p p' hs hp hp' (λ i li. same i (omega arith)) ∙ w,
  λ i li. shift_same m m' b s p p' headersz i (same (headersz + i) (omega arith)) ∙ at i li,
)

pub Holds-move :
    (m m' : Mem) (b s : ℕ) (l : List Message) (p p' : ℕ)
    → s % 4 ≡ 0
    → p % 4 ≡ 0
    → p' % 4 ≡ 0
    → ((i : ℕ) → i < used l → m' (b + wrap s (p' + i)) ≡ m (b + wrap s (p + i)))
    → Holds m b s p l
    → Holds m' b s p' l
unfolding used Holds
Holds-move m m' b s [] p p' hs hp hp' same h = h
Holds-move m m' b s (x ∷ l) p p' hs hp hp' same (at, h) = (
  At-move m m' b s x p p' hs hp hp' (λ i li. same i (omega arith)) at,
  Holds-move m m' b s l (p + (headersz + roundsz x.size)) (p' + (headersz + roundsz x.size)) hs
      (omega arith) (omega arith)
      (λ i li.
        shift_same m m' b s p p' (headersz + roundsz x.size) i
          (same (headersz + roundsz x.size + i) (omega arith)))
      h,
)

pub Holds-++ :
    (m : Mem) (b s : ℕ) (l : List Message) (x : Message) (p : ℕ)
    → Holds m b s p l
    → At m b s (p + used l) x
    → Holds m b s p (l ++ (x ∷ []))
unfolding used Holds
Holds-++ m b s [] x p h e = (subst (λ q. At m b s q x) (omega arith) e, tt)
Holds-++ m b s (y ∷ l) x p (at, h) e = (
  at,
  Holds-++ m b s l x (p + (headersz + roundsz y.size)) h
      (subst (λ q. At m b s q x) (omega arith) e),
)
