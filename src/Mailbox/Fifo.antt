-- ===== src/Mailbox/Fifo.antt =====
-- kernel/tkernel/smp_src/mailbox.c, without TA_MPRI: a queue at whose end a message is put, and from
-- whose head one is taken.
use tkernel.Base.{
  ℕ, ◌^◌, ◌<◌, ◌≡◌, refl, sym, subst, ◌∙◌, true, false, List, [], ◌∷◌, ◌++◌, arith, ◌==◌,
}
use tkernel.Str.{Mem, store_word}
use tkernel.Kernel.{Mbxcb}
use tkernel.MessageBuffer.Buffer.{load_word}
use tkernel.MessageBuffer.Ring.{Apart, load_word-store_word}
use tkernel.FixedPool.Blocks.{load_word-Apart}
use tkernel.Mailbox.{nextmsg, append_msg, take_msg}
use tkernel.Mailbox.Chain.{IsQueue, Far, Spread, IsQueue-store, Spread-last}

abbrev pub last : ℕ → List ℕ → ℕ
last d [] = d
last d (x ∷ l) = last x l

-- The messages of the mailbox are those of `l`, and `mq_tail` is the last if there is one.
pub record IsFifo (m : Mem) (cb : Mbxcb) (l : List ℕ) : Type 0 where
  pub queue : IsQueue m cb.mq_head l
  pub spread : Spread 4 l
  pub tail : cb.mq_tail ≡ last cb.mq_tail l

Far-last : (p x : ℕ) (l : List ℕ) → Far 4 p (x ∷ l) → Apart (last x l) 4 p 4
Far-last p x [] f = f.0
Far-last p x (y ∷ l) f = Far-last p y l f.1

-- The message `p`, which ends a list, behind the last of those from `a` on.
link_last :
    (m : Mem) (p a x : ℕ) (l : List ℕ)
    → 0 < p
    → p < 2 ^ 32
    → nextmsg m p ≡ 0
    → Far 4 p (x ∷ l)
    → Spread 4 (x ∷ l)
    → IsQueue m a (x ∷ l)
    → IsQueue (store_word m (last x l) p) a ((x ∷ l) ++ (p ∷ []))
unfolding IsQueue
link_last m p a x [] pos fits end f s q = (
  q.0,
  q.1,
  q.2,
  (load_word-store_word m x p fits, pos, fits, load_word-Apart m x p p (ground (arith, f.0)) ∙ end),
)
link_last m p a x (y ∷ l) pos fits end f s q =
    let z = last y l in
    let far : Apart x 4 z 4 = ground (arith, Far-last x y l s.0) in
    (
      q.0,
      q.1,
      q.2,
      subst (λ b. IsQueue (store_word m z p) b ((y ∷ l) ++ (p ∷ [])))
          (sym (load_word-Apart m z p x far))
          (link_last m p (nextmsg m x) y l pos fits end f.1 s.1 q.3),
    )

last-append : (d p : ℕ) (l : List ℕ) → last d (l ++ (p ∷ [])) ≡ p
last-append d p [] = refl
last-append d p (x ∷ l) = last-append x p l

-- Without TA_MPRI a message that is sent, at an address that is not NULL and apart from the messages
-- in the queue, comes behind them, and they stay in their order.
pub append_msg-IsFifo :
    (m : Mem) (cb : Mbxcb) (l : List ℕ) (p : ℕ)
    → IsFifo m cb l
    → 0 < p
    → p < 2 ^ 32
    → Far 4 p l
    → IsFifo (append_msg m cb p).0 (append_msg m cb p).1 (l ++ (p ∷ []))
unfolding append_msg IsQueue
append_msg-IsFifo m cb [] p c pos fits f =
    let empty : (cb.mq_head == 0) ≡ true = ground (arith, c.queue) in
    rw empty (record {
      queue = (refl, pos, fits, load_word-store_word m p 0 (omega arith));
      spread = (tt, tt);
      tail = refl;
    })
append_msg-IsFifo m cb (x ∷ l) p c pos fits f =
    let m1 = store_word m p 0 in
    let some_msg : (cb.mq_head == 0) ≡ false = ground (arith, c.queue.0, c.queue.1) in
    let linked =
      link_last m1 p cb.mq_head x l pos fits (load_word-store_word m p 0 (omega arith)) f c.spread
        (IsQueue-store 4 m p 0 cb.mq_head (x ∷ l) (omega arith) f c.queue) in
    rw some_msg (record {
      queue =
          subst (λ z. IsQueue (store_word m1 z p) cb.mq_head ((x ∷ l) ++ (p ∷ []))) (sym c.tail)
            linked;
      spread = Spread-last 4 p (x ∷ l) c.spread f;
      tail = sym (last-append p p (x ∷ l));
    })

last-cons : (d e : ℕ) (l : List ℕ) → d ≡ last e l → d ≡ last d l
last-cons d e [] h = refl
last-cons d e (x ∷ l) h = h

-- A call that receives from a mailbox with messages, for a variable apart from them, gets the first,
-- and the others stay in their order.
pub take_msg-IsFifo :
    (m : Mem) (cb : Mbxcb) (x : ℕ) (l : List ℕ) (ppk_msg : ℕ)
    → IsFifo m cb (x ∷ l)
    → Far 4 ppk_msg (x ∷ l)
    → (load_word (take_msg m cb ppk_msg).0 ppk_msg ≡ x)
      × IsFifo (take_msg m cb ppk_msg).0 (take_msg m cb ppk_msg).1 l
unfolding take_msg IsQueue
take_msg-IsFifo m cb x l ppk_msg c f =
    let m1 = store_word m ppk_msg cb.mq_head in
    let fits : cb.mq_head < 2 ^ 32 = omega (arith, c.queue.0, c.queue.2) in
    let got : load_word m1 ppk_msg ≡ x =
      load_word-store_word m ppk_msg cb.mq_head fits ∙ c.queue.0 in
    let kept = IsQueue-store 4 m ppk_msg cb.mq_head cb.mq_head (x ∷ l) (omega arith) f c.queue in
    (
      got,
      record {
        queue = subst (λ y. IsQueue m1 (nextmsg m1 y) l) (sym got) kept.3;
        spread = c.spread.1;
        tail = last-cons cb.mq_tail x l c.tail;
      },
    )
