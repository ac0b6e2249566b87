-- ===== src/Mailbox/Order.antt =====
-- kernel/tkernel/smp_src/mailbox.c, `queue_insert_mpri`: with TA_MPRI the messages stand in the order of
-- their priorities.
use tkernel.Base.{
  ℕ, zero, suc, ◌+◌, ◌%◌, ◌^◌, ◌<◌, ◌≡◌, refl, sym, subst, ◌∙◌, true, false, Option, some, List, [],
  ◌∷◌, arith, ◌==◌, ltb, Bool-cases, inl, inr, length,
}
use tkernel.Str.{Mem, store_word}
use tkernel.Kernel.{Mbxcb}
use tkernel.MessageBuffer.Buffer.{load_word}
use tkernel.MessageBuffer.Ring.{Apart, load_word-store_word}
use tkernel.FixedPool.Blocks.{load_word-Apart}
use tkernel.Wait.{insert_tpri}
use tkernel.Wait.Tpri.{InOrder, Queued, insert_tpri-Queued}
use tkernel.Mailbox.{nextmsg, msgpri, insert_from, queue_insert_mpri}
use tkernel.Mailbox.Chain.{IsQueue, Far, Spread, IsQueue-store}

-- The order of the priorities, which are INTs, as numbers.
abbrev pub msg_key : Mem → ℕ → ℕ
msg_key m x = (msgpri m x + 2 ^ 31) % 2 ^ 32

-- The word at `a` is apart from the messages.
abbrev pub FarFrom : ℕ → List ℕ → Type 0
FarFrom a [] = Unit {0}
FarFrom a (x ∷ l) = Apart a 4 x 8 × FarFrom a l

-- What the loop leaves from the message `x` on, whose next ones were `l`: `p` has come among them at its
-- place, and all words that are apart from these messages and from `p` are as before.
pub record Inserted (m m' : Mem) (x p : ℕ) (l l' : List ℕ) : Type 0 where
  pub queue : IsQueue m' x (x ∷ l')
  pub outside : (a : ℕ) → Apart a 4 p 8 → FarFrom a (x ∷ l) → load_word m' a ≡ load_word m a

FarFrom-Far : (x : ℕ) (l : List ℕ) → Far 8 x l → FarFrom x l
FarFrom-Far x [] f = tt
FarFrom-Far x (y ∷ l) f = (ground (arith, f.0), FarFrom-Far x l f.1)

head_fits : (m : Mem) (a : ℕ) (l : List ℕ) → IsQueue m a l → a < 2 ^ 32
unfolding IsQueue
head_fits m a [] q = omega arith
head_fits m a (x ∷ l) q = omega (arith, q.0, q.2)

-- `p` comes behind `x`.
here-Inserted :
    (m : Mem) (x p : ℕ) (l : List ℕ)
    → 0 < p
    → p < 2 ^ 32
    → 0 < x
    → x < 2 ^ 32
    → Far 8 p (x ∷ l)
    → Spread 8 (x ∷ l)
    → IsQueue m (nextmsg m x) l
    → Inserted m (store_word (store_word m p (nextmsg m x)) x p) x p l (p ∷ l)
unfolding IsQueue
here-Inserted m x p l pos fits posx fitsx f s q =
    let m1 = store_word m p (nextmsg m x) in
    let m2 = store_word m1 x p in
    let back : load_word m2 p ≡ nextmsg m x =
      load_word-Apart m1 x p p (ground (arith, f.0))
      ∙ load_word-store_word m p (nextmsg m x) (head_fits m (nextmsg m x) l q) in
    record {
      queue = (
        refl,
        posx,
        fitsx,
        (
          load_word-store_word m1 x p fits,
          pos,
          fits,
          subst (λ b. IsQueue m2 b l) (sym back)
              (IsQueue-store 8 m1 x p (nextmsg m x) l (omega arith) s.0
                (IsQueue-store 8 m p (nextmsg m x) (nextmsg m x) l (omega arith) f.1 q)),
        ),
      );
      outside = λ a far fars.
          load_word-Apart m1 x p a (ground (arith, fars.0))
          ∙ load_word-Apart m p (nextmsg m x) a (ground (arith, far));
    }

-- The outcome of the loop behind `x`.
abbrev Done : Mem → Mbxcb → ℕ → ℕ → List ℕ → Option (Mem × Mbxcb) → Type 0
Done m cb x p l r =
    (m' : Mem) × (r ≡ some (m', cb)) × Inserted m m' x p l (insert_tpri (msg_key m) p l)

insert_from-Done :
    (f : ℕ) (m : Mem) (cb : Mbxcb) (p x : ℕ) (l : List ℕ)
    → length l < f
    → 0 < p
    → p < 2 ^ 32
    → 0 < x
    → x < 2 ^ 32
    → Far 8 p (x ∷ l)
    → Spread 8 (x ∷ l)
    → IsQueue m (nextmsg m x) l
    → Done m cb x p l (insert_from f m cb p (some x) (nextmsg m x))
unfolding insert_from insert_tpri IsQueue
insert_from-Done zero m cb p x l lt pos fits posx fitsx far s q = absurd (omega arith)
insert_from-Done (suc f) m cb p x [] lt pos fits posx fitsx far s q =
    let end : (nextmsg m x == 0) ≡ true = ground (arith, q) in
    (
      store_word (store_word m p (nextmsg m x)) x p,
      rw end refl,
      here-Inserted m x p [] pos fits posx fitsx far s q,
    )
insert_from-Done (suc f) m cb p x (y ∷ l) lt pos fits posx fitsx far s q =
    let more : (nextmsg m x == 0) ≡ false = ground (arith, q.0, q.1) in
    elim (Bool-cases (ltb (msg_key m p) (msg_key m y))) [
      | inl stop ↦
          let stop' = subst (λ b. ltb (msg_key m p) (msg_key m b) ≡ true) (sym q.0) stop in
          (
            store_word (store_word m p (nextmsg m x)) x p,
            rw (more, stop') refl,
            rw stop (here-Inserted m x p (y ∷ l) pos fits posx fitsx far s q),
          )
      | inr go ↦
          let go' = subst (λ b. ltb (msg_key m p) (msg_key m b) ≡ false) (sym q.0) go in
          let (m', e, i) =
            insert_from-Done f m cb p y l (omega arith) pos fits q.1 q.2 far.1 s.1 q.3 in
          let same = i.outside x (ground (arith, far.0)) (FarFrom-Far x (y ∷ l) s.0) in
          (
            m',
            rw (more, go')
                (subst (λ b. insert_from f m cb p (some b) (nextmsg m b) ≡ some (m', cb)) (sym q.0)
                  e),
            rw go (record {
              queue = (
                refl,
                posx,
                fitsx,
                subst (λ b. IsQueue m' b (y ∷ insert_tpri (msg_key m) p l)) (sym (same ∙ q.0))
                    i.queue,
              );
              outside = λ a fa fl. i.outside a fa fl.1;
            }),
          )
    ]

-- The messages of a mailbox with TA_MPRI.
pub record IsOrdered (m : Mem) (cb : Mbxcb) (l : List ℕ) : Type 0 where
  pub queue : IsQueue m cb.mq_head l
  pub spread : Spread 8 l
  pub in_order : InOrder (msg_key m) l

-- The result of `queue_insert_mpri`.
pub record Ranked (m : Mem) (cb : Mbxcb) (p : ℕ) (l : List ℕ) (r : Option (Mem × Mbxcb))
    : Type 0 where
  pub memory : Mem
  pub block : Mbxcb
  pub returns : r ≡ some (memory, block)
  pub messages : List ℕ
  pub linked : IsQueue memory block.mq_head messages
  pub placed : Queued (msg_key m) p l messages

-- `queue_insert_mpri`, with fuel for one round more than there are messages, for a message at an
-- address that is not NULL and apart from those in the queue, ends, and the message is linked behind
-- all messages of its priority or a higher one and in front of those of a lower one, which stay in
-- their order.
pub queue_insert_mpri-Ranked :
    (f : ℕ) (m : Mem) (cb : Mbxcb) (p : ℕ) (l : List ℕ)
    → IsOrdered m cb l
    → length l < f
    → 0 < p
    → p < 2 ^ 32
    → Far 8 p l
    → Ranked m cb p l (queue_insert_mpri f m cb p)
unfolding queue_insert_mpri insert_from insert_tpri IsQueue
queue_insert_mpri-Ranked zero m cb p l c lt pos fits far = absurd (omega arith)
queue_insert_mpri-Ranked (suc f) m cb p [] c lt pos fits far =
    let end : (cb.mq_head == 0) ≡ true = ground (arith, c.queue) in
    record {
      memory = store_word m p cb.mq_head;
      block = record cb { mq_head = p };
      returns = rw end refl;
      messages = p ∷ [];
      linked = (
        refl,
        pos,
        fits,
        load_word-store_word m p cb.mq_head (head_fits m cb.mq_head [] c.queue) ∙ c.queue,
      );
      placed = insert_tpri-Queued (msg_key m) p [] tt;
    }
queue_insert_mpri-Ranked (suc f) m cb p (x ∷ l) c lt pos fits far =
    let q = c.queue in
    let more : (cb.mq_head == 0) ≡ false = ground (arith, q.0, q.1) in
    let order = insert_tpri-Queued (msg_key m) p (x ∷ l) c.in_order in
    elim (Bool-cases (ltb (msg_key m p) (msg_key m x))) [
      | inl stop ↦
          let stop' = subst (λ b. ltb (msg_key m p) (msg_key m b) ≡ true) (sym q.0) stop in
          record {
            memory = store_word m p cb.mq_head;
            block = record cb { mq_head = p };
            returns = rw (more, stop') refl;
            messages = p ∷ x ∷ l;
            linked = (
              refl,
              pos,
              fits,
              subst (λ b. IsQueue (store_word m p cb.mq_head) b (x ∷ l))
                  (sym (load_word-store_word m p cb.mq_head (head_fits m cb.mq_head (x ∷ l) q)))
                  (IsQueue-store 8 m p cb.mq_head cb.mq_head (x ∷ l) (omega arith) far q),
            );
            placed = subst (Queued (msg_key m) p (x ∷ l)) (rw stop refl) order;
          }
      | inr go ↦
          let go' = subst (λ b. ltb (msg_key m p) (msg_key m b) ≡ false) (sym q.0) go in
          let (m', e, i) =
            insert_from-Done f m cb p x l (omega arith) pos fits q.1 q.2 far c.spread q.3 in
          record {
            memory = m';
            block = cb;
            returns =
                rw (more, go')
                  (subst (λ b. insert_from f m cb p (some b) (nextmsg m b) ≡ some (m', cb))
                    (sym q.0) e);
            messages = x ∷ insert_tpri (msg_key m) p l;
            linked = subst (λ b. IsQueue m' b (x ∷ insert_tpri (msg_key m) p l)) (sym q.0) i.queue;
            placed = subst (Queued (msg_key m) p (x ∷ l)) (rw go refl) order;
          }
    ]
