-- ===== src/Priority/Stays.antt =====
-- The loops of the hooks, and a task that does not wait: of such a task at most the priority changes,
-- and what scheduling writes.
use tkernel.Base.{
  ℕ, ◌≡◌, ◌≢◌, ◌∙◌, ap, subst, refl, true, false, List, [], ◌∷◌, ltb, ◌==◌, Bool-cases, inl, inr,
}
use tkernel.Kernel.{Kernel, Er, Tcb, set_mbfcb, is_waiting, Que}
use tkernel.Kernel.Queue.{que_remove}
use tkernel.Wait.{wait_release_ok, gcb_change_priority, queue_insert_tpri}
use tkernel.Wait.Frame.{wait_release_ok-Released}
use tkernel.Semaphore.Hooks.{sub_semcnt, serve_while}
use tkernel.MessageBuffer.{wakeup_loop}
use tkernel.MessageBuffer.Buffer.{mbf_free}
use tkernel.MessageBuffer.Pending.{sent_first, sent_first-Released, with_first}
use tkernel.Kernel.Frame.{Frame, core, is_rdy}
use tkernel.Kernel.Lists.{NotIn}
use tkernel.Kernel.Queue.{remove, que_eq}
use tkernel.Wait.{insert_tpri}
use tkernel.Wait.Frame.{Released}

-- A TCB without its priority and the fields that scheduling writes.
abbrev pub trim : Tcb → Tcb
trim c = record (core c) { priority = 0 }

-- The task does not wait, and stands in no wait queue.
abbrev pub Out : ℕ → Kernel → Type 0
Out u k = (is_waiting (k.tcb u).state ≡ false) × ((q : Que) → is_rdy q ≡ false → NotIn u (k.que q))

-- A task that does not wait is still out, and is what it was but for its priority.
pub record Stays (u : ℕ) (k k' : Kernel) : Type 0 where
  pub still : Out u k → Out u k'
  pub same : Out u k → trim (k'.tcb u) ≡ trim (k.tcb u)

pub Stays-refl : (u : ℕ) (k : Kernel) → Stays u k k
Stays-refl u k = record { still = λ o. o; same = λ o. refl }

pub Stays-trans : {u : ℕ} {k k' k'' : Kernel} → Stays u k k' → Stays u k' k'' → Stays u k k''
Stays-trans f g = record {
  still = λ o. g.still (f.still o);
  same = λ o. g.same (f.still o) ∙ f.same o;
}

pub Stays-if :
    (u : ℕ) (k k' : Kernel)
    → trim (k'.tcb u) ≡ trim (k.tcb u)
    → ((q : Que) → is_rdy q ≡ false → NotIn u (k.que q) → NotIn u (k'.que q))
    → Stays u k k'
Stays-if u k k' e n = record {
  still = λ o. (ap (λ c. is_waiting c.state) e ∙ o.0, λ q h. n q h (o.1 q h));
  same = λ o. e;
}

pub Frame-Stays : {u : ℕ} {k k' : Kernel} → Frame k k' → Stays u k k'
Frame-Stays {u} {k} {k'} f =
    Stays-if u k k' (ap (λ c. trim c) (f.tcb_same u)) (λ q h n. rw (f.waits q h) n)

pub remove-NotIn_other : (u t : ℕ) (l : List ℕ) → NotIn u l → NotIn u (remove t l)
unfolding remove
remove-NotIn_other u t [] n = tt
remove-NotIn_other u t (x ∷ l) n = elim (Bool-cases (x == t)) [
  | inl e ↦ rw e (remove-NotIn_other u t l n.1)
  | inr e ↦ rw e (n.0, remove-NotIn_other u t l n.1)
]

pub Released-Stays : {u t : ℕ} {k k' : Kernel} {e : Er} → t ≢ u → Released k k' t e → Stays u k k'
Released-Stays {u} {t} {k} {k'} ne r =
    Stays-if u k k' (ap (λ c. trim c) (r.tcb_other u ne))
      (λ q h n. rw (r.waits q h) (remove-NotIn_other u t (k.que q) n))

pub serve_while-Stays :
    (u i : ℕ) (l : List ℕ) (k : Kernel) → NotIn u l → Stays u k (serve_while k i l)
unfolding serve_while sub_semcnt
serve_while-Stays u i [] k n = Stays-refl u k
serve_while-Stays u i (t ∷ l) k n =
    let k1 = sub_semcnt (wait_release_ok k t) i (k.tcb t).sem_cnt in
    elim (Bool-cases (ltb (k.semcb i).semcnt (k.tcb t).sem_cnt)) [
      | inl short ↦ rw short (Stays-refl u k)
      | inr enough ↦ rw enough (
          Stays-trans (Released-Stays n.0 (wait_release_ok-Released k t)) (
            Stays-trans (Stays-if u (wait_release_ok k t) k1 refl (λ q h a. a))
              (serve_while-Stays u i l k1 n.1)))
    ]

abbrev pub first_stored : Kernel → ℕ → ℕ → Kernel
first_stored k i t = record (set_mbfcb k i (with_first k i t).1) { mem = (with_first k i t).0 }

pub wakeup_loop-Stays :
    (u i : ℕ) (l : List ℕ) (k : Kernel) → NotIn u l → Stays u k (wakeup_loop k i l)
unfolding wakeup_loop
wakeup_loop-Stays u i [] k n = Stays-refl u k
wakeup_loop-Stays u i (t ∷ l) k n =
    elim (Bool-cases (mbf_free (k.obj.mbfcb i) (k.tcb t).smbf_msgsz)) [
      | inl free ↦ rw free (
          Stays-trans (Stays-if u k (first_stored k i t) refl (λ q h a. a)) (
            Stays-trans (Released-Stays n.0 (sent_first-Released k i t))
              (wakeup_loop-Stays u i l (sent_first k i t) n.1)))
      | inr full ↦ rw full (Stays-refl u k)
    ]

-- What depends on the task's being out may be shown with that.
pub Stays-Out : {u : ℕ} {k k' : Kernel} → (Out u k → Stays u k k') → Stays u k k'
Stays-Out f = record { still = λ o. (f o).still o; same = λ o. (f o).same o }

insert-NotIn :
    (pri : ℕ → ℕ) (u t : ℕ) (l : List ℕ) → t ≢ u → NotIn u l → NotIn u (insert_tpri pri t l)
unfolding insert_tpri
insert-NotIn pri u t [] ne n = (ne, tt)
insert-NotIn pri u t (x ∷ l) ne n = elim (Bool-cases (ltb (pri t) (pri x))) [
  | inl lt ↦ rw lt (ne, n)
  | inr ge ↦ rw ge (n.0, insert-NotIn pri u t l ne n.1)
]

pub requeue-Stays :
    (u : ℕ) (k : Kernel) (q : Que) (t : ℕ)
    → is_rdy q ≡ false
    → (Out u k → t ≢ u)
    → Stays u k (gcb_change_priority k q t)
unfolding gcb_change_priority queue_insert_tpri que_remove
requeue-Stays u k q t hq ne = Stays-Out (λ o.
    let n = λ (r : Que) (h : is_rdy r ≡ false). remove-NotIn_other u t (k.que r) (o.1 r h) in
    record {
      still = λ o1. (
        o.0,
        λ r h. elim (Bool-cases (que_eq q r)) [
          | inl e ↦ rw e (insert-NotIn _ u t (remove t (k.que q)) (ne o) (n q hq))
          | inr e ↦ rw e (n r h)
        ],
      );
      same = λ o1. refl;
    })

pub waiting_ne : (u : ℕ) (k : Kernel) (t : ℕ) → Out u k → is_waiting (k.tcb t).state ≡ true → t ≢ u
waiting_ne u k t o w e = let w1 = subst (λ v. is_waiting (k.tcb v).state ≡ true) e w in cc
