-- ===== src/Semaphore/Named.antt =====
-- kernel/tkernel/smp_src/semaphore.c: a semaphore that has been created under a name is found by it.
use tkernel.Base.{
  ℕ, ◌≤◌, ◌<◌, ◌≡◌, inl, inr, refl, sym, ap, ◌∙◌, true, false, Option, none, some, List, [], ◌∷◌,
  arith, ltb, if◌then◌else◌, ◌==◌, ==-refl, pos,
}
use tkernel.Str.Strings.{IsString}
use tkernel.Kernel.{Kernel, Er, done, e_ok, e_oname, ObjectType, type_sem, q_sem, set_semcb, has}
use tkernel.Kernel.Queue.{set_que}
use tkernel.Domain.{if_ok, get_objid}
use tkernel.Domain.Names.{
  chk_domid, search_hashcb, is_found, mp_existence_check_of_domain, mp_existence_check_of_oname,
  mp_register_object_in_domain, mp_search_oname,
}
use tkernel.Domain.Objects.{cre_check, ta_domid, ta_oname, has_other, chk_patr, new_id, name_object}
use tkernel.Domain.Register.{NameApart, FieldsApart, search_hashcb-name_object, search_hashcb_same}
use tkernel.Semaphore.Create.{
  Csem, valid_sematr, cre_sem_at, cre_sem_body, cre_sem_counts, tk_cre_sem, td_fnd_sem, semid_at,
}
use tkernel.Semaphore.Wake.{if_ok_cases}

-- A creation with a domain and a name of `l` bytes that the kernel accepts, with the counts
-- `isemcnt` and `maxsem`, for which the control block `i` is the first that is free.
pub record Creating (k : Kernel) (prid : ℕ) (pk : Csem) (isemcnt maxsem i : ℕ) (free : List ℕ)
    (l : ℕ) : Type 0 where
  pub attributes : has_other pk.sematr valid_sematr ≡ false
  pub one_patr : chk_patr pk.sematr ≡ true
  pub with_domid : has pk.sematr ta_domid ≡ true
  pub with_oname : has pk.sematr ta_oname ≡ true
  pub domid_ok : chk_domid k pk.domid ≡ true
  pub initial : pk.isemcnt ≡ pos isemcnt
  pub maximum : pk.maxsem ≡ pos maxsem
  pub positive : 0 < maxsem
  pub fits : isemcnt ≤ maxsem
  pub accepted : cre_check k prid type_sem pk.sematr pk.domid pk.oname ≡ e_ok
  pub next_free : k.free_semcb ≡ i ∷ free
  pub has_key : i < k.obj.hash_size type_sem
  pub name : IsString k.mem pk.oname l
  pub not_empty : (k.mem pk.oname == 0) ≡ false
  pub name_apart : NameApart (k.obj.oname_at type_sem i) pk.oname l
  pub fields_apart : FieldsApart k type_sem i

-- What the accepted checks say.
ok_first : (e : Er) (go : Er) → if_ok e (λ x. x) go ≡ e_ok → e ≡ e_ok
ok_first e go h = elim (if_ok_cases e) [
  | inl ok ↦ ok
  | inr (ne, failed) ↦ sym (failed Er (λ x. x) go) ∙ h
]

ok_rest : (e : Er) (go : Er) → e ≡ e_ok → if_ok e (λ x. x) go ≡ e_ok → go ≡ e_ok
ok_rest e go ok h = rw ok at h

absent : (r : Option ℕ) → (if is_found r then e_oname else e_ok) ≡ e_ok → r ≡ none
absent none h = refl
absent (some i) h = absurd cc

accepted_domain :
    (k : Kernel) (prid : ℕ) (pk : Csem)
    → has pk.sematr ta_domid ≡ true
    → cre_check k prid type_sem pk.sematr pk.domid pk.oname ≡ e_ok
    → mp_existence_check_of_domain k pk.domid ≡ e_ok
unfolding cre_check
accepted_domain k prid pk d a = ok_first _ _ (rw d at a)

accepted_name :
    (k : Kernel) (prid : ℕ) (pk : Csem)
    → has pk.sematr ta_domid ≡ true
    → has pk.sematr ta_oname ≡ true
    → cre_check k prid type_sem pk.sematr pk.domid pk.oname ≡ e_ok
    → search_hashcb k type_sem pk.domid pk.oname ≡ none
unfolding cre_check mp_existence_check_of_oname
accepted_name k prid pk d n a =
    absent _ (ok_first _ _ (ok_rest _ _ (accepted_domain k prid pk d a) (rw (d, n) at a)))

-- The state with the new control block, before it has its name.
abbrev prepared : Kernel → Csem → ℕ → ℕ → ℕ → List ℕ → Kernel
prepared k pk isemcnt maxsem i free =
    set_semcb (set_que (record k { free_semcb = free }) (q_sem i) []) i
      (record { semid = new_id pk.domid i; sematr = pk.sematr; semcnt = isemcnt; maxsem = maxsem })

abbrev created : Kernel → Csem → ℕ → ℕ → ℕ → List ℕ → Kernel
created k pk isemcnt maxsem i free =
    name_object (prepared k pk isemcnt maxsem i free) type_sem pk.domid i pk.oname

body_created :
    (k : Kernel) (prid : ℕ) (pk : Csem) (isemcnt maxsem i l : ℕ) (free : List ℕ)
    → Creating k prid pk isemcnt maxsem i free l
    → cre_sem_body k prid pk isemcnt maxsem
      ≡ (created k pk isemcnt maxsem i free, done (new_id pk.domid i))
unfolding cre_sem_body cre_sem_at
body_created k prid pk isemcnt maxsem i l free c =
    rw (c.accepted, c.next_free, cre_sem_body, c.with_domid, c.with_oname) refl

counts_created :
    (k : Kernel) (prid : ℕ) (pk : Csem) (isemcnt maxsem i l : ℕ) (free : List ℕ)
    → Creating k prid pk isemcnt maxsem i free l
    → tk_cre_sem k prid pk ≡ (created k pk isemcnt maxsem i free, done (new_id pk.domid i))
unfolding tk_cre_sem cre_sem_counts
counts_created k prid pk isemcnt maxsem i l free c =
    let some_max : ltb 0 maxsem ≡ true = ground (arith, c.positive) in
    let below : ltb maxsem isemcnt ≡ false = ground (arith, c.fits) in
    rw
      (
        c.attributes, c.initial, c.maximum, cre_sem_counts, some_max, below, c.one_patr,
        c.with_domid, c.domid_ok,
      )
      (body_created k prid pk isemcnt maxsem i l free c)

domain_still :
    (k : Kernel) (pk : Csem) (isemcnt maxsem i : ℕ) (free : List ℕ)
    → mp_existence_check_of_domain k pk.domid ≡ e_ok
    → mp_existence_check_of_domain (created k pk isemcnt maxsem i free) pk.domid ≡ e_ok
unfolding mp_existence_check_of_domain name_object mp_register_object_in_domain
domain_still k pk isemcnt maxsem i free h = rw (==-refl (get_objid pk.domid)) h

range_still :
    (k : Kernel) (pk : Csem) (isemcnt maxsem i : ℕ) (free : List ℕ)
    → chk_domid k pk.domid ≡ true
    → chk_domid (created k pk isemcnt maxsem i free) pk.domid ≡ true
unfolding name_object mp_register_object_in_domain
range_still k pk isemcnt maxsem i free h = h

id_still :
    (k : Kernel) (pk : Csem) (isemcnt maxsem i : ℕ) (free : List ℕ)
    → semid_at (created k pk isemcnt maxsem i free) i ≡ new_id pk.domid i
unfolding name_object mp_register_object_in_domain
id_still k pk isemcnt maxsem i free = rw (semid_at, ==-refl i) refl

found :
    (k : Kernel) (type : ObjectType) (id_at : ℕ → ℕ) (domid oname i : ℕ)
    → mp_existence_check_of_domain k domid ≡ e_ok
    → search_hashcb k type domid oname ≡ some i
    → mp_search_oname k type id_at domid oname ≡ done (id_at i)
unfolding mp_search_oname
found k type id_at domid oname i d s = rw (d, mp_search_oname, s, mp_search_oname) refl

-- Where the kernel accepts the creation of a semaphore with a domain and a name that is not empty,
-- and the name's bytes and the names of other semaphores lie apart from the field of the new
-- control block: `_tk_cre_sem` returns the ID of that control block in the domain, and `_td_fnd_sem`
-- then finds this ID by the domain and the name.
pub td_fnd_sem-tk_cre_sem :
    (k : Kernel) (prid : ℕ) (pk : Csem) (isemcnt maxsem i l : ℕ) (free : List ℕ)
    → Creating k prid pk isemcnt maxsem i free l
    → ((tk_cre_sem k prid pk).1 ≡ done (new_id pk.domid i))
      × (td_fnd_sem (tk_cre_sem k prid pk).0 pk.domid pk.oname ≡ done (new_id pk.domid i))
unfolding td_fnd_sem
td_fnd_sem-tk_cre_sem k prid pk isemcnt maxsem i l free c =
    let k2 = prepared k pk isemcnt maxsem i free in
    let k' = created k pk isemcnt maxsem i free in
    let missing : search_hashcb k2 type_sem pk.domid pk.oname ≡ none =
      search_hashcb_same k k2 type_sem pk.domid pk.oname refl refl refl
      ∙ accepted_name k prid pk c.with_domid c.with_oname c.accepted in
    let there : search_hashcb k' type_sem pk.domid pk.oname ≡ some i =
      search_hashcb-name_object k2 type_sem pk.domid i pk.oname l c.name c.name_apart c.not_empty
        c.has_key c.fields_apart missing in
    let domain =
      domain_still k pk isemcnt maxsem i free (accepted_domain k prid pk c.with_domid c.accepted) in
    let range : chk_domid k' pk.domid ≡ true = range_still k pk isemcnt maxsem i free c.domid_ok in
    rw (counts_created k prid pk isemcnt maxsem i l free c, range)
      (
        refl,
        found k' type_sem (semid_at k') pk.domid pk.oname i domain there
            ∙ ap done (id_still k pk isemcnt maxsem i free),
      )
