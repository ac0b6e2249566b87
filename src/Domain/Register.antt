-- ===== src/Domain/Register.antt =====
-- kernel/tkernel/smp_src/mp_domain.c: an object that has been registered under a name is found by it.
use tkernel.Base.{
  ℕ, zero, suc, ◌+◌, ◌-◌, ◌≤◌, ◌<◌, ◌≡◌, ◌≢◌, ◌⊎◌, inl, inr, refl, sym, ap, ◌∙◌, true, false, none,
  some, arith, ltb, if◌then◌else◌, Bool-cases, ◌==◌, eq_of_==, ne_of_==, ==-refl, ==-ne, pos,
}
use tkernel.Str.{Mem, strncmp, strncpy}
use tkernel.Str.Fill.{inside}
use tkernel.Str.Strings.{IsString, IsString-same, strncpy_lem}
use tkernel.Kernel.{Kernel, ObjectType, Objects}
use tkernel.Domain.{type_no}
use tkernel.Domain.Names.{
  object_name_length, make_hash_key, calc_hash, is_zero, same_name, find_key, search_hashcb,
  mp_register_object_in_domain,
}
use tkernel.Domain.Objects.{name_object}
use tkernel.Domain.Search.{len_lem}
use tkernel.Domain.Compare.{Agree, strncmp_same, hash_from_same, strncmp_padded}

-- The search in a table in which one entry is new.
find_key_new :
    (n : ℕ) (k k' : Kernel) (type : ObjectType) (key oname i j : ℕ)
    → ((x : ℕ) → i ≢ x → k'.hash_key type x ≡ k.hash_key type x)
    → ((x : ℕ)
        → i ≢ x
        → same_name k'.mem (k'.obj.oname_at type x) oname
          ≡ same_name k.mem (k.obj.oname_at type x) oname)
    → k'.hash_key type i ≡ key
    → same_name k'.mem (k'.obj.oname_at type i) oname ≡ true
    → find_key n k type key oname j ≡ none
    → j ≤ i
    → i < j + n
    → find_key n k' type key oname j ≡ some i
unfolding find_key
find_key_new zero k k' type key oname i j ks ns kn nn e le lt = absurd (omega arith)
find_key_new (suc n) k k' type key oname i j ks ns kn nn e le lt = elim (Bool-cases (i == j)) [
  | inl here ↦ rw (← eq_of_== i j here, kn, ==-refl key, nn) refl
  | inr ne ↦
      let ne' = ne_of_== i j ne in
      let lt' : j < i = ground (arith, ne') in
      let found = λ (r : find_key n k type key oname (j + 1) ≡ none).
        find_key_new n k k' type key oname i (j + 1) ks ns kn nn r (omega arith) (omega arith) in
      elim (Bool-cases (k.hash_key type j == key)) [
        | inr q ↦ rw (ks j ne', q) (found (rw q at e))
        | inl q ↦ elim (Bool-cases (same_name k.mem (k.obj.oname_at type j) oname)) [
          | inl s ↦ let clash : some j ≡ none = rw (q, s) at e in absurd cc
          | inr s ↦ rw (ks j ne', q, ns j ne', s) (found (rw (q, s) at e))
        ]
      ]
]

-- The search reads the names and the keys only.
find_key_same :
    (n : ℕ) (k k' : Kernel) (type : ObjectType) (key oname i : ℕ)
    → k'.mem ≡ k.mem
    → k'.obj ≡ k.obj
    → k'.hash_key ≡ k.hash_key
    → find_key n k' type key oname i ≡ find_key n k type key oname i
unfolding find_key
find_key_same zero k k' type key oname i m o h = refl
find_key_same (suc n) k k' type key oname i m o h =
    rw (find_key_same n k k' type key oname (i + 1) m o h, m, o, h) refl

pub search_hashcb_same :
    (k k' : Kernel) (type : ObjectType) (domid oname : ℕ)
    → k'.mem ≡ k.mem
    → k'.obj ≡ k.obj
    → k'.hash_key ≡ k.hash_key
    → search_hashcb k' type domid oname ≡ search_hashcb k type domid oname
unfolding search_hashcb
search_hashcb_same k k' type domid oname m o h =
    ap
      (λ (c : ℕ × ℕ).
        if c.0 == 0
        then none
        else find_key (k'.obj.hash_size type) k' type (make_hash_key domid c.1) oname 0)
      (ap (λ x. calc_hash x oname) m)
    ∙ ap
        (λ (x : Objects).
          if (calc_hash k.mem oname).0 == 0
          then none
          else find_key (x.hash_size type) k' type (make_hash_key domid (calc_hash k.mem oname).1)
              oname 0)
        o
    ∙ ap (λ r. if (calc_hash k.mem oname).0 == 0 then none else r)
        (find_key_same (k.obj.hash_size type) k k' type
          (make_hash_key domid (calc_hash k.mem oname).1) oname 0 m o h)

search_at :
    (k : Kernel) (type : ObjectType) (domid oname : ℕ)
    → ((calc_hash k.mem oname).0 == 0) ≡ false
    → search_hashcb k type domid oname
      ≡ find_key
          (k.obj.hash_size type)
          k
          type
          (make_hash_key domid (calc_hash k.mem oname).1)
          oname
          0
unfolding search_hashcb
search_at k type domid oname len = rw len refl

-- The name at `oname`, of `l` bytes, lies apart from the field of the control block at `at`.
abbrev pub NameApart : ℕ → ℕ → ℕ → Type 0
NameApart at oname l = (at + object_name_length ≤ oname) ⊎ (oname + (l + object_name_length) ≤ at)

-- No two control blocks of the type share the field.
abbrev pub FieldsApart : Kernel → ObjectType → ℕ → Type 0
FieldsApart k type i =
    (x : ℕ)
    → i ≢ x
    → (k.obj.oname_at type x + object_name_length ≤ k.obj.oname_at type i)
      ⊎ (k.obj.oname_at type i + object_name_length ≤ k.obj.oname_at type x)

module _ (k : Kernel) (type : ObjectType) (domid i oname l : ℕ) (h : IsString k.mem oname l)
    (far : NameApart (k.obj.oname_at type i) oname l) where
  abbrev named : Kernel
  named = name_object k type domid i oname

  abbrev named_mem : Mem
  named_mem = strncpy k.mem (k.obj.oname_at type i) oname object_name_length

  padded :
      (a : ℕ)
      → named_mem a ≡ (
          if inside (k.obj.oname_at type i) object_name_length a
          then (if ltb (a - k.obj.oname_at type i) l
              then k.mem (oname + (a - k.obj.oname_at type i))
              else 0)
          else k.mem a)
  padded = strncpy_lem l object_name_length k.mem (k.obj.oname_at type i) oname h (ground arith)

  mem_eq : named.mem ≡ named_mem
  unfolding name_object mp_register_object_in_domain
  mem_eq = refl

  same_oname : Agree k.mem named_mem oname (l + object_name_length)
  same_oname j lt = ground (arith, padded (oname + j))

  same_field :
      (x : ℕ)
      → (k.obj.oname_at type x + object_name_length ≤ k.obj.oname_at type i)
        ⊎ (k.obj.oname_at type i + object_name_length ≤ k.obj.oname_at type x)
      → Agree k.mem named_mem (k.obj.oname_at type x) object_name_length
  same_field x apart j lt = ground (arith, padded (k.obj.oname_at type x + j))

  new_field : strncmp named_mem (k.obj.oname_at type i) oname object_name_length ≡ pos 0
  new_field =
      strncmp_padded object_name_length l named_mem (k.obj.oname_at type i) oname
        (IsString-same h (λ j lt. same_oname j (omega arith)))
        (λ j lt. ground (arith, padded (k.obj.oname_at type i + j), same_oname j))

  same_hash : calc_hash named_mem oname ≡ calc_hash k.mem oname
  same_hash =
      hash_from_same object_name_length k.mem named_mem oname 0 0
        (λ j lt. same_oname j (omega arith))

  new_key :
      ((calc_hash k.mem oname).0 == 0) ≡ false
      → named.hash_key type i ≡ make_hash_key domid (calc_hash k.mem oname).1
  unfolding name_object mp_register_object_in_domain
  new_key len = rw (==-refl (type_no type), ==-refl i, same_hash, len) refl

  other_key : (x : ℕ) → i ≢ x → named.hash_key type x ≡ k.hash_key type x
  unfolding name_object mp_register_object_in_domain
  other_key x ne = rw (==-refl (type_no type), ==-ne i x ne) refl

  other_name :
      (x : ℕ)
      → (k.obj.oname_at type x + object_name_length ≤ k.obj.oname_at type i)
        ⊎ (k.obj.oname_at type i + object_name_length ≤ k.obj.oname_at type x)
      → same_name named.mem (named.obj.oname_at type x) oname
        ≡ same_name k.mem (k.obj.oname_at type x) oname
  unfolding name_object mp_register_object_in_domain
  other_name x apart = ap is_zero (
      strncmp_same object_name_length k.mem named_mem (k.obj.oname_at type x) oname
        (same_field x apart) (λ j lt. same_oname j (omega arith)))

  new_name : same_name named.mem (named.obj.oname_at type i) oname ≡ true
  unfolding name_object mp_register_object_in_domain
  new_name = ap is_zero new_field

  new_size : named.obj ≡ k.obj
  unfolding name_object mp_register_object_in_domain
  new_size = refl

  -- The name is found, if it was not there before.
  pub search_hashcb-name_object :
      ((k.mem oname == 0) ≡ false)
      → i < k.obj.hash_size type
      → FieldsApart k type i
      → search_hashcb k type domid oname ≡ none
      → search_hashcb named type domid oname ≡ some i
  search_hashcb-name_object first lt fields absent =
      let len : ((calc_hash k.mem oname).0 == 0) ≡ false = len_lem k.mem oname ∙ first in
      let hash : calc_hash named.mem oname ≡ calc_hash k.mem oname =
        ap (λ m. calc_hash m oname) mem_eq ∙ same_hash in
      search_at named type domid oname (ap (λ (c : ℕ × ℕ). c.0 == 0) hash ∙ len)
      ∙ ap
          (λ (o : Objects).
            find_key (o.hash_size type) named type
              (make_hash_key domid (calc_hash named.mem oname).1) oname 0)
          new_size
      ∙ ap
          (λ (c : ℕ × ℕ).
            find_key (k.obj.hash_size type) named type (make_hash_key domid c.1) oname 0)
          hash
      ∙ find_key_new (k.obj.hash_size type) k named type
          (make_hash_key domid (calc_hash k.mem oname).1) oname i 0 other_key
          (λ x ne. other_name x (fields x ne)) (new_key len) new_name
          (sym (search_at k type domid oname len) ∙ absent) (omega arith) (omega arith)
