-- ===== src/Domain/Search.antt =====
-- kernel/tkernel/smp_src/mp_domain.c, `search_hashcb`: the hash keys only make the search quicker.
use tkernel.Base.{
  ℕ, zero, suc, ◌+◌, ◌*◌, ◌%◌, ◌^◌, ◌≤◌, ◌≡◌, inl, inr, refl, subst, ◌∙◌, Bool, true, false, ◌&&◌,
  Option, none, some, arith, if◌then◌else◌, Bool-cases, ◌==◌, eq_of_==, ne_of_==, sub_ℕ,
}
use tkernel.Str.{Mem, strncmp}
use tkernel.Kernel.{Kernel, ObjectType}
use tkernel.Domain.Names.{
  object_name_length, mp_gen_domidpart, make_hash_key, hash_from, calc_hash, is_zero, same_name,
  find_key, search_hashcb, name_key,
}

sub_zero : (a b : ℕ) → is_zero (sub_ℕ a b) ≡ true → a ≡ b
sub_zero a b h = ground arith

-- Names that compare as equal have the same hash.
hash_same :
    (n : ℕ) (m : Mem) (a b i h : ℕ)
    → is_zero (strncmp m a b n) ≡ true
    → hash_from n m a i h ≡ hash_from n m b i h
unfolding hash_from strncmp
hash_same zero m a b i h e = refl
hash_same (suc n) m a b i h e = elim (Bool-cases (m a == 0)) [
  | inl z ↦
      let q : m a ≡ m b = sub_zero (m a) (m b) (rw z at e) in
      rw (z, subst (λ x. (x == 0) ≡ true) q z) refl
  | inr nz ↦ elim (Bool-cases (m a == m b)) [
    | inl q ↦
        rw (nz, subst (λ x. (x == 0) ≡ false) (eq_of_== _ _ q) nz, eq_of_== _ _ q)
          (hash_same n m (a + 1) (b + 1) (i + 1) _ (rw (nz, q) at e))
    | inr ne ↦ absurd (ne_of_== _ _ ne (sub_zero (m a) (m b) (rw (nz, ne) at e)))
  ]
]

-- Whether an object of the domain `dom`, or none, is one of the domain `domid`.
abbrev pub in_domain : Option ℕ → ℕ → Bool
in_domain none domid = false
in_domain (some dom) domid = mp_gen_domidpart dom == mp_gen_domidpart domid

-- The search without keys: the first of `n` objects from index `i` on that is in the domain and has
-- the name.
unfoldable pub find_name : ℕ → Kernel → ObjectType → (ℕ → Option ℕ) → ℕ → ℕ → ℕ → Option ℕ
find_name zero k type dom domid oname i = none
find_name (suc n) k type dom domid oname i =
    let rest = find_name n k type dom domid oname (i + 1) in
    if in_domain (dom i) domid && same_name k.mem (k.obj.oname_at type i) oname
    then some i
    else rest

-- The keys are those of the objects, of which `dom` has the domains.
abbrev pub key_of : Kernel → Option ℕ → ℕ → ℕ
key_of k none oname = 0
key_of k (some d) oname = name_key k d oname

abbrev pub Keyed : Kernel → ObjectType → (ℕ → Option ℕ) → Type 0
Keyed k type dom = (i : ℕ) → k.hash_key type i ≡ key_of k (dom i) (k.obj.oname_at type i)

keys_differ : (b c h : ℕ) → (2 ^ 31 + b + h == 2 ^ 31 + c + h) ≡ (b == c)
keys_differ b c h = ground arith

both_true : (b : Bool) (x y : Option ℕ) → (if b then x else y) ≡ (if b && true then x else y)
both_true true x y = refl
both_true false x y = refl

both_false : (b c : Bool) (x y : Option ℕ) → (if b then y else y) ≡ (if c && false then x else y)
both_false true true x y = refl
both_false true false x y = refl
both_false false true x y = refl
both_false false false x y = refl

key_match :
    (k : Kernel) (d : Option ℕ) (domid at oname : ℕ)
    → same_name k.mem at oname ≡ true
    → ((calc_hash k.mem oname).0 == 0) ≡ false
    → (key_of k d at == make_hash_key domid (calc_hash k.mem oname).1) ≡ in_domain d domid
key_match k none domid at oname e len = ground arith
key_match k (some d) domid at oname e len =
    rw (hash_same object_name_length k.mem at oname 0 0 e, len)
      (keys_differ (mp_gen_domidpart d) (mp_gen_domidpart domid) (calc_hash k.mem oname).1)

find_key-find_name :
    (n : ℕ) (k : Kernel) (type : ObjectType) (dom : ℕ → Option ℕ) (domid oname i : ℕ)
    → Keyed k type dom
    → ((calc_hash k.mem oname).0 == 0) ≡ false
    → find_key n k type (make_hash_key domid (calc_hash k.mem oname).1) oname i
      ≡ find_name n k type dom domid oname i
unfolding find_key find_name
find_key-find_name zero k type dom domid oname i h len = refl
find_key-find_name (suc n) k type dom domid oname i h len =
    elim (Bool-cases (same_name k.mem (k.obj.oname_at type i) oname)) [
      | inl e ↦
          rw
            (
              e,
              h i,
              key_match k (dom i) domid _ oname e len,
              find_key-find_name n k type dom domid oname (i + 1) h len,
            )
            (both_true (in_domain (dom i) domid) (some i)
              (find_name n k type dom domid oname (i + 1)))
      | inr e ↦
          rw (e, find_key-find_name n k type dom domid oname (i + 1) h len)
            (both_false (k.hash_key type i == make_hash_key domid (calc_hash k.mem oname).1)
              (in_domain (dom i) domid) (some i) (find_name n k type dom domid oname (i + 1)))
    ]

hash_len : (n : ℕ) (m : Mem) (a i h : ℕ) → i ≤ (hash_from n m a i h).0
unfolding hash_from
hash_len zero m a i h = omega arith
hash_len (suc n) m a i h = ground (arith, hash_len n m (a + 1) (i + 1) ((h * 17 + m a) % 2 ^ 16))

pub len_lem : (m : Mem) (a : ℕ) → ((calc_hash m a).0 == 0) ≡ (m a == 0)
unfolding hash_from
len_lem m a = ground (arith, hash_len 7 m (a + 1) 1 ((0 * 17 + m a) % 2 ^ 16))

-- Where the key of each object of a type is that of its domain and its name, or 0 for an index
-- without an object: the search by hash keys finds the same object as the search by
-- domain and name without them, the first in the table, and none for the empty name.
pub search_hashcb-find_name :
    (k : Kernel) (type : ObjectType) (dom : ℕ → Option ℕ) (domid oname : ℕ)
    → Keyed k type dom
    → search_hashcb k type domid oname ≡ (
        if k.mem oname == 0
        then none
        else find_name (k.obj.hash_size type) k type dom domid oname 0)
unfolding search_hashcb
search_hashcb-find_name k type dom domid oname h = elim (Bool-cases (k.mem oname == 0)) [
  | inl z ↦ rw (len_lem k.mem oname, z) refl
  | inr nz ↦
      rw (len_lem k.mem oname, nz)
        (find_key-find_name (k.obj.hash_size type) k type dom domid oname 0 h
          (len_lem k.mem oname ∙ nz))
]
