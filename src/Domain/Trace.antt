-- ===== src/Domain/Trace.antt =====
-- kernel/tkernel/smp_src/mp_domain.c: the walk up the domains ends.
use tkernel.Base.{
  ℕ, zero, suc, ◌<◌, ◌≡◌, ◌≢◌, ◌⊎◌, inl, inr, refl, Bool, true, false, Option, some, arith, ◌==◌,
  Bool-cases, ne_of_==,
}
use tkernel.Kernel.{Kernel, Er, e_ok, e_noexs, e_dacv}
use tkernel.Domain.{
  trace_domain, trace_domain_for_pchk, mp_get_domid_from_id, mp_kdmid_self, ta_protected,
  check_exception_condition, mp_check_domain_and_protection, protection_result, mp_get_patr,
  mp_get_calinf_tskid, mp_cmp_domidpart,
}

-- The domains are nested `depth` deep: each step up, but to the kernel domain, is nearer to it.
abbrev pub Nested : Kernel → (ℕ → ℕ) → Type 0
Nested k depth =
    (id : ℕ)
    → mp_get_domid_from_id k id ≢ mp_kdmid_self
    → depth (mp_get_domid_from_id k id) < depth id

-- In nested domains the walk of `trace_domain_for_pchk` from an ID gives an answer on any fuel
-- above the depth of the ID.
pub trace_domain_total :
    (k : Kernel) (depth : ℕ → ℕ) (fuel domid patr id : ℕ)
    → Nested k depth
    → depth id < fuel
    → (b : Bool) × (trace_domain fuel k domid patr id ≡ some b)
unfolding trace_domain
trace_domain_total k depth zero domid patr id n h = absurd (omega arith)
trace_domain_total k depth (suc f) domid patr id n h =
    let up = mp_get_domid_from_id k id in
    elim (Bool-cases (up == domid)) [
      | inl found ↦ rw found (true, refl)
      | inr other ↦ elim (Bool-cases (patr == ta_protected)) [
        | inr private ↦ rw (other, private) (false, refl)
        | inl protected ↦ elim (Bool-cases (up == mp_kdmid_self)) [
          | inl top ↦ rw (other, protected, top) (false, refl)
          | inr below ↦
              let less = n id (ne_of_== up mp_kdmid_self below) in
              rw (other, protected, below)
                (trace_domain_total k depth f domid patr up n (omega arith))
        ]
      ]
    ]

protection_result_cases :
    (refused : Er) (o : Option Bool) (b : Bool)
    → o ≡ some b
    → (protection_result refused o ≡ e_ok) ⊎ (protection_result refused o ≡ refused)
unfolding protection_result
protection_result_cases refused o true e = rw e (inl refl)
protection_result_cases refused o false e = rw e (inr refl)

-- In domains nested less than 257 deep `mp_check_domain_and_protection` always comes to a verdict,
-- which is E_OK, E_NOEXS or E_DACV.
pub mp_check_domain_and_protection_total :
    (k : Kernel) (depth : ℕ → ℕ) (prid argid objid objatr : ℕ)
    → Nested k depth
    → depth (mp_get_calinf_tskid k prid) < 257
    → (mp_check_domain_and_protection k prid argid objid objatr ≡ e_ok)
      ⊎ ((mp_check_domain_and_protection k prid argid objid objatr ≡ e_noexs)
          ⊎ (mp_check_domain_and_protection k prid argid objid objatr ≡ e_dacv))
unfolding mp_check_domain_and_protection trace_domain_for_pchk
mp_check_domain_and_protection_total k depth prid argid objid objatr n h =
    elim (Bool-cases (mp_cmp_domidpart argid objid)) [
      | inr differ ↦ rw differ (inr (inl refl))
      | inl same ↦ elim (Bool-cases (check_exception_condition k prid objatr)) [
        | inl free ↦ rw (same, free) (inl refl)
        | inr checked ↦
            let (b, e) =
              trace_domain_total k depth 257 (mp_get_domid_from_id k objid) (mp_get_patr objatr)
                (mp_get_calinf_tskid k prid) n h in
            rw (same, checked)
              (elim (protection_result_cases e_dacv _ b e) [
                | inl ok ↦ inl ok
                | inr denied ↦ inr (inr denied)
              ])
      ]
    ]
