-- ===== src/Handler/Processors.antt =====
-- kernel/tkernel/smp_src/time_calls.c: the processor that an assignment names.
use tkernel.Base.{ℕ, ◌^◌, ◌<◌, ◌≡◌, refl, true, ◌==◌, eq_of_==, all_below, all_below_sound}
use tkernel.Handler.{entry, prid_loop, assprc_to_prid}

single_bits : all_below 32 (λ p. assprc_to_prid (2 ^ p) == p) ≡ true
unfolding all_below assprc_to_prid prid_loop entry
single_bits = refl

-- The processor of an assignment to processor `p` alone is `p`.
pub assprc_to_prid-single : (p : ℕ) → p < 32 → assprc_to_prid (2 ^ p) ≡ p
assprc_to_prid-single p l =
    eq_of_== _ p (all_below_sound 32 (λ q. assprc_to_prid (2 ^ q) == q) p single_bits l)
