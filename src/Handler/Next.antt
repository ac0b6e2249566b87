-- ===== src/Handler/Next.antt =====
-- kernel/tkernel/smp_src/time_calls.c: the next start of a cyclic handler.
use tkernel.Base.{
  ℕ, ◌+◌, ◌-◌, ◌*◌, ◌/◌, ◌≤◌, ◌<◌, ◌≡◌, refl, arith, ltb, leb, leb→le, Bool-cases, inl, inr, ltb→lt,
  ltb→ge,
}
use native.Mathlib.Nat.{mod-lt, div-add-mod', add-mul, mul-le-mul_right, one-mul}
use tkernel.Handler.{cyc_next_time}

-- `next` is the first start after `now`, where there are starts at one period of `cyctim` after
-- `time`, at two periods, and so on.
pub record Next (time cyctim now next : ℕ) : Type 0 where
  pub periods : ℕ
  pub some_period : 1 ≤ periods
  pub on_time : next ≡ time + periods * cyctim
  pub after : now < next
  pub first : (m : ℕ) → 1 ≤ m → now < time + m * cyctim → next ≤ time + m * cyctim

-- `cyc_next_time` gives the first start after the current time, however many periods have passed
-- since the last one, provided that the period is above 0.
pub cyc_next_time-Next :
    (time cyctim now : ℕ) → 0 < cyctim → Next time cyctim now (cyc_next_time time cyctim now)
unfolding cyc_next_time
cyc_next_time-Next t c now h =
    let q = (now - t) / c in
    let whole = div-add-mod' (now - t) c in
    let part = mod-lt (now - t) h in
    let one = one-mul c in
    let next = add-mul q 1 c in
    elim (Bool-cases (leb (t + c) now)) [
      | inl e ↦
          let past = leb→le (t + c) now e in
          rw e (record {
            periods = q + 1;
            some_period = omega arith;
            on_time = refl;
            after = omega arith;
            first = λ m pos after. elim (Bool-cases (ltb q m)) [
              | inl more ↦
                  let lt = ltb→lt q m more in
                  let le = mul-le-mul_right {m = q + 1} {n = m} c (omega arith) in omega arith
              | inr less ↦
                  let le = mul-le-mul_right {m = m} {n = q} c (ltb→ge q m less) in
                  absurd (omega arith)
            ];
          })
      | inr e ↦ rw e (record {
        periods = 1;
        some_period = omega arith;
        on_time = rw one refl;
        after = ground arith;
        first = λ m pos after. let le = mul-le-mul_right {m = 1} {n = m} c pos in omega arith;
      })
    ]
