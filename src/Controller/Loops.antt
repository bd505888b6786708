-- ===== src/Controller/Loops.antt =====
-- The restarts of a reconciler plugin by `_run_reconciler` of src/controller.py.
use native.Mathlib.Nat.{pow-le-pow_right, mul-le-mul_left}
use no8s_operator.Base.{
  ℕ, zero, suc, ◌-◌, ◌*◌, ◌^◌, ◌≤◌, min, ◌≡◌, refl, ap, Bool, true, false, List, [], ◌∷◌, length,
  if◌then◌else◌, arith,
}
use no8s_operator.Controller.{ControllerConfig}

-- Seconds before the restart with this number.
unfoldable pub restart_delay : ControllerConfig → ℕ → ℕ
restart_delay c restart_count =
    min (c.reconciler_restart_base_delay * 2 ^ (restart_count - 1)) c.reconciler_restart_max_delay

-- One pass of the `while`: the shutdown is signalled before it, `start` returns, or it raises, with
-- the shutdown signalled by then or while the controller waits.
pub data Pass : Type 0 where
  shut_down returned : Pass
  crashed : (already while_waiting : Bool) → Pass

-- The delays waited for or broken off, and whether the method has returned.
unfoldable pub run_reconciler : ControllerConfig → ℕ → List Pass → List ℕ × Bool
unfolding restart_delay
run_reconciler c restart_count [] = ([], false)
run_reconciler c restart_count (shut_down ∷ ps) = ([], true)
run_reconciler c restart_count (returned ∷ ps) = ([], true)
run_reconciler c restart_count (crashed already while_waiting ∷ ps) =
    let delay = restart_delay c (suc restart_count) in
    let (delays, ended) = run_reconciler c (suc restart_count) ps in
    if already
    then ([], true)
    else if while_waiting
    then (delay ∷ [], true)
    else (delay ∷ delays, ended)

-- The delays from the restart with a number on.
abbrev pub delays_from : ControllerConfig → ℕ → ℕ → List ℕ
delays_from c n zero = []
delays_from c n (suc k) = restart_delay c n ∷ delays_from c (suc n) k

restarts :
    (c : ControllerConfig) (n : ℕ) (ps : List Pass)
    → let (delays, ended) = run_reconciler c n ps in delays ≡ delays_from c (suc n) (length delays)
unfolding run_reconciler
restarts c n [] = refl
restarts c n (shut_down ∷ ps) = refl
restarts c n (returned ∷ ps) = refl
restarts c n (crashed true b ∷ ps) = refl
restarts c n (crashed false true ∷ ps) = refl
restarts c n (crashed false false ∷ ps) =
    ap (λ ds. restart_delay c (suc n) ∷ ds) (restarts c (suc n) ps)

-- The controller waits before the restart with the number `n + 1` for the base delay doubled `n`
-- times, or the maximum if that is less, for as many restarts as there are; no wait is longer than
-- the maximum, and none is shorter than the one before it.
pub restart_schedule :
    (c : ControllerConfig) (ps : List Pass) (n : ℕ)
    → let (delays, ended) = run_reconciler c 0 ps in
      (delays ≡ delays_from c 1 (length delays))
      × (restart_delay c (suc n)
          ≡ min (c.reconciler_restart_base_delay * 2 ^ n) c.reconciler_restart_max_delay)
      × (restart_delay c (suc n) ≤ c.reconciler_restart_max_delay)
      × (restart_delay c (suc n) ≤ restart_delay c (suc (suc n)))
unfolding restart_delay
restart_schedule c ps n = (
  restarts c 0 ps,
  ap (λ m. min (c.reconciler_restart_base_delay * 2 ^ m) c.reconciler_restart_max_delay) (pred n),
  omega arith,
  omega (
    arith,
    mul-le-mul_left c.reconciler_restart_base_delay
        (pow-le-pow_right {n = 2} (omega arith) (steps n)),
  ),
)
  where
    steps : (k : ℕ) → suc k - 1 ≤ suc (suc k) - 1
    steps k = omega arith

    pred : (k : ℕ) → suc k - 1 ≡ k
    pred k = omega arith
