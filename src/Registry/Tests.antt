-- ===== src/Registry/Tests.antt =====
-- Calls on a registry with two orders.
use meva_beta_alpha_codex.Base.{◌≡◌, refl, List, [], ◌∷◌, false, arith}
use meva_beta_alpha_codex.Registry.{empty_registry, mark_unknown, mark_resolved, frozen_seconds}
use meva_beta_alpha_codex.Registry.Freeze.{
  Call, unknown, resolved, sync, run_call, run_calls, IsConsistent, IsFrozenBy,
  run_calls-IsConsistent, run_calls-IsFrozenBy,
}

abbrev calls : List Call
calls = unknown 7 1 0 500 ∷ unknown 8 1 0 700 ∷ resolved 7 ∷ []

abbrev more_calls : List Call
more_calls = unknown 9 1 0 900 ∷ resolved 9 ∷ sync [] false 950 ∷ []

-- The freeze of the two orders began with the first one, and stays when that one is resolved.
half_resolved : frozen_seconds 1500 (run_calls calls empty_registry) ≡ 1000
unfolding run_calls run_call mark_unknown mark_resolved
half_resolved = refl

run_calls-IsConsistent_example : IsConsistent (run_calls calls empty_registry)
run_calls-IsConsistent_example = run_calls-IsConsistent calls

frozen_by : IsFrozenBy 8 500 (run_calls calls empty_registry)
unfolding run_calls run_call mark_unknown mark_resolved
frozen_by = record { recorded = refl; started = refl }

run_calls-IsFrozenBy_example :
    IsFrozenBy 8 500 (run_calls more_calls (run_calls calls empty_registry))
run_calls-IsFrozenBy_example =
    run_calls-IsFrozenBy 8 500 more_calls (run_calls calls empty_registry)
      (tt, ((λ e. ground arith), (refl, tt))) frozen_by
