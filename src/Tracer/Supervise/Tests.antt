-- ===== src/Tracer/Supervise/Tests.antt =====
-- A run of the supervisor: silence, a failed start, output, and a cancellation in the wait.
use cloud_vinyl.Prelude.{ℕ, ◌≡◌, refl, Bool, true, false, List, [], ◌∷◌, arith, codes, text_dec}
use cloud_vinyl.Tracer.Supervise.{Attempt, Supervisor, new_supervisor, run, varnishlog_args}
use cloud_vinyl.Tracer.Supervise.Laws.{IsSupervised, made, run-IsSupervised_new}

abbrev turn : Bool → List ℕ → Bool → Attempt ℕ
turn started groups elapsed = record {
  live = true;
  started = started;
  groups = groups;
  elapsed = elapsed;
}

abbrev turns : List (Attempt ℕ)
turns =
    turn true [] true
    ∷ turn false [] true
    ∷ turn true [] true
    ∷ turn true (1 ∷ 2 ∷ []) true
    ∷ turn true (3 ∷ []) false
    ∷ turn true (4 ∷ []) true
    ∷ []

abbrev supervised : Supervisor ℕ
supervised = run 12000000000 turns (new_supervisor 12000000000)

waits_capped :
    supervised.waits ≡ 12000000000 ∷ 24000000000 ∷ 30000000000 ∷ 12000000000 ∷ 12000000000 ∷ []
unfolding run new_supervisor
waits_capped = refl

all_handled : supervised.handled ≡ 1 ∷ 2 ∷ 3 ∷ []
unfolding run new_supervisor
all_handled = refl

one_error : supervised.spawn_errors ≡ 1
unfolding run new_supervisor
one_error = refl

no_workdir : varnishlog_args [] ≡ codes "-g" ∷ codes "request" ∷ codes "-t" ∷ codes "off" ∷ []
unfolding varnishlog_args text_dec
no_workdir = refl

run-IsSupervised_new_example :
    IsSupervised 12000000000 0
      (made turns)
      (new_supervisor 12000000000)
      (run 12000000000 turns (new_supervisor 12000000000))
run-IsSupervised_new_example = run-IsSupervised_new 12000000000 (omega arith) turns
