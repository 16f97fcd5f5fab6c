-- ===== src/Proxy/Throttle.antt =====
-- internal/proxy/server.go, `throttle`: one log line per interval. Times are nanoseconds since
-- the zero `time.Time`, which is 0.
use cloud_vinyl.Prelude.{
  ℕ, ◌+◌, ◌≤◌, ◌≡◌, Bool, true, false, List, [], ◌∷◌, arith, ltb, if◌then◌else◌, length,
}

-- One minute.
abbrev pub unknown_host_log_interval : ℕ
unknown_host_log_interval = 60000000000

pub record Throttle : Type 0 where
  pub logged_at : ℕ
  pub suppressed : ℕ

abbrev pub new_throttle : Throttle
new_throttle = record { logged_at = 0; suppressed = 0 }

-- The new state, whether to log, and the number of calls suppressed since the last line.
unfoldable pub allow : Throttle → ℕ → Throttle × Bool × ℕ
allow t now =
    if ltb now (t.logged_at + unknown_host_log_interval)
    then (record t { suppressed = t.suppressed + 1 }, false, 0)
    else (record { logged_at = now; suppressed = 0 }, true, t.suppressed)

-- A run of calls at the given times: the times of the lines, and the calls they report.
pub record Log : Type 0 where
  pub throttle : Throttle
  pub lines : List ℕ
  pub reported : ℕ

unfoldable pub run : Throttle → List ℕ → Log
unfolding allow
run t [] = record { throttle = t; lines = []; reported = 0 }
run t (now ∷ times) =
    let (t', logged, n) = allow t now in
    let rest = run t' times in
    record {
      throttle = rest.throttle;
      lines = (if logged then now ∷ rest.lines else rest.lines);
      reported = n + rest.reported;
    }

-- Every call is a line, is reported as suppressed by a later line, or is waiting to be reported.
run-accounts :
    (t : Throttle) (times : List ℕ)
    → let r = run t times in
      length r.lines + r.reported + r.throttle.suppressed ≡ t.suppressed + length times
unfolding run
run-accounts t [] = omega arith
run-accounts t (now ∷ times) = ground (arith, run-accounts (allow t now).0 times)

-- Each line is a full interval behind the one before it, the first behind `from`.
abbrev pub IsSpaced : ℕ → List ℕ → Type 0
IsSpaced from [] = Unit
IsSpaced from (x ∷ xs) = (from + unknown_host_log_interval ≤ x) × IsSpaced x xs

-- However many calls there are, the lines are at least one interval apart.
run-IsSpaced : (t : Throttle) (times : List ℕ) → IsSpaced t.logged_at (run t times).lines
unfolding run
run-IsSpaced t [] = tt
run-IsSpaced t (now ∷ times) = ground (arith, run-IsSpaced (allow t now).0 times)
