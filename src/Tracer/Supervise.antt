-- ===== src/Tracer/Supervise.antt =====
-- cmd/tracer/supervise.go: the supervision of the varnishlog subprocess. Each turn of the loop is
-- an `Attempt`, what the system answers in it; durations are nanoseconds in 64 bits, of which the
-- upper half are the negative ones.
pub mod Laws
pub mod Tests
use cloud_vinyl.Prelude.{
  pos, negsuc, ℕ, zero, suc, ◌+◌, ◌-◌, ◌*◌, ◌/◌, ◌%◌, ◌^◌, ◌≤◌, ◌<◌, ◌≡◌, refl, sym, ap, ◌∙◌, ◌≢◌,
  ◌↔◌, ◌⊎◌, inl, inr, ite, if_pos, if_neg, Bool, true, false, not, ◌&&◌, ◌||◌, Option, none, some,
  List, [], ◌∷◌, ◌++◌, map, append-nil, append_assoc, map-append, arith, ℕ_discrete, ltb, leb, ◌==◌,
  if◌then◌else◌, ltb→lt, leb→le, le→leb, Bool-cases, is_some, Option-cases, ◌>>=◌, bind_some,
  if_both, length, length-append, keep, length-keep-le, count, count-append, keep-append,
  keep-length_split, All, All-append, elem, Distinct, elem-append, Distinct-snoc, Text, codes,
  text_dec, text_eq, text_eq_refl, text_eq→≡, has_prefix, contains, is_space, is_regexp_space,
  fields_by, fields, trim_left, trim_right, trim_space, is_digit, u64_mod, digits_value, parse_uint,
  ℤ, i64_max, positive_int, atoi, IsToken, fields_by-token, lookup, delete, insert, lookup-delete,
  lookup-insert, lookup-insert_self, lookup-insert_ne, next_digits, digits, printed, decimal,
  IsDigits, decimal-IsDigits, decimal-ne-nil, parse_uint-decimal, atoi-decimal,
}

-- The context is live when the turn starts, varnishlog starts, the groups that the parser reads of
-- its output, and whether the wait ends before the context does.
pub record Attempt (A : Type 0) : Type 0 where
  pub live : Bool
  pub started : Bool
  pub groups : List A
  pub elapsed : Bool

pub record Supervisor (A : Type 0) : Type 0 where
  pub backoff : ℕ
  pub restarts : ℕ
  pub handled : List A
  pub spawn_errors : ℕ
  -- The durations given to `time.After`, in order.
  pub waits : List ℕ

unfoldable pub new_supervisor : {A : Type 0} → ℕ → Supervisor A
new_supervisor initial = record {
  backoff = initial;
  restarts = 0;
  handled = [];
  spawn_errors = 0;
  waits = [];
}

-- 30 seconds.
abbrev pub max_backoff : ℕ
max_backoff = 30000000000

abbrev pub duration_mod : ℕ
duration_mod = 18446744073709551616

abbrev pub duration_max : ℕ
duration_max = 9223372036854775807

unfoldable pub next_backoff : ℕ → ℕ
next_backoff backoff =
    let doubled = (backoff * 2) % duration_mod in
    if ltb max_backoff doubled && leb doubled duration_max then max_backoff else doubled

-- Each group resets the backoff and is handled.
unfoldable pub handle_groups : {A : Type 0} → ℕ → List A → Supervisor A → Supervisor A
handle_groups initial [] s = s
handle_groups initial (tx ∷ txs) s =
    handle_groups initial txs (record s { backoff = initial; handled = s.handled ++ (tx ∷ []) })

-- A varnishlog that started is read until its output ends.
unfoldable pub read_output : {A : Type 0} → ℕ → Bool → List A → Supervisor A → Supervisor A
unfolding handle_groups
read_output initial true groups s = handle_groups initial groups s
read_output initial false groups s = record s { spawn_errors = suc s.spawn_errors }

-- A turn, up to its wait.
unfoldable pub attempt : {A : Type 0} → ℕ → Attempt A → Supervisor A → Supervisor A
unfolding read_output
attempt initial a s =
    let ended = read_output initial a.started a.groups (record s { restarts = suc s.restarts }) in
    record ended { waits = ended.waits ++ (ended.backoff ∷ []) }

unfoldable pub run : {A : Type 0} → ℕ → List (Attempt A) → Supervisor A → Supervisor A
unfolding attempt next_backoff
run initial [] s = s
run initial (a ∷ later) s =
    let waited = attempt initial a s in
    let rest = run initial later (record waited { backoff = next_backoff waited.backoff }) in
    if a.live then (if a.elapsed then rest else waited) else s

-- `workdir`, when there is one, is varnishd's instance directory.
unfoldable pub varnishlog_args : Text → List Text
varnishlog_args workdir =
    (codes "-g" ∷ codes "request" ∷ codes "-t" ∷ codes "off" ∷ [])
    ++ (if text_eq workdir [] then [] else codes "-n" ∷ workdir ∷ [])
