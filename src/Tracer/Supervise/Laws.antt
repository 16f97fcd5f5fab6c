-- ===== src/Tracer/Supervise/Laws.antt =====
-- The pace at which varnishlog is started again, and what becomes of its output.
use cloud_vinyl.Prelude.{
  ℕ, zero, suc, ◌+◌, ◌*◌, ◌≤◌, ◌≡◌, refl, sym, ap, ◌∙◌, Bool, true, false, List, [], ◌∷◌, ◌++◌,
  append-nil, append_assoc, arith, ltb, if◌then◌else◌, length,
}
use cloud_vinyl.Tracer.Supervise.{
  new_supervisor, read_output, Attempt, Supervisor, max_backoff, next_backoff, handle_groups,
  attempt, run,
}

-- The attempts that are made: up to the first wait that the context ends, or the first turn that
-- finds it ended.
abbrev pub made : {A : Type 0} → List (Attempt A) → List (Attempt A)
made [] = []
made (a ∷ rest) = if a.live then a ∷ (if a.elapsed then made rest else []) else []

-- What an attempt reads.
abbrev read_by : {A : Type 0} → Bool → List A → List A
read_by true groups = groups
read_by false groups = []

abbrev output : {A : Type 0} → Attempt A → List A
output a = read_by a.started a.groups

abbrev outputs : {A : Type 0} → List (Attempt A) → List A
outputs [] = []
outputs (a ∷ rest) = output a ++ outputs rest

-- The initial duration doubled n times, and at most 30 seconds.
abbrev doubled : ℕ → ℕ → ℕ
doubled initial zero = initial
doubled initial (suc n) = doubled initial n * 2

abbrev capped : ℕ → ℕ
capped d = if ltb max_backoff d then max_backoff else d

-- How often the duration is doubled: not at all behind some output, and once more behind silence.
abbrev silence : {A : Type 0} → List A → ℕ → ℕ
silence [] n = n
silence (tx ∷ txs) n = zero

abbrev pace : {A : Type 0} → ℕ → ℕ → List (Attempt A) → List ℕ
pace initial n [] = []
pace initial n (a ∷ rest) =
    let m = silence (output a) n in capped (doubled initial m) ∷ pace initial (suc m) rest

next_backoff-capped : (d : ℕ) → next_backoff (capped d) ≡ capped (d * 2)
unfolding next_backoff
next_backoff-capped d = ground arith

handle_groups-handled :
    {A : Type 0} (initial : ℕ) (txs : List A) (s : Supervisor A)
    → (handle_groups initial txs s).handled ≡ s.handled ++ txs
unfolding handle_groups
handle_groups-handled initial [] s = sym (append-nil s.handled)
handle_groups-handled initial (tx ∷ txs) s =
    handle_groups-handled initial txs
      (record s { backoff = initial; handled = s.handled ++ (tx ∷ []) })
    ∙ append_assoc s.handled (tx ∷ []) txs

handle_groups-restarts :
    {A : Type 0} (initial : ℕ) (txs : List A) (s : Supervisor A)
    → (handle_groups initial txs s).restarts ≡ s.restarts
unfolding handle_groups
handle_groups-restarts initial [] s = refl
handle_groups-restarts initial (tx ∷ txs) s =
    handle_groups-restarts initial txs
      (record s { backoff = initial; handled = s.handled ++ (tx ∷ []) })

handle_groups-waits :
    {A : Type 0} (initial : ℕ) (txs : List A) (s : Supervisor A)
    → (handle_groups initial txs s).waits ≡ s.waits
unfolding handle_groups
handle_groups-waits initial [] s = refl
handle_groups-waits initial (tx ∷ txs) s =
    handle_groups-waits initial txs
      (record s { backoff = initial; handled = s.handled ++ (tx ∷ []) })

capped-le : (initial : ℕ) → initial ≤ max_backoff → initial ≡ capped initial
capped-le initial bounded = ground arith

-- Behind any group the backoff is the initial one again.
handle_groups-backoff :
    {A : Type 0} (initial : ℕ) (txs : List A) (s : Supervisor A) (n : ℕ)
    → initial ≤ max_backoff
    → s.backoff ≡ capped (doubled initial n)
    → (handle_groups initial txs s).backoff ≡ capped (doubled initial (silence txs n))
unfolding handle_groups
handle_groups-backoff initial [] s n bounded paced = paced
handle_groups-backoff initial (tx ∷ []) s n bounded paced = capped-le initial bounded
handle_groups-backoff initial (tx ∷ ty ∷ txs) s n bounded paced =
    handle_groups-backoff initial (ty ∷ txs)
      (record s { backoff = initial; handled = s.handled ++ (tx ∷ []) }) zero bounded
      (capped-le initial bounded)

-- What a supervisor that did `restarts`, `handled` and `waits` before has done behind the
-- attempts `rest`.
pub record IsSupervised {A : Type 0} (initial : ℕ) (n : ℕ) (rest : List (Attempt A))
    (s t : Supervisor A) : Type 0 where
  pub restarts : t.restarts ≡ s.restarts + length rest
  pub handled : t.handled ≡ s.handled ++ outputs rest
  pub waits : t.waits ≡ s.waits ++ pace initial n rest

module _ {A : Type 0} (initial : ℕ) (bounded : initial ≤ max_backoff) where
  read_output-backoff :
      (started : Bool) (groups : List A) (s : Supervisor A) (n : ℕ)
      → s.backoff ≡ capped (doubled initial n)
      → (read_output initial started groups s).backoff
        ≡ capped (doubled initial (silence (read_by started groups) n))
  unfolding read_output
  read_output-backoff true groups s n paced = handle_groups-backoff initial groups s n bounded paced
  read_output-backoff false groups s n paced = paced

  read_output-handled :
      (started : Bool) (groups : List A) (s : Supervisor A)
      → (read_output initial started groups s).handled ≡ s.handled ++ read_by started groups
  unfolding read_output
  read_output-handled true groups s = handle_groups-handled initial groups s
  read_output-handled false groups s = sym (append-nil s.handled)

  read_output-restarts :
      (started : Bool) (groups : List A) (s : Supervisor A)
      → (read_output initial started groups s).restarts ≡ s.restarts
  unfolding read_output
  read_output-restarts true groups s = handle_groups-restarts initial groups s
  read_output-restarts false groups s = refl

  read_output-waits :
      (started : Bool) (groups : List A) (s : Supervisor A)
      → (read_output initial started groups s).waits ≡ s.waits
  unfolding read_output
  read_output-waits true groups s = handle_groups-waits initial groups s
  read_output-waits false groups s = refl

  attempt-backoff :
      (a : Attempt A) (s : Supervisor A) (n : ℕ)
      → s.backoff ≡ capped (doubled initial n)
      → (attempt initial a s).backoff ≡ capped (doubled initial (silence (output a) n))
  unfolding attempt
  attempt-backoff a s n paced =
      read_output-backoff a.started a.groups (record s { restarts = suc s.restarts }) n paced

  attempt-IsSupervised :
      (a : Attempt A) (s : Supervisor A) (n : ℕ)
      → s.backoff ≡ capped (doubled initial n)
      → IsSupervised initial n (a ∷ []) s (attempt initial a s)
  unfolding attempt
  attempt-IsSupervised a s n paced =
      let spawned = record s { restarts = suc s.restarts } in
      record {
        restarts = read_output-restarts a.started a.groups spawned ∙ omega arith;
        handled =
            read_output-handled a.started a.groups spawned
            ∙ ap (λ xs. s.handled ++ xs) (sym (append-nil (output a)));
        waits =
            ap (λ ws. ws ++ ((attempt initial a s).backoff ∷ []))
              (read_output-waits a.started a.groups spawned)
            ∙ ap (λ d. s.waits ++ (d ∷ [])) (attempt-backoff a s n paced);
      }

  IsSupervised-after :
      (a : Attempt A) (rest : List (Attempt A)) (s t u : Supervisor A) (n : ℕ)
      → IsSupervised initial n (a ∷ []) s t
      → IsSupervised initial (suc (silence (output a) n)) rest t u
      → IsSupervised initial n (a ∷ rest) s u
  IsSupervised-after a rest s t u n first later = record {
    restarts = omega (arith, first.restarts, later.restarts);
    handled =
        later.handled
        ∙ ap (λ xs. xs ++ outputs rest) first.handled
        ∙ append_assoc s.handled (output a ++ []) (outputs rest)
        ∙ ap (λ xs. s.handled ++ (xs ++ outputs rest)) (append-nil (output a));
    waits =
        later.waits
        ∙ ap (λ ws. ws ++ pace initial (suc (silence (output a) n)) rest) first.waits
        ∙ append_assoc s.waits (pace initial n (a ∷ [])) _;
  }

  IsSupervised-none : (s : Supervisor A) (n : ℕ) → IsSupervised initial n [] s s
  IsSupervised-none s n = record {
    restarts = omega arith;
    handled = sym (append-nil s.handled);
    waits = sym (append-nil s.waits);
  }

  stops-IsSupervised :
      (live elapsed : Bool) (a : Attempt A) (rest : List (Attempt A)) (s t u : Supervisor A) (n : ℕ)
      → IsSupervised initial n (a ∷ []) s t
      → IsSupervised initial n (a ∷ rest) s u
      → IsSupervised initial n
          (if live then a ∷ (if elapsed then rest else []) else [])
          s
          (if live then (if elapsed then u else t) else s)
  stops-IsSupervised true true a rest s t u n once all = all
  stops-IsSupervised true false a rest s t u n once all = once
  stops-IsSupervised false elapsed a rest s t u n once all = IsSupervised-none s n

  resumed-IsSupervised :
      (rest : List (Attempt A)) (t u : Supervisor A) (n : ℕ) {d : ℕ}
      → IsSupervised initial n rest (record t { backoff = d }) u
      → IsSupervised initial n rest t u
  resumed-IsSupervised rest t u n later = record {
    restarts = later.restarts;
    handled = later.handled;
    waits = later.waits;
  }

  run-IsSupervised :
      (attempts : List (Attempt A)) (s : Supervisor A) (n : ℕ)
      → s.backoff ≡ capped (doubled initial n)
      → IsSupervised initial n (made attempts) s (run initial attempts s)
  unfolding run
  run-IsSupervised [] s n paced = IsSupervised-none s n
  run-IsSupervised (a ∷ rest) s n paced =
      let once = attempt-IsSupervised a s n paced in
      let m = silence (output a) n in
      let waited = attempt initial a s in
      let next = record waited { backoff = next_backoff waited.backoff } in
      let behind =
        run-IsSupervised rest next (suc m) (
          ap next_backoff (attempt-backoff a s n paced)
          ∙ next_backoff-capped (doubled initial m)) in
      stops-IsSupervised a.live a.elapsed a (made rest) s waited (run initial rest next) n once (
        IsSupervised-after a (made rest) s waited (run initial rest next) n once
          (resumed-IsSupervised (made rest) waited (run initial rest next) (suc m) behind))

-- When the initial backoff is not negative and at most 30 seconds, a run starts varnishlog once for
-- each attempt up to the cancellation, hands on exactly the groups that these read, in order, and
-- waits behind each of them the initial backoff, doubled once for each attempt since the last one
-- that read something or since the start, and never longer than 30 seconds.
pub run-IsSupervised_new :
    {A : Type 0} (initial : ℕ)
    → initial ≤ max_backoff
    → (attempts : List (Attempt A))
    → IsSupervised initial zero
        (made attempts)
        (new_supervisor initial)
        (run initial attempts (new_supervisor initial))
unfolding new_supervisor
run-IsSupervised_new initial bounded attempts =
    run-IsSupervised initial bounded attempts (new_supervisor initial) zero
      (capped-le initial bounded)
