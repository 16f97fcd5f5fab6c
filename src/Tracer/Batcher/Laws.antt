-- ===== src/Tracer/Batcher/Laws.antt =====
-- The batcher passes on what it accepted, in order, in every interleaving of callers and loop.
use cloud_vinyl.Prelude.{
  ℕ, ◌+◌, ◌≤◌, ◌<◌, ◌≡◌, refl, sym, ap, ◌∙◌, inl, inr, Bool, List, [], ◌∷◌, ◌++◌, append-nil,
  append_assoc, arith, ltb, leb, if◌then◌else◌, ltb→lt, Bool-cases, if_both, length, length-append,
}
use mathlib.Core.Path.{subst}
use cloud_vinyl.Tracer.Batcher.{
  Phase, running, draining, stopped, Batcher, new_batcher, max_batch, enqueue, flush_batch, flush,
  take_span, receive, in_phase, Step, enqueues, receives, ticks, cancels, drains, finishes, Reach,
  starts, goes_on,
}

-- The spans of the batches, in order.
abbrev pub spans_of : {A : Type 0} → List (Bool × List A) → List A
spans_of [] = []
spans_of ((ok, batch) ∷ bs) = batch ++ spans_of bs

-- How many spans the exporter took, and how many batches it refused.
abbrev pub taken_count : {A : Type 0} → List (Bool × List A) → ℕ
taken_count [] = 0
taken_count ((ok, batch) ∷ bs) = (if ok then length batch else 0) + taken_count bs

abbrev pub refused_count : {A : Type 0} → List (Bool × List A) → ℕ
refused_count [] = 0
refused_count ((ok, batch) ∷ bs) = (if ok then 0 else 1) + refused_count bs

-- A loop that stopped left nothing in its buffer, and a running one less than a whole batch.
abbrev pub IsBuffered : {A : Type 0} → Phase → List A → Type 0
IsBuffered running buf = length buf < max_batch
IsBuffered draining buf = Unit
IsBuffered stopped buf = buf ≡ []

-- What was sent, what is buffered and what is queued are together, in order, what was accepted;
-- the counters count the batches that were sent.
pub record IsOrdered {A : Type 0} (queue_len : ℕ) (b : Batcher A) : Type 0 where
  pub order : spans_of b.sent ++ (b.buf ++ b.queue) ≡ b.accepted
  pub bounded : length b.queue ≤ queue_len
  pub exported : b.exported_total ≡ taken_count b.sent
  pub errors : b.export_errors ≡ refused_count b.sent

pub record IsFifo {A : Type 0} (queue_len : ℕ) (b : Batcher A) : Type 0 where
  pub ordered : IsOrdered queue_len b
  pub buffered : IsBuffered b.phase b.buf

module _ {A : Type 0} (queue_len : ℕ) where
  spans_of-append :
      (bs : List (Bool × List A)) (ok : Bool) (batch : List A)
      → spans_of (bs ++ ((ok, batch) ∷ [])) ≡ spans_of bs ++ batch
  spans_of-append [] ok batch = append-nil batch
  spans_of-append ((o, x) ∷ bs) ok batch =
      ap (λ ys. x ++ ys) (spans_of-append bs ok batch) ∙ sym (append_assoc x (spans_of bs) batch)

  taken_count-append :
      (bs : List (Bool × List A)) (ok : Bool) (batch : List A)
      → taken_count (bs ++ ((ok, batch) ∷ [])) ≡ taken_count bs + (if ok then length batch else 0)
  taken_count-append [] ok batch = omega arith
  taken_count-append ((o, x) ∷ bs) ok batch = omega (arith, taken_count-append bs ok batch)

  refused_count-append :
      (bs : List (Bool × List A)) (ok : Bool) (batch : List A)
      → refused_count (bs ++ ((ok, batch) ∷ [])) ≡ refused_count bs + (if ok then 0 else 1)
  refused_count-append [] ok batch = omega arith
  refused_count-append ((o, x) ∷ bs) ok batch = omega (arith, refused_count-append bs ok batch)

  flush_batch-IsOrdered :
      (ok : Bool) (buf : List A) (b : Batcher A)
      → b.buf ≡ buf
      → IsOrdered queue_len b
      → IsOrdered queue_len (flush_batch ok buf b)
        × ((flush_batch ok buf b).buf ≡ [])
        × ((flush_batch ok buf b).phase ≡ b.phase)
  unfolding flush_batch
  flush_batch-IsOrdered ok [] b e h = (h, e, refl)
  flush_batch-IsOrdered ok (s ∷ ss) b e h = (
    record {
      order =
          ap (λ x. x ++ b.queue) (spans_of-append b.sent ok (s ∷ ss))
          ∙ append_assoc (spans_of b.sent) (s ∷ ss) b.queue
          ∙ ap (λ x. spans_of b.sent ++ (x ++ b.queue)) (sym e)
          ∙ h.order;
      bounded = h.bounded;
      exported = ground (arith, h.exported, taken_count-append b.sent ok (s ∷ ss));
      errors = ground (arith, h.errors, refused_count-append b.sent ok (s ∷ ss));
    },
    refl,
    refl,
  )

  take_span-IsOrdered :
      (s : A) (rest : List A) (b : Batcher A)
      → b.queue ≡ s ∷ rest
      → IsOrdered queue_len b
      → IsOrdered queue_len (take_span s rest b)
  unfolding take_span
  take_span-IsOrdered s rest b e h = record {
    order =
        ap (λ x. spans_of b.sent ++ x) (append_assoc b.buf (s ∷ []) rest)
        ∙ ap (λ x. spans_of b.sent ++ (b.buf ++ x)) (sym e)
        ∙ h.order;
    bounded = omega (arith, h.bounded, ap length e);
    exported = h.exported;
    errors = h.errors;
  }

  enqueue-IsOrdered :
      (s : A) (b : Batcher A) → IsOrdered queue_len b → IsOrdered queue_len (enqueue queue_len s b)
  unfolding enqueue
  enqueue-IsOrdered s b h = elim (Bool-cases (ltb (length b.queue) queue_len)) [
    | inl e ↦ rw (e) (record {
      order =
          ap (λ x. spans_of b.sent ++ x) (sym (append_assoc b.buf b.queue (s ∷ [])))
          ∙ sym (append_assoc (spans_of b.sent) (b.buf ++ b.queue) (s ∷ []))
          ∙ ap (λ x. x ++ (s ∷ [])) h.order;
      bounded = omega (arith, ltb→lt (length b.queue) queue_len e, length-append b.queue (s ∷ []));
      exported = h.exported;
      errors = h.errors;
    })
    | inr e ↦
        rw (e) (record {
          order = h.order;
          bounded = h.bounded;
          exported = h.exported;
          errors = h.errors;
        })
  ]

  in_phase-IsOrdered :
      (p : Phase) (b : Batcher A) → IsOrdered queue_len b → IsOrdered queue_len (in_phase p b)
  in_phase-IsOrdered p b h = record {
    order = h.order;
    bounded = h.bounded;
    exported = h.exported;
    errors = h.errors;
  }

  IsBuffered-nil : (p : Phase) (buf : List A) → buf ≡ [] → IsBuffered p buf
  IsBuffered-nil running buf e = rw (e) (omega arith)
  IsBuffered-nil draining buf e = tt
  IsBuffered-nil stopped buf e = e

  IsBuffered-running :
      (p : Phase) (buf : List A) → p ≡ running → length buf < max_batch → IsBuffered p buf
  IsBuffered-running running buf e h = h
  IsBuffered-running draining buf e h = tt
  IsBuffered-running stopped buf e h = absurd (ground (arith, e))

  flush-IsFifo : (ok : Bool) (b : Batcher A) → IsOrdered queue_len b → IsFifo queue_len (flush ok b)
  unfolding flush
  flush-IsFifo ok b h =
      let f = flush_batch-IsOrdered ok b.buf b refl h in
      record { ordered = f.0; buffered = IsBuffered-nil (flush_batch ok b.buf b).phase _ f.1 }

  flush-empty : (ok : Bool) (b : Batcher A) → IsOrdered queue_len b → (flush ok b).buf ≡ []
  unfolding flush
  flush-empty ok b h = (flush_batch-IsOrdered ok b.buf b refl h).1

  enqueue-IsBuffered :
      (s : A) (b : Batcher A)
      → IsBuffered b.phase b.buf
      → IsBuffered (enqueue queue_len s b).phase (enqueue queue_len s b).buf
  unfolding enqueue
  enqueue-IsBuffered s b h =
      if_both (λ (x : Batcher A). IsBuffered x.phase x.buf) (ltb (length b.queue) queue_len) _ _ h h

  receive-IsFifo :
      (ok : Bool) (s : A) (rest : List A) (b : Batcher A)
      → b.phase ≡ running
      → b.queue ≡ s ∷ rest
      → IsFifo queue_len b
      → IsFifo queue_len (receive ok s rest b)
  unfolding receive take_span
  receive-IsFifo ok s rest b r e h =
      let t = take_span-IsOrdered s rest b e h.ordered in
      elim (Bool-cases (leb max_batch (length (b.buf ++ (s ∷ []))))) [
        | inl full ↦ rw (full) (flush-IsFifo ok (take_span s rest b) t)
        | inr short ↦ rw (short) (record {
          ordered = t;
          buffered = IsBuffered-running b.phase (b.buf ++ (s ∷ [])) r (ground (arith, short));
        })
      ]

  step-IsFifo : (b c : Batcher A) → Step queue_len b c → IsFifo queue_len b → IsFifo queue_len c
  unfolding enqueue take_span
  step-IsFifo b c (enqueues s) h = record {
    ordered = enqueue-IsOrdered s b h.ordered;
    buffered = enqueue-IsBuffered s b h.buffered;
  }
  step-IsFifo b c (receives ok s rest r e) h = receive-IsFifo ok s rest b r e h
  step-IsFifo b c (ticks ok r) h = flush-IsFifo ok b h.ordered
  step-IsFifo b c (cancels r) h = record {
    ordered = in_phase-IsOrdered draining b h.ordered;
    buffered = tt;
  }
  step-IsFifo b c (drains s rest r e) h = record {
    ordered = take_span-IsOrdered s rest b e h.ordered;
    buffered = subst (λ p. IsBuffered p (b.buf ++ (s ∷ []))) (sym r) tt;
  }
  step-IsFifo b c (finishes ok r e) h =
      let f = flush-IsFifo ok b h.ordered in
      record {
        ordered = in_phase-IsOrdered stopped (flush ok b) f.ordered;
        buffered = flush-empty ok b h.ordered;
      }

  -- In every interleaving of callers and loop: the batches, the buffer and the channel hold
  -- together, in order, exactly the spans that were accepted; the channel holds at most as many as
  -- it was made for, the buffer less than a batch while the loop runs and nothing once it stopped;
  -- and the counters are the spans of the batches that the exporter took, and the number of those
  -- that it refused.
  pub Reach-IsFifo : (b : Batcher A) → Reach queue_len b → IsFifo queue_len b
  unfolding new_batcher
  Reach-IsFifo b starts = record {
    ordered = record { order = refl; bounded = omega arith; exported = refl; errors = refl };
    buffered = omega arith;
  }
  Reach-IsFifo b (goes_on {b = a} r st) = step-IsFifo a b st (Reach-IsFifo a r)
