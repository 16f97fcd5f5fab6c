-- ===== src/Tracer/Batcher/Tests.antt =====
-- A run of the batcher: a channel for two, of which a third span is dropped.
use cloud_vinyl.Prelude.{ℕ, ◌≡◌, refl, true, [], ◌∷◌}
use cloud_vinyl.Tracer.Batcher.{
  Phase, running, draining, stopped, Batcher, new_batcher, enqueue, flush, take_span, receive,
  in_phase, Step, enqueues, receives, ticks, cancels, drains, finishes, Reach, starts, goes_on,
}
use cloud_vinyl.Tracer.Batcher.Laws.{IsFifo, Reach-IsFifo}

abbrev filled : Batcher ℕ
filled = enqueue 2 30 (enqueue 2 20 (enqueue 2 10 new_batcher))

abbrev cancelled : Batcher ℕ
cancelled = in_phase draining (receive true 10 (20 ∷ []) filled)

abbrev finished : Batcher ℕ
finished = in_phase stopped (flush true (take_span 20 [] cancelled))

-- What runs of the batcher compute with.
batching : Unit {0}
unfolding new_batcher enqueue flush cloud_vinyl.Tracer.Batcher.flush_batch take_span receive
batching = tt

all_sent : finished.sent ≡ (true, 10 ∷ 20 ∷ []) ∷ []
unfolding batching
all_sent = refl

one_dropped : finished.dropped_total ≡ 1
unfolding batching
one_dropped = refl

finished-Reach : Reach 2 finished
unfolding batching
finished-Reach =
    goes_on
      (goes_on
        (goes_on
          (goes_on (goes_on (goes_on (goes_on starts (enqueues 10)) (enqueues 20)) (enqueues 30))
            (receives true 10 (20 ∷ []) refl refl))
          (cancels refl))
        (drains 20 [] refl refl))
      (finishes true refl refl)

Reach-IsFifo_example : IsFifo 2 finished
Reach-IsFifo_example = Reach-IsFifo 2 finished finished-Reach
