-- ===== src/Tracer/Batcher.antt =====
-- internal/tracer/export/batcher.go: `Enqueue`, which many goroutines call, and the loop of `Run`,
-- as the steps that they take on the channel and on the buffer. The exporter's answer is an
-- argument. `accepted` and `sent` are records of what went in and out; the counters are the code's.
pub mod Laws
pub mod Tests
use cloud_vinyl.Prelude.{
  pos, negsuc, ℕ, zero, suc, ◌+◌, ◌-◌, ◌*◌, ◌/◌, ◌%◌, ◌^◌, ◌≤◌, ◌<◌, ◌≡◌, refl, sym, ap, ◌∙◌, ◌≢◌,
  ◌↔◌, ◌⊎◌, inl, inr, ite, if_pos, if_neg, Bool, true, false, not, ◌&&◌, ◌||◌, Option, none, some,
  List, [], ◌∷◌, ◌++◌, map, append-nil, append_assoc, map-append, arith, ℕ_discrete, ltb, leb, ◌==◌,
  if◌then◌else◌, ltb→lt, leb→le, le→leb, Bool-cases, is_some, Option-cases, ◌>>=◌, bind_some,
  if_both, length, length-append, keep, length-keep-le, count, count-append, keep-append,
  keep-length_split, All, All-append, elem, Distinct, elem-append, Distinct-snoc, Text, codes,
  text_dec, text_eq, text_eq_refl, text_eq→≡, has_prefix, contains, is_space, is_regexp_space,
  fields_by, fields, trim_left, trim_right, trim_space, is_digit, u64_mod, digits_value, parse_uint,
  ℤ, i64_max, positive_int, atoi, IsToken, fields_by-token, lookup, delete, insert, lookup-delete,
  lookup-insert, lookup-insert_self, lookup-insert_ne, next_digits, digits, printed, decimal,
  IsDigits, decimal-IsDigits, decimal-ne-nil, parse_uint-decimal, atoi-decimal,
}

pub data Phase : Type 0 where
  running draining stopped : Phase

pub record Batcher (A : Type 0) : Type 0 where
  pub queue : List A
  pub buf : List A
  pub phase : Phase
  pub accepted : List A
  -- The batches, and whether the exporter took each.
  pub sent : List (Bool × List A)
  pub dropped_total : ℕ
  pub exported_total : ℕ
  pub export_errors : ℕ

unfoldable pub new_batcher : {A : Type 0} → Batcher A
new_batcher = record {
  queue = [];
  buf = [];
  phase = running;
  accepted = [];
  sent = [];
  dropped_total = 0;
  exported_total = 0;
  export_errors = 0;
}

abbrev pub max_batch : ℕ
max_batch = 512

-- `Enqueue`: a full channel drops the span. The channel has a buffer, as that of cmd/tracer has; one
-- without could hand a span over to a waiting loop.
unfoldable pub enqueue : {A : Type 0} → ℕ → A → Batcher A → Batcher A
enqueue queue_len s b =
    if ltb (length b.queue) queue_len
    then record b { queue = b.queue ++ (s ∷ []); accepted = b.accepted ++ (s ∷ []) }
    else record b { dropped_total = suc b.dropped_total }

-- A batch that is not empty goes to the exporter.
unfoldable pub flush_batch : {A : Type 0} → Bool → List A → Batcher A → Batcher A
flush_batch ok [] b = b
flush_batch ok (s ∷ ss) b = record b {
  buf = [];
  sent = b.sent ++ ((ok, s ∷ ss) ∷ []);
  exported_total = if ok then b.exported_total + length (s ∷ ss) else b.exported_total;
  export_errors = if ok then b.export_errors else suc b.export_errors;
}

unfoldable pub flush : {A : Type 0} → Bool → Batcher A → Batcher A
unfolding flush_batch
flush ok b = flush_batch ok b.buf b

-- A span goes from the channel to the buffer.
unfoldable pub take_span : {A : Type 0} → A → List A → Batcher A → Batcher A
take_span s rest b = record b { queue = rest; buf = b.buf ++ (s ∷ []) }

unfoldable pub receive : {A : Type 0} → Bool → A → List A → Batcher A → Batcher A
unfolding take_span flush
receive ok s rest b =
    let taken = take_span s rest b in
    if leb max_batch (length taken.buf) then flush ok taken else taken

abbrev pub in_phase : {A : Type 0} → Phase → Batcher A → Batcher A
in_phase p b = record b { phase = p }

-- The steps: of a caller, of the three cases of the loop, and of the drain behind a cancellation.
pub data Step {A : Type 0} (queue_len : ℕ) : Batcher A → Batcher A → Type 0 where
  enqueues : {b : Batcher A} (s : A) → Step queue_len b (enqueue queue_len s b)
  receives :
      {b : Batcher A} (ok : Bool) (s : A) (rest : List A)
      → b.phase ≡ running
      → b.queue ≡ s ∷ rest
      → Step queue_len b (receive ok s rest b)
  ticks : {b : Batcher A} (ok : Bool) → b.phase ≡ running → Step queue_len b (flush ok b)
  cancels : {b : Batcher A} → b.phase ≡ running → Step queue_len b (in_phase draining b)
  drains :
      {b : Batcher A} (s : A) (rest : List A)
      → b.phase ≡ draining
      → b.queue ≡ s ∷ rest
      → Step queue_len b (take_span s rest b)
  finishes :
      {b : Batcher A} (ok : Bool)
      → b.phase ≡ draining
      → b.queue ≡ []
      → Step queue_len b (in_phase stopped (flush ok b))

pub data Reach {A : Type 0} (queue_len : ℕ) : Batcher A → Type 0 where
  starts : Reach queue_len new_batcher
  goes_on : {b c : Batcher A} → Reach queue_len b → Step queue_len b c → Reach queue_len c
