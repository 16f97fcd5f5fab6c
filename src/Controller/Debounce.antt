-- ===== src/Controller/Debounce.antt =====
-- internal/controller/debounce.go. The clock is the argument `now`; a clock that goes backwards is
-- allowed. `window - elapsed` is `last + window - now`.
use cloud_vinyl.Prelude.{
  ℕ, ◌+◌, ◌-◌, ◌≡◌, ap, ◌≢◌, Option, none, some, List, [], ◌∷◌, arith, leb, ◌==◌, if◌then◌else◌,
  Text, text_dec, lookup, delete, insert, lookup-delete, lookup-insert_self, lookup-insert_ne,
}

-- A namespace and a name.
abbrev pub NamespacedName : Type 0
NamespacedName = Text × Text

abbrev pub key_dec : Discrete NamespacedName
key_dec (n, c) (m, d) = elim (text_dec n m) [
  | no h ↦ no (λ e. h (ap (λ x. x.0) e))
  | yes e ↦ elim (text_dec c d) [
    | no h ↦ no (λ f. h (ap (λ x. x.1) f))
    | yes f ↦ yes (λ i. (e i, f i))
  ]
]

pub record Debouncer : Type 0 where
  pub last_ch : List (NamespacedName × ℕ)

abbrev pub new_debouncer : Debouncer
new_debouncer = record { last_ch = [] }

unfoldable pub touch : Debouncer → NamespacedName → ℕ → Debouncer
touch d key now = record { last_ch = insert key_dec key now d.last_ch }

unfoldable pub remaining_since : Debouncer → NamespacedName → ℕ → ℕ → Option ℕ → Debouncer × ℕ
remaining_since d key window now none = (d, 0)
remaining_since d key window now (some last) =
    if leb (last + window) now
    then (record { last_ch = delete key_dec key d.last_ch }, 0)
    else (d, last + window - now)

unfoldable pub remaining : Debouncer → NamespacedName → ℕ → ℕ → Debouncer × ℕ
unfolding remaining_since
remaining d key window now =
    if window == 0 then (d, 0) else remaining_since d key window now (lookup key_dec key d.last_ch)

-- `debounceRemaining`: a window of 0 is taken as one second.
unfoldable pub debounce_window : ℕ → ℕ
debounce_window window = if window == 0 then 1000000000 else window

-- A burst of touches, at the given times, the last of them first.
unfoldable pub burst : Debouncer → NamespacedName → List ℕ → Debouncer
unfolding touch
burst d key [] = d
burst d key (t ∷ ts) = touch (burst d key ts) key t

-- After a burst the push waits for the quiet window behind the last touch, and not longer: asked
-- at `now` one waits up to that moment, and asked after that wait one need not wait any more.
remaining-burst :
    (d : Debouncer) (key : NamespacedName) (t : ℕ) (ts : List ℕ) (window now : ℕ)
    → let r = remaining (burst d key (t ∷ ts)) key (debounce_window window) now in
      (r.1 ≡ t + debounce_window window - now)
      × ((remaining r.0 key (debounce_window window) (now + r.1)).1 ≡ 0)
unfolding burst touch remaining remaining_since debounce_window
remaining-burst d key t ts window now = ground (
  arith,
  lookup-insert_self key_dec key t (burst d key ts).last_ch,
  lookup-delete key_dec key key (insert key_dec key t (burst d key ts).last_ch),
)

-- The window of one cache is not touched by another one.
pub remaining-touch_ne :
    (d : Debouncer) (key other : NamespacedName) (window now t : ℕ)
    → key ≢ other
    → (remaining (touch d other t) key window now).1 ≡ (remaining d key window now).1
unfolding remaining touch remaining_since
remaining-touch_ne d key other window now t ne =
    ground (arith, lookup-insert_ne key_dec key other t d.last_ch ne)
