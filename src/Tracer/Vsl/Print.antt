-- ===== src/Tracer/Vsl/Print.antt =====
-- The text of a line as varnishlog prints it, and that `classify` reads the line in it.
use cloud_vinyl.Prelude.{
  ℕ, zero, suc, ◌<◌, ◌≡◌, refl, sym, ap, ◌∙◌, ◌≢◌, Bool, true, false, not, Option, some, [], ◌∷◌,
  ◌++◌, append-nil, arith, ◌==◌, ◌>>=◌, length, All, Text, codes, text_dec, text_eq, is_space,
  is_regexp_space, trim_space, trim_right_start, is_digit, u64_mod, IsToken, decimal, IsDigits,
  decimal-IsDigits, decimal-ne-nil, parse_uint-decimal,
}
use mathlib.Core.Path.{ap₂}
use cloud_vinyl.Tracer.Vsl.Lines.{
  Line, blank, other, group_line, record_line, is_word, run_of, some_of, match_group, match_record,
  classify, group_starred, group_begun, group_opened, group_typed, group_closed, group_vxid,
  group_ended, record_dashed, record_begun, record_tagged, vxid_of_digits, or_else,
}

-- How many blanks stand, beyond one, in the gaps of a line: four in the line of a group, one behind
-- the dashes and one behind the tag of a record.
pub record Layout : Type 0 where
  pub behind_stars : ℕ
  pub before_type : ℕ
  pub behind_type : ℕ
  pub before_vxid : ℕ
  pub behind_dashes : ℕ
  pub behind_tag : ℕ

abbrev pub repeat : ℕ → ℕ → Text
repeat c zero = []
repeat c (suc n) = c ∷ repeat c n

abbrev pub spaces : ℕ → Text
spaces n = repeat b' ' (suc n)

-- "*   << Request  >> 32770", "-   ReqMethod      GET"
unfoldable pub print_line : Layout → Line → Text
print_line l blank = []
print_line l other = []
print_line l (group_line level type vxid) =
    repeat b'*' level
    ++ (spaces l.behind_stars
        ++ (codes "<<"
            ++ (spaces l.before_type
                ++ (type
                    ++ (spaces l.behind_type
                        ++ (codes ">>" ++ (spaces l.before_vxid ++ decimal vxid)))))))
print_line l (record_line level tag payload) =
    repeat b'-' level ++ (spaces l.behind_dashes ++ (tag ++ (spaces l.behind_tag ++ payload)))

abbrev pub IsRun : (ℕ → Bool) → Text → Type 0
IsRun p = All (λ c. p c ≡ true)

-- A text that the class does not go on with.
abbrev pub StopsAt : (ℕ → Bool) → Text → Type 0
StopsAt p [] = Unit
StopsAt p (c ∷ s) = p c ≡ false

run_of-stop : (p : ℕ → Bool) (s : Text) → StopsAt p s → run_of p s ≡ ([], s)
unfolding run_of
run_of-stop p [] h = refl
run_of-stop p (c ∷ s) h = rw (h) refl

run_of-append : (p : ℕ → Bool) (t s : Text) → IsRun p t → StopsAt p s → run_of p (t ++ s) ≡ (t, s)
unfolding run_of
run_of-append p [] s h stop = run_of-stop p s stop
run_of-append p (c ∷ t) s (h, hs) stop = rw (run_of-append p t s hs stop, h) refl

-- A run that is not empty.
pub some_of-run :
    (p : ℕ → Bool) (t s : Text)
    → t ≢ []
    → IsRun p t
    → StopsAt p s
    → some_of p (t ++ s) ≡ some (t, s)
unfolding some_of
some_of-run p [] s ne h stop = absurd (ne refl)
some_of-run p (c ∷ t) s ne h stop =
    rw (some_of, run_of-append p (c ∷ t) s h stop) (ap some (run_of-append p (c ∷ t) s h stop))

repeat-IsRun : (p : ℕ → Bool) (c n : ℕ) → p c ≡ true → IsRun p (repeat c n)
repeat-IsRun p c zero h = tt
repeat-IsRun p c (suc n) h = (h, repeat-IsRun p c n h)

length-repeat : (c n : ℕ) → length (repeat c n) ≡ n
length-repeat c zero = refl
length-repeat c (suc n) = ap suc (length-repeat c n)

blanks_read :
    (n : ℕ) (s : Text)
    → StopsAt is_regexp_space s
    → some_of is_regexp_space (spaces n ++ s) ≡ some (spaces n, s)
unfolding is_regexp_space
blanks_read n s stop =
    some_of-run is_regexp_space (spaces n) s (λ e. ground (arith, e))
      (repeat-IsRun is_regexp_space b' ' (suc n) refl) stop

token_stops : (t s : Text) → t ≢ [] → IsToken is_regexp_space t → StopsAt is_regexp_space (t ++ s)
token_stops [] s ne h = absurd (ne refl)
token_stops (c ∷ t) s ne h = h.0

token-IsRun : (t : Text) → IsToken is_regexp_space t → IsRun (λ c. not (is_regexp_space c)) t
token-IsRun [] h = tt
token-IsRun (c ∷ t) (h, hs) = (ap not h, token-IsRun t hs)

word_stops : (t s : Text) → t ≢ [] → IsRun is_word t → StopsAt is_regexp_space (t ++ s)
unfolding is_word is_regexp_space is_digit
word_stops [] s ne h = absurd (ne refl)
word_stops (c ∷ t) s ne h = ground (arith, h)

digits_stop : (t : Text) → IsDigits t → StopsAt is_regexp_space t
unfolding is_regexp_space is_digit
digits_stop [] h = tt
digits_stop (c ∷ t) h = ground (arith, h)

bind_to : {A B : Type 0} (f : A → Option B) {o : Option A} {a : A} → o ≡ some a → (o >>= f) ≡ f a
bind_to {A = A} f e = ap (λ (x : Option A). x >>= f) e

-- What `groupRe` needs of a type, and `%d` of a vxid; what `recordRe` needs of a tag and a payload.
abbrev pub IsGroup : Text → ℕ → Type 0
IsGroup type vxid = (type ≢ []) × IsRun is_word type × (vxid < u64_mod)

abbrev pub IsRecord : Text → Text → Type 0
IsRecord tag payload = (tag ≢ []) × IsToken is_regexp_space tag × StopsAt is_regexp_space payload

last_run : (n : ℕ) → some_of is_digit (decimal n) ≡ some (decimal n, [])
last_run n =
    ap (some_of is_digit) (sym (append-nil (decimal n)))
    ∙ some_of-run is_digit (decimal n) [] (decimal-ne-nil n) (decimal-IsDigits n) tt

stars_read :
    (k : ℕ) (s : Text)
    → StopsAt (λ c. c == b'*') s
    → some_of (λ c. c == b'*') (repeat b'*' (suc k) ++ s) ≡ some (repeat b'*' (suc k), s)
stars_read k s stop =
    some_of-run (λ c. c == b'*') (repeat b'*' (suc k)) s (λ e. ground (arith, e))
      (repeat-IsRun (λ c. c == b'*') b'*' (suc k) refl) stop

word_read :
    (type : Text) (n : ℕ) (s : Text)
    → type ≢ []
    → IsRun is_word type
    → some_of is_word (type ++ (spaces n ++ s)) ≡ some (type, spaces n ++ s)
unfolding is_word is_digit
word_read type n s ne h = some_of-run is_word type (spaces n ++ s) ne h refl

match_group-print_line :
    (l : Layout) (k : ℕ) (type : Text) (vxid : ℕ)
    → IsGroup type vxid
    → match_group (print_line l (group_line (suc k) type vxid))
      ≡ some (group_line (suc k) type vxid)
unfolding match_group print_line
match_group-print_line l k type vxid (ne, w, small) =
    let s₈ = decimal vxid in
    let s₆ = spaces l.before_vxid ++ s₈ in
    let s₅ = codes ">>" ++ s₆ in
    let s₃ = type ++ (spaces l.behind_type ++ s₅) in
    let s₂ = codes "<<" ++ (spaces l.before_type ++ s₃) in
    let n = length (repeat b'*' (suc k)) in
    bind_to group_starred (stars_read k (spaces l.behind_stars ++ s₂) refl)
    ∙ bind_to (group_begun n) (blanks_read l.behind_stars s₂ refl)
    ∙ bind_to (group_opened n)
        (blanks_read l.before_type s₃ (word_stops type (spaces l.behind_type ++ s₅) ne w))
    ∙ bind_to (group_typed n) (word_read type l.behind_type s₅ ne w)
    ∙ bind_to (group_closed n type) (blanks_read l.behind_type s₅ refl)
    ∙ bind_to (group_vxid n type)
        (blanks_read l.before_vxid s₈ (digits_stop s₈ (decimal-IsDigits vxid)))
    ∙ bind_to (group_ended n type) (last_run vxid)
    ∙ ap₂ (λ n v. some (group_line n type (vxid_of_digits v))) (length-repeat b'*' (suc k))
        (parse_uint-decimal vxid small)

match_record-print_line :
    (l : Layout) (k : ℕ) (tag payload : Text)
    → IsRecord tag payload
    → match_record (print_line l (record_line (suc k) tag payload))
      ≡ some (record_line (suc k) tag payload)
unfolding match_record print_line is_regexp_space
match_record-print_line l k tag payload (ne, t, stop) =
    let behind = spaces l.behind_tag ++ payload in
    let n = length (repeat b'-' (suc k)) in
    bind_to record_dashed (
      some_of-run (λ c. c == b'-') (repeat b'-' (suc k)) (spaces l.behind_dashes ++ (tag ++ behind))
        (λ e. ground (arith, e)) (repeat-IsRun (λ c. c == b'-') b'-' (suc k) refl) refl)
    ∙ bind_to (record_begun n)
        (blanks_read l.behind_dashes (tag ++ behind) (token_stops tag behind ne t))
    ∙ bind_to (record_tagged n)
        (some_of-run (λ c. not (is_regexp_space c)) tag behind ne (token-IsRun tag t) refl)
    ∙ ap₂ (λ n r. some (record_line n tag r.1)) (length-repeat b'-' (suc k))
        (run_of-append is_regexp_space (spaces l.behind_tag) payload
          (repeat-IsRun is_regexp_space b' ' (suc l.behind_tag) refl) stop)

-- The lines that can be read back.
abbrev pub IsPrintable : Line → Type 0
IsPrintable blank = Unit
IsPrintable other = ⊥
IsPrintable (group_line level type vxid) = (0 < level) × IsGroup type vxid
IsPrintable (record_line level tag payload) = (0 < level) × IsRecord tag payload

not_blank_line : (c : ℕ) (s : Text) → is_space c ≡ false → text_eq (trim_space (c ∷ s)) [] ≡ false
unfolding trim_space
not_blank_line c s h = ground (arith, h, trim_right_start c s h)

-- A line that varnishlog prints is classified as what it is.
pub classify-print_line :
    (l : Layout) (line : Line) → IsPrintable line → classify (print_line l line) ≡ line
unfolding classify print_line or_else text_dec
classify-print_line l blank h = refl
classify-print_line l other h = absurd h
classify-print_line l (group_line zero type vxid) (pos_, g) = absurd (omega (arith, pos_))
classify-print_line l (group_line (suc k) type vxid) (pos_, g) =
    rw (not_blank_line b'*' _ refl, match_group-print_line l k type vxid g, or_else) refl
classify-print_line l (record_line zero tag payload) (pos_, g) = absurd (omega (arith, pos_))
classify-print_line l (record_line (suc k) tag payload) (pos_, g) =
    rw (not_blank_line b'-' _ refl, match_record-print_line l k tag payload g, or_else) refl
