-- ===== src/Agent/VclList/Laws.antt =====
-- The agent finds the active VCL on whatever rows varnishd lists.
use cloud_vinyl.Prelude.{
  ℕ, zero, suc, ◌≡◌, refl, ap, ◌∙◌, inl, inr, false, Option, none, some, List, [], ◌∷◌, ◌++◌, arith,
  ◌==◌, if◌then◌else◌, Bool-cases, All, All-append, Text, codes, text_eq, is_space, fields_by,
  fields, IsToken, fields_by-token,
}
use cloud_vinyl.Agent.VclList.{split_lines, row_name, first_active, active_name}

-- A row as varnishd prints it: five columns, behind the name what labels add to it, and how wide
-- the gaps between the columns are.
pub record Row : Type 0 where
  pub status : Text
  pub state : Text
  pub temperature : Text
  pub busy : Text
  pub name : Text
  pub trailing : List Text
  pub gaps : List ℕ

abbrev pub columns : Row → List Text
columns r = r.status ∷ r.state ∷ r.temperature ∷ r.busy ∷ r.name ∷ r.trailing

-- A column: not empty, and without white space.
abbrev pub IsColumn : Text → Type 0
IsColumn t = (text_eq t [] ≡ false) × IsToken is_space t

-- Between two columns stands a blank and as many more as the list of gaps says, none where it is
-- at its end; behind the last column stands nothing.
abbrev pub blanks_before : ℕ → Text → Text
blanks_before zero s = s
blanks_before (suc n) s = b' ' ∷ blanks_before n s

abbrev next_gap : List ℕ → ℕ
next_gap [] = 0
next_gap (g ∷ gs) = g

abbrev later_gaps : List ℕ → List ℕ
later_gaps [] = []
later_gaps (g ∷ gs) = gs

abbrev pub print_columns : List ℕ → List Text → Text
print_columns gaps [] = []
print_columns gaps (t ∷ []) = t
print_columns gaps (t ∷ u ∷ ts) =
    t ++ (b' ' ∷ blanks_before (next_gap gaps) (print_columns (later_gaps gaps) (u ∷ ts)))

abbrev pub print_rows : List Row → Text
print_rows [] = []
print_rows (r ∷ rs) = print_columns r.gaps (columns r) ++ (10 ∷ print_rows rs)

-- The name of the first row whose status is exactly "active".
abbrev pub active_row : List Row → Option Text
active_row [] = none
active_row (r ∷ rs) = if text_eq r.status (codes "active") then some r.name else active_row rs

abbrev pub HasNoNewline : Text → Type 0
HasNoNewline = All (λ c. (c == 10) ≡ false)

token-HasNoNewline : (t : Text) → IsToken is_space t → HasNoNewline t
unfolding is_space
token-HasNoNewline [] h = tt
token-HasNoNewline (c ∷ t) h = (ground (arith, h), token-HasNoNewline t h.1)

blanks-HasNoNewline : (n : ℕ) (s : Text) → HasNoNewline s → HasNoNewline (blanks_before n s)
blanks-HasNoNewline zero s h = h
blanks-HasNoNewline (suc n) s h = (refl, blanks-HasNoNewline n s h)

columns-HasNoNewline :
    (gaps : List ℕ) (ts : List Text) → All IsColumn ts → HasNoNewline (print_columns gaps ts)
columns-HasNoNewline gaps [] h = tt
columns-HasNoNewline gaps (t ∷ []) (c, h) = token-HasNoNewline t c.1
columns-HasNoNewline gaps (t ∷ u ∷ ts) (c, h) =
    let rest = print_columns (later_gaps gaps) (u ∷ ts) in
    All-append (λ c. (c == 10) ≡ false) t (b' ' ∷ blanks_before (next_gap gaps) rest)
      (token-HasNoNewline t c.1)
      (
        refl,
        blanks-HasNoNewline (next_gap gaps) rest
            (columns-HasNoNewline (later_gaps gaps) (u ∷ ts) h),
      )

fields-blanks : (n : ℕ) (s : Text) → fields (blanks_before n s) ≡ fields s
unfolding fields fields_by is_space
fields-blanks zero s = refl
fields-blanks (suc n) s = fields-blanks n s

fields-column : (t rest : Text) → IsColumn t → fields (t ++ (b' ' ∷ rest)) ≡ t ∷ fields rest
unfolding fields is_space
fields-column [] rest (ne, h) = absurd (ground (arith, ne))
fields-column (d ∷ t) rest (ne, h) = (fields_by-token is_space d t b' ' rest h refl).0

fields-last : (t : Text) → IsColumn t → fields t ≡ t ∷ []
unfolding fields is_space
fields-last [] (ne, h) = absurd (ground (arith, ne))
fields-last (d ∷ t) (ne, h) = (fields_by-token is_space d t b' ' [] h refl).1

fields-print_columns :
    (gaps : List ℕ) (ts : List Text) → All IsColumn ts → fields (print_columns gaps ts) ≡ ts
unfolding fields fields_by
fields-print_columns gaps [] h = refl
fields-print_columns gaps (t ∷ []) (c, h) = fields-last t c
fields-print_columns gaps (t ∷ u ∷ ts) (c, h) =
    let rest = print_columns (later_gaps gaps) (u ∷ ts) in
    fields-column t (blanks_before (next_gap gaps) rest) c
    ∙ ap (λ fs. t ∷ fs)
        (fields-blanks (next_gap gaps) rest ∙ fields-print_columns (later_gaps gaps) (u ∷ ts) h)

split_lines-cons : (s : Text) → (line : Text) × (lines : List Text) × (split_lines s ≡ line ∷ lines)
unfolding split_lines
split_lines-cons [] = ([], [], refl)
split_lines-cons (c ∷ s) = elim (Bool-cases (c == 10)) [
  | inl e ↦
      ([], (split_lines-cons s).0 ∷ (split_lines-cons s).1, rw ((split_lines-cons s).2, e) refl)
  | inr e ↦
      (c ∷ (split_lines-cons s).0, (split_lines-cons s).1, rw ((split_lines-cons s).2, e) refl)
]

pub split_lines-append :
    (s t : Text) → HasNoNewline s → split_lines (s ++ (10 ∷ t)) ≡ s ∷ split_lines t
unfolding split_lines
split_lines-append [] t h = rw ((split_lines-cons t).2) refl
split_lines-append (c ∷ s) t h = rw (split_lines-append s t h.1, h.0) refl

first_active-row :
    (r : Row) (lines : List Text) (line : Text)
    → fields line ≡ columns r
    → first_active (line ∷ lines)
      ≡ (if text_eq r.status (codes "active") then some r.name else first_active lines)
unfolding first_active row_name
first_active-row r lines line e = elim (Bool-cases (text_eq r.status (codes "active"))) [
  | inl h ↦ rw (e, first_active, h) refl
  | inr h ↦ rw (e, first_active, h) refl
]

-- Of the rows that varnishd lists, the name on the first one with the status "active" is taken,
-- and no name if no row is active: whatever the names look like, however wide each gap between two
-- columns of each row, and whatever columns labels add behind a name. The columns are not empty
-- and have no white space.
pub active_name-print_rows :
    (rs : List Row)
    → All (λ r. All IsColumn (columns r)) rs
    → active_name (print_rows rs) ≡ active_row rs
unfolding active_name first_active split_lines fields fields_by row_name
active_name-print_rows [] h = refl
active_name-print_rows (r ∷ rs) (c, h) =
    ap first_active (
      split_lines-append (print_columns r.gaps (columns r)) (print_rows rs)
        (columns-HasNoNewline r.gaps (columns r) c))
    ∙ first_active-row r (split_lines (print_rows rs)) (print_columns r.gaps (columns r))
        (fields-print_columns r.gaps (columns r) c)
    ∙ ap (λ o. if text_eq r.status (codes "active") then some r.name else o)
        (active_name-print_rows rs h)
