-- ===== src/Tracer/Vsl/Fuel.antt =====
-- `Next` consumes a line, or the pending group, for every group that it returns, so as many calls
-- as there are lines and one more read all of the input.
use cloud_vinyl.Prelude.{
  ℕ, zero, suc, ◌≤◌, ◌<◌, ◌≡◌, refl, ap, inl, inr, true, List, [], ◌∷◌, arith, Bool-cases, is_some,
  Option-cases, length,
}
use cloud_vinyl.Tracer.Vsl.Lines.{Line, blank, other, group_line, record_line}
use cloud_vinyl.Tracer.Vsl.Parser.{
  Open, Scanned, close_to, add_record, within_group, finished, is_top, is_blank, opened_by, next,
  groups_from,
}

-- The groups that can still come: one for each line, and the pending one.
abbrev pub left_over : List Open → List Line → ℕ
left_over [] lines = length lines
left_over (o ∷ os) lines = suc (length lines)

abbrev pub left_of : Scanned → ℕ
left_of (found, os, lines) = left_over os lines

-- What a call may do to the work that is left.
abbrev Consumes : ℕ → Scanned → Type 0
Consumes n r = (left_of r ≤ n) × (is_some r.0 ≡ true → left_of r < n)

left_over_le : (os : List Open) (lines : List Line) → left_over os lines ≤ suc (length lines)
left_over_le [] lines = omega arith
left_over_le (o ∷ os) lines = omega arith

within_group-nil : (l : Line) → within_group l [] ≡ []
unfolding within_group close_to add_record
within_group-nil blank = refl
within_group-nil other = refl
within_group-nil (group_line level type vxid) = ground arith
within_group-nil (record_line level tag payload) = refl

opened_by_left : (l : Line) (lines : List Line) → left_over (opened_by l) lines ≤ suc (length lines)
opened_by_left l lines = left_over_le (opened_by l) lines

next-Consumes : (os : List Open) (lines : List Line) → Consumes (left_over os lines) (next os lines)
unfolding next finished
next-Consumes [] [] = (omega arith, λ e. cc)
next-Consumes (o ∷ os) [] = (omega arith, λ e. omega arith)
next-Consumes [] (l ∷ ls) = elim (Bool-cases (is_blank l)) [
  | inl b ↦
      let (c, d) = next-Consumes [] ls in rw (b, next) (omega (arith, c), λ e. omega (arith, d e))
  | inr b ↦ elim (Bool-cases (is_top l)) [
    | inl t ↦
        let (c, d) = next-Consumes (opened_by l) ls in
        let e = opened_by_left l ls in
        rw (b, t, next) (omega (arith, c, e), λ h. omega (arith, d h, e))
    | inr t ↦
        let (c, d) = next-Consumes [] ls in
        rw (b, t, next, within_group-nil l) (omega (arith, c), λ h. omega (arith, d h))
  ]
]
next-Consumes (o ∷ os) (l ∷ ls) = elim (Bool-cases (is_blank l)) [
  | inl b ↦ rw (b, next) (omega arith, λ e. omega arith)
  | inr b ↦ elim (Bool-cases (is_top l)) [
    | inl t ↦
        let e = opened_by_left l ls in rw (b, t, next) (omega (arith, e), λ h. omega (arith, e))
    | inr t ↦
        let (c, d) = next-Consumes (within_group l (o ∷ os)) ls in
        let e = left_over_le (within_group l (o ∷ os)) ls in
        rw (b, t, next) (omega (arith, c, e), λ h. omega (arith, d h, e))
  ]
]

-- Any two numbers of calls that are greater than the number of groups that can still come, at most
-- one for each line and one pending, read the same groups.
pub groups_from-enough :
    (f g : ℕ) (os : List Open) (lines : List Line)
    → left_over os lines < f
    → left_over os lines < g
    → groups_from f os lines ≡ groups_from g os lines
unfolding groups_from
groups_from-enough zero g os lines h k = absurd (omega (arith, h))
groups_from-enough (suc f) zero os lines h k = absurd (omega (arith, k))
groups_from-enough (suc f) (suc g) os lines h k =
    let (_, consumed) = next-Consumes os lines in
    let r = next os lines in
    elim (Option-cases r.0) [
      | inl none_ ↦ rw (none_, groups_from) refl
      | inr (t, some_) ↦
          let less : left_of r < left_over os lines = consumed (rw some_ refl) in
          let ih =
            groups_from-enough f g r.1 r.2 (omega (arith, less, h)) (omega (arith, less, k)) in
          rw (some_, groups_from) (ap (λ x. t ∷ x) ih)
    ]
