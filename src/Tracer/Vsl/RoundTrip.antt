-- ===== src/Tracer/Vsl/RoundTrip.antt =====
-- The parser reads back the lines of a transaction group: its line, its records, then
-- its children one level deeper, and a blank line behind a top-level group.
use cloud_vinyl.Prelude.{
  ℕ, zero, suc, ◌≤◌, ◌<◌, ◌≡◌, refl, sym, ap, ◌∙◌, false, none, some, List, [], ◌∷◌, ◌++◌,
  append-nil, append_assoc, arith, length, length-append, All, All-append,
}
use cloud_vinyl.Tracer.Vsl.{Record, Tx, tx, Txs, nil, cons}
use cloud_vinyl.Tracer.Vsl.Lines.{Line, blank, group_line}
use cloud_vinyl.Tracer.Vsl.Parser.{
  Scanned, Open, opened, append_txs, shut, close_to, add_record, within_group, finished, is_top,
  is_blank, next, groups_from,
}
use cloud_vinyl.Tracer.Vsl.Spine.{
  print_records, print_txs, append_txs-nil, inside, inside-append, IsOpen, inside-IsOpen,
  children_read,
}

unfoldable pub print_group : Tx → List Line
unfolding print_records print_txs
print_group (tx type vxid records children) =
    group_line 1 type vxid ∷ (print_records 1 records ++ print_txs 2 children)

unfoldable pub print_groups : List Tx → List Line
unfolding print_group
print_groups [] = []
print_groups (t ∷ ts) = print_group t ++ (blank ∷ print_groups ts)

-- A line that neither ends a group nor begins a top-level one.
abbrev IsInner : Line → Type 0
IsInner l = (is_blank l ≡ false) × (is_top l ≡ false)

print_records-All : (level : ℕ) (rs : List Record) → All IsInner (print_records level rs)
unfolding print_records
print_records-All level [] = tt
print_records-All level (r ∷ rs) = ((refl, refl), print_records-All level rs)

print_txs-All : (level : ℕ) (ts : Txs) → All IsInner (print_txs (suc (suc level)) ts)
unfolding print_txs
print_txs-All level nil = tt
print_txs-All level (cons (tx type vxid records children) ts) = (
  (refl, ground arith),
  All-append IsInner (print_records (suc (suc level)) records)
      (print_txs (suc (suc (suc level))) children ++ print_txs (suc (suc level)) ts)
      (print_records-All (suc (suc level)) records)
      (All-append IsInner (print_txs (suc (suc (suc level))) children)
        (print_txs (suc (suc level)) ts) (print_txs-All (suc level) children)
        (print_txs-All level ts)),
)

next-inside :
    (os : List Open) (ls rest : List Line)
    → All IsInner ls
    → next os (ls ++ rest) ≡ next (inside os ls) rest
unfolding next inside
next-inside os [] rest h = refl
next-inside os (l ∷ ls) rest ((b, t), h) = rw (b, t) (next-inside (within_group l os) ls rest h)

finished-close_to : (os : List Open) → finished (close_to 1 os) ≡ finished os
unfolding finished close_to shut
finished-close_to [] = refl
finished-close_to (o ∷ os) = rw (append_txs-nil (append_txs o.children (shut os))) refl

next-blank :
    (os : List Open) (rest : List Line)
    → IsOpen os
    → next os (blank ∷ rest) ≡ (finished os, [], rest)
unfolding next
next-blank [] rest h = absurd (omega (arith, h))
next-blank (o ∷ os) rest h = refl

top_records :
    (rs : List Record) (p : Open)
    → inside (p ∷ []) (print_records 1 rs) ≡ record p { records = p.records ++ rs } ∷ []
unfolding inside print_records within_group add_record
top_records [] p = rw (append-nil p.records) refl
top_records (r ∷ rs) p =
    top_records rs (record p { records = p.records ++ r ∷ [] })
    ∙ ap (λ x. record p { records = x } ∷ []) (append_assoc p.records (r ∷ []) rs)

-- One call of `Next` reads back one printed group and leaves the lines behind its blank line.
next-print_group :
    (t : Tx) (rest : List Line) → next [] (print_group t ++ (blank ∷ rest)) ≡ (some t, [], rest)
unfolding next print_group
next-print_group (tx type vxid records children) rest =
    let o = opened type vxid in
    let p : Open = record { type = type; vxid = vxid; records = records; children = nil } in
    let ls = print_records 1 records ++ print_txs 2 children in
    let inner =
      All-append IsInner (print_records 1 records) (print_txs 2 children)
        (print_records-All 1 records) (print_txs-All 0 children) in
    let open_ = inside-IsOpen (o ∷ []) ls (omega arith) in
    let same : inside (o ∷ []) ls ≡ inside (p ∷ []) (print_txs 2 children) =
      inside-append (o ∷ []) (print_records 1 records) (print_txs 2 children)
      ∙ ap (λ s. inside s (print_txs 2 children)) (top_records records o) in
    let whole : finished (inside (o ∷ []) ls) ≡ some (tx type vxid records children) =
      ap finished same
      ∙ sym (finished-close_to (inside (p ∷ []) (print_txs 2 children)))
      ∙ ap finished (children_read children p [])
      ∙ ap (λ c. some (tx type vxid records c)) (append_txs-nil children) in
    next-inside (o ∷ []) ls (blank ∷ rest) inner
    ∙ next-blank (inside (o ∷ []) ls) rest open_
    ∙ ap (λ x. (x, [], rest)) whole

-- What is read behind one call of `Next`.
abbrev read_on : ℕ → Scanned → List Tx
read_on fuel (found, os, lines) = elim found [ none ↦ [] | some t ↦ t ∷ groups_from fuel os lines ]

groups_from-next :
    (fuel : ℕ) (os : List Open) (lines : List Line)
    → groups_from (suc fuel) os lines ≡ read_on fuel (next os lines)
unfolding groups_from
groups_from-next fuel os lines = refl

-- Reading all that is printed of a list of groups gives just these groups, with a call of `Next`
-- for each and at least one for EOF.
pub groups_from-print_groups :
    (fuel : ℕ) (ts : List Tx) → length ts < fuel → groups_from fuel [] (print_groups ts) ≡ ts
unfolding groups_from print_groups
groups_from-print_groups zero ts h = absurd (omega (arith, h))
groups_from-print_groups (suc fuel) [] h = refl
groups_from-print_groups (suc fuel) (t ∷ ts) h =
    groups_from-next fuel [] (print_groups (t ∷ ts))
    ∙ ap (read_on fuel) (next-print_group t (print_groups ts))
    ∙ ap (λ x. t ∷ x) (groups_from-print_groups fuel ts (omega (arith, h)))

print_group-length : (t : Tx) → 0 < length (print_group t)
unfolding print_group
print_group-length (tx type vxid records children) = omega arith

-- There are at least as many lines as groups.
pub print_groups-length : (ts : List Tx) → length ts ≤ length (print_groups ts)
unfolding print_groups
print_groups-length [] = omega arith
print_groups-length (t ∷ ts) = omega (
  arith,
  print_groups-length ts,
  print_group-length t,
  length-append (print_group t) (blank ∷ print_groups ts),
)
