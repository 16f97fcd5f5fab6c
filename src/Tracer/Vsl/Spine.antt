-- ===== src/Tracer/Vsl/Spine.antt =====
-- The lines of a group below the top, and the open nodes of the parser while it reads them.
use cloud_vinyl.Prelude.{
  ℕ, zero, suc, ◌-◌, ◌<◌, ◌≡◌, refl, sym, ap, ◌∙◌, List, [], ◌∷◌, ◌++◌, append-nil, append_assoc,
  arith, length, length-append, Text,
}
use cloud_vinyl.Tracer.Vsl.{Record, tx, Txs, nil, cons}
use cloud_vinyl.Tracer.Vsl.Lines.{Line, blank, other, group_line, record_line}
use cloud_vinyl.Tracer.Vsl.Parser.{
  Open, opened, append_txs, shut, close_to, add_record, within_group,
}

unfoldable pub print_records : ℕ → List Record → List Line
print_records level [] = []
print_records level (r ∷ rs) = record_line level r.tag r.payload ∷ print_records level rs

unfoldable pub print_txs : ℕ → Txs → List Line
unfolding print_records
print_txs level nil = []
print_txs level (cons (tx type vxid records children) ts) =
    group_line level type vxid
    ∷ (print_records level records ++ (print_txs (suc level) children ++ print_txs level ts))

pub append_txs-nil : (xs : Txs) → append_txs xs nil ≡ xs
unfolding append_txs
append_txs-nil nil = refl
append_txs-nil (cons x xs) = ap (cons x) (append_txs-nil xs)

append_txs_assoc :
    (xs ys zs : Txs) → append_txs (append_txs xs ys) zs ≡ append_txs xs (append_txs ys zs)
unfolding append_txs
append_txs_assoc nil ys zs = refl
append_txs_assoc (cons x xs) ys zs = ap (cons x) (append_txs_assoc xs ys zs)

-- The lines of one group, read behind one another.
unfoldable pub inside : List Open → List Line → List Open
unfolding within_group
inside os [] = os
inside os (l ∷ ls) = inside (within_group l os) ls

pub inside-append :
    (os : List Open) (ls ms : List Line) → inside os (ls ++ ms) ≡ inside (inside os ls) ms
unfolding inside
inside-append os [] ms = refl
inside-append os (l ∷ ls) ms = inside-append (within_group l os) ls ms

abbrev pub IsOpen : List Open → Type 0
IsOpen os = 0 < length os

close_to-IsOpen : (n : ℕ) (os : List Open) → IsOpen os → IsOpen (close_to (suc n) os)
unfolding close_to
close_to-IsOpen n [] h = h
close_to-IsOpen zero (o ∷ os) h = omega arith
close_to-IsOpen (suc n) (o ∷ os) h = omega arith

add_record-length : (n : ℕ) (r : Record) (os : List Open) → length (add_record n r os) ≡ length os
unfolding add_record
add_record-length n r [] = refl
add_record-length zero r (o ∷ os) = refl
add_record-length (suc n) r (o ∷ os) = ap suc (add_record-length n r os)

within_group-IsOpen : (l : Line) (os : List Open) → IsOpen os → IsOpen (within_group l os)
unfolding within_group
within_group-IsOpen blank os h = h
within_group-IsOpen other os h = h
within_group-IsOpen (group_line level type vxid) os h =
    ground (arith, h, length-append (close_to (level - 1) os) (opened type vxid ∷ []))
within_group-IsOpen (record_line level tag payload) os h =
    omega (arith, h, add_record-length (level - 1) (record { tag = tag; payload = payload }) os)

pub inside-IsOpen : (os : List Open) (ls : List Line) → IsOpen os → IsOpen (inside os ls)
unfolding inside
inside-IsOpen os [] h = h
inside-IsOpen os (l ∷ ls) h = inside-IsOpen (within_group l os) ls (within_group-IsOpen l os h)

-- Behind an open node everything happens one level up.
shift_record_line :
    (k : ℕ) (r : Record) (o : Open) (os : List Open)
    → within_group (record_line (suc (suc k)) r.tag r.payload) (o ∷ os)
      ≡ o ∷ within_group (record_line (suc k) r.tag r.payload) os
unfolding within_group add_record
shift_record_line k r o os =
    let e : suc (suc k) - 1 ≡ suc k = omega arith in
    let f : suc k - 1 ≡ k = omega arith in rw (e, f) refl

shift_record :
    (k : ℕ) (rs : List Record) (o : Open) (os : List Open)
    → inside (o ∷ os) (print_records (suc (suc k)) rs) ≡ o ∷ inside os (print_records (suc k) rs)
unfolding inside print_records
shift_record k [] o os = refl
shift_record k (r ∷ rs) o os =
    ap (λ s. inside s (print_records (suc (suc k)) rs)) (shift_record_line k r o os)
    ∙ shift_record k rs o (within_group (record_line (suc k) r.tag r.payload) os)

shift_group :
    (k : ℕ) (type : Text) (vxid : ℕ) (o : Open) (os : List Open)
    → within_group (group_line (suc (suc (suc k))) type vxid) (o ∷ os)
      ≡ o ∷ within_group (group_line (suc (suc k)) type vxid) os
unfolding within_group close_to
shift_group k type vxid o os = ground arith

shift :
    (k : ℕ) (ts : Txs) (o : Open) (os : List Open)
    → inside (o ∷ os) (print_txs (suc (suc (suc k))) ts)
      ≡ o ∷ inside os (print_txs (suc (suc k)) ts)
unfolding inside print_txs
shift k nil o os = refl
shift k (cons (tx type vxid records children) ts) o os =
    let w = within_group (group_line (suc (suc k)) type vxid) os in
    let below = print_records (suc (suc k)) records in
    let w₁ = inside w below in
    let deeper = print_txs (suc (suc (suc k))) children in
    let w₂ = inside w₁ deeper in
    let r' = print_records (suc (suc (suc k))) records in
    let c' = print_txs (suc (suc (suc (suc k)))) children in
    let t' = print_txs (suc (suc (suc k))) ts in
    ap (λ s. inside s (r' ++ (c' ++ t'))) (shift_group k type vxid o os)
    ∙ inside-append (o ∷ w) r' (c' ++ t')
    ∙ ap (λ s. inside s (c' ++ t')) (shift_record (suc k) records o w)
    ∙ inside-append (o ∷ w₁) c' t'
    ∙ ap (λ s. inside s t') (shift (suc k) children o w₁)
    ∙ shift k ts o w₂
    ∙ ap (λ s. o ∷ s)
        (sym (
          inside-append w below (deeper ++ print_txs (suc (suc k)) ts)
          ∙ inside-append w₁ deeper (print_txs (suc (suc k)) ts)))

inside-print_records :
    (rs : List Record) (o p : Open)
    → inside (o ∷ p ∷ []) (print_records 2 rs) ≡ o ∷ record p { records = p.records ++ rs } ∷ []
unfolding inside print_records within_group add_record
inside-print_records [] o p = rw (append-nil p.records) refl
inside-print_records (r ∷ rs) o p =
    inside-print_records rs o (record p { records = p.records ++ r ∷ [] })
    ∙ ap (λ x. o ∷ record p { records = x } ∷ []) (append_assoc p.records (r ∷ []) rs)

shut-close_to : (os : List Open) → shut (close_to 1 os) ≡ shut os
unfolding shut close_to
shut-close_to [] = refl
shut-close_to (o ∷ os) = rw (append_txs-nil (append_txs o.children (shut os))) refl

-- Children that are read become children of the outermost open node, once all below it is closed.
pub children_read :
    (ts : Txs) (o : Open) (os : List Open)
    → close_to 1 (inside (o ∷ os) (print_txs 2 ts))
      ≡ record o { children = append_txs (append_txs o.children (shut os)) ts } ∷ []
unfolding inside print_txs close_to
children_read nil o os = rw (append_txs-nil (append_txs o.children (shut os))) refl
children_read (cons (tx type vxid records children) ts) o os =
    let o' : Open = record o { children = append_txs o.children (shut os) } in
    let t : Open = record { type = type; vxid = vxid; records = records; children = nil } in
    let deeper = print_txs 3 children in
    let rest = print_txs 2 ts in
    let s₃ = inside (t ∷ []) (print_txs 2 children) in
    let top : within_group (group_line 2 type vxid) (o ∷ os) ≡ o' ∷ opened type vxid ∷ [] =
      ground arith in
    let read : inside (o ∷ os) (print_txs 2 (cons (tx type vxid records children) ts))
        ≡ inside (o' ∷ s₃) rest =
      ap (λ s. inside s (print_records 2 records ++ (deeper ++ rest))) top
      ∙ inside-append (o' ∷ opened type vxid ∷ []) (print_records 2 records) (deeper ++ rest)
      ∙ ap (λ s. inside s (deeper ++ rest)) (inside-print_records records o' (opened type vxid))
      ∙ inside-append (o' ∷ t ∷ []) deeper rest
      ∙ ap (λ s. inside s rest) (shift 0 children o' (t ∷ [])) in
    let closed : shut s₃ ≡ cons (tx type vxid records children) nil =
      sym (shut-close_to s₃)
      ∙ ap shut (children_read children t [])
      ∙ ap (λ c. cons (tx type vxid records c) nil) (append_txs-nil children) in
    ap (close_to 1) read
    ∙ children_read ts o' s₃
    ∙ ap (λ c. record o { children = c } ∷ [])
        (ap (λ c. append_txs (append_txs o'.children c) ts) closed
          ∙ append_txs_assoc o'.children (cons (tx type vxid records children) nil) ts)
