-- ===== src/Tracer/Vsl/Parser.antt =====
-- internal/tracer/vsl/vsl.go, `Parser`. `byLevel` points to the nodes on the rightmost path of the
-- pending group: an open node is the last child of the open node above it, so the state is the
-- list of these nodes, outermost first, each without its open child. There is a pending group
-- exactly when the list is not empty.
use cloud_vinyl.Prelude.{
  ℕ, zero, suc, ◌-◌, Bool, true, false, Option, none, some, List, [], ◌∷◌, ◌++◌, map, ltb, ◌==◌,
  if◌then◌else◌, length, Text,
}
use cloud_vinyl.Tracer.Vsl.{Record, Tx, tx, Txs, nil, cons}
use cloud_vinyl.Tracer.Vsl.Lines.{Line, blank, other, group_line, record_line, classify}

pub record Open : Type 0 where
  pub type : Text
  pub vxid : ℕ
  pub records : List Record
  pub children : Txs

abbrev pub opened : Text → ℕ → Open
opened type vxid = record { type = type; vxid = vxid; records = []; children = nil }

unfoldable pub append_txs : Txs → Txs → Txs
append_txs nil ys = ys
append_txs (cons x xs) ys = cons x (append_txs xs ys)

-- The open nodes as a group.
unfoldable pub shut : List Open → Txs
unfolding append_txs
shut [] = nil
shut (o ∷ os) = cons (tx o.type o.vxid o.records (append_txs o.children (shut os))) nil

-- `byLevel[:n]`: the nodes below the first n become children that are no longer open.
unfoldable pub close_to : ℕ → List Open → List Open
unfolding shut append_txs
close_to n [] = []
close_to zero (o ∷ os) = []
close_to (suc zero) (o ∷ os) = record o { children = append_txs o.children (shut os) } ∷ []
close_to (suc (suc n)) (o ∷ os) = o ∷ close_to (suc n) os

-- `byLevel[n]` gets a record, if there is such a node.
unfoldable pub add_record : ℕ → Record → List Open → List Open
add_record n r [] = []
add_record zero r (o ∷ os) = record o { records = o.records ++ r ∷ [] } ∷ os
add_record (suc n) r (o ∷ os) = o ∷ add_record n r os

-- A line within the pending group: a group below the top, or a record. A group of level `level`
-- needs a node at `level - 2`; there is no record of level 0.
unfoldable pub within_group : Line → List Open → List Open
unfolding close_to add_record
within_group (group_line level type vxid) os =
    if ltb (level - 2) (length os) then close_to (level - 1) os ++ opened type vxid ∷ [] else os
within_group (record_line level tag payload) os =
    add_record (level - 1) (record { tag = tag; payload = payload }) os
within_group blank os = os
within_group other os = os

-- The pending group, finished.
unfoldable pub finished : List Open → Option Tx
unfolding append_txs shut
finished [] = none
finished (o ∷ os) = some (tx o.type o.vxid o.records (append_txs o.children (shut os)))

abbrev pub is_top : Line → Bool
is_top (group_line level type vxid) = level == 1
is_top _ = false

abbrev pub is_blank : Line → Bool
is_blank blank = true
is_blank _ = false

-- What a top-level group line opens.
abbrev pub opened_by : Line → List Open
opened_by (group_line level type vxid) = opened type vxid ∷ []
opened_by _ = []

-- The result of `Next`: a group or EOF, the open nodes and the lines still to be read.
abbrev pub Scanned : Type 0
Scanned = Option Tx × List Open × List Line

-- `Next` on the lines that the Scanner has left. A line that ends a pending group is consumed.
unfoldable pub next : List Open → List Line → Scanned
unfolding finished within_group
next os [] = (finished os, [], [])
next os (line ∷ lines) =
    let reset = next (opened_by line) lines in
    let go_on = next os lines in
    let inside = next (within_group line os) lines in
    if is_blank line
    then elim os [ [] ↦ go_on | o ∷ rest ↦ (finished (o ∷ rest), [], lines) ]
    else if is_top line
    then elim os [ [] ↦ reset | o ∷ rest ↦ (finished (o ∷ rest), opened_by line, lines) ]
    else inside

-- All groups of the input, by at most `fuel` calls of `Next`; EOF ends the calls.
unfoldable pub groups_from : ℕ → List Open → List Line → List Tx
unfolding next
groups_from zero os lines = []
groups_from (suc fuel) os lines =
    let (found, os', lines') = next os lines in
    let rest = groups_from fuel os' lines' in elim found [ none ↦ [] | some t ↦ t ∷ rest ]

unfoldable pub parse_lines : List Text → List Tx
unfolding groups_from classify
parse_lines lines = groups_from (suc (length lines)) [] (map classify lines)
