-- ===== src/Tracer/Vsl/Tests.antt =====
-- Runs of the parser.
use cloud_vinyl.Prelude.{
  ℕ, ◌-◌, ◌≡◌, refl, List, [], ◌∷◌, arith, length, Text, codes, text_dec, is_digit, parse_uint,
  next_digits, digits, decimal,
}
use cloud_vinyl.Tracer.Vsl.{Tx, tx, nil, cons}
use cloud_vinyl.Tracer.Vsl.Lines.{Line, other, group_line}
use cloud_vinyl.Tracer.Vsl.Parser.{groups_from, parse_lines}
use cloud_vinyl.Tracer.Vsl.RoundTrip.{print_groups}
use cloud_vinyl.Tracer.Vsl.Print.{Layout, print_line}
use cloud_vinyl.Tracer.Vsl.Texts.{print_text}
use cloud_vinyl.Tracer.Vsl.Fuel.{groups_from-enough}

abbrev fetch : Tx
fetch = tx (codes "BeReq") 3 (record { tag = codes "BereqURL"; payload = codes "/a" } ∷ []) nil

abbrev request : Tx
request =
    tx (codes "Request") 2 (record { tag = codes "ReqURL"; payload = codes "/a b" } ∷ [])
      (cons fetch nil)

abbrev log_lines : List Text
log_lines =
    codes "*   << Request  >> 2"
    ∷ codes "-   ReqURL         /a b"
    ∷ codes "**  << BeReq    >> 3"
    ∷ codes "--  BereqURL       /a"
    ∷ codes "Log overrun"
    ∷ codes ""
    ∷ []

log_is_read : parse_lines log_lines ≡ request ∷ []
unfolding parse_lines text_dec is_digit parse_uint
log_is_read = refl

-- Types and tags are padded with blanks to columns.
abbrev columned : Line → Layout
columned l = record {
  behind_stars = 2;
  before_type = 0;
  behind_type = type_gap l;
  before_vxid = 0;
  behind_dashes = 2;
  behind_tag = 3;
}
  where
    type_gap : Line → ℕ
    type_gap (group_line level type vxid) = 9 - length type
    type_gap other_line = 0

fetch_printed :
    print_text columned (fetch ∷ [])
    ≡ codes "*   << BeReq     >> 3" ∷ codes "-   BereqURL    /a" ∷ [] ∷ []
unfolding print_groups print_line decimal digits next_digits
fetch_printed = refl

abbrev two_lines : List Line
two_lines = group_line 1 (codes "Request") 2 ∷ other ∷ []

groups_from-enough_example : groups_from 3 [] two_lines ≡ groups_from 9 [] two_lines
groups_from-enough_example = groups_from-enough 3 9 [] two_lines (omega arith) (omega arith)
