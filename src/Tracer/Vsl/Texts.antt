-- ===== src/Tracer/Vsl/Texts.antt =====
-- The parser reads back the text that varnishlog prints of transaction groups.
use cloud_vinyl.Prelude.{List, [], ◌∷◌, Text}
use cloud_vinyl.Tracer.Vsl.{Tx}
use cloud_vinyl.Tracer.Vsl.Lines.{Line}
use cloud_vinyl.Tracer.Vsl.RoundTrip.{print_groups}
use cloud_vinyl.Tracer.Vsl.Print.{Layout, print_line}

-- The lines of text; how wide the gaps of a line are may depend on the line.
abbrev print_lines : (Line → Layout) → List Line → List Text
print_lines layout [] = []
print_lines layout (l ∷ ls) = print_line (layout l) l ∷ print_lines layout ls

abbrev pub print_text : (Line → Layout) → List Tx → List Text
print_text layout ts = print_lines layout (print_groups ts)
