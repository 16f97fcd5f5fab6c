-- ===== src/Agent/Admin/Injection.antt =====
-- A ban from the proxy's check (internal/proxy/ban_allowlist.go) to the lines that varnishd reads
-- (internal/agent/admin.go).
use cloud_vinyl.Prelude.{
  ℕ, ◌≡◌, refl, ap, ◌∙◌, false, none, [], ◌∷◌, ◌++◌, append_assoc, arith, ◌==◌, All-append, Text,
  codes, is_regexp_space, fields_by, fields_by-token,
}
use cloud_vinyl.Agent.VclList.{split_lines}
use cloud_vinyl.Agent.VclList.Laws.{HasNoNewline, split_lines-append}
use cloud_vinyl.Agent.Admin.{ban_command, command}
use cloud_vinyl.Proxy.BanExpression.{
  validate_ban_expression, operands, check_operands, is_wildcard, allowed_prefix, IsWord, matches,
  checked, not_blank,
}

-- "obj.http.<name> ~" and the pattern on a line of its own
abbrev pub two_line_ban : Text → Text → Text
two_line_ban name word = (allowed_prefix ++ name) ++ (b' ' ∷ (b'~' ∷ (10 ∷ word)))

fields-two_line_ban :
    (name : Text) (c : ℕ) (rhs : Text)
    → IsWord name
    → IsWord (c ∷ rhs)
    → fields_by is_regexp_space [] (two_line_ban name (c ∷ rhs))
      ≡ (allowed_prefix ++ name) ∷ codes "~" ∷ (c ∷ rhs) ∷ []
unfolding is_regexp_space
fields-two_line_ban name c rhs hn hr =
    (fields_by-token is_regexp_space b'o' (codes "bj.http." ++ name) b' ' (b'~' ∷ (10 ∷ (c ∷ rhs)))
      (refl, (refl, (refl, (refl, (refl, (refl, (refl, (refl, (refl, hn))))))))) refl).0
    ∙ ap (◌∷◌ (allowed_prefix ++ name)) (
        (fields_by-token is_regexp_space b'~' [] 10 (c ∷ rhs) (refl, tt) refl).0
        ∙ ap (◌∷◌ (codes "~")) (fields_by-token is_regexp_space c rhs b' ' [] hr refl).1)

word-HasNoNewline : (t : Text) → IsWord t → HasNoNewline t
unfolding is_regexp_space
word-HasNoNewline [] h = tt
word-HasNoNewline (c ∷ t) h = (ground (arith, h), word-HasNoNewline t h.1)

accepts-two_line_ban :
    (name : Text) (c : ℕ) (rhs : Text)
    → IsWord name
    → IsWord (c ∷ rhs)
    → is_wildcard (c ∷ rhs) ≡ false
    → validate_ban_expression (two_line_ban name (c ∷ rhs)) ≡ none
unfolding validate_ban_expression
accepts-two_line_ban name c rhs hn hr narrow =
    rw (not_blank (codes "bj.http." ++ (name ++ (b' ' ∷ (b'~' ∷ (10 ∷ (c ∷ rhs))))))) (
      ap (λ ts. check_operands (operands ts)) (fields-two_line_ban name c rhs hn hr)
      ∙ checked name matches (c ∷ rhs)
      ∙ rw (narrow) refl)

first_command : Text → Text
first_command name = codes "ban obj.http." ++ (name ++ codes " ~")

first_command-HasNoNewline : (name : Text) → IsWord name → HasNoNewline (first_command name)
unfolding first_command
first_command-HasNoNewline name hn =
    All-append (λ c. (c == 10) ≡ false) (codes "ban obj.http.") (name ++ codes " ~")
      (
        refl,
        (
          refl,
          (
            refl,
            (refl, (refl, (refl, (refl, (refl, (refl, (refl, (refl, (refl, (refl, tt)))))))))),
          ),
        ),
      )
      (All-append (λ c. (c == 10) ≡ false) name (codes " ~") (word-HasNoNewline name hn)
        (refl, (refl, tt)))

ban_command-two_lines :
    (name word : Text)
    → ban_command (two_line_ban name word) ≡ first_command name ++ (10 ∷ (word ++ (10 ∷ [])))
unfolding ban_command command first_command
ban_command-two_lines name word = simp (append_assoc)

empty_line : split_lines [] ≡ [] ∷ []
unfolding split_lines
empty_line = refl

-- What the proxy accepts as one ban can reach varnishd as two commands: the white space between
-- the operands may be a newline, and then the pattern, any word but `.` and `.*`, stands on a line
-- of its own.
pub ban_command-splits :
    (name : Text) (c : ℕ) (rhs : Text)
    → IsWord name
    → IsWord (c ∷ rhs)
    → is_wildcard (c ∷ rhs) ≡ false
    → (validate_ban_expression (two_line_ban name (c ∷ rhs)) ≡ none)
      × (split_lines (ban_command (two_line_ban name (c ∷ rhs)))
          ≡ (codes "ban obj.http." ++ (name ++ codes " ~")) ∷ (c ∷ rhs) ∷ [] ∷ [])
unfolding first_command
ban_command-splits name c rhs hn hr narrow = (
  accepts-two_line_ban name c rhs hn hr narrow,
  ap split_lines (ban_command-two_lines name (c ∷ rhs))
      ∙ split_lines-append (first_command name) ((c ∷ rhs) ++ (10 ∷ []))
          (first_command-HasNoNewline name hn)
      ∙ ap (◌∷◌ (first_command name)) (
          split_lines-append (c ∷ rhs) [] (word-HasNoNewline (c ∷ rhs) hr)
          ∙ ap (◌∷◌ (c ∷ rhs)) empty_line),
)
