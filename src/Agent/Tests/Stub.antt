-- ===== src/Agent/Tests/Stub.antt =====
-- A varnishd that speaks the protocol, with which the agent is run.
use cloud_vinyl.Prelude.{
  pos, ℕ, ◌<◌, ◌≡◌, refl, sym, ap, ◌∙◌, Bool, true, false, not, Option, none, some, List, [], ◌∷◌,
  ◌++◌, arith, ℕ_discrete, if◌then◌else◌, length, All, Text, codes, text_dec, text_eq, has_prefix,
  is_space, fields_by, fields, trim_left, trim_right, trim_space, is_digit, digits_value,
  parse_uint, i64_max, positive_int, atoi, next_digits, digits, decimal,
}
use cloud_vinyl.Agent.Protocol.{Read, response, read_response, print_response}
use cloud_vinyl.Agent.VclList.{active_name, split_lines}
use cloud_vinyl.Agent.VclList.Laws.{Row, columns, IsColumn, print_rows, active_row}
use cloud_vinyl.Agent.Admin.{
  Varnishd, World, vcl_list, vcl_inline, vcl_use, ban_command, named, done, failed, failed_code,
  failure_text, active_vcl, load_vcl, push_vcl,
}
use cloud_vinyl.Agent.Admin.Laws.{Answers, Speaks, read_response-printed}
use cloud_vinyl.Agent.Admin.Duplicate.{is_listed, Refuses}

-- A varnishd that has its own VCL, or another one too, or uses that.
pub data Daemon : Type 0 where
  boot_only loaded used : Daemon

abbrev pub app : Text
app = codes "app"

-- The state, and which of two challenges the next connection gets.
abbrev pub Varnish : Type 0
Varnish = Daemon × Bool

-- Columns are aligned: the gap behind the status depends on the row.
abbrev row_of : ℕ → Text → Text → Row
row_of gap status name = record {
  status = status;
  state = codes "auto";
  temperature = codes "warm";
  busy = codes "0";
  name = name;
  trailing = [];
  gaps = gap ∷ 2 ∷ 2 ∷ 2 ∷ [];
}

abbrev pub daemon_rows : Daemon → List Row
daemon_rows boot_only = row_of 2 (codes "active") (codes "boot") ∷ []
daemon_rows loaded =
    row_of 5 (codes "active") (codes "boot") ∷ row_of 2 (codes "available") app ∷ []
daemon_rows used = row_of 2 (codes "available") (codes "boot") ∷ row_of 5 (codes "active") app ∷ []

abbrev pub already : Text
already = codes "Already a VCL named app"

abbrev using : Daemon → Text × Daemon
using boot_only = (print_response 6 106 (codes "No VCL named app"), boot_only)
using loaded = (print_response 7 200 [], used)
using used = (print_response 7 200 [], used)

abbrev loading : Daemon → Text × Daemon
loading boot_only = (print_response 7 200 [], loaded)
loading loaded = (print_response 6 106 already, loaded)
loading used = (print_response 6 106 already, used)

abbrev answering : Text × Daemon → Bool → Option (Text × Varnish)
answering r b = some (r.0, (r.1, b))

abbrev daemon_hear : Varnish → Text → Option (Text × Varnish)
daemon_hear s line =
    if text_eq line vcl_list
    then answering (print_response 6 200 (print_rows (daemon_rows s.0)), s.0) s.1
    else if text_eq line (vcl_use app)
    then answering (using s.0) s.1
    else if has_prefix line (codes "vcl.inline app ")
    then answering (loading s.0) s.1
    else answering (print_response 7 200 [], s.0) (not s.1)

abbrev challenge : Bool → Text
challenge true = codes "0123456789abcdef0123456789abcdef"
challenge false = codes "fedcba9876543210fedcba9876543210"

abbrev banner_of : Bool → Text
banner_of b = challenge b ++ (10 ∷ (codes "Authentication required." ++ (10 ∷ [])))

abbrev pub daemon : Varnishd Varnish
daemon = record { dial = λ s. some (print_response 6 107 (banner_of s.1)); hear = daemon_hear }

abbrev pub hash : Text → Text
hash t = codes "00"

-- What runs of the agent compute with.
running_agent : Unit {0}
unfolding text_dec ℕ_discrete has_prefix vcl_use vcl_inline ban_command
    cloud_vinyl.Agent.Admin.command cloud_vinyl.Agent.Admin.auth_line trim_space trim_left
    trim_right is_space split_lines cloud_vinyl.Agent.Admin.challenge_of
    cloud_vinyl.Agent.Admin.first_line
running_agent = tt

-- What whole calls compute with.
unfoldable pub calling_agent : Unit {0}
unfolding running_agent push_vcl active_vcl load_vcl cloud_vinyl.Agent.Admin.use_vcl
    cloud_vinyl.Agent.Admin.send cloud_vinyl.Agent.Admin.connect cloud_vinyl.Agent.Admin.greet
    cloud_vinyl.Agent.Admin.authenticated cloud_vinyl.Agent.Admin.talk cloud_vinyl.Agent.Admin.reply
    cloud_vinyl.Agent.Admin.send_on cloud_vinyl.Agent.Admin.outcome_of
    cloud_vinyl.Agent.Admin.is_code cloud_vinyl.Agent.Admin.active_of
    cloud_vinyl.Agent.Admin.answer_of active_name cloud_vinyl.Agent.VclList.first_active
    cloud_vinyl.Agent.VclList.row_name read_response print_response
    cloud_vinyl.Agent.Protocol.read_line cloud_vinyl.Agent.Protocol.read_header
    cloud_vinyl.Agent.Protocol.read_numbers cloud_vinyl.Agent.Protocol.read_body
    cloud_vinyl.Agent.Protocol.read_full fields fields_by atoi positive_int parse_uint digits_value
    is_digit decimal digits next_digits
calling_agent = tt

abbrev heard : Option (Text × Varnish) → Text
heard none = []
heard (some x) = x.0

abbrev landed : Option (Text × Varnish) → Daemon
landed none = boot_only
landed (some x) = x.1.0

uses_app :
    (d : Daemon) (b : Bool) (s' : Varnish) (bytes body rest : Text)
    → daemon_hear (d, b) (vcl_use app) ≡ some (bytes, s')
    → read_response bytes ≡ response (pos 200) body rest
    → active_row (daemon_rows s'.0) ≡ some app
unfolding running_agent
uses_app boot_only b s' bytes body rest e r =
    let refusal = codes "No VCL named app" in
    let two : response (pos 106) refusal [] ≡ response (pos 200) body rest =
      sym (read_response-printed 6 106 refusal (omega arith) (omega arith))
      ∙ ap (λ o. read_response (heard o)) e
      ∙ r in
    absurd (ground (arith, two))
uses_app loaded b s' bytes body rest e r = ap (λ o. active_row (daemon_rows (landed o))) (sym e)
uses_app used b s' bytes body rest e r = ap (λ o. active_row (daemon_rows (landed o))) (sym e)

pub daemon_columns : (s : Daemon) → All (λ r. All IsColumn (columns r)) (daemon_rows s)
unfolding running_agent
daemon_columns boot_only = ground arith
daemon_columns loaded = ground arith
daemon_columns used = ground arith

daemon_rows_fit : (s : Daemon) → length (print_rows (daemon_rows s)) < i64_max
daemon_rows_fit boot_only = omega arith
daemon_rows_fit loaded = omega arith
daemon_rows_fit used = omega arith

banner_fit : (b : Bool) → length (banner_of b) < i64_max
banner_fit true = omega arith
banner_fit false = omega arith

unfoldable pub daemon_speaks : Speaks daemon hash (codes "s") app
unfolding running_agent daemon_rows_fit uses_app banner_fit
daemon_speaks = record {
  rows = λ s. daemon_rows s.0;
  banner = λ s. banner_of s.1;
  banner_padding = λ s. 6;
  welcome = λ s. [];
  greets = λ s. refl;
  admits = λ s. record {
    padding = 7;
    later = (s.0, not s.1);
    hears = refl;
    fits = omega arith;
    kept = refl;
  };
  lists =
      λ s. record { padding = 6; later = s; hears = refl; fits = daemon_rows_fit s.0; kept = refl };
  uses = λ s. uses_app s.0 s.1;
  has_columns = λ s. daemon_columns s.0;
  banner_fits = λ s. banner_fit s.1;
}

loading_refused :
    (d : Daemon) (b : Bool) (vcl : Text)
    → is_listed app (daemon_rows d) ≡ true
    → Answers daemon hash (codes "s") (λ s. daemon_rows s.0) (d, b) (vcl_inline app vcl) 106 already
unfolding running_agent
loading_refused boot_only b vcl h = absurd (ground (arith, h))
loading_refused loaded b vcl h = record {
  padding = 6;
  later = (loaded, b);
  hears = refl;
  fits = omega arith;
  kept = refl;
}
loading_refused used b vcl h = record {
  padding = 6;
  later = (used, b);
  hears = refl;
  fits = omega arith;
  kept = refl;
}

pub daemon-Refuses : Refuses daemon hash (codes "s") app [] (λ s. daemon_rows s.0)
daemon-Refuses = record { refuses = λ s vcl h. loading_refused s.0 s.1 vcl h }

abbrev pub booted : World Varnish
booted = record { daemon = (boot_only, true); sent = [] }
