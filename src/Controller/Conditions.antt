-- ===== src/Controller/Conditions.antt =====
-- internal/controller/status.go: the conditions of a VinylCache.
use cloud_vinyl.Prelude.{
  ℕ, ◌≡◌, refl, ◌≢◌, ◌||◌, Option, none, some, List, [], ◌∷◌, arith, if◌then◌else◌, elem, Distinct,
  Text, codes, text_dec, text_eq,
}

pub record Condition : Type 0 where
  pub condition_type : Text
  pub status : Text
  pub reason : Text
  pub message : Text
  pub last_transition_time : ℕ
  pub observed_generation : ℕ

abbrev pub condition_true : Text
condition_true = codes "True"

abbrev pub condition_false : Text
condition_false = codes "False"

-- A call of `setCondition`, its time and the generation of the object included.
pub record Setting : Type 0 where
  pub condition_type : Text
  pub status : Text
  pub reason : Text
  pub message : Text
  pub now : ℕ
  pub generation : ℕ

abbrev pub written : Setting → ℕ → Condition
written s time = record {
  condition_type = s.condition_type;
  status = s.status;
  reason = s.reason;
  message = s.message;
  last_transition_time = time;
  observed_generation = s.generation;
}

unfoldable pub set_condition : List Condition → Setting → List Condition
set_condition [] s = written s s.now ∷ []
set_condition (c ∷ cs) s =
    let rest = set_condition cs s in
    if text_eq c.condition_type s.condition_type
    then written s (if text_eq c.status s.status then c.last_transition_time else s.now) ∷ cs
    else c ∷ rest

unfoldable pub find_condition : List Condition → Text → Option Condition
find_condition [] t = none
find_condition (c ∷ cs) t =
    let rest = find_condition cs t in if text_eq c.condition_type t then some c else rest

abbrev pub status_of : Option Condition → Text
status_of none = []
status_of (some c) = c.status

unfoldable pub find_condition_status : List Condition → Text → Text
unfolding find_condition
find_condition_status cs t = status_of (find_condition cs t)

abbrev pub types : List Condition → List Text
types [] = []
types (c ∷ cs) = c.condition_type ∷ types cs

-- When the condition that a setting leaves last changed its status.
abbrev pub transition_time : Option Condition → Setting → ℕ
transition_time none s = s.now
transition_time (some c) s = if text_eq c.status s.status then c.last_transition_time else s.now

-- What is set is found, with the old transition time exactly if the status stays the same.
pub find_condition-set_condition :
    (cs : List Condition) (s : Setting)
    → find_condition (set_condition cs s) s.condition_type
      ≡ some (written s (transition_time (find_condition cs s.condition_type) s))
unfolding find_condition set_condition
find_condition-set_condition [] s = ground arith
find_condition-set_condition (c ∷ cs) s = ground (arith, find_condition-set_condition cs s)

-- No other condition is changed.
pub find_condition-set_condition_ne :
    (cs : List Condition) (s : Setting) (t : Text)
    → t ≢ s.condition_type
    → find_condition (set_condition cs s) t ≡ find_condition cs t
unfolding find_condition set_condition
find_condition-set_condition_ne [] s t ne = ground arith
find_condition-set_condition_ne (c ∷ cs) s t ne =
    ground (arith, find_condition-set_condition_ne cs s t ne)

elem-set_condition :
    (cs : List Condition) (s : Setting) (t : Text)
    → elem text_dec t (types (set_condition cs s))
      ≡ (elem text_dec t (types cs) || text_eq t s.condition_type)
unfolding set_condition
elem-set_condition [] s t = ground arith
elem-set_condition (c ∷ cs) s t = ground (arith, elem-set_condition cs s t)

-- Setting a condition lists no type of condition twice, if none was before.
set_condition-Distinct :
    (cs : List Condition) (s : Setting)
    → Distinct text_dec (types cs)
    → Distinct text_dec (types (set_condition cs s))
unfolding set_condition
set_condition-Distinct [] s d = (refl, tt)
set_condition-Distinct (c ∷ cs) s (fresh, d) =
    ground
      (arith, fresh, d, elem-set_condition cs s c.condition_type, set_condition-Distinct cs s d)
