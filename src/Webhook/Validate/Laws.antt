-- ===== src/Webhook/Validate/Laws.antt =====
-- What an accepted specification guarantees.
use cloud_vinyl.Prelude.{
  ◌≡◌, refl, sym, ap, ◌∙◌, inl, inr, ite, Bool, true, false, not, ◌&&◌, ◌||◌, List, [], ◌∷◌, ◌++◌,
  map, arith, Bool-cases, All, All-append, elem, Distinct, elem-append, Text, text_dec,
}
use cloud_vinyl.Webhook.Validate.Whole.{
  is_valid_vcl_identifier, check_backend, check_cidr, after_volumes, after_claims, check_volumes,
  validate_vinyl_cache, checks,
}
use cloud_vinyl.Webhook.Validate.{
  VolumeClaim, or_nil, reserved_volume, duplicate_volume, reserved_claim, duplicate_claim,
  bad_backend_name, bad_cidr, Spec, Packages, check_env, undeclared_mount, reserved_mount,
  forbidden_param, forbidden_params, path_conflicts_with_reserved, bad_param_key, check_param,
  is_valid_varnish_param_key, VolumeMount, check_mount, Violation, when, each, one_of,
  is_reserved_volume, declare,
}

append-nil_left : (xs ys : List Violation) → xs ++ ys ≡ [] → xs ≡ []
append-nil_left [] ys h = refl
append-nil_left (x ∷ xs) ys h = absurd (ground (arith, h))

append-nil_right : (xs ys : List Violation) → xs ++ ys ≡ [] → ys ≡ []
append-nil_right [] ys h = h
append-nil_right (x ∷ xs) ys h = absurd (ground (arith, h))

when-nil : (b : Bool) (v : Violation) → when b v ≡ [] → b ≡ false
when-nil true v h = absurd (ground (arith, h))
when-nil false v h = refl

no_violation : (b : Bool) (v : Violation) → when (not b) v ≡ [] → b ≡ true
no_violation true v h = refl
no_violation false v h = absurd (ground (arith, h))

each-All :
    {A : Type 0} (f : A → List Violation) (P : A → Type 0) (xs : List A)
    → ((x : A) → f x ≡ [] → P x)
    → each f xs ≡ []
    → All P xs
each-All f P [] g h = tt
each-All f P (x ∷ xs) g h = (
  g x (append-nil_left (f x) (each f xs) h),
  each-All f P xs g (append-nil_right (f x) (each f xs) h),
)

All-map :
    {A : Type 0} {P Q : A → Type 0} → ((x : A) → P x → Q x) → (xs : List A) → All P xs → All Q xs
All-map f [] h = tt
All-map f (x ∷ xs) (a, h) = (f x a, All-map f xs h)

or_false : (b : Bool) → (b || false) ≡ b
or_false true = refl
or_false false = refl

or_comm : (b c : Bool) → (b || c) ≡ (c || b)
or_comm b c = ground arith

-- A name that no other has, and that the operator does not reserve.
abbrev pub IsFree : Text → Type 0
IsFree n = is_reserved_volume n ≡ false

fresh_all :
    (n : Text) (ns declared : List Text)
    → All (λ m. one_of m (n ∷ declared) ≡ false) ns
    → (elem text_dec n ns ≡ false) × All (λ m. one_of m declared ≡ false) ns
fresh_all n [] declared h = (refl, tt)
fresh_all n (m ∷ ns) declared (a, h) = (
  ground (arith, a, fresh_all n ns declared h),
  (ground (arith, a), (fresh_all n ns declared h).1),
)

Distinct-append :
    (xs ys : List Text)
    → Distinct text_dec xs
    → Distinct text_dec ys
    → All (λ m. one_of m xs ≡ false) ys
    → Distinct text_dec (xs ++ ys)
Distinct-append [] ys dx dy h = dy
Distinct-append (x ∷ xs) ys (nx, dx) dy h =
    let f = fresh_all x ys xs h in
    (elem-append text_dec x xs ys ∙ rw (nx, f.0) refl, Distinct-append xs ys dx dy f.1)

module _ (reserved duplicate : Text → Violation) where
  record Declared (ns declared : List Text) : Type 0 where
    free : All IsFree ns
    distinct : Distinct text_dec ns
    fresh : All (λ n. one_of n declared ≡ false) ns

  declare-step :
      (n : Text) (ns declared : List Text)
      → (declare reserved duplicate (n ∷ ns) declared).0 ≡ []
      → IsFree n
        × (one_of n declared ≡ false)
        × (declare reserved duplicate (n ∷ ns) declared
            ≡ declare reserved duplicate ns (n ∷ declared))
  unfolding declare
  declare-step n ns declared h = elim (Bool-cases (is_reserved_volume n)) [
    | inl e ↦ absurd (ground (arith, h, e))
    | inr e ↦ elim (Bool-cases (one_of n declared)) [
      | inl d ↦ absurd (ground (arith, h, e, d))
      | inr d ↦ (e, d, rw (e, d) refl)
    ]
  ]

  declare-Declared :
      (ns declared : List Text)
      → (declare reserved duplicate ns declared).0 ≡ []
      → Declared ns declared
  unfolding declare
  declare-Declared [] declared h = record { free = tt; distinct = tt; fresh = tt }
  declare-Declared (n ∷ ns) declared h =
      let st = declare-step n ns declared h in
      let ih = declare-Declared ns (n ∷ declared) (sym (ap (λ x. x.0) st.2) ∙ h) in
      let f = fresh_all n ns declared ih.fresh in
      record { free = (st.0, ih.free); distinct = (f.0, ih.distinct); fresh = (st.1, f.1) }

  either :
      (q n : Text) (b c : Bool)
      → (b || ite (text_dec q n) true c) ≡ (ite (text_dec q n) true b || c)
  either q n b c = ground arith

  declare-elem :
      (q : Text) (ns declared : List Text)
      → (declare reserved duplicate ns declared).0 ≡ []
      → one_of q (declare reserved duplicate ns declared).1 ≡ (one_of q ns || one_of q declared)
  unfolding declare
  declare-elem q [] declared h = refl
  declare-elem q (n ∷ ns) declared h =
      let st = declare-step n ns declared h in
      ap (λ x. one_of q x.1) st.2
      ∙ declare-elem q ns (n ∷ declared) (sym (ap (λ x. x.0) st.2) ∙ h)
      ∙ either q n (one_of q ns) (one_of q declared)

check_env-Distinct :
    (seen es : List Text)
    → check_env seen es ≡ []
    → Distinct text_dec es × All (λ e. one_of e seen ≡ false) es
unfolding check_env
check_env-Distinct seen [] h = (tt, tt)
check_env-Distinct seen (e ∷ es) h = elim (Bool-cases (one_of e seen)) [
  | inl d ↦ absurd (ground (arith, h, d))
  | inr d ↦
      let ih = check_env-Distinct (e ∷ seen) es (ground (arith, h, d)) in
      let f = fresh_all e es seen ih.1 in ((f.0, ih.0), (d, f.1))
]

-- What holds of a mount: the operator mounts nothing at its path, above or below it, and its volume
-- is declared, by the object or by the operator.
abbrev pub IsPlaced : List Text → VolumeMount → Type 0
IsPlaced declared m =
    (path_conflicts_with_reserved m.mount_path ≡ false)
    × ((one_of m.name declared || is_reserved_volume m.name) ≡ true)

check_mount-IsPlaced :
    (declared : List Text) (m : VolumeMount) → check_mount declared m ≡ [] → IsPlaced declared m
unfolding check_mount
check_mount-IsPlaced declared m h =
    let a =
      when-nil (path_conflicts_with_reserved m.mount_path) (reserved_mount m.name)
        (append-nil_left _ _ h) in
    let b =
      when-nil (not (one_of m.name declared) && not (is_reserved_volume m.name))
        (undeclared_mount m.name) (append-nil_right _ _ h) in
    (a, either_true (one_of m.name declared) (is_reserved_volume m.name) b)
  where
    either_true : (x y : Bool) → (not x && not y) ≡ false → (x || y) ≡ true
    either_true x y e = ground (arith, e)

-- The parameter reaches the command line of varnishd as it is, and is not one that runs commands.
abbrev pub IsSafeParam : Text → Type 0
IsSafeParam k = (is_valid_varnish_param_key k ≡ true) × (one_of k forbidden_params ≡ false)

check_param-IsSafeParam : (k : Text) → check_param k ≡ [] → IsSafeParam k
unfolding check_param
check_param-IsSafeParam k h =
    let a = no_violation (is_valid_varnish_param_key k) (bad_param_key k) (append-nil_left _ _ h) in
    let b = when-nil (one_of k forbidden_params) (forbidden_param k) (append-nil_right _ _ h) in
    (a, b)

abbrev pub volume_names : Spec → List Text
volume_names vc = vc.volumes ++ map (λ c. c.name) vc.claims

module _ (p : Packages) where
  -- What is accepted.
  pub record IsAccepted (vc : Spec) : Type 0 where
    pub params : All IsSafeParam vc.varnish_params
    pub identifiers : All (λ b. is_valid_vcl_identifier p (p.runes b.name) ≡ true) vc.backends
    pub purge : All (λ c. p.is_cidr c ≡ true) (or_nil vc.purge_sources)
    pub ban : All (λ c. p.is_cidr c ≡ true) (or_nil vc.ban_sources)
    pub xkey : All (λ c. p.is_cidr c ≡ true) (or_nil vc.xkey_sources)
    pub distinct : Distinct text_dec (volume_names vc)
    pub free : All IsFree (volume_names vc)
    pub mounts : All (IsPlaced (volume_names vc)) vc.mounts
    pub env : Distinct text_dec vc.env

  cidrs : (cs : List Text) → each (check_cidr p) cs ≡ [] → All (λ c. p.is_cidr c ≡ true) cs
  unfolding check_cidr
  cidrs cs h =
      each-All (check_cidr p) (λ c. p.is_cidr c ≡ true) cs
        (λ c e. no_violation (p.is_cidr c) (bad_cidr c) e) h

  known_volume :
      (vc : Spec) (n : Text)
      → (after_volumes p vc).0 ≡ []
      → one_of n (after_volumes p vc).1 ≡ one_of n vc.volumes
  known_volume vc n h =
      declare-elem reserved_volume duplicate_volume n vc.volumes [] h
      ∙ or_false (one_of n vc.volumes)

  known :
      (vc : Spec) (n : Text)
      → (after_volumes p vc).0 ≡ []
      → (after_claims p vc).0 ≡ []
      → one_of n (volume_names vc) ≡ one_of n (after_claims p vc).1
  known vc n hv hc =
      elem-append text_dec n vc.volumes (map (λ c. c.name) vc.claims)
      ∙ sym (
          declare-elem reserved_claim duplicate_claim n (map (λ c. c.name) vc.claims)
            (after_volumes p vc).1 hc
          ∙ ap (λ b. one_of n (map (λ c. c.name) vc.claims) || b) (known_volume vc n hv)
          ∙ or_comm (one_of n (map (λ c. c.name) vc.claims)) (one_of n vc.volumes))

  -- The object's own volumes and its claims have different names, none of them the operator's,
  -- and every mount has a volume and a place.
  volumes_accepted :
      (vc : Spec)
      → check_volumes p vc ≡ []
      → Distinct text_dec (volume_names vc)
        × All IsFree (volume_names vc)
        × All (IsPlaced (volume_names vc)) vc.mounts
  unfolding check_volumes
  volumes_accepted vc h =
      let claims = map (λ (c : VolumeClaim). c.name) vc.claims in
      let h₁ = append-nil_right _ _ h in
      let dv = append-nil_left _ _ h in
      let dc = append-nil_left _ _ h₁ in
      let v = declare-Declared reserved_volume duplicate_volume vc.volumes [] dv in
      let c = declare-Declared reserved_claim duplicate_claim claims (after_volumes p vc).1 dc in
      (
        Distinct-append vc.volumes claims v.distinct c.distinct
            (All-map (λ n e. sym (known_volume vc n dv) ∙ e) claims c.fresh),
        All-append IsFree vc.volumes claims v.free c.free,
        each-All (check_mount (after_claims p vc).1) (IsPlaced (volume_names vc)) vc.mounts
            (λ m e.
              let q = check_mount-IsPlaced (after_claims p vc).1 m e in
              (q.0, ap (λ b. b || is_reserved_volume m.name) (known vc m.name dv dc) ∙ q.1))
            (append-nil_right _ _ h₁),
      )

  -- A specification in which the validation finds no violation has only well-formed varnishd
  -- parameters that are not forbidden, backend names that are VCL identifiers, allowed sources that
  -- are CIDRs, volumes and claims with different names of which none is the operator's, mounts of
  -- volumes that are declared or the operator's at paths that pass the textual test
  -- `pathConflictsWithReserved`, and different environment names.
  pub validate_vinyl_cache-IsAccepted : (vc : Spec) → validate_vinyl_cache p vc ≡ [] → IsAccepted vc
  unfolding validate_vinyl_cache checks check_backend
  validate_vinyl_cache-IsAccepted vc h =
      let (params, (_, (backends, (_, (_, (purge, (ban, (xkey, (volumes, (env, _)))))))))) =
        each-All (λ violations. violations) (λ violations. violations ≡ []) (checks p vc)
          (λ violations e. e) h in
      let v = volumes_accepted vc volumes in
      record {
        params = each-All check_param IsSafeParam vc.varnish_params check_param-IsSafeParam params;
        identifiers =
            each-All (check_backend p) (λ b. is_valid_vcl_identifier p (p.runes b.name) ≡ true)
              vc.backends
              (λ b e.
                no_violation (is_valid_vcl_identifier p (p.runes b.name)) (bad_backend_name b.name)
                  e)
              backends;
        purge = cidrs (or_nil vc.purge_sources) purge;
        ban = cidrs (or_nil vc.ban_sources) ban;
        xkey = cidrs (or_nil vc.xkey_sources) xkey;
        distinct = v.0;
        free = v.1;
        mounts = v.2;
        env = (check_env-Distinct [] vc.env env).0;
      }
