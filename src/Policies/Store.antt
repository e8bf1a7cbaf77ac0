-- ===== src/Policies/Store.antt =====
-- PolicyStore of runtime/policies.py: the policy file, and the two caches of a store.
use deterministic_audit_runt.Prelude.{
  ℕ, suc, String, Bool, true, false, ◌&&◌, Option, none, some, List, [], ◌∷◌, ◌==◌, leb,
  if◌then◌else◌, elem,
}
use deterministic_audit_runt.Errors.{◌>>=◌, value_error, policy_error, Result, err, ok}
use deterministic_audit_runt.Policies.{AuditPolicy}
use deterministic_audit_runt.Json.{get, Json, has, get_default, item, arr, is_obj, cons, str, nil}
use deterministic_audit_runt.Policies.Read.{Casts, read_profile}
use deterministic_audit_runt.Tasks.Types.{or_text}
use deterministic_audit_runt.Json.Canonical.{equals}
use deterministic_audit_runt.RunLedger.{iterate}

-- The file: there is none, its bytes are no text, its text is no YAML, or its value.
pub data PolicyFile : Type 0 where
  no_file no_utf8 no_yaml : PolicyFile
  loaded : Json → PolicyFile

pub record PolicyStore : Type 0 where
  pub policies_data : Option Json
  pub policy_cache : List (String × AuditPolicy)

abbrev pub new_store : PolicyStore
new_store = record { policies_data = none; policy_cache = [] }

-- VALID_PROFILES
abbrev pub valid_profiles : List String
valid_profiles = "strict_security" ∷ "low_noise" ∷ "exploratory" ∷ []

abbrev pub policy_check : Bool → Result (Unit {0})
policy_check true = ok tt
policy_check false = err policy_error

unfoldable pub has_profiles : List String → Json → Bool
unfolding has
has_profiles [] profiles = true
has_profiles (name ∷ names) profiles = has name profiles && has_profiles names profiles

-- The checks of `load_policies`.
unfoldable pub check_policies : Json → Result Json
unfolding get equals has_profiles
check_policies v = do
  _ ← policy_check (is_obj v)
  version ← get "schema_version" v
  _ ← policy_check (equals version (str "1.0.0"))
  profiles ← get "profiles" v
  _ ← policy_check (is_obj profiles)
  _ ← policy_check (has_profiles valid_profiles profiles)
  ok v

unfoldable pub read_policies : PolicyFile → Result Json
unfolding check_policies
read_policies no_file = err policy_error
read_policies no_utf8 = err value_error
read_policies no_yaml = err policy_error
read_policies (loaded v) = check_policies v

abbrev pub keep_data : Result Json → PolicyStore → Result Json × PolicyStore
keep_data (err e) s = (err e, s)
keep_data (ok v) s = (ok v, record s { policies_data = some v })

-- `load_policies`
abbrev pub loaded_or_read : Option Json → PolicyFile → PolicyStore → Result Json × PolicyStore
loaded_or_read (some v) file s = (ok v, s)
loaded_or_read none file s = keep_data (read_policies file) s

unfoldable pub load_policies : PolicyFile → PolicyStore → Result Json × PolicyStore
unfolding read_policies
load_policies file s = loaded_or_read s.policies_data file s

unfoldable pub cached_policy : String → List (String × AuditPolicy) → Option AuditPolicy
cached_policy name [] = none
cached_policy name ((n, p) ∷ ps) =
    let rest = cached_policy name ps in if n == name then some p else rest

module _ (c : Casts) where
  -- `data["profiles"][name]`, as a policy.
  unfoldable pub policy_in : String → Json → Result AuditPolicy
  unfolding item read_profile
  policy_in name v = item "profiles" v >>= item name >>= read_profile c name

  abbrev pub keep_policy :
      String → Result AuditPolicy → PolicyStore → Result AuditPolicy × PolicyStore
  keep_policy name (err e) s = (err e, s)
  keep_policy name (ok p) s = (ok p, record s { policy_cache = (name, p) ∷ s.policy_cache })

  abbrev pub build_policy : String → Result Json × PolicyStore → Result AuditPolicy × PolicyStore
  build_policy name (err e, s) = (err e, s)
  build_policy name (ok v, s) = keep_policy name (policy_in name v) s

  abbrev pub cached_or_built :
      String → Option AuditPolicy → PolicyFile → PolicyStore → Result AuditPolicy × PolicyStore
  cached_or_built name (some p) file s = (ok p, s)
  cached_or_built name none file s = build_policy name (load_policies file s)

  -- `get_policy`
  unfoldable pub get_policy :
      Option String → PolicyFile → PolicyStore → Result AuditPolicy × PolicyStore
  unfolding elem cached_policy load_policies policy_in
  get_policy profile_name file s =
      let name = or_text profile_name "low_noise" in
      if elem name valid_profiles
      then cached_or_built name (cached_policy name s.policy_cache) file s
      else (err policy_error, s)

-- EVIDENCE_CLASS_HIERARCHY
abbrev pub evidence_classes : Json
evidence_classes = arr (
    cons (str "direct_code_fact") (
      cons (str "derived_structural_fact")
        (cons (str "inferred_hypothesis") (cons (str "blocked_verification") nil))))

-- `get_evidence_class_hierarchy`
abbrev pub hierarchy_of : Result Json × PolicyStore → Result (List Json) × PolicyStore
hierarchy_of (err e, s) = (err e, s)
hierarchy_of (ok v, s) = (get_default "evidence_class_hierarchy" evidence_classes v >>= iterate, s)

unfoldable pub get_evidence_class_hierarchy :
    PolicyFile → PolicyStore → Result (List Json) × PolicyStore
unfolding load_policies
get_evidence_class_hierarchy file s = hierarchy_of (load_policies file s)

-- `evidence_class_strength`
unfoldable pub evidence_class_strength : String → List String → ℕ
evidence_class_strength name [] = 0
evidence_class_strength name (n ∷ names) =
    let rest = evidence_class_strength name names in if n == name then 0 else suc rest

-- `meets_minimum_evidence_class`
unfoldable pub meets_minimum_evidence_class : String → String → List String → Bool
unfolding evidence_class_strength
meets_minimum_evidence_class name minimum hierarchy =
    leb (evidence_class_strength name hierarchy) (evidence_class_strength minimum hierarchy)
