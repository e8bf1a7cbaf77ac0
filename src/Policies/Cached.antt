-- ===== src/Policies/Cached.antt =====
-- The caches of PolicyStore of runtime/policies.py.
use deterministic_audit_runt.Prelude.{
  String, ◌≡◌, refl, sym, ◌∙◌, Option, none, some, if◌then◌else◌, elem, some_inj, inl, inr, ◌==◌,
  eq_iff, Bool-cases, ◌≢◌,
}
use mathlib.Core.Path.{ap, subst}
use deterministic_audit_runt.Errors.{◌>>=◌, policy_error, Result, err, ok}
use deterministic_audit_runt.Policies.{AuditPolicy}
use deterministic_audit_runt.Policies.Store.{
  read_policies, PolicyFile, policy_in, cached_policy, PolicyStore, load_policies, keep_policy,
  valid_profiles, loaded_or_read, new_store, keep_data, get_policy, get_evidence_class_hierarchy,
  cached_or_built, build_policy, hierarchy_of,
}
use deterministic_audit_runt.Policies.Read.{Casts}
use deterministic_audit_runt.Tasks.Types.{or_text}
use deterministic_audit_runt.Json.{Json}

-- What a caller without caches would read from the file.
unfoldable pub uncached : Casts → Option String → PolicyFile → Result AuditPolicy
unfolding read_policies policy_in elem
uncached c profile_name file =
    let name = or_text profile_name "low_noise" in
    if elem name valid_profiles then read_policies file >>= policy_in c name else err policy_error

module _ (c : Casts) (file : PolicyFile) where
  -- The stores that calls of the methods lead to, while the file stays as it is.
  pub data Reached : PolicyStore → Type 0 where
    start : Reached new_store
    got :
        (name : Option String) (s : PolicyStore) → Reached s → Reached (get_policy c name file s).1
    listed : (s : PolicyStore) → Reached s → Reached (get_evidence_class_hierarchy file s).1

  none_ne_some {ℓ} : {A : Type ℓ} {a : A} → none ≢ some a
  none_ne_some same = cc

  -- What the caches hold was read from the file.
  record IsCache (s : PolicyStore) : Type 0 where
    data_read : (v : Json) → s.policies_data ≡ some v → read_policies file ≡ ok v
    policy_read :
        (name : String) (p : AuditPolicy)
        → cached_policy name s.policy_cache ≡ some p
        → (read_policies file >>= policy_in c name) ≡ ok p

  -- A call that answers with what the file says, and keeps the caches sound.
  abbrev Answers {ℓ} : {V : Type ℓ} → Result V × PolicyStore → Result V → Type ℓ
  Answers out expected = (out.0 ≡ expected) × IsCache out.1

  keep_data-Answers :
      (r : Result Json) (s : PolicyStore)
      → read_policies file ≡ r
      → IsCache s
      → Answers (keep_data r s) r
  keep_data-Answers (err e) s q sound = (refl, sound)
  keep_data-Answers (ok v) s q sound = (
    refl,
    record { data_read = λ w same. q ∙ ap ok (some_inj same); policy_read = sound.policy_read },
  )

  loaded_or_read-Answers :
      (d : Option Json) (s : PolicyStore)
      → s.policies_data ≡ d
      → IsCache s
      → Answers (loaded_or_read d file s) (read_policies file)
  loaded_or_read-Answers (some v) s q sound = (sym (sound.data_read v q), sound)
  loaded_or_read-Answers none s q sound = keep_data-Answers (read_policies file) s refl sound

  load_policies-Answers :
      (s : PolicyStore) → IsCache s → Answers (load_policies file s) (read_policies file)
  unfolding load_policies
  load_policies-Answers s sound = loaded_or_read-Answers s.policies_data s refl sound

  keep_policy-Answers :
      (name : String) (r : Result AuditPolicy) (s : PolicyStore)
      → (read_policies file >>= policy_in c name) ≡ r
      → IsCache s
      → Answers (keep_policy c name r s) r
  unfolding cached_policy
  keep_policy-Answers name (err e) s q sound = (refl, sound)
  keep_policy-Answers name (ok p) s q sound =
      (refl, record { data_read = sound.data_read; policy_read = stored })
    where
      stored :
          (other : String) (found : AuditPolicy)
          → (if name == other then some p else cached_policy other s.policy_cache) ≡ some found
          → (read_policies file >>= policy_in c other) ≡ ok found
      stored other found h = elim (Bool-cases (name == other)) [
        | inl same ↦
            subst (λ n. (read_policies file >>= policy_in c n) ≡ ok found)
              ((eq_iff name other).0 same) (q ∙ ap ok (some_inj (rw same at h)))
        | inr differs ↦ sound.policy_read other found (rw differs at h)
      ]

  build_policy-Answers :
      (name : String) (out : Result Json × PolicyStore)
      → Answers out (read_policies file)
      → Answers (build_policy c name out) (read_policies file >>= policy_in c name)
  build_policy-Answers name (err e, s) (q, sound) = (rw (sym q) refl, sound)
  build_policy-Answers name (ok v, s) (q, sound) =
      let (same, kept) = keep_policy-Answers name (policy_in c name v) s (rw (sym q) refl) sound in
      (same ∙ rw (sym q) refl, kept)

  cached_or_built-Answers :
      (name : String) (found : Option AuditPolicy) (s : PolicyStore)
      → cached_policy name s.policy_cache ≡ found
      → IsCache s
      → Answers (cached_or_built c name found file s) (read_policies file >>= policy_in c name)
  cached_or_built-Answers name (some p) s q sound = (sym (sound.policy_read name p q), sound)
  cached_or_built-Answers name none s q sound =
      build_policy-Answers name (load_policies file s) (load_policies-Answers s sound)

  get_policy-Answers :
      (name : Option String) (s : PolicyStore)
      → IsCache s
      → Answers (get_policy c name file s) (uncached c name file)
  unfolding get_policy uncached
  get_policy-Answers name s sound =
      elim (Bool-cases (elem (or_text name "low_noise") valid_profiles)) [
        | inl known ↦ rw known (
            cached_or_built-Answers (or_text name "low_noise")
              (cached_policy (or_text name "low_noise") s.policy_cache) s refl sound)
        | inr unknown ↦ rw unknown (refl, sound)
      ]

  hierarchy_of-IsCache :
      (out : Result Json × PolicyStore) → IsCache out.1 → IsCache (hierarchy_of out).1
  hierarchy_of-IsCache (err e, s) sound = sound
  hierarchy_of-IsCache (ok v, s) sound = sound

  Reached-IsCache : (s : PolicyStore) → Reached s → IsCache s
  unfolding get_evidence_class_hierarchy cached_policy
  Reached-IsCache _ start = record {
    data_read = λ v same. absurd (none_ne_some same);
    policy_read = λ name p same. absurd (none_ne_some same);
  }
  Reached-IsCache _ (got name s before) = (get_policy-Answers name s (Reached-IsCache s before)).1
  Reached-IsCache _ (listed s before) =
      hierarchy_of-IsCache (load_policies file s)
        (load_policies-Answers s (Reached-IsCache s before)).1

  -- While the policy file stays as it is, a store that was made anew and used in any way answers
  -- get_policy with what the file says, or with the error that reading it raises, as if it had no
  -- caches.
  pub get_policy-uncached :
      (name : Option String) (s : PolicyStore)
      → Reached s
      → (get_policy c name file s).0 ≡ uncached c name file
  get_policy-uncached name s reached = (get_policy-Answers name s (Reached-IsCache s reached)).0
