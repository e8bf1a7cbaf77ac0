-- ===== src/Examples/Policies.antt =====
-- A policy file and a store that has read it, on which the theorems about runtime/policies.py are
use deterministic_audit_runt.Prelude.{◌≡◌, refl, none, some}
use deterministic_audit_runt.Errors.{value_error, err, ok}
use deterministic_audit_runt.Prelude.Int.{pos}
use deterministic_audit_runt.Policies.Read.{Casts, read_profile}
use deterministic_audit_runt.Policies.Store.{PolicyStore, PolicyFile, get_policy, loaded, new_store}
use deterministic_audit_runt.Policies.Cached.{uncached, get_policy-uncached, got, start}
use deterministic_audit_runt.Examples.Plan.{small_policy, shown_as_text}
use deterministic_audit_runt.Policies.Dict.{policy_dict}
use deterministic_audit_runt.Policies.RoundTrip.{read_profile-policy_dict}
use deterministic_audit_runt.Json.{obj, field, end}
use deterministic_audit_runt.EventStore.Unique.{start}
use deterministic_audit_runt.Examples.Data.{text_field}
use deterministic_audit_runt.Tasks.Text.{strip}

-- applied.
abbrev casts : Casts
casts = record {
  int_of_float = λ s. ok (pos 0);
  int_of_text = λ s. err value_error;
  text = shown_as_text;
}

abbrev policy_file : PolicyFile
policy_file = loaded (
    obj (
      text_field "schema_version" "1.0.0" (
        field "profiles"
          (obj (
            field "strict_security" (policy_dict small_policy)
              (field "low_noise" (policy_dict small_policy) (field "exploratory" (obj end) end))))
          end)))

read_profile-policy_dict_example :
    read_profile casts "low_noise" (policy_dict small_policy) ≡ ok small_policy
unfolding strip
read_profile-policy_dict_example = read_profile-policy_dict casts small_policy refl

-- The policy of the default profile is in the cache of the store.
abbrev used_store : PolicyStore
used_store = (get_policy casts none policy_file new_store).1

small_is_read : uncached casts (some "low_noise") policy_file ≡ ok small_policy
unfolding uncached policy_dict
small_is_read = refl

get_policy-uncached_example :
    (get_policy casts (some "strict_security") policy_file used_store).0
    ≡ uncached casts (some "strict_security") policy_file
get_policy-uncached_example =
    get_policy-uncached casts policy_file (some "strict_security") used_store
      (got none new_store start)
