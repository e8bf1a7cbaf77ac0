-- ===== src/Tasks/RoundTrip.antt =====
-- What `_write_tasks` writes, `_load_tasks` reads, in the order of the ids.
use deterministic_audit_runt.Prelude.{
  ◌≡◌, refl, true, false, eq_refl, List, [], ◌∷◌, All, map, text_le_total, elem,
}
use deterministic_audit_runt.Prelude.Sort.{sort, IsSorted, sort_of_sorted, sort-IsSorted, sort-All}
use deterministic_audit_runt.Errors.{ok}
use deterministic_audit_runt.Tasks.Types.{
  AuditTask, Host, task_dict, queue_check, exact_keys, keys_of, all_among,
}
use deterministic_audit_runt.Tasks.Dicts.{IsStorable, task_from_dict-task_dict}
use deterministic_audit_runt.Tasks.Queue.{
  load_tasks, load_entries, entries, entry_le, task_fields, write_tasks, id_le, load_payload,
  queue_payload, load_value,
}
use deterministic_audit_runt.Json.{item, lookup}
use deterministic_audit_runt.Json.Canonical.{same}

entries-task_fields :
    (ts : List AuditTask) → entries (task_fields ts) ≡ map (λ t. (t.id, task_dict t)) ts
unfolding entries task_fields
entries-task_fields [] = refl
entries-task_fields (t ∷ ts) = rw (entries-task_fields ts) refl

entries-IsSorted :
    (ts : List AuditTask)
    → IsSorted id_le ts
    → IsSorted entry_le (map (λ t. (t.id, task_dict t)) ts)
unfolding id_le entry_le
entries-IsSorted [] h = tt
entries-IsSorted (t ∷ []) h = (tt, tt)
entries-IsSorted (t ∷ u ∷ us) (h, hs) = (h, entries-IsSorted (u ∷ us) hs)

load_entries-map :
    (host : Host) (ts : List AuditTask)
    → All (IsStorable host) ts
    → load_entries host (map (λ t. (t.id, task_dict t)) ts) ≡ ok ts
unfolding load_entries queue_check
load_entries-map host [] h = refl
load_entries-map host (t ∷ ts) (h, hs) =
    rw (task_from_dict-task_dict host t h, eq_refl t.id, load_entries-map host ts hs) refl

pub id_le_total : (t u : AuditTask) → id_le t u ≡ false → id_le u t ≡ true
unfolding id_le
id_le_total t u = text_le_total t.id u.id

-- The file that is written from tasks which can be stored is read as these tasks, sorted by their
-- ids.
pub load_tasks-write_tasks :
    (host : Host) (ts : List AuditTask)
    → All (IsStorable host) ts
    → load_tasks host (write_tasks ts) ≡ ok (sort id_le ts)
unfolding load_tasks write_tasks load_payload queue_payload exact_keys keys_of all_among elem
    queue_check item lookup load_value same
load_tasks-write_tasks host ts h =
    let sorted = sort-IsSorted id_le id_le_total ts in
    rw
      (
        entries-task_fields (sort id_le ts),
        sort_of_sorted entry_le (map (λ t. (t.id, task_dict t)) (sort id_le ts))
            (entries-IsSorted (sort id_le ts) sorted),
        load_entries-map host (sort id_le ts) (sort-All id_le (IsStorable host) ts h),
      )
      refl
