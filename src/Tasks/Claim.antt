-- ===== src/Tasks/Claim.antt =====
-- claim_next_task: which task it claims.
use mathlib.Core.List.{Memᴰ}
use deterministic_audit_runt.Prelude.{
  ◌≡◌, refl, true, false, some, none, String, Option, Bool, Bool-cases, List, [], ◌∷◌, All, All-map,
  ◌&&◌, &&-eq-true, inl, inr, not, sym, ◌∙◌, All-Memᴰ,
}
use deterministic_audit_runt.Prelude.Sort.{
  sort, sort-perm, sort-All, All-perm, sort-IsSorted, head_is_least, IsSorted,
}
use deterministic_audit_runt.Errors.{ok}
use deterministic_audit_runt.Tasks.Types.{
  done, failed, AuditTask, TaskType, TaskStatus, pending, running, Host, or_text, is_timestamp,
  is_valid_task, error_is_valid, may_become, or_queue_error, is_blank, queue_check, new_task,
}
use deterministic_audit_runt.Tasks.Keys.{task_le, task_le_total, task_le_trans, task_le_refl}
use deterministic_audit_runt.Tasks.Queue.{
  QueueFile, store_task, write_tasks, claim_next_task, claim_first, Selection, is_selected, select,
  moved, list_tasks, transition_task, status_eq, known_status, transition_check, error_given,
}
use deterministic_audit_runt.Prelude.Codes.{codes, starts}
use deterministic_audit_runt.Tasks.Moved.{IsQueue}
use deterministic_audit_runt.Tasks.Lookup.{find_task-Memᴰ}
use deterministic_audit_runt.Tasks.Dicts.{IsStorable}
use mathlib.Core.Bool.{false≢true}
use mathlib.Core.Path.{subst}

select-All :
    (P : AuditTask → Type 0) (p : AuditTask → Bool) (ts : List AuditTask)
    → All P (select p ts)
    → All (λ t. p t ≡ true → P t) ts
unfolding select
select-All P p [] h = tt
select-All P p (t ∷ ts) h = elim (Bool-cases (p t)) [
  | inl q ↦ let kept = rw q at h in ((λ _. kept.0), select-All P p ts kept.1)
  | inr q ↦ ((λ k. absurd (false≢true (sym q ∙ k))), select-All P p ts (rw q at h))
]

selected_pass :
    (p : AuditTask → Bool) (ts : List AuditTask) → All (λ t. Memᴰ t ts × (p t ≡ true)) (select p ts)
unfolding select
selected_pass p [] = tt
selected_pass p (t ∷ ts) =
    let later = All-map (λ u h. (Memᴰ.tail h.0, h.1)) (select p ts) (selected_pass p ts) in
    elim (Bool-cases (p t)) [ inl q ↦ rw q ((Memᴰ.head refl, q), later) | inr q ↦ rw q later ]

running_error_valid : (a e f g : Bool) → (a && e && f && g) ≡ true → (a ≡ true) × (f ≡ true)
running_error_valid true true true true h = (refl, refl)
running_error_valid true true true false h = cc
running_error_valid true true false g h = cc
running_error_valid true false f g h = cc
running_error_valid false e f g h = cc

moved_running-valid :
    (host : Host) (t : AuditTask) (at : String)
    → is_valid_task host t ≡ true
    → is_timestamp host at ≡ true
    → is_valid_task host (moved t running none at) ≡ true
unfolding is_valid_task error_is_valid
moved_running-valid host t at h k =
    let (ids, created) =
      running_error_valid
        (not (is_blank t.id)
          && starts (codes "task_") (codes t.id)
          && not (is_blank t.audit_id)
          && starts (codes "audit_") (codes t.audit_id))
        (error_is_valid t.last_error) (is_timestamp host t.created_at)
        (is_timestamp host t.updated_at) h in
    rw (ids, created, k) refl

-- What a claim may answer. None: no task is pending under the filters, and the file is as it was.
-- A task: it was pending, it comes first by the sort key among those, it is running now, and its
-- file is the one that the store writes for it.
unfoldable pub ClaimAnswer :
    Host
    → Selection
    → Option String
    → QueueFile
    → List AuditTask
    → Option AuditTask
    → QueueFile
    → Type 0
ClaimAnswer host wanted at file ts none written =
    (written ≡ file) × All (λ t. is_selected wanted t ≡ true → ⊥) ts
ClaimAnswer host wanted at file ts (some claimed) written =
    (t : AuditTask) × Memᴰ t ts
    × (is_selected wanted t ≡ true)
    × All (λ u. is_selected wanted u ≡ true → task_le t u ≡ true) ts
    × (claimed ≡ moved t running none (or_text at host.now))
    × (written ≡ write_tasks (store_task claimed ts))

pending_status : (s : TaskStatus) → status_eq s pending ≡ true → may_become s running ≡ true
pending_status pending h = refl
pending_status running h = cc
pending_status done h = cc
pending_status failed h = cc

transition_to_running :
    (host : Host) (at : Option String) (file : QueueFile) (ts : List AuditTask) (t : AuditTask)
    → IsQueue host file ts
    → is_timestamp host (or_text at host.now) ≡ true
    → Memᴰ t ts
    → status_eq t.status pending ≡ true
    → let claimed = moved t running none (or_text at host.now) in
      transition_task host t.id "running" none at file
      ≡ ok (claimed, write_tasks (store_task claimed ts))
unfolding transition_task known_status or_queue_error transition_check queue_check error_given
    new_task
transition_to_running host at file ts t q stamp member waiting =
    rw
      (
        q.loads,
        find_task-Memᴰ t ts q.distinct member,
        pending_status t.status waiting,
        moved_running-valid host t (or_text at host.now)
            (All-Memᴰ (IsStorable host) ts q.storable member).valid stamp,
      )
      refl

status_of_selected :
    (a : Option String) (ty : Option TaskType) (t : AuditTask)
    → is_selected (record { audit_id = a; task_type = ty; status = some pending }) t ≡ true
    → status_eq t.status pending ≡ true
status_of_selected a ty t h = (&&-eq-true _ (status_eq t.status pending) h).1

claim_first-Answer :
    (host : Host) (a : Option String) (ty : Option TaskType) (at : Option String) (file : QueueFile)
    (ts : List AuditTask)
    → IsQueue host file ts
    → is_timestamp host (or_text at host.now) ≡ true
    → let wanted : Selection = record { audit_id = a; task_type = ty; status = some pending } in
      (found : List AuditTask)
      → sort task_le (select (is_selected wanted) ts) ≡ found
      → (answer : Option AuditTask) × (written : QueueFile) × (claim_first host at file found
          ≡ ok (answer, written))
        × ClaimAnswer host wanted at file ts answer written
unfolding claim_first ClaimAnswer
claim_first-Answer host a ty at file ts q stamp [] e =
    let wanted : Selection = record { audit_id = a; task_type = ty; status = some pending } in
    let chosen = select (is_selected wanted) ts in
    (
      none,
      file,
      refl,
      (
        refl,
        select-All (λ t. ⊥) (is_selected wanted) ts
            (All-perm (λ t. ⊥) (sort-perm task_le chosen) (subst (All (λ t. ⊥)) (sym e) tt)),
      ),
    )
claim_first-Answer host a ty at file ts q stamp (t ∷ rest) e =
    let wanted : Selection = record { audit_id = a; task_type = ty; status = some pending } in
    let chosen = select (is_selected wanted) ts in
    let Passes : AuditTask → Type 0 = λ u. Memᴰ u ts × (is_selected wanted u ≡ true) in
    let Least : AuditTask → Type 0 = λ u. task_le t u ≡ true in
    let (member, wanted_t) =
      (subst (All Passes) e
        (sort-All task_le Passes chosen (selected_pass (is_selected wanted) ts))).0 in
    let sorted = subst (IsSorted task_le) e (sort-IsSorted task_le task_le_total chosen) in
    let least : All Least (t ∷ rest) =
      (task_le_refl t, head_is_least task_le task_le_trans t rest sorted) in
    let claimed = moved t running none (or_text at host.now) in
    (
      some claimed,
      write_tasks (store_task claimed ts),
      rw
          (transition_to_running host at file ts t q stamp member
            (status_of_selected a ty t wanted_t))
          refl,
      (
        t,
        member,
        wanted_t,
        select-All Least (is_selected wanted) ts
            (All-perm Least (sort-perm task_le chosen) (subst (All Least) (sym e) least)),
        refl,
        refl,
      ),
    )

-- On a queue file, and with a timestamp that is one, a claim returns. Its answer is None only if no
-- task is pending under the filters, and the file stays as it was. Else it is the pending task that
-- comes first under the sort key among these, moved to running, and the file is written with it.
pub claim_next_task-Answer :
    (host : Host) (a : Option String) (ty : Option TaskType) (at : Option String) (file : QueueFile)
    (ts : List AuditTask)
    → IsQueue host file ts
    → is_timestamp host (or_text at host.now) ≡ true
    → (answer : Option AuditTask) × (written : QueueFile) × (claim_next_task host a ty at file
        ≡ ok (answer, written))
      × ClaimAnswer host
          (record { audit_id = a; task_type = ty; status = some pending })
          at
          file
          ts
          answer
          written
unfolding claim_next_task list_tasks
claim_next_task-Answer host a ty at file ts q stamp =
    let wanted : Selection = record { audit_id = a; task_type = ty; status = some pending } in
    let found = sort task_le (select (is_selected wanted) ts) in
    let (answer, written, claimed, fits) =
      claim_first-Answer host a ty at file ts q stamp found refl in
    (answer, written, rw q.loads claimed, fits)
