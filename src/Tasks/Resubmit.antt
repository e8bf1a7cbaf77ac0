-- ===== src/Tasks/Resubmit.antt =====
-- enqueue_many on the file: what a batch leaves there, and the same batch again.
use deterministic_audit_runt.Prelude.{
  ◌≡◌, false, List, [], ◌∷◌, All, ap, sym, ◌∙◌, inl, inr, first, ||-eq-false, refl, All-map,
  if◌then◌else◌, Bool-cases,
}
use deterministic_audit_runt.Errors.{ok, >>=-eq-ok, ok_inj}
use deterministic_audit_runt.Tasks.Types.{AuditTask, Host, queue_check}
use deterministic_audit_runt.Tasks.Dicts.{IsStorable}
use deterministic_audit_runt.Tasks.Lookup.{
  IsDistinct, store_task-All, store_task-IsDistinct, find_task-sort,
}
use deterministic_audit_runt.Tasks.Enqueued.{
  OneAnswer, enqueue_one-Answer, IsPresent, Extends, OutcomeIs, enqueue_loop-Answer,
}
use deterministic_audit_runt.Tasks.Queue.{
  EnqueueResult, is_enqueued, enqueue_one, enqueue_loop, any_enqueued, QueueFile, enqueue_many,
  enqueue_found, duplicate, write_tasks, id_le,
}
use mathlib.Core.Path.{subst}
use mathlib.Core.Bool.{false≢true}
use deterministic_audit_runt.Tasks.Moved.{IsQueue, write_tasks-IsQueue}
use deterministic_audit_runt.Prelude.Sort.{sort, sort-All, All-perm, sort-perm}
use deterministic_audit_runt.EventStore.{duplicate}
use deterministic_audit_runt.Tasks.Keys.{task_le}

-- What the store needs of its tasks.
abbrev IsStore : Host → List AuditTask → Type 0
IsStore host ts = All (IsStorable host) ts × IsDistinct ts

one-IsStore :
    (host : Host) (t : AuditTask) (stored : List AuditTask) (r : EnqueueResult)
    (grown : List AuditTask)
    → OneAnswer t stored r grown
    → IsStorable host t
    → IsStore host stored
    → IsStore host grown
unfolding OneAnswer
one-IsStore host t stored r grown (inl (_, _, e)) fits (h, k) =
    rw e (store_task-All (IsStorable host) t stored fits h, store_task-IsDistinct t stored k)
one-IsStore host t stored r grown (inr (_, _, _, _, e)) fits h = rw e h

one-unchanged :
    (t : AuditTask) (stored : List AuditTask) (r : EnqueueResult) (grown : List AuditTask)
    → OneAnswer t stored r grown
    → is_enqueued r ≡ false
    → grown ≡ stored
unfolding OneAnswer
one-unchanged t stored r grown (inl (_, e, _)) h = absurd (false≢true (sym h ∙ ap is_enqueued e))
one-unchanged t stored r grown (inr (_, _, _, _, e)) h = e

loop-IsStore :
    (host : Host) (ts before : List AuditTask) (rs : List EnqueueResult) (stored : List AuditTask)
    → enqueue_loop ts before ≡ ok (rs, stored)
    → All (IsStorable host) ts
    → IsStore host before
    → IsStore host stored × (any_enqueued rs ≡ false → stored ≡ before)
unfolding enqueue_loop any_enqueued
loop-IsStore host [] before rs stored h fits k =
    let answer = ok_inj h in
    (subst (IsStore host) (ap (λ p. p.1) answer) k, λ _. sym (ap (λ p. p.1) answer))
loop-IsStore host (t ∷ ts) before rs stored h (fits, others) k =
    let ((r, grown), e1, h1) = >>=-eq-ok (enqueue_one t before) _ h in
    let ((later, final), e2, h2) = >>=-eq-ok (enqueue_loop ts grown) _ h1 in
    let answer = ok_inj h2 in
    let one = enqueue_one-Answer t before r grown e1 in
    let (store, same_tasks) =
      loop-IsStore host ts grown later stored (e2 ∙ ap (λ p. ok (later, p.1)) answer) others
        (one-IsStore host t before r grown one fits k) in
    (
      store,
      λ quiet.
          let (first, rest) =
            ||-eq-false (is_enqueued r) (any_enqueued later)
              (ap (λ p. any_enqueued p.0) answer ∙ quiet) in
          same_tasks rest ∙ one-unchanged t before r grown one first,
    )

enqueue_loop-again :
    (ts stored : List AuditTask)
    → All (IsPresent stored) ts
    → (rs : List EnqueueResult) × (enqueue_loop ts stored ≡ ok (rs, stored))
      × (any_enqueued rs ≡ false)
      × All (OutcomeIs duplicate) rs
unfolding enqueue_loop enqueue_one enqueue_found any_enqueued queue_check IsPresent
enqueue_loop-again [] stored h = ([], refl, refl, tt)
enqueue_loop-again (t ∷ ts) stored ((u, found, same_key), others) =
    let (rs, e, quiet, all) = enqueue_loop-again ts stored others in
    (
      record { outcome = duplicate; task = u } ∷ rs,
      rw (found, same_key, e) refl,
      quiet,
      (refl, all),
    )

-- What a call of enqueue_many leaves: a queue file which keeps each task that was there, and in
-- which each task of the batch is found under its id, itself or a task of the same meaning. What
-- holds of the tasks before and of the batch holds of all of them.
pub record BatchAnswer (host : Host) (ts batch : List AuditTask) (rs : List EnqueueResult)
    (written : QueueFile) : Type 1 where
  pub final : List AuditTask
  pub queue : IsQueue host written final
  pub kept : Extends ts final
  pub present : All (IsPresent final) batch
  pub inherited : (P : AuditTask → Type 0) → All P ts → All P batch → All P final

sorted-IsPresent :
    (stored : List AuditTask) (t : AuditTask) → IsPresent stored t → IsPresent (sort id_le stored) t
unfolding IsPresent
sorted-IsPresent stored t (u, e, k) = (u, find_task-sort t.id stored ∙ e, k)

after_loop :
    (host : Host) (batch ts : List AuditTask) (file : QueueFile) (rs : List EnqueueResult)
    (final : List AuditTask)
    → IsQueue host file ts
    → IsStore host final
    → (any_enqueued rs ≡ false → final ≡ ts)
    → Extends ts final
    → All (IsPresent final) batch
    → ((P : AuditTask → Type 0) → All P ts → All P batch → All P final)
    → BatchAnswer host ts batch rs (if any_enqueued rs then write_tasks final else file)
after_loop host batch ts file rs final q (fits, distinct) same_tasks kept present inherited =
    elim (Bool-cases (any_enqueued rs)) [
      | inl some_new ↦ rw some_new (record {
        final = sort id_le final;
        queue = write_tasks-IsQueue host final fits distinct;
        kept = λ j u e. find_task-sort j final ∙ kept j u e;
        present = All-map (sorted-IsPresent final) batch present;
        inherited = λ P h k. sort-All id_le P final (inherited P h k);
      })
      | inr quiet ↦ rw quiet (record {
        final = ts;
        queue = q;
        kept = λ j u e. e;
        present = subst (λ s. All (IsPresent s) batch) (same_tasks quiet) present;
        inherited = λ P h k. h;
      })
    ]

batch_loop :
    (host : Host) (batch ts : List AuditTask) (file : QueueFile) (rs : List EnqueueResult)
    (final : List AuditTask)
    → IsQueue host file ts
    → All (IsStorable host) batch
    → enqueue_loop (sort task_le batch) ts ≡ ok (rs, final)
    → BatchAnswer host ts batch rs (if any_enqueued rs then write_tasks final else file)
batch_loop host batch ts file rs final q fits h =
    let sorted = sort task_le batch in
    let (store, same_tasks) =
      loop-IsStore host sorted ts rs final h (sort-All task_le (IsStorable host) batch fits)
        (q.storable, q.distinct) in
    let answer = enqueue_loop-Answer sorted ts rs final h in
    after_loop host batch ts file rs final q store same_tasks answer.kept
      (All-perm (IsPresent final) (sort-perm task_le batch) answer.present)
      (λ P h k. answer.inherited P h (sort-All task_le P batch k))

-- Where the tasks of the batch and of the queue file are ones that AuditTask accepts, with targets
-- that TaskTarget would leave as they are if it normalized them again, and the tasks of the file have
-- different ids: a batch that is enqueued leaves a file of the same kind. Each task that was there is
-- there as it was, and each task of the batch is found under its id, itself or a stored task with the
-- same semantic key.
pub enqueue_many-BatchAnswer :
    (host : Host) (batch ts : List AuditTask) (file : QueueFile) (rs : List EnqueueResult)
    (written : QueueFile)
    → IsQueue host file ts
    → All (IsStorable host) batch
    → enqueue_many host batch file ≡ ok (rs, written)
    → BatchAnswer host ts batch rs written
unfolding enqueue_many
enqueue_many-BatchAnswer host batch ts file rs written q fits h =
    let ((results, final), e, h1) =
      >>=-eq-ok (enqueue_loop (sort task_le batch) ts) _ (rw q.loads at h) in
    let answer = ok_inj h1 in
    subst (λ p. BatchAnswer host ts batch p.0 p.1) answer
      (batch_loop host batch ts file results final q fits e)

-- The same batch once more: each result is a duplicate, and the file stays as it is.
pub enqueue_many_again :
    (host : Host) (batch ts : List AuditTask) (file : QueueFile) (rs : List EnqueueResult)
    (written : QueueFile)
    → IsQueue host file ts
    → All (IsStorable host) batch
    → enqueue_many host batch file ≡ ok (rs, written)
    → (again : List EnqueueResult) × (enqueue_many host batch written ≡ ok (again, written))
      × All (OutcomeIs duplicate) again
unfolding enqueue_many
enqueue_many_again host batch ts file rs written q fits h =
    let answer = enqueue_many-BatchAnswer host batch ts file rs written q fits h in
    let (again, e, quiet, all) =
      enqueue_loop-again (sort task_le batch) answer.final
        (sort-All task_le (IsPresent answer.final) batch answer.present) in
    (again, rw (answer.queue.loads, e, quiet) refl, all)
