-- ===== src/Worker/Recovery.antt =====
-- `_recover_processing` of execution/worker.py: jobs that a worker claimed and did not acknowledge.
use code_collaborator.Base.{
  ℕ, Bool, Option, none, some, List, [], ◌∷◌, ◌++◌, ◌≡◌, refl, arith, ok, subst, Bool-cases,
  Option-cases, Result-cases, inl, inr,
}
use code_collaborator.Base.Dict.{lookup}
use code_collaborator.Models.{
  Execution, status_in, same_status, transition_to, queued, starting, running, failed,
}
use code_collaborator.Execution.{World, execution_status}
use code_collaborator.Execution.Lifecycle.{IsLater, Follows, Follows-same, Follows-trans}
use code_collaborator.Worker.{
  interrupted, recover_row, publish_failed_row, recover_item, recover_items, recover_processing,
  acknowledge,
}
use code_collaborator.Worker.Ending.{
  Keeps, Keeps-bind_at, Keeps->>=, Keeps-publish, commit-Follows, transition_to-IsLater,
}

module _ (uuid : ℕ → Option ℕ) where
  interrupted-IsLater : (now : ℕ) (e e' : Execution) → interrupted uuid now e ≡ ok e' → IsLater e e'
  unfolding interrupted
  interrupted-IsLater now e e' h = elim (Result-cases (transition_to failed e)) [
    | inl (t, made) ↦
        let later = transition_to-IsLater failed e t made in
        let same : record t {
          stderr = some "Execution worker restarted before completion.";
          finished_at = some now;
        }
            ≡ e' =
          ground arith in
        subst (IsLater e) same (record {
          trace = later.trace;
          same_session = later.same_session;
          same_code = later.same_code;
        })
    | inr (x, refused) ↦ absurd (ground arith)
  ]

  recover_row-Follows :
      (raw id now : ℕ) (w : World)
      → Follows w (recover_row uuid raw id now (lookup id w.executions) w).1
  unfolding recover_row
  recover_row-Follows raw id now w = elim (Option-cases (lookup id w.executions)) [
    | inl absent ↦ rw absent (Follows-same w w refl)
    | inr (e, found) ↦ rw found (elim (Bool-cases (same_status e.status queued)) [
      | inl waits ↦ rw waits (Follows-same w (record w { queue = w.queue ++ raw ∷ [] }) refl)
      | inr other ↦ rw other (elim (Bool-cases (status_in e.status (starting ∷ running ∷ []))) [
        | inr ended ↦ rw ended (Follows-same w w refl)
        | inl began ↦ rw began (elim (Result-cases (interrupted uuid now e)) [
          | inl (e', made) ↦
              rw made (commit-Follows id e e' w found (interrupted-IsLater now e e' made))
          | inr (x, refused) ↦ rw refused (Follows-same w w refl)
        ])
      ])
    ])
  ]

  Keeps-publish_failed_row :
      (redis_ok : Bool) (o : Option Execution) → Keeps (publish_failed_row uuid redis_ok o)
  unfolding publish_failed_row
  Keeps-publish_failed_row redis_ok none w = Follows-same w w refl
  Keeps-publish_failed_row redis_ok (some e) w = elim (Bool-cases (same_status e.status failed)) [
    | inl yes_failed ↦ rw yes_failed (Keeps-publish redis_ok (execution_status e) w)
    | inr other ↦ rw other (Follows-same w w refl)
  ]

  Keeps-recover_item :
      (redis_ok : Bool) (raw now : ℕ) (id : Option ℕ)
      → Keeps (recover_item uuid redis_ok raw now id)
  unfolding recover_item
  Keeps-recover_item redis_ok raw now none w = Follows-same w w refl
  Keeps-recover_item redis_ok raw now (some id) w =
      Keeps-bind_at (recover_row uuid raw id now (lookup id w.executions))
        (publish_failed_row uuid redis_ok) w (recover_row-Follows raw id now w)
        (Keeps-publish_failed_row redis_ok)

  Keeps-recover_items :
      (redis_ok : ℕ → Bool) (now : ℕ) (raws : List ℕ) → Keeps (recover_items uuid redis_ok now raws)
  unfolding recover_items
  Keeps-recover_items redis_ok now [] w = Follows-same w w refl
  Keeps-recover_items redis_ok now (raw ∷ raws) w =
      Keeps->>= (recover_item uuid (redis_ok raw) raw now (uuid raw))
        (λ _ w'. recover_items uuid redis_ok now raws (acknowledge raw w'))
        (Keeps-recover_item (redis_ok raw) raw now (uuid raw))
        (λ _ w'.
          Follows-trans w' (acknowledge raw w')
            (recover_items uuid redis_ok now raws (acknowledge raw w')).1
            (Follows-same w' (acknowledge raw w') refl)
            (Keeps-recover_items redis_ok now raws (acknowledge raw w')))
        w

  pub Keeps-recover_processing :
      (redis_ok : ℕ → Bool) (now : ℕ) → Keeps (recover_processing uuid redis_ok now)
  unfolding recover_processing
  Keeps-recover_processing redis_ok now w = Keeps-recover_items redis_ok now w.processing w
