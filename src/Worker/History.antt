-- ===== src/Worker/History.antt =====
-- The execution module as a whole: sequences of submissions, cancellations, jobs and restarts of the
-- worker (execution/service.py, execution/worker.py), with faults anywhere.
use code_collaborator.Base.{
  ℕ, Bool, true, false, not, Option, none, some, List, [], ◌∷◌, ◌≡◌, refl, arith, ◌==◌, ==_iff,
  filterb, subst, Bool-cases, inl, inr,
}
use Prim.Native.String.{String}
use code_collaborator.Base.Dict.{lookup, lookup-erase}
use code_collaborator.Models.{Execution, Language}
use code_collaborator.Execution.{
  World, new_execution, submit_row, withdraw_row, enqueue, cancel_execution,
}
use code_collaborator.Document.{contains}
use code_collaborator.Execution.Lifecycle.{
  Trace-terminal, is_terminal, IsLater, IsLater-refl, IsLater-trans, Follows-fresh, Follows,
  Follows-same, Follows-trans,
}
use code_collaborator.Execution.Requests.{cancel_execution-Follows}
use code_collaborator.Worker.{
  Run, process, acknowledge, claim, handle, claim_next, run_once, recover_processing,
}
use code_collaborator.Worker.Ending.{Keeps, Keeps-process}
use code_collaborator.Worker.Recovery.{Keeps-recover_processing}

-- The world, and the submissions that have committed their row and wait for Redis.
pub record Progress : Type 0 where
  pub world : World
  pub submitting : List ℕ

abbrev pub settle : ℕ → List ℕ → List ℕ
settle id ids = filterb (λ k. not (k == id)) ids

contains-settle :
    (id j : ℕ) (ids : List ℕ) → contains id ids ≡ false → contains id (settle j ids) ≡ false
contains-settle id j [] absent = refl
contains-settle id j (k ∷ ids) absent = ground (arith, contains-settle id j ids (ground arith))

module _ (str : ℕ → ℕ) (uuid : ℕ → Option ℕ) where
  -- One action of the API or of the worker, with how Redis and Docker answer. A submission is two actions,
  -- before and after `enqueue`. New ids are new.
  pub data Action (s : Progress) : Progress → Type 0 where
    submit :
        (id session_id triggered_by : ℕ) (code : String) (language : Language)
        → lookup id s.world.executions ≡ none
        → contains id s.submitting ≡ false
        → Action s (record {
          world = submit_row id session_id triggered_by code language s.world;
          submitting = id ∷ s.submitting;
        })
    accept :
        (id : ℕ)
        → contains id s.submitting ≡ true
        → Action s
            (record { world = enqueue (str id) s.world; submitting = settle id s.submitting })
    withdraw :
        (id : ℕ)
        → contains id s.submitting ≡ true
        → Action s (record { world = withdraw_row id s.world; submitting = settle id s.submitting })
    cancel :
        (redis_ok : Bool) (session_id id now : ℕ)
        → Action s (record s { world = (cancel_execution redis_ok session_id id now s.world).1 })
    work : (run : Run) → Action s (record s { world = (run_once uuid run s.world).1 })
    restart :
        (redis_ok : ℕ → Bool) (now : ℕ)
        → Action s (record s { world = (recover_processing uuid redis_ok now s.world).1 })

  pub data Reach (start : Progress) : Progress → Type 0 where
    here : Reach start start
    next : {s t : Progress} → Reach start s → Action s t → Reach start t

  Keeps-handle : (run : Run) (raw : ℕ) (id : Option ℕ) → Keeps (handle uuid run raw id)
  unfolding handle
  Keeps-handle run raw none w = Follows-same w (acknowledge raw w) refl
  Keeps-handle run raw (some id) w =
      let w' = (process run id w).1 in
      Follows-trans w w' (acknowledge raw w') (Keeps-process run id w)
        (Follows-same w' (acknowledge raw w') refl)

  Keeps-claim_next : (run : Run) (items : List ℕ) → Keeps (claim_next uuid run items)
  unfolding claim_next
  Keeps-claim_next run [] w = Follows-same w w refl
  Keeps-claim_next run (raw ∷ rest) w =
      let w' = claim raw rest w in
      Follows-trans w w' (handle uuid run raw (uuid raw) w').1 (Follows-same w w' refl)
        (Keeps-handle run raw (uuid raw) w')

  -- A row that nobody is submitting any more.
  abbrev IsSettled : Progress → ℕ → Execution → Type 0
  IsSettled s id e = (contains id s.submitting ≡ false) × (lookup id s.world.executions ≡ some e)

  abbrev Later : Progress → ℕ → Execution → Type 0
  Later t id e = (e' : Execution) × IsSettled t id e' × IsLater e e'

  followed :
      (w w' : World) (id : ℕ) (e : Execution) (submitting : List ℕ)
      → Follows w w'
      → contains id submitting ≡ false
      → lookup id w.executions ≡ some e
      → Later (record { world = w'; submitting = submitting }) id e
  followed w w' id e submitting follows settled found =
      let (e', found', later) = follows id e found in (e', (settled, found'), later)

  Action-Later :
      {s t : Progress} (id : ℕ) (e : Execution) → Action s t → IsSettled s id e → Later t id e
  unfolding run_once
  Action-Later {s} {t} id e (submit j sid by code language fresh unused) (settled, found) =
      followed s.world (submit_row j sid by code language s.world) id e (j ∷ s.submitting)
        (Follows-fresh s.world (submit_row j sid by code language s.world) j
          (new_execution j sid by code language) fresh refl)
        (ground (arith, fresh, found, settled)) found
  Action-Later {s} {t} id e (accept j waiting) (settled, found) =
      (e, (contains-settle id j s.submitting settled, found), IsLater-refl e)
  Action-Later {s} {t} id e (withdraw j waiting) (settled, found) = (
    e,
    (
      contains-settle id j s.submitting settled,
      elim (Bool-cases (j == id)) [
        | inl same ↦
            let is : j ≡ id = (==_iff j id).0 same in
            absurd (cc (subst (λ (k : ℕ). contains k s.submitting ≡ true) is waiting, settled))
        | inr other ↦ rw (lookup-erase j id s.world.executions, other) found
      ],
    ),
    IsLater-refl e,
  )
  Action-Later {s} {t} id e (cancel redis_ok sid j now) (settled, found) =
      followed s.world (cancel_execution redis_ok sid j now s.world).1 id e s.submitting
        (cancel_execution-Follows redis_ok sid j now s.world) settled found
  Action-Later {s} {t} id e (work run) (settled, found) =
      followed s.world (claim_next uuid run s.world.queue s.world).1 id e s.submitting
        (Keeps-claim_next run s.world.queue s.world) settled found
  Action-Later {s} {t} id e (restart redis_ok now) (settled, found) =
      followed s.world (recover_processing uuid redis_ok now s.world).1 id e s.submitting
        (Keeps-recover_processing uuid redis_ok now s.world) settled found

  -- Whatever the API and the worker do, one action after the other (a job is one action, in which the API may
  -- cancel while the container runs) and with any of the modelled faults: an execution in the table that Redis has accepted (nobody is still submitting it) stays in the table for the same
  -- session and code, and its status moves only by the allowed transitions.
  pub Reach-Follows :
      (start s : Progress) (id : ℕ) (e : Execution)
      → Reach start s
      → contains id start.submitting ≡ false
      → lookup id start.world.executions ≡ some e
      → (e' : Execution) × ((contains id s.submitting ≡ false)
          × (lookup id s.world.executions ≡ some e'))
        × IsLater e e'
  Reach-Follows start s id e here settled found = (e, (settled, found), IsLater-refl e)
  Reach-Follows start s id e (next {s = s'} r a) settled found =
      let (e1, (settled1, found1), later1) = Reach-Follows start s' id e r settled found in
      let (e2, settled2, later2) = Action-Later id e1 a (settled1, found1) in
      (e2, settled2, IsLater-trans e e1 e2 later1 later2)

  -- An execution that Redis has accepted (nobody is still submitting it) and that has completed, failed,
  -- timed out or been cancelled stays in the table, in that state, whatever actions follow (a job is one
  -- action, in which the API may cancel while the container runs).
  pub terminal_is_final :
      (start s : Progress) (id : ℕ) (e : Execution)
      → Reach start s
      → contains id start.submitting ≡ false
      → lookup id start.world.executions ≡ some e
      → is_terminal e.status ≡ true
      → (e' : Execution) × (lookup id s.world.executions ≡ some e') × (e'.status ≡ e.status)
  terminal_is_final start s id e r settled found ended =
      let (e', (_, found'), later) = Reach-Follows start s id e r settled found in
      (e', found', Trace-terminal later.trace ended)
