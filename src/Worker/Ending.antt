-- ===== src/Worker/Ending.antt =====
-- Every step of execution/worker.py respects the state machine, whatever fails; and how a job ends.
use code_collaborator.Base.{
  ℕ, Bool, true, false, Option, none, some, List, [], ◌∷◌, ◌≡◌, refl, arith, ok, err, Result, subst,
  sym, Bool-cases, Option-cases, Result-cases, inl, inr,
}
use Prim.Native.String.{String}
use code_collaborator.Base.Dict.{lookup}
use code_collaborator.Models.{
  Execution, ExecutionStatus, TransitionError, same_status, transition_to, queued, starting,
  running, failed, cancelled,
}
use code_collaborator.Execution.{World, Event, cancel_execution}
use code_collaborator.Execution.Lifecycle.{
  stay, move, IsLater, Follows, Follows-same, Follows-insert, Follows-trans, transition_to-eq_ok,
}
use code_collaborator.Execution.Requests.{cancel_execution-Follows}
use code_collaborator.Worker.{
  Fault, Step, ◌>>=◌, ◌>>◌, pure, docker_call, publish, commit, commit_publish, transition_found,
  transition, Outcome, with_outcome, finished, finish_found, finish, Cancellation, cancel_all, Run,
  target_of, meanwhile, stream_out, await_stream, returned, run_forced, run_started, run_claimed,
  recovered, drop_key, run_guarded, process,
}

-- A step leaves a table that follows the one that it found, also where it raises.
abbrev pub Keeps : {A : Type 0} → Step A → Type 0
Keeps m = (w : World) → Follows w (m w).1

pub Keeps-bind_at :
    {A B : Type 0} (m : Step A) (f : A → Step B) (w : World)
    → Follows w (m w).1
    → ((a : A) → Keeps (f a))
    → Follows w ((m >>= f) w).1
Keeps-bind_at m f w km kf = elim (Result-cases (m w).0) [
  | inl (a, e) ↦ rw (e, ◌>>=◌) (Follows-trans w (m w).1 (f a (m w).1).1 km (kf a (m w).1))
  | inr (x, e) ↦ rw (e, ◌>>=◌) km
]

pub Keeps->>= :
    {A B : Type 0} (m : Step A) (f : A → Step B)
    → Keeps m
    → ((a : A) → Keeps (f a))
    → Keeps (m >>= f)
Keeps->>= m f km kf w = Keeps-bind_at m f w (km w) kf

pub Keeps->> : {B : Type 0} (m : Step (Unit {0})) (k : Step B) → Keeps m → Keeps k → Keeps (m >> k)
Keeps->> m k km kk = Keeps->>= m (λ _. k) km (λ _. kk)

pub Keeps-pure : {A : Type 0} (a : A) → Keeps (pure a)
Keeps-pure a w = Follows-same w w refl

pub Keeps-publish : (redis_ok : Bool) (event : Event) → Keeps (publish redis_ok event)
Keeps-publish true event w = Follows-same w (publish true event w).1 refl
Keeps-publish false event w = Follows-same w w refl

Keeps-docker_call : (o : Option String) → Keeps (docker_call o)
Keeps-docker_call none w = Follows-same w w refl
Keeps-docker_call (some message) w = Follows-same w w refl

pub commit-Follows :
    (id : ℕ) (old new : Execution) (w : World)
    → lookup id w.executions ≡ some old
    → IsLater old new
    → Follows w (commit id new w)
commit-Follows id old new w found later =
    Follows-insert w (commit id new w) id old new found later refl

-- A later version of a row, if the transition was allowed, is committed and published.
commit_publish-Follows :
    (redis_ok : Bool) (id : ℕ) (old : Execution) (r : Result TransitionError Execution) (w : World)
    → lookup id w.executions ≡ some old
    → ((new : Execution) → r ≡ ok new → IsLater old new)
    → Follows w (commit_publish redis_ok id r w).1
unfolding commit_publish
commit_publish-Follows redis_ok id old (err x) w found later = Follows-same w w refl
commit_publish-Follows redis_ok id old (ok new) w found later =
    Follows-trans w (commit id new w) (commit_publish redis_ok id (ok new) w).1
      (commit-Follows id old new w found (later new refl))
      (Keeps->>= (publish redis_ok _) (λ _. pure new) (Keeps-publish redis_ok _)
        (λ _. Keeps-pure new) (commit id new w))

pub transition_to-IsLater :
    (target : ExecutionStatus) (e e' : Execution) → transition_to target e ≡ ok e' → IsLater e e'
transition_to-IsLater target e e' h =
    let (allowed, same) = transition_to-eq_ok target e h in
    subst (IsLater e) (sym same)
      (record { trace = move stay allowed; same_session = refl; same_code = refl })

finished-IsLater :
    (target : ExecutionStatus) (o : Outcome) (e e' : Execution)
    → finished target o e ≡ ok e'
    → IsLater e e'
unfolding finished
finished-IsLater target o e e' h = elim (Bool-cases (same_status e.status cancelled)) [
  | inl was ↦
      let same : with_outcome o e ≡ e' = ground arith in
      subst (IsLater e) same (record { trace = stay; same_session = refl; same_code = refl })
  | inr other ↦ elim (Result-cases (transition_to target e)) [
    | inl (t, made) ↦
        let later = transition_to-IsLater target e t made in
        let same : with_outcome o t ≡ e' = ground arith in
        subst (IsLater e) same (record {
          trace = later.trace;
          same_session = later.same_session;
          same_code = later.same_code;
        })
    | inr (x, refused) ↦ absurd (ground arith)
  ]
]

Keeps-transition :
    (redis_ok : Bool) (id : ℕ) (expected target : ExecutionStatus)
    → Keeps (transition redis_ok id expected target)
unfolding transition transition_found
Keeps-transition redis_ok id expected target w = elim (Option-cases (lookup id w.executions)) [
  | inl absent ↦ rw absent (Follows-same w w refl)
  | inr (e, found) ↦ rw found (elim (Bool-cases (same_status e.status expected)) [
    | inr other ↦ rw other (Follows-same w w refl)
    | inl same ↦ rw same (
        Keeps-bind_at (commit_publish redis_ok id (transition_to target e)) (λ e'. pure (some e')) w
          (commit_publish-Follows redis_ok id e (transition_to target e) w found
            (λ e' made. transition_to-IsLater target e e' made))
          (λ e'. Keeps-pure (some e')))
  ])
]

Keeps-finish :
    (redis_ok : Bool) (id : ℕ) (target : ExecutionStatus) (o : Outcome)
    → Keeps (finish redis_ok id target o)
unfolding finish finish_found
Keeps-finish redis_ok id target o w = elim (Option-cases (lookup id w.executions)) [
  | inl absent ↦ rw absent (Follows-same w w refl)
  | inr (e, found) ↦ rw found (
      Keeps-bind_at (commit_publish redis_ok id (finished target o e)) (λ _. pure tt) w
        (commit_publish-Follows redis_ok id e (finished target o e) w found
          (λ e' made. finished-IsLater target o e e' made))
        (λ _. Keeps-pure tt))
]

cancel_all-Follows : (cs : List Cancellation) (w : World) → Follows w (cancel_all cs w)
cancel_all-Follows [] w = Follows-same w w refl
cancel_all-Follows (c ∷ cs) w =
    let w' = (cancel_execution c.redis_ok c.session_id c.execution_id c.now w).1 in
    Follows-trans w w' (cancel_all cs w')
      (cancel_execution-Follows c.redis_ok c.session_id c.execution_id c.now w)
      (cancel_all-Follows cs w')

Keeps-stream_out : (id : ℕ) (printed : List (String × String)) → Keeps (stream_out id printed)
Keeps-stream_out id printed w = Follows-same w (stream_out id printed w).1 refl

Keeps-await_stream : (ended : Bool) → Keeps (await_stream ended)
Keeps-await_stream true w = Follows-same w w refl
Keeps-await_stream false w = Follows-same w w refl

Keeps-returned : {A : Type 0} (r : Result String A) → Keeps (returned r)
Keeps-returned (ok a) w = Follows-same w w refl
Keeps-returned (err message) w = Follows-same w w refl

Keeps-run_forced :
    (run : Run) (id : ℕ) (forced : Option ExecutionStatus) → Keeps (run_forced run id forced)
unfolding run_forced
Keeps-run_forced run id forced =
    let target = target_of run.exit_code forced in
    let ending = docker_call run.wait >> await_stream run.stream in
    Keeps->> (ending >> docker_call run.collect) (finish run.publish_finished id target run.outcome)
      (Keeps->> ending (docker_call run.collect)
        (Keeps->> (docker_call run.wait) (await_stream run.stream) (Keeps-docker_call run.wait)
          (Keeps-await_stream run.stream))
        (Keeps-docker_call run.collect))
      (Keeps-finish run.publish_finished id target run.outcome)

Keeps-run_started : (run : Run) (id : ℕ) (o : Option Execution) → Keeps (run_started run id o)
unfolding run_started
Keeps-run_started run id none = Keeps-docker_call run.kill
Keeps-run_started run id (some e) =
    let begin = meanwhile run.cancellations >> stream_out id run.printed_running in
    Keeps->>= (begin >> returned run.monitored) (run_forced run id)
      (Keeps->> begin (returned run.monitored)
        (Keeps->> (meanwhile run.cancellations) (stream_out id run.printed_running)
          (cancel_all-Follows run.cancellations) (Keeps-stream_out id run.printed_running))
        (Keeps-returned run.monitored))
      (Keeps-run_forced run id)

Keeps-run_claimed : (run : Run) (id : ℕ) → Keeps (run_claimed run id)
unfolding run_claimed
Keeps-run_claimed run id =
    let begin = docker_call run.container >> docker_call run.start in
    let printing = begin >> stream_out id run.printed_before in
    let claim_row = transition run.publish_running id starting running in
    Keeps->>= (printing >> claim_row) (run_started run id)
      (Keeps->> printing claim_row
        (Keeps->> begin (stream_out id run.printed_before)
          (Keeps->> (docker_call run.container) (docker_call run.start)
            (Keeps-docker_call run.container) (Keeps-docker_call run.start))
          (Keeps-stream_out id run.printed_before))
        (Keeps-transition run.publish_running id starting running))
      (Keeps-run_started run id)

Keeps-recovered : (run : Run) (id : ℕ) (r : Result Fault (Unit {0})) → Keeps (recovered run id r)
unfolding recovered
Keeps-recovered run id (ok u) = Keeps-pure tt
Keeps-recovered run id (err x) = Keeps-finish run.publish_failure id failed run.failure

Keeps-run_guarded : (run : Run) (id : ℕ) (o : Option Execution) → Keeps (run_guarded run id o)
unfolding run_guarded
Keeps-run_guarded run id none w = Follows-same w w refl
Keeps-run_guarded run id (some e) w =
    let (r, w1) = run_claimed run id w in
    let w2 = (recovered run id r w1).1 in
    let w3 = (stream_out id run.printed_after (drop_key id w2)).1 in
    Follows-trans w w1 w3 (Keeps-run_claimed run id w)
      (Follows-trans w1 w2 w3 (Keeps-recovered run id r w1) (Follows-same w2 w3 refl))

pub Keeps-process : (run : Run) (id : ℕ) → Keeps (process run id)
unfolding process
Keeps-process run id =
    Keeps->>= (transition run.publish_starting id queued starting) (run_guarded run id)
      (Keeps-transition run.publish_starting id queued starting) (Keeps-run_guarded run id)
