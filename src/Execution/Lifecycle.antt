-- ===== src/Execution/Lifecycle.antt =====
-- The execution state machine of models.py, and changes of the table that respect it.
use code_collaborator.Base.{
  ℕ, Bool, true, false, none, some, ◌==◌, ◌≡◌, refl, arith, ok, ==_iff, subst, Bool-cases, inl, inr,
}
use code_collaborator.Base.Dict.{lookup, insert, lookup-insert}
use code_collaborator.Models.{
  Execution, ExecutionStatus, status_in, valid_transitions, transition_to, queued, starting,
  running, completed, failed, timeout, cancelled,
}
use code_collaborator.Execution.{World}

-- The status of one row over time, by allowed transitions alone.
pub data Trace (a : ExecutionStatus) : ExecutionStatus → Type 0 where
  stay : Trace a a
  move : {b c : ExecutionStatus} → Trace a b → status_in c (valid_transitions b) ≡ true → Trace a c

pub Trace-trans : {a b c : ExecutionStatus} → Trace a b → Trace b c → Trace a c
Trace-trans t stay = t
Trace-trans t (move u allowed) = move (Trace-trans t u) allowed

abbrev pub is_terminal : ExecutionStatus → Bool
is_terminal queued = false
is_terminal starting = false
is_terminal running = false
is_terminal _ = true

no_way_out :
    (b c : ExecutionStatus) → is_terminal b ≡ true → status_in c (valid_transitions b) ≡ true → ⊥
no_way_out queued c h allowed = cc
no_way_out starting c h allowed = cc
no_way_out running c h allowed = cc
no_way_out completed c h allowed = cc
no_way_out failed c h allowed = cc
no_way_out timeout c h allowed = cc
no_way_out cancelled c h allowed = cc

pub Trace-terminal : {a b : ExecutionStatus} → Trace a b → is_terminal a ≡ true → b ≡ a
Trace-terminal stay h = refl
Trace-terminal (move {b = b} {c = c} t allowed) h =
    let same = Trace-terminal t h in absurd (no_way_out b c (rw same h) allowed)

-- A transition that is made is allowed, and changes the status alone.
pub transition_to-eq_ok :
    (target : ExecutionStatus) (e : Execution) {e' : Execution}
    → transition_to target e ≡ ok e'
    → (status_in target (valid_transitions e.status) ≡ true) × (e' ≡ record e { status = target })
unfolding transition_to
transition_to-eq_ok target e h = elim (Bool-cases (status_in target (valid_transitions e.status))) [
  | inl allowed ↦ (allowed, ground arith)
  | inr not_allowed ↦ absurd (ground arith)
]

-- Every row of `w` is still there in `w'`, its status has moved by allowed transitions alone, and what it
-- runs for whom has not changed.
pub record IsLater (e e' : Execution) : Type 0 where
  pub trace : Trace e.status e'.status
  pub same_session : e'.session_id ≡ e.session_id
  pub same_code : e'.code ≡ e.code

abbrev pub Follows : World → World → Type 0
Follows w w' =
    (id : ℕ) (e : Execution)
    → lookup id w.executions ≡ some e
    → (e' : Execution) × (lookup id w'.executions ≡ some e') × IsLater e e'

pub IsLater-refl : (e : Execution) → IsLater e e
IsLater-refl e = record { trace = stay; same_session = refl; same_code = refl }

pub IsLater-trans : (a b c : Execution) → IsLater a b → IsLater b c → IsLater a c
IsLater-trans a b c p q = record {
  trace = Trace-trans p.trace q.trace;
  same_session = cc (p.same_session, q.same_session);
  same_code = cc (p.same_code, q.same_code);
}

-- Worlds with the same table.
pub Follows-same : (w w' : World) → w'.executions ≡ w.executions → Follows w w'
Follows-same w w' same id e found = (e, rw same found, IsLater-refl e)

pub Follows-trans : (w w' w'' : World) → Follows w w' → Follows w' w'' → Follows w w''
Follows-trans w w' w'' f g id e found =
    let (e1, found1, later1) = f id e found in
    let (e2, found2, later2) = g id e1 found1 in (e2, found2, IsLater-trans e e1 e2 later1 later2)

-- A later version of a row is written over it.
pub Follows-insert :
    (w w' : World) (id : ℕ) (old new : Execution)
    → lookup id w.executions ≡ some old
    → IsLater old new
    → w'.executions ≡ insert id new w.executions
    → Follows w w'
Follows-insert w w' id old new found later is_insert j e found_j = elim (Bool-cases (id == j)) [
  | inl same ↦ (
    new,
    rw (is_insert, lookup-insert id j new w.executions, same),
    subst (λ x. IsLater x new) (old_is e j same found_j) later,
  )
  | inr other ↦
      (e, rw (is_insert, lookup-insert id j new w.executions, other) found_j, IsLater-refl e)
]
  where
    old_is : (e : Execution) (j : ℕ) → (id == j) ≡ true → lookup j w.executions ≡ some e → old ≡ e
    old_is e j same found_j = cc (found, found_j, (==_iff id j).0 same)

-- A row under a new id.
pub Follows-fresh :
    (w w' : World) (id : ℕ) (new : Execution)
    → lookup id w.executions ≡ none
    → w'.executions ≡ insert id new w.executions
    → Follows w w'
Follows-fresh w w' id new absent kept j e found =
    (e, ground (arith, kept, lookup-insert id j new w.executions), IsLater-refl e)
