-- ===== src/Worker/Monitoring.antt =====
-- `_monitor` of backend/app/execution/worker.py: what ends the wait for a container, and what a
-- forced status means.
use code_collaborator.Base.{
  Bool, err, if◌then◌else◌, ◌≡◌, true, false, Option, none, some, List, [], ◌∷◌, ◌⊎◌, ok, Result,
}
use code_collaborator.Models.{ExecutionStatus, cancelled, timeout}
use Prim.Native.String.{String}

-- What one round of `_monitor` meets: the answer of Redis about the cancellation key, what Docker raises
-- in `kill` and `reload`, the state of the container, the clock.
pub record Poll : Type 0 where
  pub redis : Option String
  pub cancel_requested : Bool
  pub kill : Option String
  pub reload : Option String
  pub exited : Bool
  pub deadline_passed : Bool

-- A call that may raise, and what follows it.
abbrev pub after_call :
    Option String
    → Option (Result String (Option ExecutionStatus))
    → Option (Result String (Option ExecutionStatus))
after_call none next = next
after_call (some message) next = some (err message)

-- `_monitor`: the forced status, if any, or what was raised. `none` on the outside: the polls seen so far
-- ended nothing.
unfoldable pub monitor : List Poll → Option (Result String (Option ExecutionStatus))
monitor [] = none
monitor (p ∷ ps) =
    let later = monitor ps in
    after_call p.redis (
      if p.cancel_requested
      then after_call p.kill (some (ok (some cancelled)))
      else after_call p.reload (
          if p.exited
          then some (ok none)
          else if p.deadline_passed
          then after_call p.kill (some (ok (some timeout)))
          else later))

-- Some poll of the list has the property.
abbrev pub AnyPoll : (Poll → Type 0) → List Poll → Type 0
AnyPoll P [] = ⊥
AnyPoll P (p ∷ ps) = P p ⊎ AnyPoll P ps

-- The container was killed in this round, for a reason that the round has seen.
pub data IsKilled (p : Poll) : ExecutionStatus → Type 0 where
  on_request : p.kill ≡ none → p.cancel_requested ≡ true → IsKilled p cancelled
  at_deadline :
      p.kill ≡ none
      → p.cancel_requested ≡ false
      → p.reload ≡ none
      → p.exited ≡ false
      → p.deadline_passed ≡ true
      → IsKilled p timeout

-- What `_monitor` answers.
abbrev Wait : Type 0
Wait = Option (Result String (Option ExecutionStatus))
