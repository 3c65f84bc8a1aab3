-- ===== src/Tests/Executions.antt =====
-- An execution (backend/app/execution) that is submitted and cancelled.
use code_collaborator.Base.{ℕ, ◌≡◌, refl, none, some, List, [], ◌∷◌, ◌++◌, true, false, ok, err}
use code_collaborator.Base.Dict.{lookup, lookup-erase}
use code_collaborator.Models.{Execution, python, cancelled}
use code_collaborator.Execution.{
  World, queue_unavailable, new_execution, submit_row, withdraw_row, enqueue,
  create_queued_execution, get_execution, cancel_execution,
}
use code_collaborator.Execution.Lifecycle.{IsLater}
use code_collaborator.Execution.Requests.{create_queued_execution_atomic, cancel_execution_lem}
use code_collaborator.Document.{contains}
use code_collaborator.Worker.{Run, Outcome}
use code_collaborator.Worker.Completion.{smooth_run}
use code_collaborator.Worker.Monitoring.{Poll, monitor}
use code_collaborator.Worker.Output.{Stream, stdout, stderr}
use code_collaborator.Worker.History.{
  Progress, settle, Reach, here, next, submit, accept, withdraw, cancel, Reach-Follows,
  terminal_is_final,
}
use Prim.Native.String.{String}

abbrev str : ℕ → ℕ
str n = n

abbrev nothing : World
nothing = record { executions = []; queue = []; processing = []; cancel_keys = []; events = [] }

abbrev waiting : Execution
waiting = new_execution 4 7 2 "print(1)" python

create_queued_execution_atomic_example :
    (let (r, w') = create_queued_execution str true 4 7 2 "print(1)" python nothing in
      (r ≡ ok waiting) × (lookup 4 w'.executions ≡ some waiting) × (w'.queue ≡ [] ++ 4 ∷ []))
    × (let (r, w') = create_queued_execution str false 4 7 2 "print(1)" python nothing in
        (r ≡ err queue_unavailable) × (w'.queue ≡ []) × ((j : ℕ) → lookup j w'.executions ≡ none))
create_queued_execution_atomic_example =
    create_queued_execution_atomic str 4 7 2 "print(1)" python nothing refl

abbrev queued_world : World
queued_world = record nothing { executions = (4, waiting) ∷ []; queue = 4 ∷ [] }

abbrev gone : Execution
gone = record waiting { status = cancelled; finished_at = some 50 }

abbrev after_cancel : World
after_cancel = record nothing { executions = (4, gone) ∷ [] }

-- Execution 4 is accepted and waits; execution 6 is submitted, cancelled, and withdrawn, as Redis does not
-- take it.
abbrev accepted_start : Progress
accepted_start = record { world = queued_world; submitting = [] }

abbrev submitting_six : Progress
submitting_six = record { world = submit_row 6 7 2 "x" python queued_world; submitting = 6 ∷ [] }

abbrev six_cancelled : Progress
six_cancelled = record submitting_six {
  world = (cancel_execution true 7 6 50 submitting_six.world).1;
}

abbrev six_withdrawn : Progress
six_withdrawn = record {
  world = withdraw_row 6 six_cancelled.world;
  submitting = settle 6 (6 ∷ []);
}

abbrev four_cancelled : Progress
four_cancelled = record six_withdrawn {
  world = (cancel_execution true 7 4 50 six_withdrawn.world).1;
}

withdrawn-reached : Reach str some accepted_start six_withdrawn
withdrawn-reached =
    next (next (next here (submit 6 7 2 "x" python refl refl)) (cancel true 7 6 50))
      (withdraw 6 refl)

-- The cancellation of execution 6 succeeded, and its row is gone all the same.
six_was_cancelled :
    (cancel_execution true 7 6 50 submitting_six.world).0
    ≡ ok (record (new_execution 6 7 2 "x" python) { status = cancelled; finished_at = some 50 })
unfolding get_execution
six_was_cancelled =
    ((cancel_execution_lem true 7 6 50 submitting_six.world).1 (new_execution 6 7 2 "x" python)
      refl).0

six_is_gone : lookup 6 six_withdrawn.world.executions ≡ none
six_is_gone = lookup-erase 6 6 six_cancelled.world.executions

Reach-Follows_example :
    (e' : Execution) × ((contains 4 four_cancelled.submitting ≡ false)
      × (lookup 4 four_cancelled.world.executions ≡ some e'))
    × IsLater waiting e'
Reach-Follows_example =
    Reach-Follows str some accepted_start four_cancelled 4 waiting
      (next withdrawn-reached (cancel true 7 4 50)) refl refl

abbrev ended_start : Progress
ended_start = record { world = after_cancel; submitting = [] }

abbrev six_sent : Progress
six_sent = record { world = submit_row 6 7 2 "x" python after_cancel; submitting = 6 ∷ [] }

abbrev six_accepted : Progress
six_accepted = record { world = enqueue (str 6) six_sent.world; submitting = settle 6 (6 ∷ []) }

terminal_is_final_example :
    (e' : Execution) × (lookup 4 six_accepted.world.executions ≡ some e') × (e'.status ≡ cancelled)
terminal_is_final_example =
    terminal_is_final str some ended_start six_accepted 4 gone
      (next (next here (submit 6 7 2 "x" python refl refl)) (accept 6 refl)) refl refl refl

abbrev nothing_printed : Outcome
nothing_printed = record {
  stdout = "";
  stderr = "";
  exit_code = some 0;
  elapsed_ms = 5;
  finished_at = 60;
}

-- A job in which Redis does not take the first event.
abbrev mute_run : Run
mute_run = record (smooth_run [] [] none 0 nothing_printed) { publish_starting = false }

abbrev claimed_world : World
claimed_world = record nothing { executions = (4, waiting) ∷ []; processing = 4 ∷ [] }

abbrev hello : List (String × String)
hello = ("stdout", "hello") ∷ []

abbrev idle_poll : Poll
idle_poll = record {
  redis = none;
  cancel_requested = false;
  kill = none;
  reload = none;
  exited = false;
  deadline_passed = false;
}

abbrev late_poll : Poll
late_poll = record idle_poll { deadline_passed = true }

-- A kill that fails is raised.
failing_kill : monitor (record late_poll { kill = some "gone" } ∷ []) ≡ some (err "gone")
unfolding monitor
failing_kill = refl

-- Output in two chunks of stdout, with one of stderr between, under a limit of 3 bytes; a piece is decoded
-- to its first byte.
abbrev chunks : List (Stream × List ℕ)
chunks = (stdout, 65 ∷ 66 ∷ []) ∷ (stderr, 90 ∷ []) ∷ (stdout, 67 ∷ 68 ∷ []) ∷ []

abbrev first_byte : List ℕ → ℕ
first_byte [] = 0
first_byte (b ∷ bs) = b
