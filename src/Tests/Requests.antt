-- ===== src/Tests/Requests.antt =====
-- Requests to the endpoints (backend/app/sessions/router.py, execution/router.py), on the session and the
-- room of the other tests.
use code_collaborator.Base.{ℕ, ◌≡◌, ◌≢◌, refl, true, List, [], ok, err}
use code_collaborator.Models.{editor, viewer, python}
use code_collaborator.Sessions.{remove_member, get_active_session}
use code_collaborator.Access.{insufficient_role, role_checker, require_current_editor}
use code_collaborator.Document.{Documents, Answers}
use code_collaborator.Execution.{World, new_execution, create_queued_execution}
use code_collaborator.Hub.{allowed, decide}
use code_collaborator.Document.Locality.{TouchesOnly}
use code_collaborator.Endpoints.Members.{Tables, update_request, remove_member_endpoint, route}
use code_collaborator.Endpoints.Requests.{IsRun, request_refines-Steps}
use code_collaborator.Endpoints.Removal.{removed_cannot_write}
use code_collaborator.Endpoints.Documents.{Site, Met, run_document}
use code_collaborator.Endpoints.Documents.Refusal.{
  run, route_document, refused_request_changes_nothing,
}
use code_collaborator.Endpoints.Documents.Effects.{commits, with_documents, run_captures_text}
use code_collaborator.Tests.Frames.{py}
use code_collaborator.Tests.Members.{shared, open_row}
use code_collaborator.Tests.Documents.{crdt, doc}
use code_collaborator.Tests.Rooms.{connected, connected-reached, codec, alive, room}

abbrev tables : Tables
tables = record { db = shared; hub = connected.hub }

bob_is_removed : (remove_member_endpoint shared 7 1 2 tables).0 ≡ ok tt
unfolding remove_member_endpoint role_checker remove_member get_active_session
bob_is_removed = refl

removed_cannot_write_example :
    decide (remove_member_endpoint shared 7 1 2 tables).1.hub 7 2 5 editor ≢ allowed
removed_cannot_write_example =
    removed_cannot_write shared 1 7 2 5 editor tables connected.phases connected.pending
      connected-reached refl refl bob_is_removed

request_refines-Steps_example :
    IsRun connected.pending connected.phases tables
      (route shared 1 (update_request 7 2 viewer) tables)
request_refines-Steps_example =
    request_refines-Steps shared 1 tables connected.phases connected.pending
      (update_request 7 2 viewer) refl

abbrev world : World
world = record { executions = []; queue = []; processing = []; cancel_keys = []; events = [] }

abbrev site : Site py crdt
site = record { db = shared; world = world; snapshots = []; room = room }

abbrev answers : Answers
answers = record { database_ok = true; redis_ok = true }

abbrev met : Met (List ℕ)
met = commits py crdt answers true true [] []

stranger_is_no_editor : require_current_editor shared 7 9 ≡ err insufficient_role
unfolding require_current_editor
stranger_is_no_editor = refl

refused_request_changes_nothing_example :
    (status : ℕ) × (route_document py crdt codec alive met
        (λ t. "")
        (λ n. n)
        (λ label. label)
        shared
        7
        9
        (run 77)
        site
      ≡ (err status, site))
refused_request_changes_nothing_example =
    refused_request_changes_nothing py crdt codec alive met (λ t. "") (λ n. n) (λ label. label)
      shared 7 9 site insufficient_role (run 77) stranger_is_no_editor

bob_is_editor : role_checker editor shared 7 2 ≡ ok 2
unfolding role_checker
bob_is_editor = refl

bob_is_editor_now : require_current_editor shared 7 2 ≡ ok tt
unfolding require_current_editor
bob_is_editor_now = refl

run_captures_text_example :
    (docs : Documents crdt) × (run_document py crdt codec alive met
        (λ t. "3")
        (λ n. n)
        shared
        7
        2
        77
        site
      ≡ (
        ok (new_execution 77 7 2 "3" python),
        record (with_documents py crdt docs site) {
          world = (create_queued_execution (λ n. n) true 77 7 2 "3" python world).1;
        },
      ))
    × (docs.rows ≡ site.room.docs.rows)
    × TouchesOnly crdt 7 site.room.docs docs
run_captures_text_example =
    run_captures_text py crdt codec alive answers true true [] [] (λ t. "3") (λ n. n) shared 7 2 77
      site open_row doc bob_is_editor bob_is_editor_now refl refl
