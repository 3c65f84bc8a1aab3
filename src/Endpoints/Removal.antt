-- ===== src/Endpoints/Removal.antt =====
-- What `remove_member_endpoint` of backend/app/sessions/router.py guarantees to the session that removes
-- a member.
use code_collaborator.Base.{ℕ, ◌≡◌, ◌≢◌, ap, ◌∙◌, arith, Option, none, ok, Result-cases, inl, inr}
use code_collaborator.Models.{Role, owner, editor}
use code_collaborator.Sessions.{Db, remove_member}
use code_collaborator.Sessions.Members.{role_of, role_of_row, role_of-delete_member}
use code_collaborator.Sessions.Outcomes.{remove_member-eq_ok}
use code_collaborator.Access.{role_checker, require_current_editor}
use code_collaborator.Access.Rules.{role_checker_iff, require_current_editor_iff}
use code_collaborator.Hub.{allowed, decide}
use code_collaborator.Hub.System.{Phase, joined, Fence, Reach, System, later}
use code_collaborator.Hub.Safety.{allowed_is_editor}
use code_collaborator.Endpoints.Members.{Tables, remove_request, remove_member_endpoint, route}
use code_collaborator.Endpoints.Requests.{system, Steps, done, more, request_refines-Steps}

Reach-Steps : {db : Db} {s t : System} → Reach db s → Steps s t → Reach db t
Reach-Steps r done = r
Reach-Steps r (more steps step) = later (Reach-Steps r steps) step

-- An editor has a role.
editor-role :
    (db : Db) (sid uid : ℕ)
    → require_current_editor db sid uid ≡ ok tt
    → role_of sid uid db.members ≢ none
editor-role db sid uid e =
    let access =
      (role_checker_iff editor db sid uid).0 ((require_current_editor_iff db sid uid).0 e) in
    λ missing. cc (ap role_of_row access.is_member, missing)

remove_member-role :
    (db : Db) (sid uid : ℕ) {db' : Db}
    → remove_member db sid uid ≡ ok db'
    → role_of sid uid db'.members ≡ none
remove_member-role db sid uid e =
    let r = remove_member-eq_ok db sid uid e in
    ap (λ (d : Db). role_of sid uid d.members) r.result
    ∙ ground (arith, role_of-delete_member sid uid sid uid db.members)

endpoint-role :
    (asked : Db) (sid caller uid : ℕ) (t : Tables)
    → (remove_member_endpoint asked sid caller uid t).0 ≡ ok tt
    → role_of sid uid (remove_member_endpoint asked sid caller uid t).1.db.members ≡ none
unfolding remove_member_endpoint
endpoint-role asked sid caller uid t e = elim (Result-cases (role_checker owner asked sid caller)) [
  | inr (x, refused) ↦ cc (refused, e)
  | inl (_, permitted) ↦ elim (Result-cases (remove_member t.db sid uid)) [
    | inr (x, refused) ↦ absurd (ground (arith, permitted, refused, e))
    | inl (db, made) ↦ rw (permitted, made) (remove_member-role t.db sid uid made)
  ]
]

-- When the removal of a member is answered with success, no connection that the member has joined with
-- may write, whatever role it has cached and however connections and other requests have interleaved
-- before, as long as no endpoint held the lock of the room.
pub removed_cannot_write :
    {db : Db} (asked : Db) (caller sid uid w : ℕ) (role : Role) (t : Tables) (phases : ℕ → Phase)
    (pending : ℕ → Option Fence)
    → Reach db (system t phases pending)
    → pending sid ≡ none
    → phases w ≡ joined sid uid role
    → (remove_member_endpoint asked sid caller uid t).0 ≡ ok tt
    → decide (remove_member_endpoint asked sid caller uid t).1.hub sid uid w role ≢ allowed
removed_cannot_write asked caller sid uid w role t phases pending r free in_room e =
    let run = request_refines-Steps asked caller t phases pending (remove_request sid uid) free in
    let steps = run.steps in
    let after : Reach _ (system (remove_member_endpoint asked sid caller uid t).1 phases pending) =
      Reach-Steps r (unfold route in steps) in
    λ writes.
      editor-role _ sid uid (allowed_is_editor sid uid w role after in_room free writes)
        (endpoint-role asked sid caller uid t e)
