-- ===== src/Hub/Safety.antt =====
-- In every reachable state of the rooms and tables, a connection that may write is an editor now.
use code_collaborator.Base.{
  ℕ, ◌≤◌, ◌≡◌, refl, sym, ap, subst, arith, Bool, false, not, Option, none, some, ◌==◌,
  if◌then◌else◌, update, Bool-cases, inl, inr, ok, >>=-eq-ok, or_raise, or_raise-eq-ok, raise_if,
  raise_if-eq-ok,
}
use code_collaborator.Base.Dict.{lookup}
use code_collaborator.Models.{Session, Role, editor, role_rank}
use code_collaborator.Sessions.{Db, find_member}
use code_collaborator.Sessions.Outcomes.{
  add_member-eq_ok, update_member_role-eq_ok, remove_member-eq_ok, close_session-eq_ok,
  create_session-eq_ok,
}
use code_collaborator.Access.{require_current_editor}
use code_collaborator.Access.Rules.{role_checker_iff, require_current_editor_iff, member_of}
use code_collaborator.Hub.{
  Hub, AuthorizationInvalidation, version_of, newer, or_else, AuthorizationStamp, Closing, allowed,
  decide, decision_of, authorization_failure, failure_of, close_failed, close_if_invalidated,
  check_session, member_role, stamp_now, set_stamp, leave_hub, reauthenticate_member_connections,
  revoke_member_connections,
}
use code_collaborator.Hub.System.{
  Fence, role_changed, removed, session_closed, fence, Phase, gone, stamped, session_read,
  authenticated, accepted, joined, System, Step, create, add, commit_role, commit_removal,
  commit_close, finish, take_stamp, read_session, read_member, accept, join, check, leave, abandon,
  refuse, Reach, start, later,
}
use code_collaborator.Hub.Fences.{
  member_version, session_version, IsSameFences, invalidate-IsMemberFence,
  close_session-IsSessionFence,
}
use code_collaborator.Hub.Trust.{
  Granted, Opened, Trusted, IsHarmless, Trusted-later, IsPast, concerns,
}
use code_collaborator.Hub.Changes.{
  create_session-IsHarmless, add_member-IsHarmless, update_member_role-IsHarmless,
  remove_member-IsHarmless, close_session-IsHarmless, fence-IsHarmless,
}

abbrev IsTrusted : System → Type 0
IsTrusted s = (w : ℕ) → Trusted s w (s.phases w)

check_session-Opened :
    (db : Db) (sid uid : ℕ) {x : Session} → check_session db sid uid ≡ ok x → Opened db sid
unfolding check_session
check_session-Opened db sid uid e =
    let (_, _, e1) = >>=-eq-ok (or_raise (lookup uid db.users) _) _ e in
    let (x, first, e2) = >>=-eq-ok (or_raise (lookup sid db.sessions) _) _ e1 in
    let (_, second, _) = >>=-eq-ok (raise_if (not x.is_active) _) _ e2 in
    let active = raise_if-eq-ok _ _ second in
    record {
      session = x;
      is_open = record { found = or_raise-eq-ok _ _ first; active = ground arith };
    }

member_role-Granted :
    (db : Db) (sid uid : ℕ) (role : Role)
    → member_role db sid uid ≡ ok role
    → Opened db sid
    → Granted db sid uid role
unfolding member_role
member_role-Granted db sid uid role e opened =
    let (m, first, e1) = >>=-eq-ok (or_raise (find_member sid uid db.members) _) _ e in
    let found = or_raise-eq-ok _ _ first in
    record {
      session = opened.session;
      is_open = opened.is_open;
      has_role = ground (arith, found, e1);
    }

-- The same fences and locks, whatever the phases.
same-IsHarmless :
    (s : System) (h : Hub) (phases : ℕ → Phase)
    → h.member_invalidations ≡ s.hub.member_invalidations
    → h.session_invalidations ≡ s.hub.session_invalidations
    → IsHarmless s (record s { hub = h; phases = phases })
same-IsHarmless s h phases members sessions = record {
  members = λ sid uid. rw members (omega arith);
  sessions = λ sid. rw sessions (omega arith);
  kept = λ sid uid role _ _ free. (free, λ g. g, λ g. g);
}

-- One connection goes on to phase `p`.
phase-IsTrusted :
    (s : System) (h : Hub) (w : ℕ) (p : Phase)
    → h.member_invalidations ≡ s.hub.member_invalidations
    → h.session_invalidations ≡ s.hub.session_invalidations
    → ((v : ℕ) → (w == v) ≡ false → h.stamps v ≡ s.hub.stamps v)
    → let t : System = record s { hub = h; phases = update s.phases w p } in
      Trusted t w p → IsTrusted s → IsTrusted t
phase-IsTrusted s h w p members sessions stamps new inv v =
    let t : System = record s { hub = h; phases = update s.phases w p } in
    elim (Bool-cases (w == v)) [
      | inl same ↦
          let e : w ≡ v = ground arith in
          subst (λ (b : Bool). Trusted t v (if b then p else s.phases v)) (sym same)
            (subst (λ (x : ℕ). Trusted t x p) e new)
      | inr other ↦
          subst (λ (b : Bool). Trusted t v (if b then p else s.phases v)) (sym other)
            (Trusted-later s t v (s.phases v) (same-IsHarmless s h t.phases members sessions)
              (stamps v other) (inv v))
    ]

close_failed-IsSameFences :
    (w : ℕ) (o : Option Closing) (h : Hub) → IsSameFences h (close_failed w o h).1
close_failed-IsSameFences w none h = record { members = refl; sessions = refl; stamps = refl }
close_failed-IsSameFences w (some c) h = record { members = refl; sessions = refl; stamps = refl }

stamp_now-IsPast : (h : Hub) (sid uid : ℕ) → IsPast h sid uid (stamp_now h sid uid)
unfolding stamp_now
stamp_now-IsPast h sid uid = (omega arith, omega arith)

stamps-fence : (sid : ℕ) (f : Fence) (h : Hub) (w : ℕ) → (fence sid f h).stamps w ≡ h.stamps w
unfolding reauthenticate_member_connections revoke_member_connections
stamps-fence sid (role_changed uid) h w =
    ap (λ (m : ℕ → Option AuthorizationStamp). m w) (invalidate-IsMemberFence sid uid _ h).stamps
stamps-fence sid (removed uid) h w =
    ap (λ (m : ℕ → Option AuthorizationStamp). m w) (invalidate-IsMemberFence sid uid _ h).stamps
stamps-fence sid session_closed h w =
    ap (λ (m : ℕ → Option AuthorizationStamp). m w) (close_session-IsSessionFence sid h).stamps

Step-IsTrusted : {s t : System} → Step s t → IsTrusted s → IsTrusted t
unfolding close_if_invalidated leave_hub
Step-IsTrusted {s} {t} (create sid now name language owner_id {db} e) inv = λ w.
    Trusted-later s t w (s.phases w)
      (create_session-IsHarmless s sid now owner_id db
        (create_session-eq_ok s.db sid now name language owner_id e))
      refl (inv w)
Step-IsTrusted {s} {t} (add sid uid role {db} e) inv = λ w.
    Trusted-later s t w (s.phases w)
      (add_member-IsHarmless s sid uid role db (add_member-eq_ok s.db sid uid role e)) refl (inv w)
Step-IsTrusted {s} {t} (commit_role sid uid role {db} free e) inv = λ w.
    Trusted-later s t w (s.phases w)
      (update_member_role-IsHarmless s sid uid role db free
        (update_member_role-eq_ok s.db sid uid role e))
      refl (inv w)
Step-IsTrusted {s} {t} (commit_removal sid uid {db} free e) inv = λ w.
    Trusted-later s t w (s.phases w)
      (remove_member-IsHarmless s sid uid db free (remove_member-eq_ok s.db sid uid e)) refl (inv w)
Step-IsTrusted {s} {t} (commit_close sid now {db} free e) inv = λ w.
    Trusted-later s t w (s.phases w)
      (close_session-IsHarmless s sid now db free (close_session-eq_ok s.db sid now e)) refl (inv w)
Step-IsTrusted {s} {t} (finish sid f pending) inv = λ w.
    Trusted-later s t w (s.phases w) (fence-IsHarmless s sid f pending) (stamps-fence sid f s.hub w)
      (inv w)
Step-IsTrusted {s} (take_stamp sid uid w e) inv =
    phase-IsTrusted s s.hub w (stamped sid uid (stamp_now s.hub sid uid)) refl refl
      (λ v other. refl) (stamp_now-IsPast s.hub sid uid) inv
Step-IsTrusted {s} (read_session sid uid w stamp e opened) inv =
    let past = subst (Trusted s w) e (inv w) in
    phase-IsTrusted s s.hub w (session_read sid uid stamp) refl refl (λ v other. refl)
      (past, λ _ _ _. check_session-Opened s.db sid uid opened) inv
Step-IsTrusted {s} (read_member sid uid w stamp role e member) inv =
    let (past, backed) = subst (Trusted s w) e (inv w) in
    phase-IsTrusted s s.hub w (authenticated sid uid role stamp) refl refl (λ v other. refl)
      (past, λ m n free. member_role-Granted s.db sid uid role member (backed m n free)) inv
Step-IsTrusted {s} (accept sid uid w stamp role e) inv =
    let (past, backed) = subst (Trusted s w) e (inv w) in
    phase-IsTrusted s (set_stamp w stamp s.hub) w (accepted sid uid role) refl refl
      (λ v other. ground arith) (stamp, ground arith, past, backed) inv
Step-IsTrusted {s} {t} (join sid uid w role username e free) inv =
    phase-IsTrusted s t.hub w (joined sid uid role) refl refl (λ v other. refl)
      (subst (Trusted s w) e (inv w)) inv
Step-IsTrusted {s} {t} (check sid uid w) inv =
    let same = close_failed-IsSameFences w (authorization_failure s.hub sid uid w) s.hub in
    λ v.
      Trusted-later s t v (s.phases v) (same-IsHarmless s t.hub s.phases same.members same.sessions)
        (ap (λ (m : ℕ → Option AuthorizationStamp). m v) same.stamps) (inv v)
Step-IsTrusted {s} {t} (leave sid uid w role e free) inv =
    phase-IsTrusted s t.hub w gone refl refl (λ v other. ground arith) tt inv
Step-IsTrusted {s} {t} (abandon sid uid w role e) inv =
    phase-IsTrusted s t.hub w gone refl refl (λ v other. ground arith) tt inv
Step-IsTrusted {s} (refuse w sid uid stamp e) inv =
    phase-IsTrusted s s.hub w gone refl refl (λ v other. refl) tt inv

Reach-IsTrusted : {db : Db} {s : System} → Reach db s → IsTrusted s
Reach-IsTrusted start w = tt
Reach-IsTrusted (later r st) w = Step-IsTrusted st (Reach-IsTrusted r) w

newer-none :
    (o : Option AuthorizationInvalidation) (version : ℕ)
    → newer o version ≡ none
    → version_of o ≤ version
newer-none none version e = omega arith
newer-none (some i) version e = ground arith

or_else-none : (a b : Option Closing) → or_else a b ≡ none → (a ≡ none) × (b ≡ none)
or_else-none none b e = (refl, e)
or_else-none (some c) b e = cc

failure_of-none :
    (o : Option Closing) (stamp : AuthorizationStamp) (a b : Option AuthorizationInvalidation)
    → failure_of o (some stamp) a b ≡ none
    → (newer a stamp.session_version ≡ none) × (newer b stamp.member_version ≡ none)
failure_of-none none stamp a b e = or_else-none (newer a _) (newer b _) e
failure_of-none (some c) stamp a b e = cc

-- A connection that has a stamp and no failure has seen the newest fences.
failure-none :
    (h : Hub) (sid uid w : ℕ) (stamp : AuthorizationStamp)
    → h.stamps w ≡ some stamp
    → authorization_failure h sid uid w ≡ none
    → (member_version h sid uid ≤ stamp.member_version)
      × (session_version h sid ≤ stamp.session_version)
unfolding authorization_failure
failure-none h sid uid w stamp has e =
    let both =
      failure_of-none (h.revoked w) stamp (h.session_invalidations sid)
        (h.member_invalidations sid uid) (rw (sym has) e) in
    (newer-none _ _ both.1, newer-none _ _ both.0)

decision_of-allowed :
    (o : Option Closing) (role : Role)
    → decision_of o role ≡ allowed
    → (o ≡ none) × (role_rank editor ≤ role_rank role)
decision_of-allowed (some c) role e = cc
decision_of-allowed none role e = (refl, ground arith)

Granted-editor :
    (db : Db) (sid uid : ℕ) (role : Role)
    → role_rank editor ≤ role_rank role
    → Granted db sid uid role
    → require_current_editor db sid uid ≡ ok tt
Granted-editor db sid uid role ranks g =
    let (m, found, is_role) = member_of (find_member sid uid db.members) role g.has_role in
    (require_current_editor_iff db sid uid).1 (
      (role_checker_iff editor db sid uid).1 (record {
        session = g.session;
        is_open = g.is_open;
        member = m;
        is_member = found;
        ranks = subst (λ (r : Role). role_rank editor ≤ role_rank r) (sym is_role) ranks;
        canonical = λ wrong_role. cc;
      }))

-- However connections, joins, edits and the endpoints that change sessions and members interleave: when
-- the check of `apply_if_authorized` lets a joined connection write, and no endpoint holds the lock of
-- its room, the database at that moment grants the connection's user the editor's access. The check
-- reads only cached state, and no connection writes on a role that was taken away.
pub allowed_is_editor :
    {db : Db} {s : System} (sid uid w : ℕ) (role : Role)
    → Reach db s
    → s.phases w ≡ joined sid uid role
    → s.pending sid ≡ none
    → decide s.hub sid uid w role ≡ allowed
    → require_current_editor s.db sid uid ≡ ok tt
unfolding decide
allowed_is_editor {db} {s} sid uid w role r in_room free decided =
    let (stamp, has, past, backed) = subst (Trusted s w) in_room (Reach-IsTrusted r w) in
    let (valid, ranks) = decision_of-allowed (authorization_failure s.hub sid uid w) role decided in
    let (members, sessions) = failure-none s.hub sid uid w stamp has valid in
    Granted-editor s.db sid uid role ranks
      (backed members sessions (ap (λ (f : Option Fence). concerns f uid) free))
