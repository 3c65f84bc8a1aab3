-- ===== src/Hub/Fences.antt =====
-- What the fences of websocket.py do: versions only grow, a fence outdates every stamp that was taken
-- before it, and it revokes and closes the connections that are in the room.
use code_collaborator.Base.{
  ℕ, ◌+◌, ◌≡◌, refl, ap, ◌∙◌, arith, Option, some, List, [], ◌∷◌, ◌==◌, if◌then◌else◌, update,
  update_pair,
}
use code_collaborator.Sessions.Members.{same_pair}
use code_collaborator.Hub.{
  Hub, AuthorizationInvalidation, Closing, version_of, room_of, next_invalidation, of_user,
  websockets, revoke, revoke_all, close_all, close_connection, fence_member, fence_session,
  invalidate_member_connections, close_session_connections, closing, ws_session_closed,
}

-- The two hubs have the same fences and stamps.
pub record IsSameFences (h h' : Hub) : Type 0 where
  pub members : h'.member_invalidations ≡ h.member_invalidations
  pub sessions : h'.session_invalidations ≡ h.session_invalidations
  pub stamps : h'.stamps ≡ h.stamps

revoke_all-IsSameFences : (ws : List ℕ) (c : Closing) (h : Hub) → IsSameFences h (revoke_all ws c h)
revoke_all-IsSameFences [] c h = record { members = refl; sessions = refl; stamps = refl }
revoke_all-IsSameFences (w ∷ ws) c h =
    let rest = revoke_all-IsSameFences ws c (revoke w c h) in
    record { members = rest.members; sessions = rest.sessions; stamps = rest.stamps }

close_all-IsSameFences : (ws : List ℕ) (c : Closing) (h : Hub) → IsSameFences h (close_all ws c h)
close_all-IsSameFences [] c h = record { members = refl; sessions = refl; stamps = refl }
close_all-IsSameFences (w ∷ ws) c h =
    let rest = close_all-IsSameFences ws c (close_connection w c h) in
    record { members = rest.members; sessions = rest.sessions; stamps = rest.stamps }

pub record IsMemberFence (sid uid : ℕ) (c : Closing) (h h' : Hub) : Type 0 where
  pub members :
      h'.member_invalidations
      ≡ update_pair h.member_invalidations sid uid
          (some (next_invalidation (h.member_invalidations sid uid) c))
  pub sessions : h'.session_invalidations ≡ h.session_invalidations
  pub stamps : h'.stamps ≡ h.stamps

pub invalidate-IsMemberFence :
    (sid uid : ℕ) (c : Closing) (h : Hub)
    → IsMemberFence sid uid c h (invalidate_member_connections sid uid c h).1
unfolding invalidate_member_connections fence_member
invalidate-IsMemberFence sid uid c h =
    let ws = of_user uid (room_of (h.rooms sid)) in
    let fenced : Hub = record h {
      member_invalidations =
          update_pair h.member_invalidations sid uid
            (some (next_invalidation (h.member_invalidations sid uid) c));
    } in
    let revoked = revoke_all-IsSameFences ws c fenced in
    let done = close_all-IsSameFences ws c (revoke_all ws c fenced) in
    record {
      members = done.members ∙ revoked.members;
      sessions = done.sessions ∙ revoked.sessions;
      stamps = done.stamps ∙ revoked.stamps;
    }

pub record IsSessionFence (sid : ℕ) (h h' : Hub) : Type 0 where
  pub members : h'.member_invalidations ≡ h.member_invalidations
  pub sessions :
      h'.session_invalidations
      ≡ update h.session_invalidations sid (
          some (
            next_invalidation
              (h.session_invalidations sid)
              (closing ws_session_closed "Session is closed")))
  pub stamps : h'.stamps ≡ h.stamps

pub close_session-IsSessionFence :
    (sid : ℕ) (h : Hub) → IsSessionFence sid h (close_session_connections sid h).1
unfolding close_session_connections fence_session
close_session-IsSessionFence sid h =
    let ws = websockets (room_of (h.rooms sid)) in
    let c = closing ws_session_closed "Session is closed" in
    let fenced : Hub = record h {
      session_invalidations =
          update h.session_invalidations sid
            (some (next_invalidation (h.session_invalidations sid) c));
    } in
    let revoked = revoke_all-IsSameFences ws c fenced in
    let done = close_all-IsSameFences ws c (revoke_all ws c fenced) in
    record {
      members = done.members ∙ revoked.members;
      sessions = done.sessions ∙ revoked.sessions;
      stamps = done.stamps ∙ revoked.stamps;
    }

-- The versions of a session and of a member in a hub.
abbrev pub member_version : Hub → (sid uid : ℕ) → ℕ
member_version h sid uid = version_of (h.member_invalidations sid uid)

abbrev pub session_version : Hub → (sid : ℕ) → ℕ
session_version h sid = version_of (h.session_invalidations sid)

pub member_version-fence :
    (sid uid t u : ℕ) (c : Closing) (h h' : Hub)
    → IsMemberFence sid uid c h h'
    → member_version h' t u
      ≡ (if same_pair sid uid t u then member_version h t u + 1 else member_version h t u)
member_version-fence sid uid t u c h h' f =
    ap (λ (m : ℕ → ℕ → Option AuthorizationInvalidation). version_of (m t u)) f.members
    ∙ ground arith

pub session_version-fence :
    (sid t : ℕ) (h h' : Hub)
    → IsSessionFence sid h h'
    → session_version h' t ≡ (if sid == t then session_version h t + 1 else session_version h t)
session_version-fence sid t h h' f =
    ap (λ (m : ℕ → Option AuthorizationInvalidation). version_of (m t)) f.sessions ∙ ground arith
