-- ===== src/Rooms/Cutting.antt =====
-- backend/app/collaboration/websocket.py: a fence cuts off the connections that it is meant for, and no
-- other.
use code_collaborator.Base.{
  ℕ, ◌≡◌, refl, true, Option, some, List, [], ◌∷◌, ◌++◌, map, append_assoc, append-nil, length, ap,
  sym, ◌∙◌, arith, if◌then◌else◌, ==_refl, update,
}
use code_collaborator.Document.{contains}
use code_collaborator.Hub.{
  Hub, Closing, Connection, room_of, websockets, revoke, revoke_all, close_all, close_connection,
  unrevoked, get_room_connections, next_invalidation, fence_session, close_session_connections,
  closing, ws_session_closed,
}

revoked-revoke_all :
    (ws : List ℕ) (c : Closing) (h : Hub) (v : ℕ)
    → (revoke_all ws c h).revoked v ≡ (if contains v ws then some c else h.revoked v)
revoked-revoke_all [] c h v = refl
revoked-revoke_all (w ∷ ws) c h v = ground (arith, revoked-revoke_all ws c (revoke w c h) v)

-- Closing sends the frames; revoking does not, and neither moves a connection.
record IsCut (ws : List ℕ) (c : Closing) (h h' : Hub) : Type 0 where
  rooms : h'.rooms ≡ h.rooms
  closed : h'.closed ≡ h.closed ++ map (λ w. (w, c)) ws
  revoked : (v : ℕ) → h'.revoked v ≡ (if contains v ws then some c else h.revoked v)

rooms-revoke_all : (ws : List ℕ) (c : Closing) (h : Hub) → (revoke_all ws c h).rooms ≡ h.rooms
rooms-revoke_all [] c h = refl
rooms-revoke_all (w ∷ ws) c h = rooms-revoke_all ws c (revoke w c h)

closed-revoke_all : (ws : List ℕ) (c : Closing) (h : Hub) → (revoke_all ws c h).closed ≡ h.closed
closed-revoke_all [] c h = refl
closed-revoke_all (w ∷ ws) c h = closed-revoke_all ws c (revoke w c h)

rooms-close_all : (ws : List ℕ) (c : Closing) (h : Hub) → (close_all ws c h).rooms ≡ h.rooms
rooms-close_all [] c h = refl
rooms-close_all (w ∷ ws) c h = rooms-close_all ws c (close_connection w c h)

revoked-close_all : (ws : List ℕ) (c : Closing) (h : Hub) → (close_all ws c h).revoked ≡ h.revoked
revoked-close_all [] c h = refl
revoked-close_all (w ∷ ws) c h = revoked-close_all ws c (close_connection w c h)

closed-close_all :
    (ws : List ℕ) (c : Closing) (h : Hub)
    → (close_all ws c h).closed ≡ h.closed ++ map (λ w. (w, c)) ws
closed-close_all [] c h = sym (append-nil h.closed)
closed-close_all (w ∷ ws) c h =
    closed-close_all ws c (close_connection w c h)
    ∙ append_assoc h.closed ((w, c) ∷ []) (map (λ v. (v, c)) ws)

close_all-IsCut :
    (ws : List ℕ) (c : Closing) (h : Hub) → IsCut ws c h (close_all ws c (revoke_all ws c h))
close_all-IsCut ws c h =
    let r = revoke_all ws c h in
    record {
      rooms = rooms-close_all ws c r ∙ rooms-revoke_all ws c h;
      closed =
          closed-close_all ws c r
          ∙ ap (λ (l : List (ℕ × Closing)). l ++ map (λ w. (w, c)) ws) (closed-revoke_all ws c h);
      revoked = λ v.
          ap (λ (f : ℕ → Option Closing). f v) (revoked-close_all ws c r)
          ∙ revoked-revoke_all ws c h v;
    }

session-IsCut :
    (sid : ℕ) (h : Hub)
    → IsCut
        (websockets (room_of (h.rooms sid)))
        (closing ws_session_closed "Session is closed")
        h
        (close_session_connections sid h).1
unfolding close_session_connections fence_session
session-IsCut sid h =
    let targets = websockets (room_of (h.rooms sid)) in
    let c = closing ws_session_closed "Session is closed" in
    let fenced : Hub = record h {
      session_invalidations =
          update h.session_invalidations sid
            (some (next_invalidation (h.session_invalidations sid) c));
    } in
    let cut = close_all-IsCut targets c fenced in
    record { rooms = cut.rooms; closed = cut.closed; revoked = cut.revoked }

-- The connections whose WebSocket is not among these.
abbrev pub apart_from : List ℕ → List Connection → List Connection
apart_from ws [] = []
apart_from ws (c ∷ cs) =
    let rest = apart_from ws cs in if contains c.websocket ws then rest else c ∷ rest

all_revoked :
    (h : Hub) (cs : List Connection) (c : Closing)
    → ((v : ℕ) → contains v (websockets cs) ≡ true → h.revoked v ≡ some c)
    → unrevoked h cs ≡ []
all_revoked h [] c cut = refl
all_revoked h (x ∷ xs) c cut =
    let first : h.revoked x.websocket ≡ some c = cut x.websocket (rw (==_refl x.websocket) refl) in
    ground (arith, first, all_revoked h xs c (λ v e. cut v (ground (arith, e))))

-- `close_session_connections` returns the number of the connections in the room and sends each of them
-- the close frame; no broadcast reaches anybody of the room until somebody joins.
pub session_fence_cuts :
    (sid : ℕ) (hub : Hub)
    → let targets = websockets (room_of (hub.rooms sid)) in
      let (count, h) = close_session_connections sid hub in
      (count ≡ length targets)
      × (h.closed
          ≡ hub.closed ++ map (λ v. (v, closing ws_session_closed "Session is closed")) targets)
      × (get_room_connections sid h ≡ [])
unfolding close_session_connections fence_session get_room_connections
session_fence_cuts sid hub =
    let room = room_of (hub.rooms sid) in
    let h = (close_session_connections sid hub).1 in
    let c = closing ws_session_closed "Session is closed" in
    let cut : IsCut (websockets room) c hub h = session-IsCut sid hub in
    (
      refl,
      cut.closed,
      ap (λ (r : ℕ → Option (List Connection)). unrevoked h (room_of (r sid))) cut.rooms
          ∙ all_revoked h room c (λ v e. cut.revoked v ∙ rw e refl),
    )
