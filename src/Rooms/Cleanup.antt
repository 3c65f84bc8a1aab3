-- ===== src/Rooms/Cleanup.antt =====
-- backend/app/collaboration/websocket.py: whatever happens to a connection, its traces go once its loop
-- has ended.
use code_collaborator.Base.{
  ℕ, ◌≡◌, refl, Bool, true, false, Option, none, some, List, [], ◌∷◌, ◌++◌, Result, ok, err, sym,
  subst, ==_refl, ◌≢◌, arith,
}
use code_collaborator.Models.{Role}
use code_collaborator.Protocol.{PyText, encode_awareness_message, AwarenessEntry}
use code_collaborator.Awareness.{remove_owner}
use code_collaborator.Lib0.{Parse, Bytes}
use code_collaborator.Document.{Crdt, Documents, DocumentError, contains}
use code_collaborator.Document.Storage.{load_from_storage}
use code_collaborator.Hub.{
  Hub, AuthorizationStamp, authorization_failure, Closing, Connection, room_of, room_or_none,
  left_room, leave_hub, without, websockets, close_if_invalidated, close_failed, closing, set_stamp,
  forget,
}
use code_collaborator.Rooms.{Room, Codec, Reply, broadcast_awareness, broadcast_binary}
use code_collaborator.Rooms.Endpoint.{
  Arrival, disconnect, Outcome, waiting, ended, failed, join_room, join_found, loaded, leave_room,
  leave_found, left_found, greet, go_on, round, receive_all,
}
use code_collaborator.Rooms.Serving.{
  Circumstances, finish_joined, greeted, rechecked, serve_joined, serve_checked, serve_connection,
}

-- The connection is in no list of the session's room and has no stamp and no revocation.
pub record IsGone (sid w : ℕ) (h : Hub) : Type 0 where
  pub no_stamp : h.stamps w ≡ none
  pub not_revoked : h.revoked w ≡ none
  pub not_in_room : contains w (websockets (room_of (h.rooms sid))) ≡ false

contains-without : (w : ℕ) (cs : List Connection) → contains w (websockets (without w cs)) ≡ false
contains-without w [] = refl
contains-without w (c ∷ cs) = ground (arith, contains-without w cs)

room_of-room_or_none : (cs : List Connection) → room_of (room_or_none cs) ≡ cs
room_of-room_or_none [] = refl
room_of-room_or_none (c ∷ cs) = refl

left_room-absent :
    (w : ℕ) (o : Option (List Connection))
    → contains w (websockets (room_of (left_room w o))) ≡ false
left_room-absent w none = refl
left_room-absent w (some room) =
    rw (room_of-room_or_none (without w room)) (contains-without w room)

leave_hub-IsGone : (sid w : ℕ) (h : Hub) → IsGone sid w (leave_hub sid w h)
unfolding leave_hub
leave_hub-IsGone sid w h = record {
  no_stamp = rw (==_refl w) refl;
  not_revoked = rw (==_refl w) refl;
  not_in_room = rw (==_refl sid) (left_room-absent w (h.rooms sid));
}

module _ (py : PyText) (crdt : Crdt) (codec : Codec py crdt) (alive : ℕ → Bool) where
  open crdt use {State}

  hub-broadcast_binary :
      (sid : ℕ) (p : Parse Bytes) (s : Room py crdt)
      → (broadcast_binary py crdt codec alive sid p s).1.hub ≡ s.hub
  unfolding broadcast_binary
  hub-broadcast_binary sid (ok frame) s = refl
  hub-broadcast_binary sid (err e) s = refl

  hub-broadcast_awareness :
      (sid : ℕ) (es : List (AwarenessEntry py.Text py.State)) (s : Room py crdt)
      → (broadcast_awareness py crdt codec alive sid es s).1.hub ≡ s.hub
  unfolding broadcast_awareness
  hub-broadcast_awareness sid [] s = refl
  hub-broadcast_awareness sid (e ∷ es) s =
      hub-broadcast_binary sid (encode_awareness_message py (e ∷ es)) s

  hub-left_found :
      (redis_ok : Bool) (edits : List State) (sid w now : ℕ) (cs : List Connection)
      (s : Room py crdt)
      → (left_found py crdt codec alive redis_ok edits sid w now cs s).1.hub ≡ s.hub
  hub-left_found redis_ok edits sid w now [] s = refl
  hub-left_found redis_ok edits sid w now (c ∷ cs) s =
      let (store, gone) = remove_owner codec.null_text sid w now s.store in
      hub-broadcast_awareness sid gone (record s { store = store })

  hub-leave_found :
      (redis_ok : Bool) (edits : List State) (sid w now : ℕ) (o : Option (List Connection))
      (s : Room py crdt)
      → (leave_found py crdt codec alive redis_ok edits sid w now o s).1.hub ≡ s.hub
  hub-leave_found redis_ok edits sid w now none s = refl
  hub-leave_found redis_ok edits sid w now (some room) s =
      hub-left_found redis_ok edits sid w now (without w room) s

  leave_room-IsGone :
      (redis_ok : Bool) (edits : List State) (sid w now : ℕ) (s : Room py crdt)
      → IsGone sid w (leave_room py crdt codec alive redis_ok edits sid w now s).1.hub
  unfolding leave_room
  leave_room-IsGone redis_ok edits sid w now s =
      subst (IsGone sid w)
        (sym (
          hub-leave_found redis_ok edits sid w now (s.hub.rooms sid)
            (record s { hub = leave_hub sid w s.hub })))
        (leave_hub-IsGone sid w s.hub)

  go_on-stops :
      (o : Outcome) (s : Room py crdt) (rest : Outcome × Room py crdt)
      → rest.0 ≢ waiting
      → (go_on py crdt codec alive o s rest).0 ≢ waiting
  go_on-stops waiting s rest stops = stops
  go_on-stops ended s rest stops = λ e. cc
  go_on-stops failed s rest stops = λ e. cc

  -- A loop that receives a disconnect ends, at the latest there.
  receive_all-stops :
      (w sid uid : ℕ) (role : Role) (before after : List (Arrival py crdt)) (now : ℕ)
      (others : Room py crdt → Room py crdt) (s : Room py crdt)
      → (receive_all py crdt codec alive w sid uid role
          (before ++ (now, others, disconnect) ∷ after)
          s).0
        ≢ waiting
  unfolding receive_all round
  receive_all-stops w sid uid role [] after now others s = λ e. cc
  receive_all-stops w sid uid role ((at, meanwhile, message) ∷ before) after now others s =
      let (o, t) = round py crdt codec alive w sid uid role at message (meanwhile s) in
      go_on-stops o t _ (receive_all-stops w sid uid role before after now others t)

  -- A loop that stops whatever the state is.
  abbrev Stops : (w sid uid : ℕ) → Role → List (Arrival py crdt) → Type 0
  Stops w sid uid role messages =
      (s : Room py crdt) → (receive_all py crdt codec alive w sid uid role messages s).0 ≢ waiting

  module _ (met : Circumstances State) where
    abbrev Cleaned : (sid w : ℕ) → Outcome × Room py crdt → Type 0
    Cleaned sid w p = (p.0 ≢ waiting) × IsGone sid w p.1.hub

    finish_joined-Cleaned :
        (sid w : ℕ) (p : Outcome × Room py crdt)
        → p.0 ≢ waiting
        → Cleaned sid w (finish_joined py crdt codec alive met sid w p)
    unfolding finish_joined
    finish_joined-Cleaned sid w (waiting, s) stops = absurd (stops refl)
    finish_joined-Cleaned sid w (ended, s) stops =
        (stops, leave_room-IsGone met.redis_ok met.edits sid w met.left_at s)
    finish_joined-Cleaned sid w (failed, s) stops =
        (stops, leave_room-IsGone met.redis_ok met.edits sid w met.left_at _)

    greeted-Stops :
        (sid uid w : ℕ) (role : Role) (messages : List (Arrival py crdt)) (r : Reply py crdt)
        → Stops w sid uid role messages
        → (greeted py crdt codec alive met sid uid w role messages r).0 ≢ waiting
    greeted-Stops sid uid w role messages (ok _, s) stops = stops s
    greeted-Stops sid uid w role messages (err e, s) stops = λ h. cc

    rechecked-Stops :
        (sid uid w : ℕ) (role : Role) (messages : List (Arrival py crdt)) (p : Bool × Hub)
        (s : Room py crdt)
        → Stops w sid uid role messages
        → (rechecked py crdt codec alive met sid uid w role messages p s).0 ≢ waiting
    rechecked-Stops sid uid w role messages (true, hub) s stops = λ h. cc
    rechecked-Stops sid uid w role messages (false, hub) s stops =
        greeted-Stops sid uid w role messages
          (greet py crdt codec alive w sid role (record s { hub = hub })) stops

    forget-IsGone :
        (sid w : ℕ) (h : Hub)
        → contains w (websockets (room_of (h.rooms sid))) ≡ false
        → IsGone sid w (forget w h)
    forget-IsGone sid w h absent = record {
      no_stamp = rw (==_refl w) refl;
      not_revoked = rw (==_refl w) refl;
      not_in_room = absent;
    }

    serve_joined-Cleaned :
        (sid uid w : ℕ) (role : Role) (messages : List (Arrival py crdt)) (s : Room py crdt)
        → Stops w sid uid role messages
        → Cleaned sid w (serve_joined py crdt codec alive met sid uid w role messages (ok tt, s))
    serve_joined-Cleaned sid uid w role messages s stops =
        finish_joined-Cleaned sid w _
          (rechecked-Stops sid uid w role messages (close_if_invalidated sid uid w s.hub) s stops)

    loaded-Cleaned :
        (sid : ℕ) (c : Connection) (messages : List (Arrival py crdt))
        (r : Result DocumentError crdt.Doc × Documents crdt) (s : Room py crdt)
        → Stops c.websocket sid c.user_id c.role messages
        → Cleaned sid c.websocket (
            serve_joined py crdt codec alive met sid c.user_id c.websocket c.role messages
              (loaded py crdt sid c r s))
    loaded-Cleaned sid c messages (ok doc, docs) s stops =
        serve_joined-Cleaned sid c.user_id c.websocket c.role messages _ stops
    loaded-Cleaned sid c messages (err e, docs) s stops =
        (λ h. cc, forget-IsGone sid c.websocket _ (rw (==_refl sid) refl))

    join_found-Cleaned :
        (sid : ℕ) (c : Connection) (messages : List (Arrival py crdt)) (room : List Connection)
        (s : Room py crdt)
        → Stops c.websocket sid c.user_id c.role messages
        → Cleaned sid c.websocket (
            serve_joined py crdt codec alive met sid c.user_id c.websocket c.role messages
              (join_found py crdt met.on_join sid c room s))
    join_found-Cleaned sid c messages [] s stops =
        loaded-Cleaned sid c messages (load_from_storage crdt met.on_join sid s.docs) s stops
    join_found-Cleaned sid c messages (other ∷ others) s stops =
        serve_joined-Cleaned sid c.user_id c.websocket c.role messages _ stops

    serve_checked-Cleaned :
        (sid : ℕ) (c : Connection) (messages : List (Arrival py crdt)) (o : Option Closing)
        (h : Hub) (s : Room py crdt)
        → contains c.websocket (websockets (room_of (h.rooms sid))) ≡ false
        → Stops c.websocket sid c.user_id c.role messages
        → Cleaned sid c.websocket
            (serve_checked py crdt codec alive met sid c messages (close_failed c.websocket o h) s)
    unfolding join_room
    serve_checked-Cleaned sid c messages none h s absent stops =
        join_found-Cleaned sid c messages (room_of (h.rooms sid)) (record s { hub = h }) stops
    serve_checked-Cleaned sid c messages (some closing) h s absent stops =
        (λ e. cc, forget-IsGone sid c.websocket _ absent)

  -- A connection that was not in the session's room before, and whose client disconnects at some time, ends
  -- its endpoint, whatever is received before, fails there, or is done to the rooms by other tasks while
  -- it waits for a message; and it is then not in the session's room and has no stamp and no revocation.
  pub disconnected_is_gone :
      (met : Circumstances State) (sid : ℕ) (c : Connection) (stamp : AuthorizationStamp)
      (before after : List (Arrival py crdt)) (now : ℕ) (others : Room py crdt → Room py crdt)
      (s : Room py crdt)
      → contains c.websocket (websockets (room_of (s.hub.rooms sid))) ≡ false
      → Cleaned met sid c.websocket (
          serve_connection py crdt codec alive met sid c stamp
            (before ++ (now, others, disconnect) ∷ after)
            s)
  unfolding serve_connection close_if_invalidated
  disconnected_is_gone met sid c stamp before after now others s absent =
      let h = set_stamp c.websocket stamp s.hub in
      serve_checked-Cleaned met sid c _ (authorization_failure h sid c.user_id c.websocket) h s
        absent (receive_all-stops c.websocket sid c.user_id c.role before after now others)
