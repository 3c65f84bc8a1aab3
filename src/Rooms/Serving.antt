-- ===== src/Rooms/Serving.antt =====
-- backend/app/collaboration/websocket.py, `websocket_endpoint` as a whole: whatever happens to a
-- connection, its traces go once its loop has ended.
use code_collaborator.Base.{ℕ, Bool, true, false, Option, none, some, List, Result, ok, err}
use code_collaborator.Models.{Role, User}
use code_collaborator.Base.Dict.{lookup}
use code_collaborator.Sessions.{Db}
use code_collaborator.Protocol.{PyText}
use code_collaborator.Document.{Crdt, Answers}
use code_collaborator.Hub.{
  Hub, AuthorizationStamp, Closing, Connection, authenticate_ws, close_if_invalidated,
  close_connection, closing, set_stamp, forget,
}
use code_collaborator.Rooms.{Room, Codec, Reply}
use code_collaborator.Rooms.Endpoint.{
  Arrival, Outcome, waiting, ended, failed, join_room, leave_room, greet, receive_all,
}
use Prim.Native.String.{String}

-- What the endpoint meets besides the messages of its client: how the stores answer the load of the
-- document, and how Redis answers, what is edited and what the time is when the connection leaves.
pub record Circumstances (State : Type 0) : Type 0 where
  pub on_join : Answers
  pub redis_ok : Bool
  pub edits : List State
  pub left_at : ℕ

-- `user.username`, of the row that the authentication has found.
abbrev username_of : Option User → String
username_of none = ""
username_of (some user) = user.username

module _ (py : PyText) (crdt : Crdt) where
  open crdt use {State}

  -- `websocket.close(code=1011, ...)`
  abbrev close_failed_handler : ℕ → Room py crdt → Room py crdt
  close_failed_handler w s = record s {
    hub = close_connection w (closing 1011 "Collaboration server error") s.hub;
  }

  -- The two `pop`s of a connection that has not joined.
  abbrev forget_connection : ℕ → Room py crdt → Room py crdt
  forget_connection w s = record s { hub = forget w s.hub }

  module _ (codec : Codec py crdt) (alive : ℕ → Bool) (met : Circumstances State) where
    -- `except` and `finally` of a connection that has joined; a loop that waits goes on.
    unfoldable pub finish_joined : (sid w : ℕ) → Outcome × Room py crdt → Outcome × Room py crdt
    finish_joined sid w (waiting, s) = (waiting, s)
    finish_joined sid w (ended, s) =
        (ended, (leave_room py crdt codec alive met.redis_ok met.edits sid w met.left_at s).1)
    finish_joined sid w (failed, s) = (
      failed,
      (leave_room py crdt codec alive met.redis_ok met.edits sid w met.left_at
          (close_failed_handler w s)).1,
    )

    abbrev pub greeted :
        (sid uid w : ℕ) → Role → List (Arrival py crdt) → Reply py crdt → Outcome × Room py crdt
    greeted sid uid w role messages (err e, s) = (failed, s)
    greeted sid uid w role messages (ok _, s) =
        receive_all py crdt codec alive w sid uid role messages s

    abbrev pub rechecked :
        (sid uid w : ℕ)
        → Role
        → List (Arrival py crdt)
        → Bool × Hub
        → Room py crdt
        → Outcome × Room py crdt
    rechecked sid uid w role messages (true, hub) s = (ended, record s { hub = hub })
    rechecked sid uid w role messages (false, hub) s =
        greeted sid uid w role messages
          (greet py crdt codec alive w sid role (record s { hub = hub }))

    abbrev pub serve_joined :
        (sid uid w : ℕ) → Role → List (Arrival py crdt) → Reply py crdt → Outcome × Room py crdt
    serve_joined sid uid w role messages (err e, s) =
        (failed, forget_connection w (close_failed_handler w s))
    serve_joined sid uid w role messages (ok _, s) =
        finish_joined sid w
          (rechecked sid uid w role messages (close_if_invalidated sid uid w s.hub) s)

    abbrev pub serve_checked :
        (sid : ℕ)
        → Connection
        → List (Arrival py crdt)
        → Bool × Hub
        → Room py crdt
        → Outcome × Room py crdt
    serve_checked sid c messages (true, hub) s =
        (ended, forget_connection c.websocket (record s { hub = hub }))
    serve_checked sid c messages (false, hub) s =
        serve_joined sid c.user_id c.websocket c.role messages
          (join_room py crdt met.on_join sid c (record s { hub = hub }))

    -- `websocket_endpoint`, after the authentication.
    unfoldable pub serve_connection :
        (sid : ℕ)
        → Connection
        → AuthorizationStamp
        → List (Arrival py crdt)
        → Room py crdt
        → Outcome × Room py crdt
    serve_connection sid c stamp messages s =
        let hub = set_stamp c.websocket stamp s.hub in
        serve_checked sid c messages (close_if_invalidated sid c.user_id c.websocket hub) s

    module _ {Token Raw : Type 0} (decode : Token → Option ℕ) (uuid : Raw → Option ℕ) where
      abbrev serve_authenticated :
          Db
          → ℕ
          → List (Arrival py crdt)
          → Result Closing (ℕ × ℕ × Role × AuthorizationStamp)
          → Room py crdt
          → Outcome × Room py crdt
      serve_authenticated db w messages (err c) s =
          (ended, record s { hub = close_connection w c s.hub })
      serve_authenticated db w messages (ok (uid, sid, role, stamp)) s =
          serve_connection sid
            (record {
              websocket = w;
              user_id = uid;
              username = username_of (lookup uid db.users);
              role = role;
            })
            stamp messages s

      -- `websocket_endpoint`
      unfoldable pub websocket_endpoint :
          Db
          → ℕ
          → Option Token
          → Option Raw
          → List (Arrival py crdt)
          → Room py crdt
          → Outcome × Room py crdt
      websocket_endpoint db w token raw messages s =
          serve_authenticated db w messages (authenticate_ws decode uuid s.hub db token raw) s
