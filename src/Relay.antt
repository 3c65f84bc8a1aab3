-- ===== src/Relay.antt =====
-- backend/app/execution/events.py: the relay that takes the workers' events from Redis and sends them to the
-- rooms of the sessions.
pub mod Binding
pub mod Run
use code_collaborator.Base.{
  ℕ, Bool, true, false, ◌&&◌, ◌||◌, Option, none, some, List, [], ◌∷◌, if◌then◌else◌, Result, ok,
  err, ◌>>=◌,
}
use code_collaborator.Lib0.{Bytes}
use code_collaborator.Protocol.{PyText}
use code_collaborator.Document.{Crdt}
use code_collaborator.Rooms.{Room, Codec, Reply, Raised, broadcast_execution_event}

-- What Redis hands over: a text, or bytes where the client does not decode.
pub data Raw (Text : Type 0) : Type 0 where
  decoded : Text → Raw Text
  undecoded : Bytes → Raw Text

-- One round of the relay's inner loop: no message, one of another type, a message of the pattern, or an
-- error of the connection to Redis.
pub data Polled (Text : Type 0) : Type 0 where
  silence : Polled Text
  other_message : Polled Text
  pmessage : (channel payload : Raw Text) → Polled Text
  unavailable : Polled Text

-- The exceptions that the relay does not catch: `TypeError` of the test for an unhashable type's
-- membership, `RecursionError` of `json.loads`, and what a broadcast raises.
pub data Uncaught : Type 0 where
  unhashable : Uncaught
  recursion : Uncaught
  broadcast : Raised → Uncaught

pub data LoadError : Type 0 where
  value_error : LoadError
  recursion_error : LoadError

-- What the module takes from Python: texts, `uuid.UUID`, `json` and the values it gives. `fields` is the
-- `get` of a dict, `none` for another value, and `key` numbers the texts that name rooms.
pub record Events (Text : Type 0) : Type 1 where
  pub Value : Type 0
  pub same : Text → Text → Bool
  pub decode_replace : Bytes → Text
  pub after_prefix : Text → Option Text
  pub is_uuid : Text → Bool
  pub loads : Text → Result LoadError Value
  pub fields : Value → Option (Text → Value)
  pub as_text : Value → Option Text
  pub is_hashable : Value → Bool
  pub str : Value → Text
  pub dumps : Value → Text
  pub type_field : Text
  pub session_id_field : Text
  pub execution_id_field : Text
  pub execution_status : Text
  pub execution_output : Text
  pub key : Text → ℕ

module _ {Text : Type 0} (events : Events Text) where
  open events use {
    Value, same, decode_replace, after_prefix, is_uuid, loads, fields, as_text, is_hashable, str,
    type_field, session_id_field, execution_id_field, execution_status, execution_output,
  }

  abbrev pub text_of : Raw Text → Text
  text_of (decoded text) = text
  text_of (undecoded bytes) = decode_replace bytes

  -- Whether a value is a given text.
  abbrev pub is_text : Text → Option Text → Bool
  is_text expected none = false
  is_text expected (some text) = same text expected

  -- `event.get("type") in _EVENT_TYPES`
  unfoldable pub in_event_types : Value → Result Uncaught Bool
  in_event_types type =
      if is_hashable type
      then ok (is_text execution_status (as_text type) || is_text execution_output (as_text type))
      else err unhashable

  -- The two identifiers that the event must have.
  unfoldable pub is_bound : Text → (Text → Value) → Bool
  is_bound session get =
      is_text session (as_text (get session_id_field)) && is_uuid (str (get execution_id_field))

  unfoldable pub validated_fields :
      Text → Value → Option (Text → Value) → Result Uncaught (Option (Text × Value))
  validated_fields session event none = ok none
  validated_fields session event (some get) = do
    known ← in_event_types (get type_field)
    ok (if known && is_bound session get then some (session, event) else none)

  unfoldable pub validated_event :
      Text → Result LoadError Value → Result Uncaught (Option (Text × Value))
  validated_event session (err value_error) = ok none
  validated_event session (err recursion_error) = err recursion
  validated_event session (ok event) = validated_fields session event (fields event)

  unfoldable pub validated_session :
      Raw Text → Option Text → Result Uncaught (Option (Text × Value))
  validated_session payload none = ok none
  validated_session payload (some session) =
      if is_uuid session then validated_event session (loads (text_of payload)) else ok none

  unfoldable pub validate_execution_event :
      (channel payload : Raw Text) → Result Uncaught (Option (Text × Value))
  validate_execution_event channel payload =
      validated_session payload (after_prefix (text_of channel))

module _ (py : PyText) (crdt : Crdt) (codec : Codec py crdt) (alive : ℕ → Bool)
    (events : Events py.Text) where
  open events use {Value, dumps, key}

  abbrev pub Relayed : Type 0
  Relayed = Result Uncaught (Unit {0}) × Room py crdt

  abbrev pub sent_or_raised : Reply py crdt → Relayed
  sent_or_raised (ok done, s) = (ok done, s)
  sent_or_raised (err e, s) = (err (broadcast e), s)

  unfoldable pub relay_event : Result Uncaught (Option (py.Text × Value)) → Room py crdt → Relayed
  relay_event (err e) s = (err e, s)
  relay_event (ok none) s = (ok tt, s)
  relay_event (ok (some (session, event))) s =
      sent_or_raised (broadcast_execution_event py crdt codec alive (key session) (dumps event) s)

  -- One round. After an error of the connection the relay subscribes again.
  unfoldable pub relay_poll : Polled py.Text → Room py crdt → Relayed
  relay_poll silence s = (ok tt, s)
  relay_poll other_message s = (ok tt, s)
  relay_poll (pmessage channel payload) s =
      relay_event (validate_execution_event events channel payload) s
  relay_poll unavailable s = (ok tt, s)

  abbrev pub continue_with : Relayed → (Room py crdt → Relayed) → Relayed
  continue_with (ok done, s) next = next s
  continue_with (err e, s) next = (err e, s)

  -- `run_execution_event_relay` on the polls until `stop_event` is set: an exception that nothing catches
  -- ends it.
  unfoldable pub run_execution_event_relay : List (Polled py.Text) → Room py crdt → Relayed
  run_execution_event_relay [] s = (ok tt, s)
  run_execution_event_relay (poll ∷ polls) s =
      continue_with (relay_poll poll s) (λ s'. run_execution_event_relay polls s')
