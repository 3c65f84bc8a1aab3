-- ===== src/Relay/Binding.antt =====
-- backend/app/execution/events.py: the events that the relay accepts, and the run of the relay as steps of a
-- relation that knows only these.
use code_collaborator.Base.{
  ◌≡◌, refl, sym, ◌∙◌, ap, subst, arith, err, Bool, true, false, ◌&&◌, ◌||◌, Option, none, some,
  if◌then◌else◌, Result, ok, err, Bool-cases, inl, inr, >>=-eq-ok,
}
use code_collaborator.Rooms.{Raised}
use code_collaborator.Relay.{
  Raw, Uncaught, recursion, unhashable, broadcast, Events, text_of, is_text, in_event_types,
  is_bound, validated_fields, validated_event, validated_session, LoadError, value_error,
  recursion_error, validate_execution_event,
}

module _ {Text : Type 0} (events : Events Text) where
  open events use {
    Value, after_prefix, is_uuid, loads, fields, as_text, is_hashable, str, type_field,
    session_id_field, execution_id_field, execution_status, execution_output,
  }

  -- The channel names a session, and the payload is a JSON object of one of the two types that names the
  -- same session and an execution.
  pub record IsGenuine (channel payload : Raw Text) (session : Text) (event : Value) : Type 0 where
    pub get : Text → Value
    pub named : after_prefix (text_of events channel) ≡ some session
    pub names_session : is_uuid session ≡ true
    pub loaded : loads (text_of events payload) ≡ ok event
    pub is_dict : fields event ≡ some get
    pub type_is_hashable : is_hashable (get type_field) ≡ true
    pub is_event :
        (is_text events execution_status (as_text (get type_field))
          || is_text events execution_output (as_text (get type_field)))
        ≡ true
    pub names_same_session : is_text events session (as_text (get session_id_field)) ≡ true
    pub names_execution : is_uuid (str (get execution_id_field)) ≡ true

  pub genuine→validated :
      {channel payload : Raw Text} {session : Text} {event : Value}
      → IsGenuine channel payload session event
      → validate_execution_event events channel payload ≡ ok (some (session, event))
  unfolding validate_execution_event validated_session validated_event validated_fields
      in_event_types is_bound
  genuine→validated g = rw g.named (
      rw g.names_session (
        rw g.loaded (
          rw g.is_dict (
            rw g.type_is_hashable
              (rw g.is_event (rw g.names_same_session (rw g.names_execution refl)))))))

  abbrev verdict : Bool → Text → Value → Result Uncaught (Option (Text × Value))
  verdict accepted session event = ok (if accepted then some (session, event) else none)

  accepted_if :
      (session s' : Text) (event e' : Value) (known binds : Bool)
      → verdict (known && binds) session event ≡ ok (some (s', e'))
      → (session ≡ s') × (event ≡ e') × (known ≡ true) × (binds ≡ true)
  accepted_if session s' event e' true true h = (cc, cc, refl, refl)
  accepted_if session s' event e' true false h = cc
  accepted_if session s' event e' false binds h = cc

  validated-fields :
      (session s' : Text) (event e' : Value) (o : Option (Text → Value))
      → validated_fields events session event o ≡ ok (some (s', e'))
      → (session ≡ s')
        × (event ≡ e')
        × ((get : Text → Value) × (o ≡ some get)
            × (in_event_types events (get type_field) ≡ ok true)
            × (is_bound events session get ≡ true))
  unfolding validated_fields
  validated-fields session s' event e' none h = cc
  validated-fields session s' event e' (some get) h =
      let (known, p, q) = >>=-eq-ok (in_event_types events (get type_field)) _ h in
      let (a, b, c, d) = accepted_if session s' event e' known (is_bound events session get) q in
      (a, b, (get, refl, p ∙ ap ok c, d))

  validated-loaded :
      (session s' : Text) (e' : Value) (r : Result LoadError Value)
      → validated_event events session r ≡ ok (some (s', e'))
      → (event : Value) × (r ≡ ok event)
        × (validated_fields events session event (fields event) ≡ ok (some (s', e')))
  unfolding validated_event
  validated-loaded session s' e' (err value_error) h = cc
  validated-loaded session s' e' (err recursion_error) h = cc
  validated-loaded session s' e' (ok event) h = (event, refl, h)

  known-type :
      (type : Value)
      → in_event_types events type ≡ ok true
      → (is_hashable type ≡ true)
        × ((is_text events execution_status (as_text type)
              || is_text events execution_output (as_text type))
            ≡ true)
  unfolding in_event_types
  known-type type h = elim (Bool-cases (is_hashable type)) [ inl e ↦ (e, cc) | inr e ↦ absurd cc ]

  both : (a b : Bool) → (a && b) ≡ true → (a ≡ true) × (b ≡ true)
  both true b h = (refl, h)
  both false b h = cc

  bound-parts :
      (session : Text) (get : Text → Value)
      → is_bound events session get ≡ true
      → (is_text events session (as_text (get session_id_field)) ≡ true)
        × (is_uuid (str (get execution_id_field)) ≡ true)
  unfolding is_bound
  bound-parts session get h = both _ _ h

  validated-named :
      (payload : Raw Text) (s' : Text) (e' : Value) (o : Option Text)
      → validated_session events payload o ≡ ok (some (s', e'))
      → (session : Text) × (o ≡ some session)
        × (is_uuid session ≡ true)
        × (validated_event events session (loads (text_of events payload)) ≡ ok (some (s', e')))
  unfolding validated_session
  validated-named payload s' e' none h = cc
  validated-named payload s' e' (some session) h = elim (Bool-cases (is_uuid session)) [
    | inl e ↦ (session, refl, e, cc)
    | inr e ↦ absurd cc
  ]

  pub validated→genuine :
      {channel payload : Raw Text} {session : Text} {event : Value}
      → validate_execution_event events channel payload ≡ ok (some (session, event))
      → IsGenuine channel payload session event
  unfolding validate_execution_event
  validated→genuine {channel} {payload} {session} {event} h =
      let (s, named, is_id, h1) = validated-named payload session event _ h in
      let (v, loaded, h2) = validated-loaded s session event _ h1 in
      let (a, b, (get, is_dict, is_event, bound)) =
        validated-fields s session v event (fields v) h2 in
      let (hashable, known) = known-type (get type_field) is_event in
      let (same_session, execution) = bound-parts s get bound in
      record {
        get = get;
        named = named ∙ ap some a;
        names_session = ap is_uuid (sym a) ∙ is_id;
        loaded = loaded ∙ ap ok b;
        is_dict = ap fields (sym b) ∙ is_dict;
        type_is_hashable = hashable;
        is_event = known;
        names_same_session =
            ap (λ x. is_text events x (as_text (get session_id_field))) (sym a) ∙ same_session;
        names_execution = execution;
      }

  -- The channel names a session, and the JSON parser gives up on the payload.
  pub record IsTooDeep (channel payload : Raw Text) : Type 0 where
    pub session : Text
    pub named : after_prefix (text_of events channel) ≡ some session
    pub names_session : is_uuid session ≡ true
    pub refused : loads (text_of events payload) ≡ err recursion_error

  -- The channel names a session, and the payload is an object whose type cannot be hashed.
  pub record IsUntyped (channel payload : Raw Text) : Type 0 where
    pub session : Text
    pub event : Value
    pub get : Text → Value
    pub named : after_prefix (text_of events channel) ≡ some session
    pub names_session : is_uuid session ≡ true
    pub loaded : loads (text_of events payload) ≡ ok event
    pub is_dict : fields event ≡ some get
    pub not_hashable : is_hashable (get type_field) ≡ false

  -- What raises: the parser, or the test of the type.
  data Raises (channel payload : Raw Text) : Uncaught → Type 0 where
    deep : IsTooDeep channel payload → Raises channel payload recursion
    untyped : IsUntyped channel payload → Raises channel payload unhashable

  fields-raised :
      (session : Text) (event : Value) (o : Option (Text → Value)) (e : Uncaught)
      → validated_fields events session event o ≡ err e
      → (get : Text → Value) × (o ≡ some get)
        × (is_hashable (get type_field) ≡ false)
        × (e ≡ unhashable)
  unfolding validated_fields in_event_types
  fields-raised session event none e h = cc
  fields-raised session event (some get) e h = elim (Bool-cases (is_hashable (get type_field))) [
    | inl hashed ↦ absurd (ground (arith, h, hashed))
    | inr unhashed ↦ (get, refl, unhashed, ground (arith, h, unhashed))
  ]

  event-raised :
      (channel payload : Raw Text) (session : Text) (r : Result LoadError Value) (e : Uncaught)
      → after_prefix (text_of events channel) ≡ some session
      → is_uuid session ≡ true
      → loads (text_of events payload) ≡ r
      → validated_event events session r ≡ err e
      → Raises channel payload e
  unfolding validated_event
  event-raised channel payload session (err value_error) e named is_id loaded h = cc
  event-raised channel payload session (err recursion_error) e named is_id loaded h =
      let same : recursion ≡ e = cc in
      subst (λ x. Raises channel payload x) same
        (deep
          (record { session = session; named = named; names_session = is_id; refused = loaded }))
  event-raised channel payload session (ok event) e named is_id loaded h =
      let (get, is_dict, unhashed, is_unhashable) =
        fields-raised session event (fields event) e h in
      subst (λ x. Raises channel payload x) (sym is_unhashable)
        (untyped (record {
          session = session;
          event = event;
          get = get;
          named = named;
          names_session = is_id;
          loaded = loaded;
          is_dict = is_dict;
          not_hashable = unhashed;
        }))

  session-raised :
      (channel payload : Raw Text) (o : Option Text) (e : Uncaught)
      → after_prefix (text_of events channel) ≡ o
      → validated_session events payload o ≡ err e
      → Raises channel payload e
  unfolding validated_session
  session-raised channel payload none e named h = cc
  session-raised channel payload (some session) e named h = elim (Bool-cases (is_uuid session)) [
    | inl is_id ↦ event-raised channel payload session _ e named is_id refl cc
    | inr unnamed ↦ absurd cc
  ]

  raised :
      {channel payload : Raw Text} {e : Uncaught}
      → validate_execution_event events channel payload ≡ err e
      → Raises channel payload e
  unfolding validate_execution_event
  raised {channel} {payload} {e} h = session-raised channel payload _ e refl h

  parser_case :
      {channel payload : Raw Text} {e : Uncaught}
      → Raises channel payload e
      → e ≡ recursion
      → IsTooDeep channel payload
  parser_case (deep d) h = d
  parser_case (untyped u) h = cc

  type_case :
      {channel payload : Raw Text} {e : Uncaught}
      → Raises channel payload e
      → e ≡ unhashable
      → IsUntyped channel payload
  type_case (deep d) h = cc
  type_case (untyped u) h = u

  neither :
      {channel payload : Raw Text} {e : Uncaught} {x : Raised}
      → Raises channel payload e
      → e ≡ broadcast x
      → ⊥
  neither (deep d) h = cc
  neither (untyped u) h = cc

  pub raised-IsTooDeep :
      {channel payload : Raw Text}
      → validate_execution_event events channel payload ≡ err recursion
      → IsTooDeep channel payload
  raised-IsTooDeep h = parser_case (raised h) refl

  pub raised-IsUntyped :
      {channel payload : Raw Text}
      → validate_execution_event events channel payload ≡ err unhashable
      → IsUntyped channel payload
  raised-IsUntyped h = type_case (raised h) refl

  pub raised-broadcast :
      (channel payload : Raw Text) (x : Raised)
      → validate_execution_event events channel payload ≡ err (broadcast x)
      → ⊥
  raised-broadcast channel payload x h = neither (raised h) refl
