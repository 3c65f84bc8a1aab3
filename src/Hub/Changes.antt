-- ===== src/Hub/Changes.antt =====
-- Each change of the tables, the fences and the locks leaves every trusted connection trusted.
use code_collaborator.Base.{
  ℕ, ◌+◌, ◌≡◌, refl, sym, ap, ◌∙◌, subst, arith, Bool, true, false, Option, none, some, ◌==◌,
  if◌then◌else◌, update, Bool-cases, inl, inr,
}
use code_collaborator.Base.Dict.{lookup, lookup-insert}
use code_collaborator.Models.{Role, owner, Session}
use code_collaborator.Sessions.{Db}
use code_collaborator.Sessions.Members.{role_of-add, role_of-delete_member, same_pair}
use code_collaborator.Sessions.Outcomes.{Added, Changed, Removed, Closed, Created}
use code_collaborator.Hub.{
  Hub, AuthorizationInvalidation, version_of, closing, ws_role_changed, ws_forbidden,
  reauthenticate_member_connections, revoke_member_connections,
}
use code_collaborator.Hub.System.{Fence, role_changed, removed, session_closed, System, fence}
use code_collaborator.Hub.Fences.{
  member_version, session_version, member_version-fence, session_version-fence,
  invalidate-IsMemberFence, close_session-IsSessionFence,
}
use code_collaborator.Hub.Trust.{Granted, Opened, concerns, IsHarmless}

-- The tables changed so that what was granted still is.
tables-IsHarmless :
    (s : System) (db : Db)
    → ((sid uid : ℕ) (role : Role) → Granted s.db sid uid role → Granted db sid uid role)
    → ((sid : ℕ) → Opened s.db sid → Opened db sid)
    → IsHarmless s (record s { db = db })
tables-IsHarmless s db grants opens = record {
  members = λ sid uid. omega arith;
  sessions = λ sid. omega arith;
  kept = λ sid uid role _ _ free. (free, grants sid uid role, opens sid);
}

chosen :
    (sid t : ℕ) (f : Option Fence) (u : ℕ) (s : System) (b : Bool)
    → (sid == t) ≡ b
    → concerns (update s.pending sid f t) u ≡ false
    → concerns (if b then f else s.pending t) u ≡ false
chosen sid t f u s b e free =
    subst (λ (x : Bool). concerns (if x then f else s.pending t) u ≡ false) e free

-- The tables changed under the lock of a session, and what was granted and is of no concern to the
-- coming fence still is.
locked-IsHarmless :
    (s : System) (sid : ℕ) (f : Fence) (db : Db)
    → s.pending sid ≡ none
    → ((t u : ℕ) (role : Role)
        → ((sid ≡ t) → concerns (some f) u ≡ false)
        → Granted s.db t u role
        → Granted db t u role)
    → ((t u : ℕ) → ((sid ≡ t) → concerns (some f) u ≡ false) → Opened s.db t → Opened db t)
    → IsHarmless s (record s { db = db; pending = update s.pending sid (some f) })
locked-IsHarmless s sid f db unlocked grants opens = record {
  members = λ t u. omega arith;
  sessions = λ t. omega arith;
  kept = λ t u role _ _ free. elim (Bool-cases (sid == t)) [
    | inl same ↦
        let e : sid ≡ t = ground arith in
        let was : concerns (s.pending t) u ≡ false = rw (ap s.pending (sym e) ∙ unlocked) refl in
        let here = chosen sid t (some f) u s true same free in
        (was, grants t u role (λ _. here), opens t u (λ _. here))
    | inr other ↦ (
      chosen sid t (some f) u s false other free,
      grants t u role (λ e. ground arith),
      opens t u (λ e. ground arith),
    )
  ];
}

pub create_session-IsHarmless :
    (s : System) (sid now owner_id : ℕ) (db : Db)
    → Created s.db sid now owner_id db
    → IsHarmless s (record s { db = db })
create_session-IsHarmless s sid now owner_id db c =
    tables-IsHarmless s db
      (λ t u role g.
        subst (λ (d : Db). Granted d t u role) (sym c.result)
          (record {
            session = g.session;
            is_open = record {
              found =
                  ground (
                    arith,
                    lookup-insert sid t c.session s.db.sessions,
                    g.is_open.found,
                    c.was_free,
                  );
              active = g.is_open.active;
            };
            has_role = ground (
              arith,
              role_of-add sid owner_id t u owner s.db.members,
              g.has_role,
              g.is_open.found,
              c.was_free,
            );
          }))
      (λ t g.
        subst (λ (d : Db). Opened d t) (sym c.result)
          (record {
            session = g.session;
            is_open = record {
              found =
                  ground (
                    arith,
                    lookup-insert sid t c.session s.db.sessions,
                    g.is_open.found,
                    c.was_free,
                  );
              active = g.is_open.active;
            };
          }))

pub add_member-IsHarmless :
    (s : System) (sid uid : ℕ) (role : Role) (db : Db)
    → Added s.db sid uid role db
    → IsHarmless s (record s { db = db })
add_member-IsHarmless s sid uid role db a =
    tables-IsHarmless s db
      (λ t u r g.
        subst (λ (d : Db). Granted d t u r) (sym a.result)
          (record {
            session = g.session;
            is_open = record { found = g.is_open.found; active = g.is_open.active };
            has_role =
                ground
                  (arith, role_of-add sid uid t u role s.db.members, g.has_role, a.was_no_member);
          }))
      (λ t g.
        subst (λ (d : Db). Opened d t) (sym a.result)
          (record {
            session = g.session;
            is_open = record { found = g.is_open.found; active = g.is_open.active };
          }))

pub update_member_role-IsHarmless :
    (s : System) (sid uid : ℕ) (role : Role) (db : Db)
    → s.pending sid ≡ none
    → Changed s.db sid uid role db
    → IsHarmless s (record s { db = db; pending = update s.pending sid (some (role_changed uid)) })
update_member_role-IsHarmless s sid uid role db unlocked c =
    locked-IsHarmless s sid (role_changed uid) db unlocked
      (λ t u r other g. record {
        session = g.session;
        is_open = record {
          found = ap (lookup t) c.sessions_kept ∙ g.is_open.found;
          active = g.is_open.active;
        };
        has_role = ground (arith, c.roles t u, g.has_role, other);
      })
      (λ t u other g. record {
        session = g.session;
        is_open = record {
          found = ap (lookup t) c.sessions_kept ∙ g.is_open.found;
          active = g.is_open.active;
        };
      })

pub remove_member-IsHarmless :
    (s : System) (sid uid : ℕ) (db : Db)
    → s.pending sid ≡ none
    → Removed s.db sid uid db
    → IsHarmless s (record s { db = db; pending = update s.pending sid (some (removed uid)) })
remove_member-IsHarmless s sid uid db unlocked c =
    locked-IsHarmless s sid (removed uid) db unlocked
      (λ t u r other g.
        subst (λ (d : Db). Granted d t u r) (sym c.result)
          (record {
            session = g.session;
            is_open = record { found = g.is_open.found; active = g.is_open.active };
            has_role =
                ground (arith, role_of-delete_member sid uid t u s.db.members, g.has_role, other);
          }))
      (λ t u other g.
        subst (λ (d : Db). Opened d t) (sym c.result)
          (record {
            session = g.session;
            is_open = record { found = g.is_open.found; active = g.is_open.active };
          }))

pub close_session-IsHarmless :
    (s : System) (sid now : ℕ) (db : Db)
    → s.pending sid ≡ none
    → Closed s.db sid now db
    → IsHarmless s (record s { db = db; pending = update s.pending sid (some session_closed) })
close_session-IsHarmless s sid now db unlocked c =
    let closed_row : Session = record c.session { is_active = false; updated_at = now } in
    locked-IsHarmless s sid session_closed db unlocked
      (λ t u r other g.
        subst (λ (d : Db). Granted d t u r) (sym c.result)
          (record {
            session = g.session;
            is_open = record {
              found =
                  ground
                    (arith, lookup-insert sid t closed_row s.db.sessions, g.is_open.found, other);
              active = g.is_open.active;
            };
            has_role = g.has_role;
          }))
      (λ t u other g.
        subst (λ (d : Db). Opened d t) (sym c.result)
          (record {
            session = g.session;
            is_open = record {
              found =
                  ground
                    (arith, lookup-insert sid t closed_row s.db.sessions, g.is_open.found, other);
              active = g.is_open.active;
            };
          }))

-- A fence takes the concern of the users that it cuts off.
member_fence-IsHarmless :
    (s : System) (sid uid : ℕ) (f : Fence) (h : Hub)
    → s.pending sid ≡ some f
    → ((u : ℕ) → concerns (some f) u ≡ (uid == u))
    → (members : (t u : ℕ)
        → member_version h t u ≡ (
            if same_pair sid uid t u
            then member_version s.hub t u + 1
            else member_version s.hub t u))
    → h.session_invalidations ≡ s.hub.session_invalidations
    → IsHarmless s (record s { hub = h; pending = update s.pending sid none })
member_fence-IsHarmless s sid uid f h pending about members sessions = record {
  members = λ t u. ground (arith, members t u);
  sessions = λ t. let e = same_version t in omega arith;
  kept = λ t u role new_member _ free. (
    elim (Bool-cases (sid == t)) [
      | inl same ↦
          let e : sid ≡ t = ground arith in
          let not_uid : (uid == u) ≡ false = ground (arith, members t u) in
          rw (ap s.pending (sym e) ∙ pending) (about u ∙ not_uid)
      | inr other ↦ chosen sid t none u s false other free
    ],
    λ g. g,
    λ g. g,
  );
}
  where
    same_version : (t : ℕ) → session_version h t ≡ session_version s.hub t
    same_version t = ap (λ (m : ℕ → Option AuthorizationInvalidation). version_of (m t)) sessions

session_fence-IsHarmless :
    (s : System) (sid : ℕ)
    → s.pending sid ≡ some session_closed
    → IsHarmless s
        (record s { hub = fence sid session_closed s.hub; pending = update s.pending sid none })
session_fence-IsHarmless s sid pending =
    let h = fence sid session_closed s.hub in
    let f = close_session-IsSessionFence sid s.hub in
    record {
      members = λ t u. let e = same_member t u in omega arith;
      sessions = λ t. ground (arith, session_version-fence sid t s.hub h f);
      kept = λ t u role _ new_session free. (
        elim (Bool-cases (sid == t)) [
          | inl same ↦ absurd (ground (arith, session_version-fence sid t s.hub h f))
          | inr other ↦ chosen sid t none u s false other free
        ],
        λ g. g,
        λ g. g,
      );
    }
  where
    same_member :
        (t u : ℕ) → member_version (fence sid session_closed s.hub) t u ≡ member_version s.hub t u
    same_member t u =
        ap (λ (m : ℕ → ℕ → Option AuthorizationInvalidation). version_of (m t u))
          (close_session-IsSessionFence sid s.hub).members

pub fence-IsHarmless :
    (s : System) (sid : ℕ) (f : Fence)
    → s.pending sid ≡ some f
    → IsHarmless s (record s { hub = fence sid f s.hub; pending = update s.pending sid none })
unfolding reauthenticate_member_connections revoke_member_connections
fence-IsHarmless s sid (role_changed uid) pending =
    let f =
      invalidate-IsMemberFence sid uid
        (closing ws_role_changed "Session role changed; reconnecting") s.hub in
    let h = fence sid (role_changed uid) s.hub in
    member_fence-IsHarmless s sid uid (role_changed uid) h pending (λ u. refl)
      (λ t u.
        member_version-fence sid uid t u
          (closing ws_role_changed "Session role changed; reconnecting") s.hub h f)
      f.sessions
fence-IsHarmless s sid (removed uid) pending =
    let f =
      invalidate-IsMemberFence sid uid (closing ws_forbidden "Session membership required") s.hub in
    let h = fence sid (removed uid) s.hub in
    member_fence-IsHarmless s sid uid (removed uid) h pending (λ u. refl)
      (λ t u.
        member_version-fence sid uid t u (closing ws_forbidden "Session membership required") s.hub
          h f)
      f.sessions
fence-IsHarmless s sid session_closed pending = session_fence-IsHarmless s sid pending
