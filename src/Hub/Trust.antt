-- ===== src/Hub/Trust.antt =====
-- The authorization that a connection has cached is never stale when it writes (websocket.py with
-- sessions/service.py).
use code_collaborator.Base.{ℕ, ◌≤◌, ◌≡◌, ◌∙◌, arith, Bool, true, false, Option, none, some, ◌==◌}
use code_collaborator.Models.{owner, Role, Session}
use code_collaborator.Sessions.{Db}
use code_collaborator.Sessions.Members.{role_of}
use code_collaborator.Sessions.Outcomes.{IsOpen}
use code_collaborator.Hub.{Hub, AuthorizationStamp}
use code_collaborator.Hub.System.{
  Phase, absent, gone, stamped, session_read, authenticated, accepted, joined, Fence, role_changed,
  removed, session_closed, System,
}
use code_collaborator.Hub.Fences.{member_version, session_version}

-- The session is open and the user has the role in it.
pub record Granted (db : Db) (sid uid : ℕ) (role : Role) : Type 0 where
  pub session : Session
  pub is_open : IsOpen db sid session
  pub has_role : role_of sid uid db.members ≡ some role

-- The session is open.
pub record Opened (db : Db) (sid : ℕ) : Type 0 where
  pub session : Session
  pub is_open : IsOpen db sid session

-- A committed change that has not been fenced yet concerns the user.
abbrev pub concerns : Option Fence → ℕ → Bool
concerns none uid = false
concerns (some (role_changed u)) uid = u == uid
concerns (some (removed u)) uid = u == uid
concerns (some session_closed) uid = true

abbrev pub IsPast : Hub → (sid uid : ℕ) → AuthorizationStamp → Type 0
IsPast h sid uid stamp =
    (stamp.member_version ≤ member_version h sid uid)
    × (stamp.session_version ≤ session_version h sid)

-- Unless a newer fence stands or is about to, the database grants the role.
abbrev pub Backed : System → (sid uid : ℕ) → Role → AuthorizationStamp → Type 0
Backed s sid uid role stamp =
    member_version s.hub sid uid ≤ stamp.member_version
    → session_version s.hub sid ≤ stamp.session_version
    → concerns (s.pending sid) uid ≡ false
    → Granted s.db sid uid role

abbrev pub BackedOpen : System → (sid uid : ℕ) → AuthorizationStamp → Type 0
BackedOpen s sid uid stamp =
    member_version s.hub sid uid ≤ stamp.member_version
    → session_version s.hub sid ≤ stamp.session_version
    → concerns (s.pending sid) uid ≡ false
    → Opened s.db sid

-- What holds of a connection in each phase.
abbrev pub Trusted : System → ℕ → Phase → Type 0
Trusted s w absent = Unit {0}
Trusted s w gone = Unit {0}
Trusted s w (stamped sid uid stamp) = IsPast s.hub sid uid stamp
Trusted s w (session_read sid uid stamp) = IsPast s.hub sid uid stamp × BackedOpen s sid uid stamp
Trusted s w (authenticated sid uid role stamp) =
    IsPast s.hub sid uid stamp × Backed s sid uid role stamp
Trusted s w (accepted sid uid role) =
    (stamp : AuthorizationStamp) × (s.hub.stamps w ≡ some stamp)
    × IsPast s.hub sid uid stamp
    × Backed s sid uid role stamp
Trusted s w (joined sid uid role) =
    (stamp : AuthorizationStamp) × (s.hub.stamps w ≡ some stamp)
    × IsPast s.hub sid uid stamp
    × Backed s sid uid role stamp

-- A change of the tables, the fences and the locks that no trusted connection notices.
pub record IsHarmless (s t : System) : Type 0 where
  pub members : (sid uid : ℕ) → member_version s.hub sid uid ≤ member_version t.hub sid uid
  pub sessions : (sid : ℕ) → session_version s.hub sid ≤ session_version t.hub sid
  pub kept :
      (sid uid : ℕ) (role : Role)
      → member_version t.hub sid uid ≤ member_version s.hub sid uid
      → session_version t.hub sid ≤ session_version s.hub sid
      → concerns (t.pending sid) uid ≡ false
      → (concerns (s.pending sid) uid ≡ false)
        × (Granted s.db sid uid role → Granted t.db sid uid role)
        × (Opened s.db sid → Opened t.db sid)

IsPast-later :
    (s t : System) (sid uid : ℕ) (stamp : AuthorizationStamp)
    → IsHarmless s t
    → IsPast s.hub sid uid stamp
    → IsPast t.hub sid uid stamp
IsPast-later s t sid uid stamp h past =
    let a = h.members sid uid in let b = h.sessions sid in (omega arith, omega arith)

Backed-later :
    (s t : System) (sid uid : ℕ) (role : Role) (stamp : AuthorizationStamp)
    → IsHarmless s t
    → IsPast s.hub sid uid stamp
    → Backed s sid uid role stamp
    → Backed t sid uid role stamp
Backed-later s t sid uid role stamp h past backed = λ new_member new_session free.
    let a = h.members sid uid in
    let b = h.sessions sid in
    let (was_free, grants, _) = h.kept sid uid role (omega arith) (omega arith) free in
    grants (backed (omega arith) (omega arith) was_free)

BackedOpen-later :
    (s t : System) (sid uid : ℕ) (stamp : AuthorizationStamp)
    → IsHarmless s t
    → IsPast s.hub sid uid stamp
    → BackedOpen s sid uid stamp
    → BackedOpen t sid uid stamp
BackedOpen-later s t sid uid stamp h past backed = λ new_member new_session free.
    let a = h.members sid uid in
    let b = h.sessions sid in
    let (was_free, _, opens) = h.kept sid uid owner (omega arith) (omega arith) free in
    opens (backed (omega arith) (omega arith) was_free)

pub Trusted-later :
    (s t : System) (w : ℕ) (p : Phase)
    → IsHarmless s t
    → t.hub.stamps w ≡ s.hub.stamps w
    → Trusted s w p
    → Trusted t w p
Trusted-later s t w absent h e trusted = tt
Trusted-later s t w gone h e trusted = tt
Trusted-later s t w (stamped sid uid stamp) h e trusted = IsPast-later s t sid uid stamp h trusted
Trusted-later s t w (session_read sid uid stamp) h e (past, backed) =
    (IsPast-later s t sid uid stamp h past, BackedOpen-later s t sid uid stamp h past backed)
Trusted-later s t w (authenticated sid uid role stamp) h e (past, backed) =
    (IsPast-later s t sid uid stamp h past, Backed-later s t sid uid role stamp h past backed)
Trusted-later s t w (accepted sid uid role) h e (stamp, has, past, backed) = (
  stamp,
  e ∙ has,
  IsPast-later s t sid uid stamp h past,
  Backed-later s t sid uid role stamp h past backed,
)
Trusted-later s t w (joined sid uid role) h e (stamp, has, past, backed) = (
  stamp,
  e ∙ has,
  IsPast-later s t sid uid stamp h past,
  Backed-later s t sid uid role stamp h past backed,
)
