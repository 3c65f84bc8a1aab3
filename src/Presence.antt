-- ===== src/Presence.antt =====
-- backend/app/collaboration/presence.py, `PresenceManager`: the users in each session, by user id, with
-- their cursors. Ids are numbers and the clock is read in whole seconds; cursors and selections are values
-- of a type `Position` that the code only stores.
pub mod Listing
use code_collaborator.Base.{
  ℕ, zero, suc, ◌+◌, ◌%◌, Option, none, some, List, [], ◌∷◌, map, length, ltb, if◌then◌else◌,
}
use code_collaborator.Base.Dict.{Dict, lookup, insert, erase}
use Prim.Native.String.{String}

abbrev pub awareness_timeout : ℕ
awareness_timeout = 30

abbrev pub cursor_colors : List String
cursor_colors =
    "#3b82f6" ∷ "#ef4444" ∷ "#10b981" ∷ "#f59e0b" ∷ "#8b5cf6" ∷ "#ec4899" ∷ "#06b6d4" ∷ "#f97316"
    ∷ "#14b8a6" ∷ "#6366f1" ∷ []

abbrev pub get_elem? : List String → ℕ → Option String
get_elem? [] n = none
get_elem? (c ∷ cs) zero = some c
get_elem? (c ∷ cs) (suc n) = get_elem? cs n

-- `color_for_user`, over the MD5 digest of the id as an integer.
unfoldable pub color_for_user : (md5 : ℕ → ℕ) → ℕ → Option String
color_for_user md5 user_id = get_elem? cursor_colors (md5 user_id % length cursor_colors)

pub record UserPresence (Position : Type 0) : Type 0 where
  pub user_id : ℕ
  pub username : String
  pub color : Option String
  pub cursor : Option Position
  pub selection : Option Position
  pub last_seen : ℕ

-- The fields of `_serialize_presence`.
pub record PresenceView (Position : Type 0) : Type 0 where
  pub user_id : ℕ
  pub username : String
  pub color : Option String
  pub cursor : Option Position
  pub selection : Option Position

abbrev pub Users : Type 0 → Type 0
Users Position = Dict (UserPresence Position)

abbrev pub Presences : Type 0 → Type 0
Presences Position = Dict (Users Position)

module _ {Position : Type 0} where
  abbrev pub serialize_presence : UserPresence Position → PresenceView Position
  serialize_presence p = record {
    user_id = p.user_id;
    username = p.username;
    color = p.color;
    cursor = p.cursor;
    selection = p.selection;
  }

  abbrev pub or_no_users : Option (Users Position) → Users Position
  or_no_users none = []
  or_no_users (some users) = users

  -- `self._sessions.get(session_id, {})`
  abbrev pub session_users : ℕ → Presences Position → Users Position
  session_users sid m = or_no_users (lookup sid m)

  unfoldable pub join :
      (md5 : ℕ → ℕ) (sid user_id : ℕ)
      → String
      → (now : ℕ) → Presences Position
      → PresenceView Position × Presences Position
  join md5 sid user_id username now m =
      let presence : UserPresence Position = record {
        user_id = user_id;
        username = username;
        color = color_for_user md5 user_id;
        cursor = none;
        selection = none;
        last_seen = now;
      } in
      (serialize_presence presence, insert sid (insert user_id presence (session_users sid m)) m)

  abbrev put_users : ℕ → Users Position → Presences Position → Presences Position
  put_users sid [] m = erase sid m
  put_users sid (u ∷ users) m = insert sid (u ∷ users) m

  abbrev left : ℕ → ℕ → Option (Users Position) → Presences Position → Presences Position
  left sid user_id none m = m
  left sid user_id (some users) m = put_users sid (erase user_id users) m

  unfoldable pub leave : ℕ → ℕ → Presences Position → Presences Position
  leave sid user_id m = left sid user_id (lookup sid m) m

  -- `x if x is not None`, over the value that was there.
  abbrev or_old : Option Position → Option Position → Option Position
  or_old none old = old
  or_old (some new) old = some new

  abbrev moved :
      ℕ
      → ℕ
      → Option Position
      → Option Position
      → ℕ
      → Option (UserPresence Position)
      → Presences Position
      → Presences Position
  moved sid user_id cursor selection now none m = m
  moved sid user_id cursor selection now (some p) m =
      let p' : UserPresence Position = record p {
        cursor = or_old cursor p.cursor;
        selection = or_old selection p.selection;
        last_seen = now;
      } in
      insert sid (insert user_id p' (session_users sid m)) m

  unfoldable pub update_cursor :
      ℕ → ℕ → Option Position → Option Position → ℕ → Presences Position → Presences Position
  update_cursor sid user_id cursor selection now m =
      moved sid user_id cursor selection now (lookup user_id (session_users sid m)) m

  -- The two loops of `get_all_presence` over the items of a session: the users that are listed stay, and
  -- the stale ones are deleted, each by its key.
  unfoldable pub fresh : ℕ → Users Position → Users Position
  fresh now [] = []
  fresh now ((u, p) ∷ users) =
      let rest = fresh now users in
      if ltb (p.last_seen + awareness_timeout) now then rest else (u, p) ∷ rest

  abbrev replace_users : ℕ → ℕ → Option (Users Position) → Presences Position → Presences Position
  replace_users sid now none m = m
  replace_users sid now (some users) m = insert sid (fresh now users) m

  abbrev pub views : Users Position → List (PresenceView Position)
  views [] = []
  views ((u, p) ∷ users) = serialize_presence p ∷ views users

  unfoldable pub get_all_presence :
      ℕ → ℕ → Presences Position → List (PresenceView Position) × Presences Position
  get_all_presence sid now m =
      (views (fresh now (session_users sid m)), replace_users sid now (lookup sid m) m)

  unfoldable pub get_member_count : ℕ → Presences Position → ℕ
  get_member_count sid m = length (session_users sid m)
