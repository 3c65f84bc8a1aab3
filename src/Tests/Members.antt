-- ===== src/Tests/Members.antt =====
-- Sessions, their members and their access checks (backend/app/sessions, backend/app/auth), on a
-- session of user 1 in which user 2 is an editor.
use code_collaborator.Base.{ℕ, ◌≡◌, refl, some, [], ◌∷◌, ok, true, false, ◌↔◌}
use code_collaborator.Base.Dict.{Dict, lookup}
use code_collaborator.Models.{owner, editor, Session, SessionMember, User, python}
use code_collaborator.Sessions.{Db, create_session, add_member, close_session, get_active_session}
use code_collaborator.Sessions.Members.{role_of}
use code_collaborator.Sessions.Invariant.{IsValid}
use code_collaborator.Sessions.History.{
  Reach, here, next, create, add, close, no_sessions, reached-IsValid, owner_is_permanent,
}
use code_collaborator.Sessions.Closing.{closed_is_final}
use code_collaborator.Access.{role_checker, require_current_editor}
use code_collaborator.Access.Rules.{HasAccess, role_checker_iff, require_current_editor_iff}

abbrev pub users : Dict User
users = (1, record { id = 1; username = "ada" }) ∷ (2, record { id = 2; username = "bob" }) ∷ []

abbrev pub open_row : Session
open_row = record {
  id = 7;
  name = "room";
  language = python;
  owner_id = 1;
  is_active = true;
  updated_at = 10;
}

abbrev closed_row : Session
closed_row = record open_row { is_active = false; updated_at = 20 }

abbrev owner_row : SessionMember
owner_row = record { session_id = 7; user_id = 1; role = owner }

abbrev editor_row : SessionMember
editor_row = record { session_id = 7; user_id = 2; role = editor }

abbrev pub created : Db
created = record { users = users; sessions = (7, open_row) ∷ []; members = owner_row ∷ [] }

abbrev pub shared : Db
shared = record created { members = editor_row ∷ owner_row ∷ [] }

abbrev finished : Db
finished = record shared { sessions = (7, closed_row) ∷ [] }

pub creates : create_session (no_sessions users) 7 10 "room" python 1 ≡ ok (created, open_row)
unfolding create_session
creates = refl

pub adds : add_member created 7 2 editor ≡ ok (shared, editor_row)
unfolding add_member get_active_session
adds = refl

closes : close_session shared 7 20 ≡ ok (finished, closed_row)
unfolding close_session get_active_session
closes = refl

Reach-created : Reach (no_sessions users) created
Reach-created = next here (create 7 10 "room" python 1 creates)

Reach-shared : Reach (no_sessions users) shared
Reach-shared = next Reach-created (add 7 2 editor adds)

Reach-finished : Reach shared finished
Reach-finished = next here (close 7 20 closes)

created-IsValid : IsValid created
created-IsValid = reached-IsValid users created Reach-created

shared-IsValid : IsValid shared
shared-IsValid = reached-IsValid users shared Reach-shared

reached-IsValid_example : IsValid shared
reached-IsValid_example = reached-IsValid users shared Reach-shared

owner_is_permanent_example :
    (s' : Session) × (lookup 7 finished.sessions ≡ some s')
    × (s'.owner_id ≡ 1)
    × (role_of 7 1 finished.members ≡ some owner)
owner_is_permanent_example =
    owner_is_permanent 7 open_row shared finished shared-IsValid refl Reach-finished

-- After session 7 is closed, user 2 creates session 8 and adds user 1 to it.
abbrev second_row : Session
second_row = record {
  id = 8;
  name = "next";
  language = python;
  owner_id = 2;
  is_active = true;
  updated_at = 30;
}

abbrev second : Db
second = record finished {
  sessions = (7, closed_row) ∷ (8, second_row) ∷ [];
  members = record { session_id = 8; user_id = 2; role = owner } ∷ finished.members;
}

abbrev second_shared : Db
second_shared = record second {
  members = record { session_id = 8; user_id = 1; role = editor } ∷ second.members;
}

creates_second : create_session finished 8 30 "next" python 2 ≡ ok (second, second_row)
unfolding create_session
creates_second = refl

adds_second :
    add_member second 8 1 editor
    ≡ ok (second_shared, record { session_id = 8; user_id = 1; role = editor })
unfolding add_member get_active_session
adds_second = refl

closed_is_final_example :
    (lookup 7 second_shared.sessions ≡ some closed_row)
    × ((u : ℕ) → role_of 7 u second_shared.members ≡ role_of 7 u finished.members)
closed_is_final_example =
    closed_is_final 7 closed_row finished second_shared refl refl
      (next (next here (create 8 30 "next" python 2 creates_second)) (add 8 1 editor adds_second))

role_checker_iff_example : (role_checker editor shared 7 2 ≡ ok 2) ↔ HasAccess editor shared 7 2
role_checker_iff_example = role_checker_iff editor shared 7 2

require_current_editor_iff_example :
    (require_current_editor shared 7 2 ≡ ok tt) ↔ (role_checker editor shared 7 2 ≡ ok 2)
require_current_editor_iff_example = require_current_editor_iff shared 7 2
