-- ===== src/Endpoints/Requests.antt =====
-- The endpoints of backend/app/sessions/router.py take only the steps of Hub/System, in which connections
-- and requests interleave.
use code_collaborator.Base.{
  ℕ, ◌≡◌, refl, sym, subst, arith, Option, none, some, ◌==◌, ==_refl, update, ◌⊎◌, Option-cases,
  Bool-cases, inl, inr, Result, ok, err, Result-cases,
}
use code_collaborator.Models.{Role, owner, Language}
use code_collaborator.Sessions.{
  Db, create_session, add_member, update_member_role, remove_member, close_session,
}
use code_collaborator.Access.{role_checker}
use code_collaborator.Hub.System.{
  Phase, Fence, role_changed, removed, session_closed, System, fence, Step, create, add,
  commit_role, commit_removal, commit_close, finish,
}
use code_collaborator.Endpoints.Members.{
  Tables, by_id, by_name, find_username, Invited, Request, create_request, add_request,
  update_request, remove_request, close_request, resolve_member_user_id, create_session_endpoint,
  add_member_endpoint, update_member_role_endpoint, remove_member_endpoint, close_session_endpoint,
  route,
}
use std.Path.{fun_ext}
use Prim.Native.String.{String}

-- Any number of steps.
pub data Steps (s : System) : System → Type 0 where
  done : Steps s s
  more : {t u : System} → Steps s t → Step t u → Steps s u

-- The lock that the endpoint takes is free.
abbrev pub IsFree : Request → (ℕ → Option Fence) → Type 0
IsFree (create_request sid now name language) pending = Unit {0}
IsFree (add_request sid invited role) pending = Unit {0}
IsFree (update_request sid uid role) pending = pending sid ≡ none
IsFree (remove_request sid uid) pending = pending sid ≡ none
IsFree (close_request sid now) pending = pending sid ≡ none

-- The tables and the hub with the connections' phases and the locks.
abbrev pub system : Tables → (ℕ → Phase) → (ℕ → Option Fence) → System
system t phases pending = record { db = t.db; hub = t.hub; phases = phases; pending = pending }

released :
    (pending : ℕ → Option Fence) (sid : ℕ) (f : Fence)
    → pending sid ≡ none
    → update (update pending sid (some f)) sid none ≡ pending
released pending sid f free = fun_ext (λ k. elim (Bool-cases (sid == k)) [
  | inl e ↦
      let same : sid ≡ k = ground arith in
      rw e (sym (subst (λ (x : ℕ). pending x ≡ none) same free))
  | inr e ↦ rw e refl
])

-- A commit under the lock, and the fence that ends it.
locked-Steps :
    (s : System) (sid : ℕ) (f : Fence) (db : Db)
    → s.pending sid ≡ none
    → Step s (record s { db = db; pending = update s.pending sid (some f) })
    → Steps s (record s { db = db; hub = fence sid f s.hub })
locked-Steps s sid f db free commit =
    subst
      (λ (p : ℕ → Option Fence).
        Steps s (record s { db = db; hub = fence sid f s.hub; pending = p }))
      (released s.pending sid f free)
      (more (more done commit) (finish sid f (rw (==_refl sid) refl)))

-- A run of steps that keeps the phases and gives every lock back; a refused request leaves the tables.
pub record IsRun (pending : ℕ → Option Fence) (phases : ℕ → Phase) (t : Tables)
    (made : Result ℕ (Unit {0}) × Tables) : Type 0 where
  pub steps : Steps (system t phases pending) (system made.1 phases pending)
  pub refused_keeps : (status : ℕ) → made.0 ≡ err status → made.1 ≡ t

module _ (asked : Db) (caller : ℕ) (t : Tables) (phases : ℕ → Phase)
    (pending : ℕ → Option Fence) where
  resolved-cases :
      (invited : Invited)
      → (resolve_member_user_id invited t ≡ (err 404, t))
        ⊎ ((uid : ℕ) × (resolve_member_user_id invited t ≡ (ok uid, t)))
  unfolding resolve_member_user_id
  resolved-cases (by_id uid) = inr (uid, refl)
  resolved-cases (by_name name) = elim (Option-cases (find_username name t.db.users)) [
    | inl unknown ↦ inl (rw unknown refl)
    | inr (uid, found) ↦ inr (uid, rw found refl)
  ]

  update-Steps :
      (sid uid : ℕ) (role : Role)
      → pending sid ≡ none
      → IsRun pending phases t (update_member_role_endpoint asked sid caller uid role t)
  unfolding update_member_role_endpoint
  update-Steps sid uid role free = elim (Result-cases (role_checker owner asked sid caller)) [
    | inr (e, refused) ↦ rw refused (record { steps = done; refused_keeps = λ status e. refl })
    | inl (_, permitted) ↦ elim (Result-cases (update_member_role t.db sid uid role)) [
      | inr (e, refused) ↦
          rw (permitted, refused) (record { steps = done; refused_keeps = λ status e. refl })
      | inl ((db, m), made) ↦
          rw (permitted, made)
            (record {
              steps =
                  locked-Steps (system t phases pending) sid (role_changed uid) db free
                    (commit_role sid uid role free made);
              refused_keeps = λ status e. cc;
            })
    ]
  ]

  remove-Steps :
      (sid uid : ℕ)
      → pending sid ≡ none
      → IsRun pending phases t (remove_member_endpoint asked sid caller uid t)
  unfolding remove_member_endpoint
  remove-Steps sid uid free = elim (Result-cases (role_checker owner asked sid caller)) [
    | inr (e, refused) ↦ rw refused (record { steps = done; refused_keeps = λ status e. refl })
    | inl (_, permitted) ↦ elim (Result-cases (remove_member t.db sid uid)) [
      | inr (e, refused) ↦
          rw (permitted, refused) (record { steps = done; refused_keeps = λ status e. refl })
      | inl (db, made) ↦
          rw (permitted, made)
            (record {
              steps =
                  locked-Steps (system t phases pending) sid (removed uid) db free
                    (commit_removal sid uid free made);
              refused_keeps = λ status e. cc;
            })
    ]
  ]

  close-Steps :
      (sid now : ℕ)
      → pending sid ≡ none
      → IsRun pending phases t (close_session_endpoint asked sid caller now t)
  unfolding close_session_endpoint
  close-Steps sid now free = elim (Result-cases (role_checker owner asked sid caller)) [
    | inr (e, refused) ↦ rw refused (record { steps = done; refused_keeps = λ status e. refl })
    | inl (_, permitted) ↦ elim (Result-cases (close_session t.db sid now)) [
      | inr (e, refused) ↦
          rw (permitted, refused) (record { steps = done; refused_keeps = λ status e. refl })
      | inl ((db, x), made) ↦
          rw (permitted, made)
            (record {
              steps =
                  locked-Steps (system t phases pending) sid session_closed db free
                    (commit_close sid now free made);
              refused_keeps = λ status e. cc;
            })
    ]
  ]

  create-Steps :
      (sid now : ℕ) (name : String) (language : Language)
      → IsRun pending phases t (create_session_endpoint sid now name language caller t)
  unfolding create_session_endpoint
  create-Steps sid now name language =
      elim (Result-cases (create_session t.db sid now name language caller)) [
        | inr (e, refused) ↦ rw refused (record { steps = done; refused_keeps = λ status e. refl })
        | inl ((db, x), made) ↦ rw made (record {
          steps = more done (create sid now name language caller made);
          refused_keeps = λ status e. cc;
        })
      ]

  invited-Steps :
      (sid : ℕ) (invited : Invited) (role : Role)
      → IsRun pending phases t (add_member_endpoint asked sid caller invited role t)
  unfolding add_member_endpoint
  invited-Steps sid invited role = elim (Result-cases (role_checker owner asked sid caller)) [
    | inr (e, refused) ↦ rw refused (record { steps = done; refused_keeps = λ status e. refl })
    | inl (_, permitted) ↦ elim (resolved-cases invited) [
      | inl unknown ↦
          rw (permitted, unknown) (record { steps = done; refused_keeps = λ status e. refl })
      | inr (uid, known) ↦ elim (Result-cases (add_member t.db sid uid role)) [
        | inr (e, refused) ↦
            rw (permitted, known, refused)
              (record { steps = done; refused_keeps = λ status e. refl })
        | inl ((db, m), made) ↦
            rw (permitted, known, made)
              (record { steps = more done (add sid uid role made); refused_keeps = λ status e. cc })
      ]
    ]
  ]

  -- Each request on sessions and members, whatever it is answered, is a run of steps of the system in
  -- which connections authenticate, join, write and leave, as long as the lock that it takes is free: the
  -- commit and the fence of a change are two steps with the lock held between them. A request that is
  -- refused leaves the tables and the hub as they are.
  pub request_refines-Steps :
      (r : Request) → IsFree r pending → IsRun pending phases t (route asked caller r t)
  unfolding route
  request_refines-Steps (create_request sid now name language) free =
      create-Steps sid now name language
  request_refines-Steps (add_request sid invited role) free = invited-Steps sid invited role
  request_refines-Steps (update_request sid uid role) free = update-Steps sid uid role free
  request_refines-Steps (remove_request sid uid) free = remove-Steps sid uid free
  request_refines-Steps (close_request sid now) free = close-Steps sid now free
