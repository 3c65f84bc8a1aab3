-- ===== src/Presence/Listing.antt =====
-- Who is listed as present (presence.py).
use code_collaborator.Base.{
  ℕ, ◌+◌, ◌≡◌, ◌≢◌, refl, sym, arith, Option, none, some, [], ◌∷◌, length, ltb, if◌then◌else◌,
  Option-cases, inl, inr,
}
use code_collaborator.Base.Dict.{lookup, lookup-insert, lookup-insert_self, IsDict}
use code_collaborator.Presence.{
  UserPresence, Users, Presences, awareness_timeout, session_users, fresh, views, get_all_presence,
  get_member_count, replace_users,
}

module _ {Position : Type 0} where
  -- The presence that is left of one user: what was seen within the timeout.
  abbrev pub if_fresh : ℕ → Option (UserPresence Position) → Option (UserPresence Position)
  if_fresh now none = none
  if_fresh now (some p) = if ltb (p.last_seen + awareness_timeout) now then none else some p

  lookup-fresh :
      (now u : ℕ) (users : Users Position)
      → IsDict users
      → lookup u (fresh now users) ≡ if_fresh now (lookup u users)
  unfolding fresh
  lookup-fresh now u [] h = refl
  lookup-fresh now u ((v, p) ∷ users) h =
      let rest = lookup-fresh now u users h.1 in ground (arith, rest, h.0)

  length-views : (users : Users Position) → length (views users) ≡ length users
  length-views [] = refl
  length-views (u ∷ users) = ground (arith, length-views users)

  users_after :
      (sid now : ℕ) (m : Presences Position)
      → session_users sid (replace_users sid now (lookup sid m) m) ≡ fresh now (session_users sid m)
  unfolding fresh
  users_after sid now m = elim (Option-cases (lookup sid m)) [
    | inl absent ↦ rw (absent, session_users) (rw absent refl)
    | inr (users, present) ↦
        rw (present, session_users) (rw (lookup-insert_self sid (fresh now users) m) refl)
  ]

  others_after :
      (sid now other : ℕ) (m : Presences Position)
      → other ≢ sid
      → lookup other (replace_users sid now (lookup sid m) m) ≡ lookup other m
  others_after sid now other m different = elim (Option-cases (lookup sid m)) [
    | inl absent ↦ rw absent refl
    | inr (users, present) ↦
        rw present (ground (arith, different, lookup-insert sid other (fresh now users) m))
  ]

  -- After the stale users were dropped, exactly those are left whom the session has and who were seen
  -- within the timeout of 30 seconds; the list that is returned is theirs, and the member count is its
  -- length. Other sessions are as before.
  pub get_all_presence_lem :
      (sid now : ℕ) (m : Presences Position)
      → IsDict (session_users sid m)
      → let (listed, m') = get_all_presence sid now m in
        ((u : ℕ) → lookup u (session_users sid m') ≡ if_fresh now (lookup u (session_users sid m)))
        × (listed ≡ views (session_users sid m'))
        × (get_member_count sid m' ≡ length listed)
        × ((other : ℕ) → other ≢ sid → lookup other m' ≡ lookup other m)
  unfolding get_all_presence get_member_count
  get_all_presence_lem sid now m keyed =
      let after = users_after sid now m in
      (
        λ u. rw after (lookup-fresh now u (session_users sid m) keyed),
        rw after refl,
        rw after (sym (length-views (fresh now (session_users sid m)))),
        λ other different. others_after sid now other m different,
      )
