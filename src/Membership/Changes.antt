-- ===== src/Membership/Changes.antt =====
-- The requests of /workspaces/members as one step on the rows of workspace_users.
use system_dashnote.Prelude.{
  ℕ, ◌≡◌, refl, true, false, not, ◌&&◌, Option, none, some, String, List, [], ◌∷◌, ◌++◌, map, ◌⊎◌,
  inl, inr, str_eq, arith, ◌==◌, any_of, select, All, select-All, Bool-cases, if◌then◌else◌,
}
use system_dashnote.Prelude.Exec.{Exn, Result, ok, err, >>=-state}
use system_dashnote.Database.{one_or_none}
use system_dashnote.Auth.Models.{User, WorkspaceUser, RequestContext}
use system_dashnote.Auth.Context.{require_roles}
use system_dashnote.Membership.Repository.{
  Tables, Session, is_member, add_member, get_member, update_role, get_user_by_email,
}
use system_dashnote.Membership.Repository
use system_dashnote.Membership.Service.{is_some_member}
use system_dashnote.Membership.Service
use system_dashnote.Membership.Router

pub data Request : Type 0 where
  invite : (email role : String) → Request
  set_role : (user_id : ℕ) (role : String) → Request
  delete_member : (user_id : ℕ) → Request

-- What a request may do to the rows, with what the code has checked by then.
pub data Change (ctx : RequestContext) (xs ys : List WorkspaceUser) : Type 0 where
  kept : ys ≡ xs → Change ctx xs ys
  invited :
      (user_id : ℕ) (role : String)
      → str_eq role "owner" ≡ false
      → (str_eq ctx.role "admin" && str_eq role "admin") ≡ false
      → select (is_member ctx.workspace_id user_id) xs ≡ []
      → ys ≡ xs ++ (record { user_id = user_id; tenant_id = ctx.workspace_id; role = role }) ∷ []
      → Change ctx xs ys
  changed :
      (user_id : ℕ) (role : String)
      → str_eq role "owner" ≡ false
      → str_eq ctx.role "owner" ≡ true
      → ys
        ≡ map (λ m. if is_member ctx.workspace_id user_id m then record m { role = role } else m) xs
      → Change ctx xs ys
  removed :
      (user_id : ℕ) (member : WorkspaceUser)
      → (user_id == ctx.user_id) ≡ false
      → select (is_member ctx.workspace_id user_id) xs ≡ member ∷ []
      → (str_eq ctx.role "admin" && any_of (str_eq member.role) ("admin" ∷ "owner" ∷ [])) ≡ false
      → ys ≡ select (λ m. not (is_member ctx.workspace_id user_id m)) xs
      → Change ctx xs ys

one_or_none-none : {Row : Type 0} (xs : List Row) → one_or_none xs ≡ ok none → xs ≡ []
one_or_none-none [] h = refl
one_or_none-none (x ∷ []) h = absurd (cc)
one_or_none-none (x ∷ y ∷ xs) h = absurd (cc)

one_or_none-some :
    {Row : Type 0} (xs : List Row) (x : Row) → one_or_none xs ≡ ok (some x) → xs ≡ x ∷ []
one_or_none-some [] x h = absurd (cc)
one_or_none-some (y ∷ []) x h = ground arith
one_or_none-some (y ∷ z ∷ xs) x h = absurd (cc)

pub found-cases :
    {Row : Type 0} (r : Result (Option Row))
    → ((e : Exn) × (r ≡ err e)) ⊎ ((r ≡ ok none) ⊎ ((x : Row) × (r ≡ ok (some x))))
found-cases (err e) = inl (e, refl)
found-cases (ok none) = inr (inl refl)
found-cases (ok (some x)) = inr (inr (x, refl))

-- The row that a lookup found has the keys that were looked up.
found-keys :
    (w u : ℕ) (xs : List WorkspaceUser) (m : WorkspaceUser)
    → select (is_member w u) xs ≡ m ∷ []
    → (m.tenant_id ≡ w) × (m.user_id ≡ u)
found-keys w u xs m e =
    let h : All (λ x. is_member w u x ≡ true) (m ∷ []) = rw e at (select-All (is_member w u) xs) in
    ground (arith, h.0)

module _ (strip_lower : String → String) (t : Tables) where
  unfoldable pub perform : Request → RequestContext → Session t → Session t
  unfolding Router.invite Router.set_role Router.delete_member
  perform (invite email role) ctx s = (Router.invite strip_lower t email role ctx s).1
  perform (set_role user_id role) ctx s = (Router.set_role strip_lower t user_id role ctx s).1
  perform (delete_member user_id) ctx s = (Router.delete_member strip_lower t user_id ctx s).1

  abbrev pub rows_of : Session t → List WorkspaceUser
  rows_of s = t.members.rows s.members

  module _ (ctx : RequestContext) (s : Session t) where
    users_with : String → Result (Option User)
    users_with email = one_or_none (t.users.fetch (λ u. str_eq u.email email) s.users)

    members_with : ℕ → Result (Option WorkspaceUser)
    members_with user_id =
        one_or_none (t.members.fetch (is_member ctx.workspace_id user_id) s.members)

    invite_member-Change :
        (email role : String)
        → Change ctx
            (rows_of s)
            (rows_of (Service.invite_member strip_lower t ctx.workspace_id ctx email role s).1)
    unfolding Service.invite_member Service.normalize_role get_user_by_email get_member add_member
        users_with members_with
    invite_member-Change email role_in =
        let role = strip_lower role_in in
        elim (Bool-cases (any_of (str_eq role) ("owner" ∷ "admin" ∷ "member" ∷ []))) [
          | inr bad ↦ rw bad (kept refl)
          | inl known ↦ rw known (elim (Bool-cases (str_eq role "owner")) [
            | inl owner ↦ rw owner (kept refl)
            | inr plain ↦
                rw plain (elim (Bool-cases (str_eq ctx.role "admin" && str_eq role "admin")) [
                  | inl above ↦ rw above (kept refl)
                  | inr allowed ↦ rw allowed (elim (found-cases (users_with email)) [
                    | inl (e, raised) ↦ rw raised (kept refl)
                    | inr (inl missing) ↦ rw missing (kept refl)
                    | inr (inr (user, found)) ↦
                        rw found (elim (found-cases (members_with user.id)) [
                          | inl (e, raised) ↦ rw raised (kept refl)
                          | inr (inr (m, already)) ↦ rw already (kept refl)
                          | inr (inl fresh) ↦ rw fresh (
                              invited user.id role plain allowed
                                (one_or_none-none _ (rw t.members.fetch_lem at fresh))
                                (t.members.insert_lem _ s.members))
                        ])
                  ])
                ])
          ])
        ]

    change_member_role-Change :
        (user_id : ℕ) (role : String)
        → Change ctx (rows_of s) (
            rows_of
              (Service.change_member_role strip_lower t ctx.workspace_id ctx user_id role s).1)
    unfolding Service.change_member_role Service.normalize_role get_member update_role members_with
    change_member_role-Change user_id role_in =
        let role = strip_lower role_in in
        elim (Bool-cases (any_of (str_eq role) ("owner" ∷ "admin" ∷ "member" ∷ []))) [
          | inr bad ↦ rw bad (kept refl)
          | inl known ↦ rw known (elim (Bool-cases (str_eq role "owner")) [
            | inl owner ↦ rw owner (kept refl)
            | inr plain ↦ rw plain (elim (Bool-cases (str_eq ctx.role "owner")) [
              | inr weak ↦ rw weak (kept refl)
              | inl strong ↦ rw strong (elim (found-cases (members_with user_id)) [
                | inl (e, raised) ↦ rw raised (kept refl)
                | inr (inl missing) ↦ rw missing (kept refl)
                | inr (inr (m, found)) ↦ rw found (
                    let keys =
                      found-keys ctx.workspace_id user_id (rows_of s) m
                        (one_or_none-some _ m (rw t.members.fetch_lem at found)) in
                    changed user_id role plain strong
                      (rw (← keys.0, ← keys.1) (t.members.update_lem _ _ s.members)))
              ])
            ])
          ])
        ]

    remove_member-Change :
        (user_id : ℕ)
        → Change ctx
            (rows_of s)
            (rows_of (Service.remove_member strip_lower t ctx.workspace_id ctx user_id s).1)
    unfolding Service.remove_member get_member Repository.remove_member members_with
    remove_member-Change user_id =
        elim (Bool-cases (any_of (str_eq ctx.role) ("owner" ∷ "admin" ∷ []))) [
          | inr weak ↦ rw weak (kept refl)
          | inl strong ↦ rw strong (elim (Bool-cases (user_id == ctx.user_id)) [
            | inl self ↦ rw self (kept refl)
            | inr other ↦ rw other (elim (found-cases (members_with user_id)) [
              | inl (e, raised) ↦ rw raised (kept refl)
              | inr (inl missing) ↦ rw missing (kept refl)
              | inr (inr (m, found)) ↦
                  rw found
                    (elim (Bool-cases (
                      str_eq ctx.role "admin" && any_of (str_eq m.role) ("admin" ∷ "owner" ∷ []))) [
                        | inl above ↦ rw above (kept refl)
                        | inr allowed ↦ rw allowed (
                            removed user_id m other
                              (one_or_none-some _ m (rw t.members.fetch_lem at found)) allowed
                              (t.members.remove_lem _ s.members))
                      ])
            ])
          ])
        ]

    invited_read-state :
        (email : String) (m : WorkspaceUser) (u : Session t)
        → (Router.invited_read strip_lower t ctx email m u).1 ≡ u
    unfolding get_user_by_email
    invited_read-state email m u =
        elim (found-cases (one_or_none (t.users.fetch (λ x. str_eq x.email email) u.users))) [
          | inl (e, raised) ↦ rw raised refl
          | inr (inl missing) ↦ rw missing refl
          | inr (inr (x, found)) ↦ rw found refl
        ]

    invite-Change :
        (email role : String)
        → Change ctx (rows_of s) (rows_of (Router.invite strip_lower t email role ctx s).1)
    unfolding Router.invite require_roles get_user_by_email
    invite-Change email role =
        elim (Bool-cases (any_of (str_eq ctx.role) ("owner" ∷ "admin" ∷ []))) [
          | inr weak ↦ rw weak (kept refl)
          | inl strong ↦ rw strong (
              let answered =
                >>=-state (Service.invite_member strip_lower t ctx.workspace_id ctx email role)
                  (Router.invited_read strip_lower t ctx email) s (invited_read-state email) in
              rw answered (invite_member-Change email role))
        ]

    set_role-Change :
        (user_id : ℕ) (role : String)
        → Change ctx (rows_of s) (rows_of (Router.set_role strip_lower t user_id role ctx s).1)
    unfolding Router.set_role require_roles
    set_role-Change user_id role = elim (Bool-cases (any_of (str_eq ctx.role) ("owner" ∷ []))) [
      | inr weak ↦ rw weak (kept refl)
      | inl strong ↦ rw strong (change_member_role-Change user_id role)
    ]

    delete_member-Change :
        (user_id : ℕ)
        → Change ctx (rows_of s) (rows_of (Router.delete_member strip_lower t user_id ctx s).1)
    unfolding Router.delete_member require_roles
    delete_member-Change user_id =
        elim (Bool-cases (any_of (str_eq ctx.role) ("owner" ∷ "admin" ∷ []))) [
          | inr weak ↦ rw weak (kept refl)
          | inl strong ↦ rw strong (remove_member-Change user_id)
        ]

    -- Every request is one of these steps, whatever it answers.
    pub perform-Change :
        (request : Request) → Change ctx (rows_of s) (rows_of (perform request ctx s))
    unfolding perform
    perform-Change (invite email role) = invite-Change email role
    perform-Change (set_role user_id role) = set_role-Change user_id role
    perform-Change (delete_member user_id) = delete_member-Change user_id
