-- ===== src/Membership/Tenancy.antt =====
-- What requests leave alone: the members of other workspaces, and the privileged ones.
use system_dashnote.Prelude.{
  ℕ, ◌≡◌, ◌≢◌, refl, ◌∙◌, ap, Bool, true, false, not, String, List, [], ◌∷◌, ◌++◌, map, arith,
  str_eq, str_eq_iff, Bool-cases, inl, inr, ◌==◌, any_of, All, select, if◌then◌else◌,
}
use system_dashnote.Auth.Models.{WorkspaceUser, RequestContext}
use system_dashnote.Membership.Repository.{Tables, Session, is_member}
use system_dashnote.Membership.Changes.{
  Change, kept, invited, changed, removed, Request, perform, perform-Change, rows_of,
}

-- The members of one workspace.
abbrev pub inside : ℕ → List WorkspaceUser → List WorkspaceUser
inside workspace_id = select (λ m. m.tenant_id == workspace_id)

inside-insert :
    (w v : ℕ) (xs : List WorkspaceUser) (u : ℕ) (role : String)
    → v ≢ w
    → inside w (xs ++ (record { user_id = u; tenant_id = v; role = role }) ∷ []) ≡ inside w xs
inside-insert w v [] u role h = ground arith
inside-insert w v (x ∷ xs) u role h = ground (arith, inside-insert w v xs u role h)

inside-update :
    (w v u : ℕ) (role : String) (xs : List WorkspaceUser)
    → v ≢ w
    → inside w (map (λ m. if is_member v u m then record m { role = role } else m) xs) ≡ inside w xs
inside-update w v u role [] h = refl
inside-update w v u role (x ∷ xs) h = ground (arith, inside-update w v u role xs h)

inside-remove :
    (w v u : ℕ) (xs : List WorkspaceUser)
    → v ≢ w
    → inside w (select (λ m. not (is_member v u m)) xs) ≡ inside w xs
inside-remove w v u [] h = refl
inside-remove w v u (x ∷ xs) h = ground (arith, inside-remove w v u xs h)

inside-Change :
    (w : ℕ) (ctx : RequestContext) (xs ys : List WorkspaceUser)
    → ctx.workspace_id ≢ w
    → Change ctx xs ys
    → inside w ys ≡ inside w xs
inside-Change w ctx xs ys h (kept e) = ap (inside w) e
inside-Change w ctx xs ys h (invited u role _ _ _ e) =
    ap (inside w) e ∙ inside-insert w ctx.workspace_id xs u role h
inside-Change w ctx xs ys h (changed u role _ _ e) =
    ap (inside w) e ∙ inside-update w ctx.workspace_id u role xs h
inside-Change w ctx xs ys h (removed u m _ _ _ e) =
    ap (inside w) e ∙ inside-remove w ctx.workspace_id u xs h

abbrev pub owner : WorkspaceUser → Bool
owner m = str_eq m.role "owner"

-- `member.role in {"admin", "owner"}`
abbrev pub privileged : WorkspaceUser → Bool
privileged m = any_of (str_eq m.role) ("admin" ∷ "owner" ∷ [])

-- Every owner of any workspace satisfies P.
abbrev pub OwnersSatisfy {κ} : (WorkspaceUser → Type κ) → List WorkspaceUser → Type κ
OwnersSatisfy P = All (λ m. str_eq m.role "owner" ≡ true → P m)

module _ {κ} (P : WorkspaceUser → Type κ) where
  owners-insert :
      (xs : List WorkspaceUser) (m : WorkspaceUser)
      → str_eq m.role "owner" ≡ false
      → OwnersSatisfy P xs
      → OwnersSatisfy P (xs ++ m ∷ [])
  owners-insert [] m h a = (λ e. absurd (cc), tt)
  owners-insert (x ∷ xs) m h a = (a.0, owners-insert xs m h a.1)

  owners-update :
      (w u : ℕ) (role : String) (xs : List WorkspaceUser)
      → str_eq role "owner" ≡ false
      → OwnersSatisfy P xs
      → OwnersSatisfy P (map (λ m. if is_member w u m then record m { role = role } else m) xs)
  owners-update w u role [] h a = tt
  owners-update w u role (x ∷ xs) h a =
      let rest = owners-update w u role xs h a.1 in
      elim (Bool-cases (is_member w u x)) [
        | inl hit ↦ rw hit (λ e. absurd (cc), rest)
        | inr miss ↦ rw miss (a.0, rest)
      ]

  owners-remove :
      (p : WorkspaceUser → Bool) (xs : List WorkspaceUser)
      → OwnersSatisfy P xs
      → OwnersSatisfy P (select p xs)
  owners-remove p [] a = tt
  owners-remove p (x ∷ xs) a = ground (arith, owners-remove p xs a.1)

  owners-Change :
      (ctx : RequestContext) (xs ys : List WorkspaceUser)
      → Change ctx xs ys
      → OwnersSatisfy P xs
      → OwnersSatisfy P ys
  owners-Change ctx xs ys (kept e) a = rw e a
  owners-Change ctx xs ys (invited u role plain _ _ e) a = rw e (owners-insert xs _ plain a)
  owners-Change ctx xs ys (changed u role plain _ e) a =
      rw e (owners-update ctx.workspace_id u role xs plain a)
  owners-Change ctx xs ys (removed u m _ _ _ e) a = rw e (owners-remove _ xs a)

privileged-insert :
    (xs : List WorkspaceUser) (m : WorkspaceUser)
    → privileged m ≡ false
    → select privileged (xs ++ m ∷ []) ≡ select privileged xs
privileged-insert [] m h = rw h refl
privileged-insert (x ∷ xs) m h = ground (arith, privileged-insert xs m h)

privileged-remove :
    (p : WorkspaceUser → Bool) (xs : List WorkspaceUser)
    → All (λ m. privileged m ≡ false) (select p xs)
    → select privileged (select (λ m. not (p m)) xs) ≡ select privileged xs
privileged-remove p [] h = refl
privileged-remove p (x ∷ xs) h = elim (Bool-cases (p x)) [
  | inl hit ↦
      let h' : (privileged x ≡ false) × All (λ m. privileged m ≡ false) (select p xs) =
        rw hit at h in
      rw (hit, h'.0) (privileged-remove p xs h'.1)
  | inr miss ↦
      let h' : All (λ m. privileged m ≡ false) (select p xs) = rw miss at h in
      rw miss (ground (arith, privileged-remove p xs h'))
]

privileged-Change :
    (ctx : RequestContext) (xs ys : List WorkspaceUser)
    → str_eq ctx.role "admin" ≡ true
    → Change ctx xs ys
    → select privileged ys ≡ select privileged xs
privileged-Change ctx xs ys h (kept e) = ap (select privileged) e
privileged-Change ctx xs ys h (invited u role plain allowed _ e) =
    rw e (privileged-insert xs _ (ground arith))
privileged-Change ctx xs ys h (changed u role _ strong e) =
    let strong' : str_eq "admin" "owner" ≡ true =
      rw ((str_eq_iff ctx.role "admin").0 h) at strong in
    absurd (cc)
privileged-Change ctx xs ys h (removed u m _ found allowed e) =
    rw e (privileged-remove _ xs (rw found (ground arith, tt)))

-- One request after another, each in the context of the caller who made it.
abbrev pub History : Type 0
History = List (RequestContext × Request)

module _ (strip_lower : String → String) (t : Tables) where
  unfoldable pub perform_all : History → Session t → Session t
  unfolding perform
  perform_all [] s = s
  perform_all ((ctx, request) ∷ rest) s = perform_all rest (perform strip_lower t request ctx s)

  -- Whatever requests are made in the context of other workspaces, the membership rows of a
  -- workspace stay as they are, whether the requests succeed or fail.
  pub requests_stay_inside :
      (w : ℕ) (history : History) (s : Session t)
      → All (λ h. h.0.workspace_id ≢ w) history
      → inside w (rows_of strip_lower t (perform_all history s))
        ≡ inside w (rows_of strip_lower t s)
  unfolding perform_all
  requests_stay_inside w [] s h = refl
  requests_stay_inside w ((ctx, request) ∷ rest) s h =
      requests_stay_inside w rest _ h.1
      ∙ inside-Change w ctx _ _ h.0 (perform-Change strip_lower t ctx s request)

  -- No sequence of requests to /workspaces/members, by whomever, makes anyone an owner: a property
  -- that all owner rows have is a property of all owner rows afterwards.
  pub owners_never_gained {κ} :
      (P : WorkspaceUser → Type κ) (history : History) (s : Session t)
      → OwnersSatisfy P (rows_of strip_lower t s)
      → OwnersSatisfy P (rows_of strip_lower t (perform_all history s))
  unfolding perform_all
  owners_never_gained P [] s a = a
  owners_never_gained P ((ctx, request) ∷ rest) s a =
      owners_never_gained P rest _
        (owners-Change P ctx _ _ (perform-Change strip_lower t ctx s request) a)

  -- Requests that admins make leave the rows of all admins and owners, of every workspace, as they
  -- are: an admin can neither make, change nor remove one.
  pub admins_keep_privileged :
      (history : History) (s : Session t)
      → All (λ h. str_eq h.0.role "admin" ≡ true) history
      → select privileged (rows_of strip_lower t (perform_all history s))
        ≡ select privileged (rows_of strip_lower t s)
  unfolding perform_all
  admins_keep_privileged [] s h = refl
  admins_keep_privileged ((ctx, request) ∷ rest) s h =
      admins_keep_privileged rest _ h.1
      ∙ privileged-Change ctx _ _ h.0 (perform-Change strip_lower t ctx s request)
