-- ===== src/Membership/Unique.antt =====
-- A user is a member of a workspace at most once.
use system_dashnote.Prelude.{
  ℕ, ◌≡◌, refl, ◌≤◌, Bool, not, none, some, Option, String, List, [], ◌∷◌, ◌++◌, map, arith, length,
  length-append, select-append, Bool-cases, inl, inr, select, if◌then◌else◌,
}
use system_dashnote.Prelude.Exec.{ok}
use system_dashnote.Database.{one_or_none}
use system_dashnote.Auth.Models.{WorkspaceUser, RequestContext}
use system_dashnote.Membership.Repository.{Tables, Session, is_member, get_member}
use system_dashnote.Membership.Changes.{
  Change, kept, invited, changed, removed, perform-Change, rows_of,
}
use system_dashnote.Membership.Tenancy.{History, perform_all}

-- At most one row for each workspace and user.
abbrev pub IsUnique : List WorkspaceUser → Type 0
IsUnique xs = (w u : ℕ) → length (select (is_member w u) xs) ≤ 1

IsUnique-insert :
    (xs : List WorkspaceUser) (v x : ℕ) (role : String)
    → select (is_member v x) xs ≡ []
    → IsUnique xs
    → IsUnique (xs ++ (record { user_id = x; tenant_id = v; role = role }) ∷ [])
IsUnique-insert xs v x role none_yet h w u =
    rw (select-append, length-append)
      (elim (Bool-cases (is_member w u (record { user_id = x; tenant_id = v; role = role }))) [
        | inr other ↦ rw other (omega (arith, h w u))
        | inl same ↦
            let v≡w : v ≡ w = ground arith in
            let x≡u : x ≡ u = ground arith in
            let empty : select (is_member w u) xs ≡ [] = rw (v≡w, x≡u) at none_yet in
            rw (same, empty) (omega arith)
      ])

keys-update :
    (w u v x : ℕ) (role : String) (xs : List WorkspaceUser)
    → length (
        select
          (is_member w u)
          (map (λ m. if is_member v x m then record m { role = role } else m) xs))
      ≡ length (select (is_member w u) xs)
keys-update w u v x role [] = refl
keys-update w u v x role (m ∷ xs) = ground (arith, keys-update w u v x role xs)

count-select :
    (p q : WorkspaceUser → Bool) (xs : List WorkspaceUser)
    → length (select q (select p xs)) ≤ length (select q xs)
count-select p q [] = omega arith
count-select p q (x ∷ xs) = ground (arith, count-select p q xs)

IsUnique-Change :
    (ctx : RequestContext) (xs ys : List WorkspaceUser)
    → Change ctx xs ys
    → IsUnique xs
    → IsUnique ys
IsUnique-Change ctx xs ys (kept e) h = rw e h
IsUnique-Change ctx xs ys (invited u role _ _ fresh e) h =
    rw e (IsUnique-insert xs ctx.workspace_id u role fresh h)
IsUnique-Change ctx xs ys (changed u role _ _ e) h =
    rw e (λ w v. rw (keys-update w v ctx.workspace_id u role xs) (h w v))
IsUnique-Change ctx xs ys (removed u m _ _ _ e) h = rw e (λ w v.
    omega
      (arith, h w v, count-select (λ x. not (is_member ctx.workspace_id u x)) (is_member w v) xs))

module _ (strip_lower : String → String) (t : Tables) where
  perform_all-IsUnique :
      (history : History) (s : Session t)
      → IsUnique (rows_of strip_lower t s)
      → IsUnique (rows_of strip_lower t (perform_all strip_lower t history s))
  unfolding perform_all
  perform_all-IsUnique [] s h = h
  perform_all-IsUnique ((ctx, request) ∷ rest) s h =
      perform_all-IsUnique rest _
        (IsUnique-Change ctx _ _ (perform-Change strip_lower t ctx s request) h)

one_or_none-short :
    {Row : Type 0} (xs : List Row) → length xs ≤ 1 → (o : Option Row) × (one_or_none xs ≡ ok o)
one_or_none-short [] h = (none, refl)
one_or_none-short (x ∷ []) h = (some x, refl)
one_or_none-short (x ∷ y ∷ xs) h = absurd (omega arith)

module _ (strip_lower : String → String) (t : Tables) where
  -- If every user has at most one membership row in each workspace, then no sequence of requests
  -- changes that: every later lookup of a member, in any workspace, returns normally and never
  -- raises because of two rows.
  pub lookups_never_ambiguous :
      (history : History) (s : Session t)
      → IsUnique (rows_of strip_lower t s)
      → (w u : ℕ)
      → (found : Option WorkspaceUser) × ((get_member t w u (perform_all strip_lower t history s)).0
          ≡ ok found)
  unfolding get_member
  lookups_never_ambiguous history s h w u =
      rw t.members.fetch_lem
        (one_or_none-short _ (perform_all-IsUnique strip_lower t history s h w u))
