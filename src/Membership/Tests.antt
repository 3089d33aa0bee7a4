-- ===== src/Membership/Tests.antt =====
-- Tests of membership/ on concrete tables, and the theorems at those.
use system_dashnote.Prelude.{ℕ, ◌≡◌, refl, none, String, [], ◌∷◌, arith, Option, select}
use system_dashnote.Prelude.Exec.{ok}
use system_dashnote.Database.Memory.{table}
use system_dashnote.Auth.Models.{User, WorkspaceUser, RequestContext}
use system_dashnote.Membership.Repository.{
  Tables, Session, get_member, get_user_by_email, add_member,
}
use system_dashnote.Membership.Changes.{invite, delete_member, rows_of}
use system_dashnote.Membership.Tenancy.{History, perform_all, inside, privileged, OwnersSatisfy}
use system_dashnote.Membership.Tenancy
use system_dashnote.Membership.Unique.{IsUnique}
use system_dashnote.Membership.Unique

abbrev tables : Tables
tables = record { users = table User; members = table WorkspaceUser }

abbrev as_is : String → String
as_is x = x

abbrev user : ℕ → String → User
user i email = record {
  id = i;
  email = email;
  password_hash = [];
  inbound_default_workspace_id = none;
}

abbrev member : ℕ → ℕ → String → WorkspaceUser
member u w role = record { user_id = u; tenant_id = w; role = role }

abbrev start : Session tables
start = record {
  users = record {
    rows = user 1 "a@x.org" ∷ user 2 "b@x.org" ∷ user 3 "c@x.org" ∷ [];
    next_id = 4;
  };
  members = record {
    rows = member 1 10 "owner" ∷ member 2 10 "admin" ∷ member 1 20 "owner" ∷ [];
    next_id = 1;
  };
}

abbrev caller : ℕ → ℕ → String → RequestContext
caller u w role = record { user_id = u; workspace_id = w; role = role }

-- Everything that a history computes through.
program : Unit {0}
unfolding perform_all
program = tt

-- The admin of 10 invites a member, tries to invite an admin and to remove the owner.
abbrev admin_history : History
admin_history =
    (caller 2 10 "admin", invite "c@x.org" "member")
    ∷ (caller 2 10 "admin", invite "c@x.org" "admin")
    ∷ (caller 2 10 "admin", delete_member 1)
    ∷ []

admin_history_runs :
    rows_of as_is tables (perform_all as_is tables admin_history start)
    ≡ member 1 10 "owner" ∷ member 2 10 "admin" ∷ member 1 20 "owner" ∷ member 3 10 "member" ∷ []
unfolding program get_member get_user_by_email add_member
admin_history_runs = refl

requests_stay_inside_example :
    inside 20 (rows_of as_is tables (perform_all as_is tables admin_history start))
    ≡ inside 20 (rows_of as_is tables start)
requests_stay_inside_example =
    Tenancy.requests_stay_inside as_is tables 20 admin_history start
      (omega arith, (omega arith, (omega arith, tt)))

owners_never_gained_example :
    OwnersSatisfy
      (λ m. m.user_id ≡ 1)
      (rows_of as_is tables (perform_all as_is tables admin_history start))
owners_never_gained_example =
    Tenancy.owners_never_gained as_is tables (λ m. m.user_id ≡ 1) admin_history start
      (λ _. refl, (λ e. absurd (cc), (λ _. refl, tt)))

admins_keep_privileged_example :
    select privileged (rows_of as_is tables (perform_all as_is tables admin_history start))
    ≡ select privileged (rows_of as_is tables start)
admins_keep_privileged_example =
    Tenancy.admins_keep_privileged as_is tables admin_history start (refl, (refl, (refl, tt)))

start-IsUnique : IsUnique (rows_of as_is tables start)
start-IsUnique w u = ground arith

lookups_never_ambiguous_example :
    (found : Option WorkspaceUser) × ((get_member tables 10 3
        (perform_all as_is tables admin_history start)).0
      ≡ ok found)
lookups_never_ambiguous_example =
    Unique.lookups_never_ambiguous as_is tables admin_history start start-IsUnique 10 3
