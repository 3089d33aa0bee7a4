-- ===== src/Auth/Service.antt =====
-- auth/service.py: accounts and passwords.
use system_dashnote.Prelude.{
  ℕ, ◌*◌, Bool, not, Option, none, some, String, List, str_eq, ltb, ◌==◌, if◌then◌else◌, length,
}
use system_dashnote.Prelude.Text.{Text, text_eq}
use system_dashnote.Prelude.Exec.{
  Exec, value_error, invalid_current_password, password_policy, Result, ok, err, pure, gets, modify,
  raise, raise_if, ◌>>=◌, ◌>>◌,
}
use system_dashnote.Database.{one_or_none}
use system_dashnote.Tokens.Store.{store_password_reset_token, consume_password_reset_token}
use system_dashnote.Auth.Models.{User, WorkspaceUser, Workspace}
use system_dashnote.Auth.Platform.{Platform}
use system_dashnote.Auth.Security.{World, draw, hash_password, verify_password}

module _ (p : Platform) where
  unfoldable pub hash_reset_token : Text → Text
  hash_reset_token raw_token = p.sha256_hex raw_token

  -- `select(User).where(User.email == email)` and `scalar_one_or_none`
  unfoldable pub user_by_email : String → Exec (World p) (Option User)
  user_by_email email w = (one_or_none (p.users.fetch (λ u. str_eq u.email email) w.users), w)

  unfoldable pub get_user_by_id : ℕ → Exec (World p) (Option User)
  get_user_by_id user_id w = (one_or_none (p.users.fetch (λ u. u.id == user_id) w.users), w)

  -- `user.workspaces`
  unfoldable pub workspaces_of : User → Exec (World p) (List WorkspaceUser)
  workspaces_of user w = (ok (p.memberships.fetch (λ m. m.user_id == user.id) w.memberships), w)

  -- Creates a user, a workspace and a membership in one transaction.
  unfoldable pub register_user :
      String → Text → String → Exec (World p) (User × Workspace × WorkspaceUser)
  unfolding hash_password
  register_user email password workspace_name = do
    hashed ← hash_password p password
    user_id ← gets (λ w. p.users.next_id w.users)
    workspace_id ← gets (λ w. p.workspaces.next_id w.workspaces)
    let user : User = record {
      id = user_id;
      email = email;
      password_hash = hashed;
      inbound_default_workspace_id = none;
    }
    let workspace : Workspace = record { id = workspace_id; name = workspace_name }
    let membership : WorkspaceUser = record {
      user_id = user_id;
      tenant_id = workspace_id;
      role = "owner";
    }
    modify (λ w. record w {
      users = p.users.insert user w.users;
      workspaces = p.workspaces.insert workspace w.workspaces;
      memberships = p.memberships.insert membership w.memberships;
    })
    pure (user, workspace, membership)

  abbrev checked : Text → Option User → Option User
  checked password none = none
  checked password (some user) =
      if verify_password p password user.password_hash then some user else none

  unfoldable pub authenticate_user : String → Text → Exec (World p) (Option User)
  unfolding user_by_email
  authenticate_user email password = do user ← user_by_email email; pure (checked password user)

  abbrev policy_on_value_error : {A : Type 0} → Result A → Result A
  policy_on_value_error (ok a) = ok a
  policy_on_value_error (err value_error) =
      err (password_policy "Password must be <= 72 bytes for bcrypt")
  policy_on_value_error (err e) = err e

  unfoldable pub new_password_hash : Text → Exec (World p) Text
  unfolding hash_password
  new_password_hash new_password w =
      if ltb (length new_password) 8
      then (err (password_policy "Password must be at least 8 characters"), w)
      else let (r, w') = hash_password p new_password w in (policy_on_value_error r, w')

  -- `user.password_hash = …; commit()`
  abbrev pub set_password_hash : ℕ → Text → Exec (World p) Unit
  set_password_hash user_id hashed = modify (λ w. record w {
    users =
        p.users.update (λ u. u.id == user_id) (λ u. record u { password_hash = hashed }) w.users;
  })

  abbrev pub or_invalid : Option User → Exec (World p) User
  or_invalid none = raise invalid_current_password
  or_invalid (some user) = pure user

  unfoldable pub change_password : ℕ → Text → Text → Exec (World p) User
  change_password user_id current_password new_password = do
    found ← get_user_by_id user_id
    user ← or_invalid found
    raise_if (not (verify_password p current_password user.password_hash)) invalid_current_password
    raise_if (text_eq current_password new_password)
        (password_policy "New password must be different")
    hashed ← new_password_hash new_password
    set_password_hash user.id hashed
    loaded ← get_user_by_id user.id
    or_invalid loaded

  abbrev store_reset : ℕ → Text → Exec (World p) Bool
  store_reset user_id digest w =
      let (stored, store') = store_password_reset_token p.client user_id digest (30 * 60) w.store in
      (ok stored, record w { store = store' })

  abbrev request_for : Option User → Exec (World p) (Option Text)
  request_for none = pure none
  request_for (some user) = do
    n ← draw p
    let raw : Text = p.token_urlsafe n
    stored ← store_reset user.id (p.sha256_hex raw)
    pure (if stored then some raw else none)

  unfoldable pub request_password_reset : String → Exec (World p) (Option Text)
  unfolding user_by_email
  request_password_reset email = do user ← user_by_email email; request_for user

  abbrev consume_reset : Text → Exec (World p) (Option ℕ)
  consume_reset digest w =
      let (user, store') = consume_password_reset_token p.client digest w.store in
      (ok user, record w { store = store' })

  abbrev or_bad_token : {A : Type 0} → Option A → Exec (World p) A
  or_bad_token none = raise (password_policy "Invalid or expired reset token")
  or_bad_token (some a) = pure a

  unfoldable pub reset_password_with_token : Text → Text → Exec (World p) User
  unfolding get_user_by_id new_password_hash hash_reset_token
  reset_password_with_token raw_token new_password = do
    new_hash ← new_password_hash new_password
    consumed ← consume_reset (hash_reset_token raw_token)
    user_id ← or_bad_token consumed
    found ← get_user_by_id user_id
    user ← or_bad_token found
    set_password_hash user.id new_hash
    pure (record user { password_hash = new_hash })
