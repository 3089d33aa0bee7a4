-- ===== src/Notes/Permissions.antt =====
-- notes/permissions.py.
use system_dashnote.Prelude.{ℕ, Bool, true, not, [], ◌∷◌, str_eq, ◌==◌, any_of, if◌then◌else◌}
use system_dashnote.Auth.Models.{RequestContext}
use system_dashnote.Notes.Models.{Note}

-- `ctx.role in {"owner", "admin"}`
abbrev pub is_staff : RequestContext → Bool
is_staff ctx = any_of (str_eq ctx.role) ("owner" ∷ "admin" ∷ [])

unfoldable pub can_manage_note : RequestContext → Note → Bool
can_manage_note ctx note = if is_staff ctx then true else note.created_by == ctx.user_id

unfoldable pub can_view_note_fields : RequestContext → Bool → ℕ → Bool
can_view_note_fields ctx is_private created_by =
    if is_staff ctx then true else if not is_private then true else created_by == ctx.user_id

unfoldable pub can_view_note : RequestContext → Note → Bool
unfolding can_view_note_fields
can_view_note ctx note = can_view_note_fields ctx note.is_private note.created_by
