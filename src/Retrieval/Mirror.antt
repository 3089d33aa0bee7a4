-- ===== src/Retrieval/Mirror.antt =====
-- The filter against the rules of notes/permissions.py.
use system_dashnote.Prelude.{
  ℕ, ◌≡◌, refl, Bool, true, false, ◌&&◌, arith, Bool-cases, inl, inr, ◌==◌,
}
use system_dashnote.Prelude.Text.{codes, str, text_eq, text_eq_iff, str-injective}
use system_dashnote.Auth.Models.{RequestContext}
use system_dashnote.Notes.Permissions.{is_staff, can_view_note_fields}
use system_dashnote.Retrieval.Filter.{VectorStore, Filter, build_rbac_filter, payload_of_chunk}

str_eq_text : (m n : ℕ) → text_eq (str m) (str n) ≡ (m == n)
str_eq_text m n = ground (arith, text_eq_iff (str m) (str n), str-injective m n)

private-public : text_eq (codes "private") (codes "public") ≡ false
unfolding text_eq
private-public = refl

public-public : text_eq (codes "public") (codes "public") ≡ true
unfolding text_eq
public-public = refl

module _ (q : VectorStore) (ctx : RequestContext) where
  abbrev pub filter_of : Filter
  filter_of = build_rbac_filter (str ctx.workspace_id) (str ctx.user_id) ctx.role

  matches-member :
      (w a : ℕ) (is_private : Bool)
      → is_staff ctx ≡ false
      → q.matches filter_of (payload_of_chunk (str w) (str a) is_private)
        ≡ (w == ctx.workspace_id && can_view_note_fields ctx is_private a)
  unfolding build_rbac_filter payload_of_chunk can_view_note_fields
  matches-member w a true member =
      rw (member, q.matches_lem, str_eq_text, private-public, str_eq_text) (ground arith)
  matches-member w a false member =
      rw (member, q.matches_lem, str_eq_text, public-public, str_eq_text) (ground arith)

  -- The filter of a caller matches a chunk of a note of workspace w, private or not, that was
  -- indexed under the author a, exactly if w is the caller's workspace and the caller may view a
  -- note of that author and that privacy.
  pub filter_mirrors_permissions :
      (w a : ℕ) (is_private : Bool)
      → q.matches filter_of (payload_of_chunk (str w) (str a) is_private)
        ≡ (w == ctx.workspace_id && can_view_note_fields ctx is_private a)
  unfolding build_rbac_filter payload_of_chunk can_view_note_fields
  filter_mirrors_permissions w a is_private = elim (Bool-cases (is_staff ctx)) [
    | inl staff ↦ rw (staff, q.matches_lem, str_eq_text) (ground arith)
    | inr member ↦ matches-member w a is_private member
  ]
