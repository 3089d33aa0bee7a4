-- ===== src/Notes/Cache.antt =====
-- core/redis/cache.py: WorkspaceRedisCache, the part that the notes use. `none` stands for the
-- cache without Redis. `dumps` and `loads` are those of Python's json, for the values cached here.
use system_dashnote.Prelude.{ℕ, Option, none, some, ◌∷◌, ◌++◌, max, if◌then◌else◌}
use system_dashnote.Prelude.Text.{Text, codes, str}
use system_dashnote.Redis.{Redis}
use system_dashnote.Auth.Models.{RequestContext}
use system_dashnote.Notes.Permissions.{is_staff}

unfoldable pub notes_list_variant : RequestContext → Text
notes_list_variant ctx = if is_staff ctx then codes "staff" else codes "u" ++ str ctx.user_id

-- `f"app:cache:w:{workspace_id}:notes:list:{generation}:{self.notes_list_variant()}"`
unfoldable pub key_notes_list : RequestContext → Text → Text
key_notes_list ctx generation =
    codes "app:cache:w:"
    ++ (str ctx.workspace_id
        ++ (codes ":notes:list:" ++ (generation ++ (58 ∷ notes_list_variant ctx))))

-- `f"app:cache:w:{workspace_id}:notes:one:{generation}:u{user_id}:n{note_id}"`
unfoldable pub key_note_detail : RequestContext → Text → ℕ → Text
key_note_detail ctx generation note_id =
    codes "app:cache:w:"
    ++ (str ctx.workspace_id
        ++ (codes ":notes:one:"
            ++ (generation ++ (codes ":u" ++ (str ctx.user_id ++ (codes ":n" ++ str note_id))))))

-- `f"app:cache:gen:{domain}:{workspace_id}"`
unfoldable pub gen_key : Text → RequestContext → Text
gen_key domain ctx = codes "app:cache:gen:" ++ (domain ++ (58 ∷ str ctx.workspace_id))

abbrev or_zero : Option Text → Text
or_zero none = codes "0"
or_zero (some raw) = raw

module _ (c : Redis) where
  unfoldable pub read_generation : Text → RequestContext → Option c.Store → Text
  read_generation domain ctx none = codes "0"
  read_generation domain ctx (some s) = or_zero (c.get (gen_key domain ctx) s)

  unfoldable pub bump_generation : Text → RequestContext → Option c.Store → Option c.Store
  bump_generation domain ctx none = none
  bump_generation domain ctx (some s) = some (c.incr (gen_key domain ctx) s)

  module _ {A : Type 0} (dumps : A → Text) (loads : Text → Option A) where
    abbrev loaded : Option Text → Option A
    loaded none = none
    loaded (some raw) = loads raw

    unfoldable pub get_json : Text → Option c.Store → Option A
    get_json key none = none
    get_json key (some s) = loaded (c.get key s)

    -- with the default time to live, which is at least one second
    unfoldable pub set_json : ℕ → Text → A → Option c.Store → Option c.Store
    set_json default_ttl key value none = none
    set_json default_ttl key value (some s) =
        some (c.setex key (max 1 (max 1 default_ttl)) (dumps value) s)
