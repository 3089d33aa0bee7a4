-- ===== src/Tokens/Sessions.antt =====
-- What the token store promises, without Redis: a clock, and when each refresh token and each entry
-- of the blacklist ends. There are no keys and no index, and nothing expires: a token that has ended
-- is told from the clock when it is asked for.
use system_dashnote.Prelude.{
  ℕ, ◌+◌, Bool, true, false, ◌&&◌, Option, none, some, List, [], ◌∷◌, leb, ◌==◌, if◌then◌else◌, max,
}
use system_dashnote.Prelude.Text.{Text, text_eq}
use system_dashnote.Tokens.Trace.{
  Call, blacklist, store_refresh, revoke, revoke_all, store_reset, consume_reset, wait,
}

pub record Sessions : Type 0 where
  pub clock : ℕ
  -- when the refresh token of a user ends, if it was stored and not revoked since
  pub ends : ℕ → Text → Option ℕ
  -- until when an access token is blacklisted
  pub blocked : Text → Option ℕ

-- No token was stored or blacklisted.
abbrev pub no_sessions : ℕ → Sessions
no_sessions now = record { clock = now; ends = λ u j. none; blocked = λ j. none }

-- A deadline that has not passed.
abbrev pub is_pending : ℕ → Option ℕ → Bool
is_pending now none = false
is_pending now (some d) = if leb d now then false else true

abbrev pub is_active : ℕ → Text → Sessions → Bool
is_active u j a = is_pending a.clock (a.ends u j)

abbrev pub is_blocked : Text → Sessions → Bool
is_blocked j a = is_pending a.clock (a.blocked j)

-- What a call means for the sessions. A token lives for at least a second.
unfoldable pub specify : Call → Sessions → Sessions
specify (blacklist j t) a = record a {
  blocked = λ k. if text_eq j k then some (a.clock + max 1 t) else a.blocked k;
}
specify (store_refresh u j t) a = record a {
  ends = λ w k. if u == w && text_eq j k then some (a.clock + max 1 t) else a.ends w k;
}
specify (revoke u j) a = record a {
  ends = λ w k. if u == w && text_eq j k then none else a.ends w k;
}
specify (revoke_all u) a = record a { ends = λ w k. if u == w then none else a.ends w k }
specify (store_reset u d t) a = a
specify (consume_reset d) a = a
specify (wait n) a = record a { clock = a.clock + n }

unfoldable pub specify_all : List Call → Sessions → Sessions
unfolding specify
specify_all [] a = a
specify_all (c ∷ calls) a = specify_all calls (specify c a)
