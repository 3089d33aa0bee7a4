-- ===== src/Tokens/Represents.antt =====
-- When a state of Redis represents the sessions of Tokens/Sessions.antt.
use system_dashnote.Prelude.{
  ℕ, ◌+◌, ◌≡◌, refl, false, Option, none, some, arith, leb, if◌then◌else◌,
}
use system_dashnote.Prelude.Text.{Text}
use system_dashnote.Redis.{Redis, Entry, is_some, surviving}
use system_dashnote.Tokens.Keys.{access_key, refresh_key}
use system_dashnote.Tokens.Sessions.{Sessions, is_pending}

-- When an entry ends, for one that is there.
abbrev pub ending : Option Entry → Option (Option ℕ)
ending none = none
ending (some e) = some e.deadline

-- What Redis still has of a deadline.
abbrev pub kept : ℕ → Option ℕ → Option (Option ℕ)
kept now none = none
kept now (some d) = if leb d now then none else some (some d)

pub is_some-kept :
    (now : ℕ) (d : Option ℕ) (e : Option Entry)
    → ending e ≡ kept now d
    → is_some e ≡ is_pending now d
is_some-kept now none none h = refl
is_some-kept now none (some e) h = cc
is_some-kept now (some d) none h = ground arith
is_some-kept now (some d) (some e) h = ground arith

pub ending-surviving :
    (now n : ℕ) (d : Option ℕ) (e : Option Entry)
    → ending e ≡ kept now d
    → ending (surviving (now + n) e) ≡ kept (now + n) d
ending-surviving now n none none h = refl
ending-surviving now n none (some e) h = cc
ending-surviving now n (some d) none h = ground arith
ending-surviving now n (some d) (some e) h = go e.deadline h
  where
    go :
        (x : Option ℕ)
        → some x ≡ kept now (some d)
        → ending (surviving (now + n) (some (record e { deadline = x }))) ≡ kept (now + n) (some d)
    go none p = ground arith
    go (some x) p = ground arith

pub ending-absent : (e : Option Entry) → is_some e ≡ false → ending e ≡ none
ending-absent none h = refl
ending-absent (some e) h = cc

module _ (r : Redis) where
  -- A state of Redis represents sessions: its clock is theirs, and it has of each deadline what has
  -- not passed.
  abbrev pub Represents : r.Store → Sessions → Type 0
  Represents s a =
      (r.now s ≡ a.clock)
      × ((u : ℕ) (j : Text) → ending (r.entry s (refresh_key u j)) ≡ kept a.clock (a.ends u j))
      × ((j : Text) → ending (r.entry s (access_key j)) ≡ kept a.clock (a.blocked j))

  -- What leaves the clock and the keys of tokens alone represents the same sessions.
  pub same-Represents :
      (s s' : r.Store) (a : Sessions)
      → r.now s' ≡ r.now s
      → ((u : ℕ) (j : Text) → r.entry s' (refresh_key u j) ≡ r.entry s (refresh_key u j))
      → ((j : Text) → r.entry s' (access_key j) ≡ r.entry s (access_key j))
      → Represents s a
      → Represents s' a
  same-Represents s s' a now tokens accesses h =
      (rw now h.0, λ u j. rw tokens (h.1 u j), λ j. rw accesses (h.2 j))
