-- ===== src/Tokens/Refresh.antt =====
-- The life of a refresh token in the store, and the invariant that the index of a user lists every
-- token that is active, for at least as long.
use system_dashnote.Prelude.{
  ℕ, ◌+◌, ◌≡◌, refl, Bool, true, false, ◌&&◌, Option, none, some, List, [], ◌∷◌, arith, leb, ◌==◌,
  if◌then◌else◌, max, inl, inr, Bool-cases, ==_refl, ==_iff,
}
use system_dashnote.Prelude.Text.{Text, text_eq, text_eq_iff, text_eq_refl, elem, codes}
use system_dashnote.Redis.{
  Redis, Entry, Value, members, string, as_members, insert_member, remove_member, with_member,
  expiring, remaining,
}
use system_dashnote.Tokens.Keys.{refresh_key, refresh_index_key, key_laws}
use system_dashnote.Tokens.Store.{
  TokenStore, base, redis, store_refresh_token, is_refresh_token_active, revoke_refresh_token,
  store_refresh, longer,
}

module _ (r : Redis) where
  pub store_refresh-entry :
      (u : ℕ) (j : Text) (t : ℕ) (s : r.Store) (w : ℕ) (k : Text)
      → r.entry (store_refresh r u j t s) (refresh_key w k) ≡ (
          if u == w && text_eq j k
          then some (record { value = string (codes "1"); deadline = some (r.now s + t) })
          else r.entry s (refresh_key w k))
  unfolding store_refresh
  store_refresh-entry u j t s w k = simp (r.expire_lem, r.sadd_lem, r.setex_lem, key_laws)

  -- The deadline that a stored token gives to the index of its user.
  abbrev index_deadline : ℕ → ℕ → Option Entry → ℕ
  index_deadline now t e = now + longer t (remaining now e)

  store_refresh-index :
      (u : ℕ) (j : Text) (t : ℕ) (s : r.Store) (w : ℕ)
      → r.entry (store_refresh r u j t s) (refresh_index_key w) ≡ (
          if u == w
          then expiring
              (index_deadline (r.now s) t (with_member j (r.entry s (refresh_index_key u))))
              (with_member j (r.entry s (refresh_index_key u)))
          else r.entry s (refresh_index_key w))
  unfolding store_refresh
  store_refresh-index u j t s w =
      simp
        (
          r.expire_lem, r.ttl_lem, r.now-sadd, r.now-setex, r.sadd_lem, r.setex_lem, key_laws,
          ==_refl,
        )
        (ground arith)

-- `later d d'`: an entry with deadline `d'` outlasts one with deadline `d`.
abbrev pub outlasts : Option ℕ → Option ℕ → Bool
outlasts none d = false
outlasts (some a) none = false
outlasts (some a) (some b) = leb a b

-- If the entry of `jti` is there, so is the index, which lists it and outlasts it.
abbrev pub covers : Text → Option Entry → Option Entry → Bool
covers jti none i = true
covers jti (some e) none = false
covers jti (some e) (some i) = elem jti (as_members i.value) && outlasts e.deadline i.deadline

-- A key holds no plain text: it is absent, or a set.
abbrev pub holds_set : Option Entry → Bool
holds_set none = true
holds_set (some e) = elim e.value [ string t ↦ false | members ms ↦ true ]

-- The invariant: what stands at the index of a user is a set, which covers every token of the user.
abbrev pub IsIndexed : (r : Redis) → TokenStore r → Type 0
IsIndexed r base = Unit
IsIndexed r (redis s) =
    (u : ℕ)
    → (holds_set (r.entry s (refresh_index_key u)) ≡ true)
      × ((j : Text)
          → covers j (r.entry s (refresh_key u j)) (r.entry s (refresh_index_key u)) ≡ true)

elem-insert_member :
    (j m : Text) (ms : List Text)
    → elem j (insert_member m ms) ≡ (if text_eq m j then true else elem j ms)
elem-insert_member j m ms = elim (Bool-cases (elem m ms)) [
  | inl old ↦ rw old (ground (arith, text_eq_iff m j))
  | inr new ↦ rw new (ground (arith, text_eq_iff m j, text_eq_iff j m))
]

pub elem-remove_member :
    (j m : Text) (ms : List Text)
    → elem j (remove_member m ms) ≡ (if text_eq m j then false else elem j ms)
elem-remove_member j m [] = ground arith
elem-remove_member j m (x ∷ ms) =
    ground (arith, text_eq_iff m x, text_eq_iff j x, text_eq_iff m j, elem-remove_member j m ms)

-- The index of a user after a token has been stored, from the index before.
abbrev indexed : Text → ℕ → ℕ → Option Entry → Option Entry
indexed j now t i = expiring (now + longer t (remaining now (with_member j i))) (with_member j i)

stored_set : (j : Text) (now t : ℕ) (i : Option Entry) → holds_set (indexed j now t i) ≡ holds_set i
stored_set j now t none = refl
stored_set j now t (some e) = go e.value e.deadline
  where
    go :
        (v : Value) (d : Option ℕ)
        → holds_set (indexed j now t (some (record { value = v; deadline = d })))
          ≡ holds_set (some (record { value = v; deadline = d }))
    go (string x) d = refl
    go (members ms) d = refl

-- A token that is stored is covered.
covers-stored :
    (j : Text) (now t : ℕ) (i : Option Entry) (v : Text)
    → holds_set i ≡ true
    → covers j (some (record { value = string v; deadline = some (now + t) })) (indexed j now t i)
      ≡ true
covers-stored j now t none v h = ground (arith, text_eq_refl j)
covers-stored j now t (some e) v h = go e.value e.deadline h
  where
    go :
        (w : Value) (d : Option ℕ)
        → holds_set (some (record { value = w; deadline = d })) ≡ true
        → covers j
            (some (record { value = string v; deadline = some (now + t) }))
            (indexed j now t (some (record { value = w; deadline = d })))
          ≡ true
    go (string x) d p = cc
    go (members ms) none p = ground (arith, elem-insert_member j j ms, text_eq_refl j)
    go (members ms) (some d) p = ground (arith, elem-insert_member j j ms, text_eq_refl j)

-- Another token of the user stays covered.
covers-other :
    (j k : Text) (now t : ℕ) (e i : Option Entry)
    → covers k e i ≡ true
    → covers k e (indexed j now t i) ≡ true
covers-other j k now t none i h = refl
covers-other j k now t (some e) none h = cc
covers-other j k now t (some e) (some i) h = go i.value i.deadline h
  where
    go :
        (w : Value) (d : Option ℕ)
        → covers k (some e) (some (record { value = w; deadline = d })) ≡ true
        → covers k (some e) (indexed j now t (some (record { value = w; deadline = d }))) ≡ true
    go (string x) d p = cc
    go (members ms) none p = ground (arith, elem-insert_member k j ms, text_eq_iff j k)
    go (members ms) (some d) p = ground (arith, elem-insert_member k j ms, text_eq_iff j k)

pub covers_if :
    (b c : Bool) (k : Text) (e e' i i' : Option Entry)
    → (b ≡ true → c ≡ true → covers k e i ≡ true)
    → (b ≡ true → c ≡ false → covers k e' i ≡ true)
    → (b ≡ false → covers k e' i' ≡ true)
    → covers k (if b && c then e else e') (if b then i else i') ≡ true
covers_if true true k e e' i i' p q n = p refl refl
covers_if true false k e e' i i' p q n = q refl refl
covers_if false c k e e' i i' p q n = n refl

-- Storing a token keeps the index complete.
pub store_refresh_token-IsIndexed :
    (r : Redis) (u : ℕ) (j : Text) (t : ℕ) (st : TokenStore r)
    → IsIndexed r st
    → IsIndexed r (store_refresh_token r u j t st)
unfolding store_refresh_token
store_refresh_token-IsIndexed r u j t base h = tt
store_refresh_token-IsIndexed r u j t (redis s) h = λ w. (
  rw store_refresh-index
      (ground (arith, h w, stored_set j (r.now s) (max 1 t) (r.entry s (refresh_index_key u)))),
  λ k.
      rw (store_refresh-entry, store_refresh-index)
        (covers_if (u == w) (text_eq j k) k _ _ _ _
          (λ _ c.
            rw (← (text_eq_iff j k).0 c)
              (covers-stored j (r.now s) (max 1 t) _ (codes "1") (h u).0))
          (λ b _. rw (← (==_iff u w).0 b) (covers-other j k (r.now s) (max 1 t) _ _ ((h u).1 k)))
          (λ _. (h w).1 k)),
)

-- A token that was stored is active, and storing it changes the state of no other token.
pub is_active-store_refresh_token :
    (r : Redis) (u w : ℕ) (j k : Text) (t : ℕ) (s : r.Store)
    → is_refresh_token_active r w k (store_refresh_token r u j t (redis s))
      ≡ (if u == w && text_eq j k then true else is_refresh_token_active r w k (redis s))
unfolding is_refresh_token_active store_refresh_token
is_active-store_refresh_token r u w j k t s =
    rw (r.exists_lem, r.exists_lem, store_refresh-entry) (ground arith)

-- A token that was revoked is not active, and revoking it changes the state of no other token.
pub is_active-revoke_refresh_token :
    (r : Redis) (u w : ℕ) (j k : Text) (s : r.Store)
    → is_refresh_token_active r w k (revoke_refresh_token r u j (redis s))
      ≡ (if u == w && text_eq j k then false else is_refresh_token_active r w k (redis s))
unfolding is_refresh_token_active revoke_refresh_token
is_active-revoke_refresh_token r u w j k s =
    simp (r.exists_lem, r.srem_lem, r.delete_lem, key_laws) (ground arith)
