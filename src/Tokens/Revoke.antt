-- ===== src/Tokens/Revoke.antt =====
-- Revoking one token, and revoking all tokens of a user, which relies on the index.
use system_dashnote.Prelude.{
  ℕ, ◌≡◌, refl, true, false, ◌&&◌, Option, none, some, List, [], ◌∷◌, arith, ◌==◌, ==_iff,
  if◌then◌else◌, inl, inr, Bool-cases,
}
use system_dashnote.Prelude.Text.{Text, text_eq, text_eq_iff, elem}
use system_dashnote.Redis.{
  Redis, Entry, Value, members, string, is_some, members_of, without_member, surviving,
}
use system_dashnote.Tokens.Keys.{refresh_key, refresh_index_key, key_laws}
use system_dashnote.Tokens.Store.{
  TokenStore, base, redis, is_refresh_token_active, revoke_refresh_token, revoke_all_refresh_tokens,
  delete_each, blacklist_access_token,
}
use system_dashnote.Tokens.Refresh.{covers, holds_set, IsIndexed, covers_if, elem-remove_member}

module _ (r : Redis) where
  delete_each-entry :
      (u : ℕ) (ms : List Text) (s : r.Store) (w : ℕ) (k : Text)
      → r.entry (delete_each r u ms s) (refresh_key w k)
        ≡ (if u == w && elem k ms then none else r.entry s (refresh_key w k))
  unfolding delete_each
  delete_each-entry u [] s w k = ground arith
  delete_each-entry u (m ∷ ms) s w k =
      rw (delete_each-entry u ms)
        (simp (r.delete_lem, key_laws) (ground (arith, text_eq_iff m k, text_eq_iff k m)))

  delete_each-index :
      (u : ℕ) (ms : List Text) (s : r.Store) (w : ℕ)
      → r.entry (delete_each r u ms s) (refresh_index_key w) ≡ r.entry s (refresh_index_key w)
  unfolding delete_each
  delete_each-index u [] s w = refl
  delete_each-index u (m ∷ ms) s w = rw (delete_each-index u ms) (simp (r.delete_lem, key_laws))

  pub revoke_all-entry :
      (u : ℕ) (s : r.Store) (w : ℕ) (k : Text)
      → r.entry
          (r.delete (refresh_index_key u) (delete_each r u (r.smembers (refresh_index_key u) s) s))
          (refresh_key w k)
        ≡ (if u == w && elem k (members_of (r.entry s (refresh_index_key u)))
            then none
            else r.entry s (refresh_key w k))
  revoke_all-entry u s w k = simp (r.delete_lem, delete_each-entry, r.smembers_lem, key_laws)

  -- What is covered and not listed in the index is not there.
  pub absent_unless_listed :
      (k : Text) (e i : Option Entry)
      → covers k e i ≡ true
      → elem k (members_of i) ≡ false
      → is_some e ≡ false
  absent_unless_listed k none i h n = refl
  absent_unless_listed k (some e) none h n = cc
  absent_unless_listed k (some e) (some i) h n = ground arith

  -- Revoking all tokens of a user leaves none of them active, and changes no other user's.
  pub is_active-revoke_all :
      (u w : ℕ) (k : Text) (s : r.Store)
      → IsIndexed r (redis s)
      → is_refresh_token_active r w k (revoke_all_refresh_tokens r u (redis s))
        ≡ (if u == w then false else is_refresh_token_active r w k (redis s))
  unfolding is_refresh_token_active revoke_all_refresh_tokens
  is_active-revoke_all u w k s h =
      rw (r.exists_lem, r.exists_lem, revoke_all-entry)
        (elim (Bool-cases (u == w)) [
          | inl same ↦ rw (← (==_iff u w).0 same) (
              ground (
                arith,
                absent_unless_listed k (r.entry s (refresh_key u k))
                    (r.entry s (refresh_index_key u)) ((h u).1 k),
              ))
          | inr other ↦ rw other refl
        ])

  revoke_all-index :
      (u : ℕ) (ms : List Text) (s : r.Store) (w : ℕ)
      → r.entry (r.delete (refresh_index_key u) (delete_each r u ms s)) (refresh_index_key w)
        ≡ (if u == w then none else r.entry s (refresh_index_key w))
  revoke_all-index u ms s w = simp (r.delete_lem, delete_each-index, key_laws)

  covers-all :
      (u w : ℕ) (k : Text) (s : r.Store)
      → IsIndexed r (redis s)
      → covers k
          (if u == w && elem k (members_of (r.entry s (refresh_index_key u)))
            then none
            else r.entry s (refresh_key w k))
          (if u == w then none else r.entry s (refresh_index_key w))
        ≡ true
  covers-all u w k s h = elim (Bool-cases (u == w)) [
    | inl same ↦ rw (← (==_iff u w).0 same) (
        ground (
          arith,
          absent_unless_listed k (r.entry s (refresh_key u k)) (r.entry s (refresh_index_key u))
              ((h u).1 k),
        ))
    | inr other ↦ rw other ((h w).1 k)
  ]

  -- Revoking all tokens of a user keeps the index complete.
  pub revoke_all-IsIndexed :
      (u : ℕ) (st : TokenStore r) → IsIndexed r st → IsIndexed r (revoke_all_refresh_tokens r u st)
  unfolding revoke_all_refresh_tokens
  revoke_all-IsIndexed u base h = tt
  revoke_all-IsIndexed u (redis s) h = λ w. (
    rw revoke_all-index (ground (arith, h w)),
    λ k. rw (revoke_all-entry, revoke_all-index) (covers-all u w k s h),
  )

  revoke-index :
      (u : ℕ) (j : Text) (s : r.Store) (w : ℕ)
      → r.entry
          (r.srem (refresh_index_key u) j (r.delete (refresh_key u j) s))
          (refresh_index_key w)
        ≡ (if u == w
            then without_member j (r.entry s (refresh_index_key w))
            else r.entry s (refresh_index_key w))
  revoke-index u j s w = simp (r.srem_lem, r.delete_lem, key_laws) (ground arith)

  pub revoke-entry :
      (u : ℕ) (j : Text) (s : r.Store) (w : ℕ) (k : Text)
      → r.entry (r.srem (refresh_index_key u) j (r.delete (refresh_key u j) s)) (refresh_key w k)
        ≡ (if u == w && text_eq j k then none else r.entry s (refresh_key w k))
  revoke-entry u j s w k = simp (r.srem_lem, r.delete_lem, key_laws)

  holds_set-without :
      (j : Text) (i : Option Entry) → holds_set i ≡ true → holds_set (without_member j i) ≡ true
  holds_set-without j none h = refl
  holds_set-without j (some i) h = ground arith

  covers-without :
      (j k : Text) (e i : Option Entry)
      → text_eq j k ≡ false
      → covers k e i ≡ true
      → covers k e (without_member j i) ≡ true
  covers-without j k none i n h = refl
  covers-without j k (some e) none n h = cc
  covers-without j k (some e) (some i) n h = go i.value i.deadline h
    where
      go :
          (v : Value) (d : Option ℕ)
          → covers k (some e) (some (record { value = v; deadline = d })) ≡ true
          → covers k (some e) (without_member j (some (record { value = v; deadline = d }))) ≡ true
      go (string x) d p = cc
      go (members ms) d p = ground (arith, elem-remove_member k j ms)

  pub revoke_refresh_token-IsIndexed :
      (u : ℕ) (j : Text) (st : TokenStore r)
      → IsIndexed r st
      → IsIndexed r (revoke_refresh_token r u j st)
  unfolding revoke_refresh_token
  revoke_refresh_token-IsIndexed u j base h = tt
  revoke_refresh_token-IsIndexed u j (redis s) h = λ w. (
    rw revoke-index (ground (arith, h w, holds_set-without j (r.entry s (refresh_index_key w)))),
    λ k.
        rw (revoke-entry, revoke-index)
          (covers_if (u == w) (text_eq j k) k none _ _ _ (λ _ _. refl)
            (λ _ n. covers-without j k _ _ n ((h w).1 k)) (λ _. (h w).1 k)),
  )

  -- Time passes: an index outlasts the tokens that it lists.
  covers-surviving :
      (n : ℕ) (k : Text) (e i : Option Entry)
      → covers k e i ≡ true
      → covers k (surviving n e) (surviving n i) ≡ true
  covers-surviving n k none i h = refl
  covers-surviving n k (some e) none h = cc
  covers-surviving n k (some e) (some i) h = go e.value i.value e.deadline i.deadline h
    where
      go :
          (v v' : Value) (d d' : Option ℕ)
          → covers k
              (some (record { value = v; deadline = d }))
              (some (record { value = v'; deadline = d' }))
            ≡ true
          → covers k
              (surviving n (some (record { value = v; deadline = d })))
              (surviving n (some (record { value = v'; deadline = d' })))
            ≡ true
      go v v' none d' p = ground arith
      go v v' (some d) none p = ground arith
      go v v' (some d) (some d') p = ground arith

  holds_set-surviving :
      (n : ℕ) (i : Option Entry) → holds_set i ≡ true → holds_set (surviving n i) ≡ true
  holds_set-surviving n none h = refl
  holds_set-surviving n (some i) h = ground arith

  -- Waiting keeps the index complete.
  pub wait-IsIndexed :
      (n : ℕ) (s : r.Store) → IsIndexed r (redis s) → IsIndexed r (redis (r.wait n s))
  wait-IsIndexed n s h = λ w. (
    rw r.wait_lem (holds_set-surviving _ _ (h w).0),
    λ k. rw (r.wait_lem _ _ (refresh_key w k), r.wait_lem) (covers-surviving _ k _ _ ((h w).1 k)),
  )

  -- What leaves the keys of refresh tokens alone keeps the index complete.
  pub same-IsIndexed :
      (s s' : r.Store)
      → ((u : ℕ) (j : Text) → r.entry s' (refresh_key u j) ≡ r.entry s (refresh_key u j))
      → ((u : ℕ) → r.entry s' (refresh_index_key u) ≡ r.entry s (refresh_index_key u))
      → IsIndexed r (redis s)
      → IsIndexed r (redis s')
  same-IsIndexed s s' tokens indices h =
      λ w. (rw indices (h w).0, λ k. rw (tokens, indices) ((h w).1 k))

  pub blacklist_access_token-IsIndexed :
      (j : Text) (t : ℕ) (st : TokenStore r)
      → IsIndexed r st
      → IsIndexed r (blacklist_access_token r j t st)
  unfolding blacklist_access_token
  blacklist_access_token-IsIndexed j t base h = tt
  blacklist_access_token-IsIndexed j t (redis s) h =
      same-IsIndexed s _ (λ u k. simp (r.setex_lem, key_laws)) (λ u. simp (r.setex_lem, key_laws)) h
