-- ===== src/Tokens/Steps.antt =====
-- What the commands of each method of the token store do to the sessions that Redis represents.
use system_dashnote.Prelude.{
  ℕ, ◌+◌, ◌≡◌, refl, false, ◌&&◌, Option, none, some, List, [], ◌∷◌, arith, ◌==◌, ==_iff, ==_refl,
  if◌then◌else◌, max, inl, inr, Bool-cases,
}
use system_dashnote.Prelude.Text.{Text, text_eq, elem, codes, str}
use system_dashnote.Redis.{Redis, members_of}
use system_dashnote.Tokens.Keys.{
  access_key, refresh_key, refresh_index_key, reset_key, reset_user_key, key_laws,
  reset-refresh_key_eq, reset_user-refresh_key_eq,
}
use system_dashnote.Tokens.Store.{
  redis, store_refresh, delete_each, drop_old, drop_pointer, consume,
}
use system_dashnote.Tokens.Refresh.{IsIndexed, store_refresh-entry}
use system_dashnote.Tokens.Revoke.{revoke-entry, revoke_all-entry, absent_unless_listed}
use system_dashnote.Tokens.Reset.{drop_old-entry, consume-entry}
use system_dashnote.Tokens.Trace.{Call}
use system_dashnote.Tokens.Sessions.{Sessions, specify}
use system_dashnote.Tokens.Represents.{
  ending, kept, ending-surviving, ending-absent, Represents, same-Represents,
}

module _ (r : Redis) where
  pub wait-Represents :
      (n : ℕ) (s : r.Store) (a : Sessions)
      → Represents r s a
      → Represents r (r.wait n s) (specify (Call.wait n) a)
  unfolding specify
  wait-Represents n s a h = (
    rw (r.now-wait, h.0) refl,
    λ u j. rw (r.wait_lem, h.0) (ending-surviving a.clock n (a.ends u j) _ (h.1 u j)),
    λ j. rw (r.wait_lem, h.0) (ending-surviving a.clock n (a.blocked j) _ (h.2 j)),
  )

  -- A deadline that was just set has not passed.
  kept-new : (now t : ℕ) → some (some (now + max 1 t)) ≡ kept now (some (now + max 1 t))
  kept-new now t = ground arith

  pub blacklist-Represents :
      (j : Text) (t : ℕ) (s : r.Store) (a : Sessions)
      → Represents r s a
      → Represents r
          (r.setex (access_key j) (max 1 t) (codes "1") s)
          (specify (Call.blacklist j t) a)
  unfolding specify
  blacklist-Represents j t s a h = (
    rw (r.now-setex, h.0) refl,
    λ u k. simp (r.setex_lem, key_laws) (h.1 u k),
    λ k.
        simp (r.setex_lem, key_laws, h.0)
          (elim (Bool-cases (text_eq j k)) [
            | inl same ↦ rw same (kept-new a.clock t)
            | inr other ↦ rw other (h.2 k)
          ]),
  )

  pub store-Represents :
      (u : ℕ) (j : Text) (t : ℕ) (s : r.Store) (a : Sessions)
      → Represents r s a
      → Represents r (store_refresh r u j (max 1 t) s) (specify (Call.store_refresh u j t) a)
  unfolding specify
  store-Represents u j t s a h = (
    unfold store_refresh in rw (r.now-expire, r.now-sadd, r.now-setex) h.0,
    λ w k.
        rw (store_refresh-entry, h.0)
          (elim (Bool-cases (u == w && text_eq j k)) [
            | inl same ↦ rw same (kept-new a.clock t)
            | inr other ↦ rw other (h.1 w k)
          ]),
    λ k. unfold store_refresh in simp (r.expire_lem, r.sadd_lem, r.setex_lem, key_laws) (h.2 k),
  )

  pub revoke-Represents :
      (u : ℕ) (j : Text) (s : r.Store) (a : Sessions)
      → Represents r s a
      → Represents r
          (r.srem (refresh_index_key u) j (r.delete (refresh_key u j) s))
          (specify (Call.revoke u j) a)
  unfolding specify
  revoke-Represents u j s a h = (
    rw (r.now-srem, r.now-delete) h.0,
    λ w k. rw revoke-entry (elim (Bool-cases (u == w && text_eq j k)) [
      | inl same ↦ rw same refl
      | inr other ↦ rw other (h.1 w k)
    ]),
    λ k. simp (r.srem_lem, r.delete_lem, key_laws) (h.2 k),
  )

  now-delete_each : (u : ℕ) (ms : List Text) (s : r.Store) → r.now (delete_each r u ms s) ≡ r.now s
  unfolding delete_each
  now-delete_each u [] s = refl
  now-delete_each u (m ∷ ms) s = rw (now-delete_each u ms, r.now-delete) refl

  delete_each-access :
      (u : ℕ) (ms : List Text) (s : r.Store) (k : Text)
      → r.entry (delete_each r u ms s) (access_key k) ≡ r.entry s (access_key k)
  unfolding delete_each
  delete_each-access u [] s k = refl
  delete_each-access u (m ∷ ms) s k = rw (delete_each-access u ms) (simp (r.delete_lem, key_laws))

  revoke_all-ending :
      (u w : ℕ) (k : Text) (s : r.Store) (a : Sessions)
      → IsIndexed r (redis s)
      → Represents r s a
      → ending (
          if u == w && elem k (members_of (r.entry s (refresh_index_key u)))
          then none
          else r.entry s (refresh_key w k))
        ≡ kept a.clock (if u == w then none else a.ends w k)
  revoke_all-ending u w k s a i h = elim (Bool-cases (u == w)) [
    | inl same ↦
        rw (← (==_iff u w).0 same, ==_refl u)
          (elim (Bool-cases (elem k (members_of (r.entry s (refresh_index_key u))))) [
            | inl listed ↦ rw listed refl
            | inr unlisted ↦
                rw unlisted (ending-absent _ (absent_unless_listed r k _ _ ((i u).1 k) unlisted))
          ])
    | inr other ↦ rw other (h.1 w k)
  ]

  pub revoke_all-Represents :
      (u : ℕ) (s : r.Store) (a : Sessions)
      → IsIndexed r (redis s)
      → Represents r s a
      → Represents r
          (r.delete (refresh_index_key u) (delete_each r u (r.smembers (refresh_index_key u) s) s))
          (specify (Call.revoke_all u) a)
  unfolding specify
  revoke_all-Represents u s a i h = (
    rw (r.now-delete, now-delete_each) h.0,
    λ w k. rw revoke_all-entry (revoke_all-ending u w k s a i h),
    λ k. simp (r.delete_lem, delete_each-access, key_laws) (h.2 k),
  )

  now-drop_old : (o : Option Text) (s : r.Store) → r.now (drop_old r o s) ≡ r.now s
  unfolding drop_old
  now-drop_old none s = refl
  now-drop_old (some []) s = refl
  now-drop_old (some (c ∷ old)) s = r.now-delete _ s

  reset-access_key_eq : (d j : Text) → text_eq (reset_key d) (access_key j) ≡ false
  unfolding reset_key access_key text_eq
  reset-access_key_eq d j = refl

  reset_user-access_key_eq : (u : ℕ) (j : Text) → text_eq (reset_user_key u) (access_key j) ≡ false
  unfolding reset_user_key access_key text_eq
  reset_user-access_key_eq u j = refl

  now-drop_pointer :
      (p : Option Text) (d : Text) (u : ℕ) (s : r.Store) → r.now (drop_pointer r p d u s) ≡ r.now s
  unfolding drop_pointer
  now-drop_pointer none d u s = refl
  now-drop_pointer (some p) d u s = ground (arith, r.now-delete (reset_user_key u) s)

  now-consume : (o : Option Text) (d : Text) (s : r.Store) → r.now (consume r o d s).1 ≡ r.now s
  unfolding consume
  now-consume none d s = refl
  now-consume (some raw) d s = rw (now-drop_pointer, r.now-delete) refl

  pub reset-Represents :
      (u : ℕ) (d : Text) (t : ℕ) (s : r.Store) (a : Sessions)
      → Represents r s a
      → Represents r
          (r.setex
            (reset_user_key u)
            t
            d
            (r.setex (reset_key d) t (str u) (drop_old r (r.get (reset_user_key u) s) s)))
          a
  reset-Represents u d t s a =
      same-Represents r s _ a (rw (r.now-setex, r.now-setex, now-drop_old) refl)
        (λ w j.
          simp (r.setex_lem, key_laws)
            (drop_old-entry r _ s (refresh_key w j) (λ e. reset-refresh_key_eq w e j)))
        (λ j.
          simp (r.setex_lem, reset-access_key_eq, reset_user-access_key_eq)
            (drop_old-entry r _ s (access_key j) (λ e. reset-access_key_eq e j)))

  pub consume-Represents :
      (o : Option Text) (d : Text) (s : r.Store) (a : Sessions)
      → Represents r s a
      → Represents r (consume r o d s).1 a
  consume-Represents o d s a =
      same-Represents r s _ a (now-consume o d s)
        (λ w j.
          consume-entry r o d s (refresh_key w j) (λ e. reset-refresh_key_eq w e j)
            (λ v. reset_user-refresh_key_eq w v j))
        (λ j.
          consume-entry r o d s (access_key j) (λ e. reset-access_key_eq e j)
            (λ v. reset_user-access_key_eq v j))
