-- ===== src/Tokens/Reset.antt =====
-- Password-reset tokens: each works once, and only the last one of a user.
use system_dashnote.Prelude.{
  ℕ, ◌≡◌, refl, sym, ◌≢◌, false, Option, none, some, [], ◌∷◌, arith, max, All,
}
use system_dashnote.Prelude.Text.{
  Text, text_eq, text_eq_refl, text_eq_ne, str, read_decimal, read_decimal-str,
}
use system_dashnote.Redis.{Redis}
use system_dashnote.Tokens.Keys.{
  reset_key, reset_user_key, reset_user-key_eq, IsHex, key_laws, reset_key_eq, reset-refresh_key_eq,
  reset-refresh_index_key_eq, reset_user-refresh_key_eq, reset_user-refresh_index_key_eq,
  refresh_key, refresh_index_key,
}
use system_dashnote.Tokens.Store.{
  TokenStore, base, redis, store_password_reset_token, consume_password_reset_token, consume,
  drop_pointer, drop_old,
}
use system_dashnote.Tokens.Refresh.{IsIndexed}
use system_dashnote.Tokens.Revoke.{same-IsIndexed}

module _ (r : Redis) where
  drop_pointer-reset :
      (p : Option Text) (d : Text) (u : ℕ) (s : r.Store)
      → r.entry s (reset_key d) ≡ none
      → r.entry (drop_pointer r p d u s) (reset_key d) ≡ none
  unfolding drop_pointer
  drop_pointer-reset none d u s h = h
  drop_pointer-reset (some p) d u s h =
      ground (arith, r.delete_lem (reset_user_key u) s (reset_key d))

  consume-gone :
      (o : Option Text) (d : Text) (s : r.Store)
      → r.get (reset_key d) s ≡ o
      → r.get (reset_key d) (consume r o d s).1 ≡ none
  unfolding consume
  consume-gone none d s h = h
  consume-gone (some raw) d s h =
      rw
        (
          r.get_lem,
          drop_pointer-reset _ d (read_decimal raw) (r.delete (reset_key d) s)
              (simp (r.delete_lem, text_eq_refl)),
        )
        refl

  -- A reset token works at most once: after it was consumed, whatever came of that, consuming it
  -- again returns no user.
  pub consume_once :
      (d : Text) (st : TokenStore r)
      → (consume_password_reset_token r d (consume_password_reset_token r d st).1).0 ≡ none
  unfolding consume_password_reset_token
  consume_once d base = refl
  consume_once d (redis s) =
      rw (consume-gone (r.get (reset_key d) s) d s refl) (unfold consume in refl)

  get-stored :
      (u : ℕ) (d : Text) (t : ℕ) (s : r.Store)
      → All IsHex d
      → r.get (reset_key d) (r.setex (reset_user_key u) t d (r.setex (reset_key d) t (str u) s))
        ≡ some (str u)
  get-stored u d t s h = simp (r.get_lem, r.setex_lem, reset_user-key_eq d u h, text_eq_refl)

  -- A reset token that was just stored for a user is consumed for that user.
  pub consume-store :
      (u : ℕ) (d : Text) (t : ℕ) (s : r.Store)
      → All IsHex d
      → (consume_password_reset_token r d (store_password_reset_token r u d t (redis s)).1).0
        ≡ some u
  unfolding consume_password_reset_token store_password_reset_token consume
  consume-store u d t s h = rw (get-stored u d (max 1 t) _ h) (rw read_decimal-str refl)

  get-replaced :
      (u : ℕ) (c : ℕ) (d e : Text) (t t' : ℕ) (s : r.Store)
      → All IsHex (c ∷ d)
      → (c ∷ d) ≢ e
      → let s1 = r.setex (reset_user_key u) t (c ∷ d) (r.setex (reset_key (c ∷ d)) t (str u) s) in
        r.get (reset_key (c ∷ d)) (
          r.setex
            (reset_user_key u)
            t'
            e
            (r.setex (reset_key e) t' (str u) (drop_old r (r.get (reset_user_key u) s1) s1)))
        ≡ none
  unfolding drop_old
  get-replaced u c d e t t' s h ne = simp (
    r.get_lem,
    r.setex_lem,
    r.delete_lem,
    reset_user-key_eq (c ∷ d) u h,
    text_eq_refl,
    reset_key_eq,
    text_eq_ne e (c ∷ d) (λ p. ne (sym p)),
  )

  -- A reset token of a user stops working when another one is stored for the same user: consuming
  -- the first returns no user.
  pub consume-store_replaced :
      (u : ℕ) (c : ℕ) (d e : Text) (t t' : ℕ) (s : r.Store)
      → All IsHex (c ∷ d)
      → (c ∷ d) ≢ e
      → (consume_password_reset_token r
          (c ∷ d)
          (store_password_reset_token r u e t'
            (store_password_reset_token r u (c ∷ d) t (redis s)).1).1).0
        ≡ none
  unfolding consume_password_reset_token store_password_reset_token consume
  consume-store_replaced u c d e t t' s h ne =
      rw (get-replaced u c d e (max 1 t) (max 1 t') _ h ne) refl

  pub drop_old-entry :
      (o : Option Text) (s : r.Store) (k : Text)
      → ((d : Text) → text_eq (reset_key d) k ≡ false)
      → r.entry (drop_old r o s) k ≡ r.entry s k
  unfolding drop_old
  drop_old-entry none s k h = refl
  drop_old-entry (some []) s k h = refl
  drop_old-entry (some (c ∷ d)) s k h = simp (r.delete_lem, h (c ∷ d))

  -- The reset tokens leave the index of refresh tokens complete.
  pub store_password_reset_token-IsIndexed :
      (u : ℕ) (d : Text) (t : ℕ) (st : TokenStore r)
      → IsIndexed r st
      → IsIndexed r (store_password_reset_token r u d t st).1
  unfolding store_password_reset_token
  store_password_reset_token-IsIndexed u d t base h = tt
  store_password_reset_token-IsIndexed u d t (redis s) h =
      same-IsIndexed r s _
        (λ w j.
          simp (r.setex_lem, key_laws)
            (drop_old-entry _ s (refresh_key w j) (λ e. reset-refresh_key_eq w e j)))
        (λ w.
          simp (r.setex_lem, key_laws)
            (drop_old-entry _ s (refresh_index_key w) (λ e. reset-refresh_index_key_eq w e)))
        h

  pub consume-entry :
      (o : Option Text) (d : Text) (s : r.Store) (k : Text)
      → ((e : Text) → text_eq (reset_key e) k ≡ false)
      → ((w : ℕ) → text_eq (reset_user_key w) k ≡ false)
      → r.entry (consume r o d s).1 k ≡ r.entry s k
  unfolding consume
  consume-entry none d s k h h' = refl
  consume-entry (some raw) d s k h h' =
      dropped (r.get (reset_user_key (read_decimal raw)) (r.delete (reset_key d) s))
    where
      dropped :
          (p : Option Text)
          → r.entry (drop_pointer r p d (read_decimal raw) (r.delete (reset_key d) s)) k
            ≡ r.entry s k
      dropped p =
          pointer_dropped p (read_decimal raw) (r.delete (reset_key d) s) (simp (r.delete_lem, h d))
        where
          pointer_dropped :
              (q : Option Text) (u : ℕ) (s1 : r.Store)
              → r.entry s1 k ≡ r.entry s k
              → r.entry (drop_pointer r q d u s1) k ≡ r.entry s k
          pointer_dropped none u s1 e = e
          pointer_dropped (some q) u s1 e =
              ground (arith, r.delete_lem (reset_user_key u) s1 k, h' u)

  pub consume_password_reset_token-IsIndexed :
      (d : Text) (st : TokenStore r)
      → IsIndexed r st
      → IsIndexed r (consume_password_reset_token r d st).1
  unfolding consume_password_reset_token
  consume_password_reset_token-IsIndexed d base h = tt
  consume_password_reset_token-IsIndexed d (redis s) h =
      same-IsIndexed r s _
        (λ w j.
          consume-entry _ d s (refresh_key w j) (λ e. reset-refresh_key_eq w e j)
            (λ v. reset_user-refresh_key_eq w v j))
        (λ w.
          consume-entry _ d s (refresh_index_key w) (λ e. reset-refresh_index_key_eq w e)
            (λ v. reset_user-refresh_index_key_eq w v))
        h
