-- ===== src/Tokens/Keys.antt =====
-- The keys of RedisTokenStore (core/redis/redis.py), as the texts that the code formats, and that
-- no two of them meet.
use system_dashnote.Prelude.{ℕ, ◌≡◌, refl, sym, ◌≤◌, ◌≢◌, false, [], ◌∷◌, ◌++◌, arith}
use system_dashnote.Prelude.Text.{
  Text, codes, text_eq, text_eq_ne, text_eq_iff, str, IsDigit, str-digits, str-colon_injective,
  str-injective,
}
use system_dashnote.Prelude.{All, ◌&&◌, ◌==◌}

-- `f"auth:access:blacklist:{jti}"`
unfoldable pub access_key : Text → Text
access_key jti = codes "auth:access:blacklist:" ++ jti

-- `f"auth:refresh:{user_id}:{jti}"`
unfoldable pub refresh_key : ℕ → Text → Text
refresh_key user_id jti = codes "auth:refresh:" ++ (str user_id ++ (58 ∷ jti))

-- `f"auth:refresh:index:{user_id}"`
unfoldable pub refresh_index_key : ℕ → Text
refresh_index_key user_id = codes "auth:refresh:index:" ++ str user_id

-- `f"auth:pwdreset:{digest}"`
unfoldable pub reset_key : Text → Text
reset_key digest = codes "auth:pwdreset:" ++ digest

-- `f"auth:pwdreset:user:{user_id}"`
unfoldable pub reset_user_key : ℕ → Text
reset_user_key user_id = codes "auth:pwdreset:user:" ++ str user_id

-- Digits and a colon do not begin with the letter `i`.
not_index : (s u v : Text) → All IsDigit s → s ++ (58 ∷ u) ≢ 105 ∷ v
not_index [] u v h e = ground arith
not_index (x ∷ s) u v h e = ground arith

pub refresh_key-injective :
    (u w : ℕ) (j k : Text) → refresh_key u j ≡ refresh_key w k → (u ≡ w) × (j ≡ k)
unfolding refresh_key
refresh_key-injective u w j k e = str-colon_injective u w j k (cc)

refresh_index_key-injective : (u w : ℕ) → refresh_index_key u ≡ refresh_index_key w → u ≡ w
unfolding refresh_index_key
refresh_index_key-injective u w e = str-injective u w (cc)

pub refresh_key-ne-index : (u w : ℕ) (j : Text) → refresh_key u j ≢ refresh_index_key w
unfolding refresh_key refresh_index_key
refresh_key-ne-index u w j e = not_index (str u) j (codes "ndex:" ++ str w) (str-digits u) (cc)

pub refresh_key_eq :
    (u w : ℕ) (j k : Text) → text_eq (refresh_key u j) (refresh_key w k) ≡ (u == w && text_eq j k)
refresh_key_eq u w j k = ground (
  arith,
  text_eq_iff (refresh_key u j) (refresh_key w k),
  text_eq_iff j k,
  refresh_key-injective u w j k,
)

pub refresh_index_key_eq :
    (u w : ℕ) → text_eq (refresh_index_key u) (refresh_index_key w) ≡ (u == w)
refresh_index_key_eq u w = ground (
  arith,
  text_eq_iff (refresh_index_key u) (refresh_index_key w),
  refresh_index_key-injective u w,
)

pub refresh_key-index_eq :
    (u w : ℕ) (j : Text) → text_eq (refresh_key u j) (refresh_index_key w) ≡ false
refresh_key-index_eq u w j = text_eq_ne _ _ (refresh_key-ne-index u w j)

pub refresh_index-key_eq :
    (u w : ℕ) (j : Text) → text_eq (refresh_index_key w) (refresh_key u j) ≡ false
refresh_index-key_eq u w j = text_eq_ne _ _ (λ e. refresh_key-ne-index u w j (sym e))

pub access-refresh_key_eq : (u : ℕ) (j k : Text) → text_eq (access_key k) (refresh_key u j) ≡ false
unfolding access_key refresh_key text_eq
access-refresh_key_eq u j k = refl

pub access-refresh_index_key_eq :
    (u : ℕ) (k : Text) → text_eq (access_key k) (refresh_index_key u) ≡ false
unfolding access_key refresh_index_key text_eq
access-refresh_index_key_eq u k = refl

pub refresh-access_key_eq : (u : ℕ) (j k : Text) → text_eq (refresh_key u j) (access_key k) ≡ false
unfolding access_key refresh_key text_eq
refresh-access_key_eq u j k = refl

pub refresh_index-access_key_eq :
    (u : ℕ) (k : Text) → text_eq (refresh_index_key u) (access_key k) ≡ false
unfolding access_key refresh_index_key text_eq
refresh_index-access_key_eq u k = refl

pub access_key_eq : (j k : Text) → text_eq (access_key j) (access_key k) ≡ text_eq j k
unfolding access_key text_eq
access_key_eq j k = refl

pub reset_key_eq : (d e : Text) → text_eq (reset_key d) (reset_key e) ≡ text_eq d e
unfolding reset_key text_eq
reset_key_eq d e = refl

pub reset_user_key_eq : (u w : ℕ) → text_eq (reset_user_key u) (reset_user_key w) ≡ (u == w)
unfolding reset_user_key text_eq
reset_user_key_eq u w = ground (arith, text_eq_iff (str u) (str w), str-injective u w)

-- A digest in hexadecimal is no `user:{user_id}`.
abbrev pub IsHex : ℕ → Type 0
IsHex c = c ≤ 102

reset_key-ne-user : (d : Text) (u : ℕ) → All IsHex d → reset_key d ≢ reset_user_key u
unfolding reset_key reset_user_key
reset_key-ne-user [] u h e = ground arith
reset_key-ne-user (x ∷ d) u h e = ground arith

pub reset-user_key_eq :
    (d : Text) (u : ℕ) → All IsHex d → text_eq (reset_key d) (reset_user_key u) ≡ false
reset-user_key_eq d u h = text_eq_ne _ _ (reset_key-ne-user d u h)

pub reset_user-key_eq :
    (d : Text) (u : ℕ) → All IsHex d → text_eq (reset_user_key u) (reset_key d) ≡ false
reset_user-key_eq d u h = text_eq_ne _ _ (λ e. reset_key-ne-user d u h (sym e))

pub reset-refresh_key_eq : (u : ℕ) (d j : Text) → text_eq (reset_key d) (refresh_key u j) ≡ false
unfolding reset_key refresh_key text_eq
reset-refresh_key_eq u d j = refl

pub reset-refresh_index_key_eq :
    (u : ℕ) (d : Text) → text_eq (reset_key d) (refresh_index_key u) ≡ false
unfolding reset_key refresh_index_key text_eq
reset-refresh_index_key_eq u d = refl

pub reset_user-refresh_key_eq :
    (u w : ℕ) (j : Text) → text_eq (reset_user_key w) (refresh_key u j) ≡ false
unfolding reset_user_key refresh_key text_eq
reset_user-refresh_key_eq u w j = refl

pub reset_user-refresh_index_key_eq :
    (u w : ℕ) → text_eq (reset_user_key w) (refresh_index_key u) ≡ false
unfolding reset_user_key refresh_index_key text_eq
reset_user-refresh_index_key_eq u w = refl

pub ruleset key_laws = (
  refresh_key_eq, refresh_index_key_eq, refresh_key-index_eq, refresh_index-key_eq,
  access-refresh_key_eq, access-refresh_index_key_eq, refresh-access_key_eq,
  refresh_index-access_key_eq, access_key_eq, reset_key_eq, reset_user_key_eq, reset-refresh_key_eq,
  reset-refresh_index_key_eq, reset_user-refresh_key_eq, reset_user-refresh_index_key_eq,
)
