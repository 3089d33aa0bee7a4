-- ===== src/Redis/Interface.antt =====
-- The commands of Redis that the program sends, through redis.asyncio, with their documented laws.
use system_dashnote.Prelude.{ℕ, ◌+◌, ◌≡◌, Bool, Option, none, some, List, if◌then◌else◌}
use system_dashnote.Prelude.Text.{Text, text_eq}
use system_dashnote.Redis.Space.{
  Entry, string, is_some, string_of, members_of, remaining, count_of, with_member, without_member,
  expiring, counted, surviving,
}

pub record Redis : Type 1 where
  pub Store : Type 0
  pub now : Store → ℕ
  pub entry : Store → Text → Option Entry
  -- the replies
  pub exists : Text → Store → Bool
  pub get : Text → Store → Option Text
  pub smembers : Text → Store → List Text
  -- `none` stands for the negative replies, -1 and -2
  pub ttl : Text → Store → Option ℕ
  pub incr_reply : Text → Store → ℕ
  -- the effects
  pub setex : Text → ℕ → Text → Store → Store
  pub delete : Text → Store → Store
  pub sadd : Text → Text → Store → Store
  pub srem : Text → Text → Store → Store
  pub expire : Text → ℕ → Store → Store
  pub incr : Text → Store → Store
  -- seconds pass
  pub wait : ℕ → Store → Store
  pub exists_lem : (k : Text) (s : Store) → exists k s ≡ is_some (entry s k)
  pub get_lem : (k : Text) (s : Store) → get k s ≡ string_of (entry s k)
  pub smembers_lem : (k : Text) (s : Store) → smembers k s ≡ members_of (entry s k)
  pub ttl_lem : (k : Text) (s : Store) → ttl k s ≡ remaining (now s) (entry s k)
  pub incr_reply_lem : (k : Text) (s : Store) → incr_reply k s ≡ count_of (entry s k) + 1
  pub setex_lem :
      (k : Text) (t : ℕ) (v : Text) (s : Store) (j : Text)
      → entry (setex k t v s) j ≡ (
          if text_eq k j
          then some (record { value = string v; deadline = some (now s + t) })
          else entry s j)
  pub delete_lem :
      (k : Text) (s : Store) (j : Text)
      → entry (delete k s) j ≡ (if text_eq k j then none else entry s j)
  pub sadd_lem :
      (k m : Text) (s : Store) (j : Text)
      → entry (sadd k m s) j ≡ (if text_eq k j then with_member m (entry s k) else entry s j)
  pub srem_lem :
      (k m : Text) (s : Store) (j : Text)
      → entry (srem k m s) j ≡ (if text_eq k j then without_member m (entry s k) else entry s j)
  pub expire_lem :
      (k : Text) (t : ℕ) (s : Store) (j : Text)
      → entry (expire k t s) j
        ≡ (if text_eq k j then expiring (now s + t) (entry s k) else entry s j)
  pub incr_lem :
      (k : Text) (s : Store) (j : Text)
      → entry (incr k s) j ≡ (if text_eq k j then counted (entry s k) else entry s j)
  pub wait_lem :
      (n : ℕ) (s : Store) (j : Text) → entry (wait n s) j ≡ surviving (now s + n) (entry s j)
  pub now-setex : (k : Text) (t : ℕ) (v : Text) (s : Store) → now (setex k t v s) ≡ now s
  pub now-delete : (k : Text) (s : Store) → now (delete k s) ≡ now s
  pub now-sadd : (k m : Text) (s : Store) → now (sadd k m s) ≡ now s
  pub now-srem : (k m : Text) (s : Store) → now (srem k m s) ≡ now s
  pub now-expire : (k : Text) (t : ℕ) (s : Store) → now (expire k t s) ≡ now s
  pub now-incr : (k : Text) (s : Store) → now (incr k s) ≡ now s
  pub now-wait : (n : ℕ) (s : Store) → now (wait n s) ≡ now s + n
