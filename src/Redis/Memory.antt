-- ===== src/Redis/Memory.antt =====
-- A Redis in memory: it shows that the assumptions of the interface can be met, and runs the tests.
use system_dashnote.Prelude.{ℕ, ◌+◌, refl, Option, none, some, if◌then◌else◌}
use system_dashnote.Prelude.Text.{Text, text_eq}
use system_dashnote.Redis.Space.{
  Entry, string, is_some, string_of, members_of, remaining, count_of, with_member, without_member,
  expiring, counted, surviving,
}
use system_dashnote.Redis.Interface.{Redis}

pub record Memory : Type 0 where
  pub now : ℕ
  pub entry : Text → Option Entry

abbrev pub empty_memory : Memory
empty_memory = record { now = 0; entry = λ _. none }

abbrev pub put : Text → Option Entry → Memory → Memory
put k e s = record s { entry = λ j. if text_eq k j then e else s.entry j }

abbrev pub memory : Redis
memory = record {
  Store = Memory;
  now = λ s. s.now;
  entry = λ s. s.entry;
  exists = λ k s. is_some (s.entry k);
  get = λ k s. string_of (s.entry k);
  smembers = λ k s. members_of (s.entry k);
  ttl = λ k s. remaining s.now (s.entry k);
  incr_reply = λ k s. count_of (s.entry k) + 1;
  setex = λ k t v s. put k (some (record { value = string v; deadline = some (s.now + t) })) s;
  delete = λ k s. put k none s;
  sadd = λ k m s. put k (with_member m (s.entry k)) s;
  srem = λ k m s. put k (without_member m (s.entry k)) s;
  expire = λ k t s. put k (expiring (s.now + t) (s.entry k)) s;
  incr = λ k s. put k (counted (s.entry k)) s;
  wait = λ n s. record { now = s.now + n; entry = λ j. surviving (s.now + n) (s.entry j) };
  exists_lem = λ k s. refl;
  get_lem = λ k s. refl;
  smembers_lem = λ k s. refl;
  ttl_lem = λ k s. refl;
  incr_reply_lem = λ k s. refl;
  setex_lem = λ k t v s j. refl;
  delete_lem = λ k s j. refl;
  sadd_lem = λ k m s j. refl;
  srem_lem = λ k m s j. refl;
  expire_lem = λ k t s j. refl;
  incr_lem = λ k s j. refl;
  wait_lem = λ n s j. refl;
  now-setex = λ k t v s. refl;
  now-delete = λ k s. refl;
  now-sadd = λ k m s. refl;
  now-srem = λ k m s. refl;
  now-expire = λ k t s. refl;
  now-incr = λ k s. refl;
  now-wait = λ n s. refl;
}
