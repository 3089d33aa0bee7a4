-- ===== src/Threads/History.antt =====
-- What a turn leaves in the history of its thread.
use system_dashnote.Prelude.{
  ℕ, ◌<◌, ◌≡◌, refl, ap, Option, none, some, List, [], ◌∷◌, ◌++◌, map, take, select, arith, ◌==◌,
  ==_refl, select-append, map-take, map-append, All, All-select, All-append, All-weaken,
}
use mathlib.Core.List.{append_assoc}
use system_dashnote.Prelude.Text.{Text}
use system_dashnote.Prelude.Exec.{ok, ◌>>◌}
use system_dashnote.Database.{one_or_none}
use system_dashnote.Threads.Models.{Services, World, AiThread, AiMessage, Role}
use system_dashnote.Threads.Repository.{
  active_in_workspace, get_thread, messages_of, get_recent_messages, save_message, insert_message,
}
use system_dashnote.Threads.Service.{load_history_as_messages, persist_turn, history_message}

module _ (v : Services) where
  abbrev pub rows : World v → List (AiMessage v.Citation)
  rows w = v.messages.rows w.messages

  -- ORDER BY puts a row that is later than all others last, the others as without it.
  abbrev pub PutsLatestLast : Type 0
  PutsLatestLast =
      (xs : List (AiMessage v.Citation)) (m : AiMessage v.Citation)
      → All (λ x. x.created_at < m.created_at) xs
      → v.oldest_first (xs ++ m ∷ []) ≡ v.oldest_first xs ++ m ∷ []

  -- Every message was created before the present time.
  abbrev pub IsPast : World v → Type 0
  IsPast w = All (λ m. m.created_at < w.now) (rows w)

  messages_of_lem :
      (id : ℕ) (w : World v)
      → messages_of v id w ≡ v.oldest_first (select (λ m. m.thread_id == id) (rows w))
  unfolding messages_of
  messages_of_lem id w = ap v.oldest_first (v.messages.fetch_lem _ w.messages)

  abbrev pub message_at :
      ℕ → Role → Text → List v.Citation → Option ℕ → World v → AiMessage v.Citation
  message_at id role content citations token_count w = record {
    id = v.messages.next_id w.messages;
    thread_id = id;
    role = role;
    content = content;
    citations = citations;
    token_count = token_count;
    created_at = w.now;
  }

  module _ (thread_id : Text) (id : ℕ) (known : v.uuid thread_id ≡ some id) where
    pub save_message_lem :
        (role : Role) (content : Text) (citations : List v.Citation) (token_count : Option ℕ)
        (w : World v)
        → save_message v thread_id role content citations token_count w
          ≡ (ok tt, insert_message v id role content citations token_count w)
    unfolding save_message
    save_message_lem role content citations token_count w = rw known refl

    pub persist_turn_lem :
        (question answer : Text) (citations : List v.Citation) (token_count : Option ℕ)
        (w : World v)
        → persist_turn v thread_id question answer citations token_count w ≡ (
          ok tt,
          insert_message v id Role.assistant answer citations token_count
              (insert_message v id Role.user question [] none w),
        )
    unfolding persist_turn
    persist_turn_lem question answer citations token_count w =
        rw (save_message_lem, save_message_lem) refl

  module _ (latest_last : PutsLatestLast) (id : ℕ) (role : Role) (content : Text)
      (citations : List v.Citation) (token_count : Option ℕ) where
    insert_message-IsPast :
        (w : World v) → IsPast w → IsPast (insert_message v id role content citations token_count w)
    insert_message-IsPast w past = rw v.messages.insert_lem (
        All-append _ (rows w) _ (All-weaken _ (λ m l. omega (arith, l)) (rows w) past)
          (omega arith, tt))

    messages_of-insert_message :
        (w : World v)
        → IsPast w
        → messages_of v id (insert_message v id role content citations token_count w)
          ≡ messages_of v id w ++ message_at id role content citations token_count w ∷ []
    messages_of-insert_message w past =
        rw (messages_of_lem, messages_of_lem, v.messages.insert_lem, select-append, ==_refl)
          (latest_last _ _ (All-select _ _ (rows w) past))

  module _ (thread_id : Text) (id : ℕ) (known : v.uuid thread_id ≡ some id) (workspace_id : ℕ) where
    pub get_thread_lem :
        (w : World v)
        → get_thread v thread_id workspace_id w
          ≡ (one_or_none (v.threads.fetch (active_in_workspace id workspace_id) w.threads), w)
    unfolding get_thread
    get_thread_lem w = rw known refl

    load_history-found :
        (thread : AiThread) (w : World v)
        → one_or_none (v.threads.fetch (active_in_workspace id workspace_id) w.threads)
          ≡ ok (some thread)
        → load_history_as_messages v thread_id workspace_id w
          ≡ (ok (map (history_message v) (take v.ai_thread_message_limit (messages_of v id w))), w)
    unfolding load_history_as_messages get_recent_messages
    load_history-found thread w found = rw (get_thread_lem, found, known) refl

    -- Once a turn is persisted to an active thread of the workspace, the history that is loaded for
    -- the thread is the first `ai_thread_message_limit` of its messages in the order of their
    -- creation, the question and the answer of the turn put at the end: so in a thread that has
    -- that many messages the turn changes nothing. It is assumed that the thread's messages are
    -- past and that ORDER BY puts a row that is later than all others last.
    pub load_history-persist_turn :
        (latest_last : PutsLatestLast) (thread : AiThread) (question answer : Text)
        (citations : List v.Citation) (token_count : Option ℕ) (w : World v)
        → IsPast w
        → one_or_none (v.threads.fetch (active_in_workspace id workspace_id) w.threads)
          ≡ ok (some thread)
        → let turn = persist_turn v thread_id question answer citations token_count in
          let loaded = (turn >> load_history_as_messages v thread_id workspace_id) w in
          loaded.0
          ≡ ok (
              take v.ai_thread_message_limit (
                map (history_message v) (messages_of v id w)
                ++ (Role.user, question) ∷ (Role.assistant, answer) ∷ []))
    load_history-persist_turn latest_last thread question answer citations token_count w past
          found =
        let asked = insert_message v id Role.user question [] none w in
        let answered = insert_message v id Role.assistant answer citations token_count asked in
        rw
          (
            persist_turn_lem thread_id id known,
            load_history-found thread answered found,
            messages_of-insert_message latest_last id Role.assistant answer citations token_count
                asked (insert_message-IsPast latest_last id Role.user question [] none w past),
            messages_of-insert_message latest_last id Role.user question [] none w past,
            map-take,
            map-append,
            map-append,
            append_assoc,
          )
          refl
