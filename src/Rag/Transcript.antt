-- ===== src/Rag/Transcript.antt =====
-- What an answer leaves in its thread.
use system_dashnote.Prelude.{
  if◌then◌else◌, ℕ, ◌≡◌, ap, refl, inl, inr, true, false, not, ◌||◌, Option, none, some, List, [],
  ◌∷◌, ◌++◌, map, arith, Bool-cases,
}
use mathlib.Core.List.{append_assoc}
use system_dashnote.Prelude.Text.{Text, str}
use system_dashnote.Prelude.Exec.{
  Result, Result-cases, Exec-cases, ok, err, Keeps, >>=-Keeps, if-Keeps, >>=-ok, pure,
}
use system_dashnote.Retrieval.Search.{SearchResult, search}
use system_dashnote.Retrieval.Disclosure.{search-Keeps}
use system_dashnote.Threads.Models.{Services, World, Role, AiMessage}
use system_dashnote.Threads.Repository.{insert_message}
use system_dashnote.Threads.Service.{truthy, get_or_create_thread}
use system_dashnote.Threads.History.{rows, message_at, persist_turn_lem}
use system_dashnote.Threads.Stable.{load_history-Keeps}
use system_dashnote.Threads.Messages.{
  HasMessages, set_title_for_new_thread-Returns, get_or_create_thread-HasMessages,
}
use system_dashnote.Rag.Service.{
  Rag, Asker, ThreadContext, Citation, ChatResult, finish, generate, answer, load_with_db,
  load_history, given, load_thread_context, empty_retrieval_answer, built_for, maybe_auto_title,
  record_turn,
}

module _ (v : Services) where
  uuid_str-truthy : (id : ℕ) → truthy (v.uuid_str id) ≡ true
  uuid_str-truthy id = go (v.uuid_str id) (v.uuid-uuid_str id)
    where
      go : (s : Text) → v.uuid s ≡ some id → truthy s ≡ true
      go [] e = absurd (cc (v.uuid-empty))
      go (c ∷ s) e = refl

module _ (r : Rag) (a : Asker) (open_session : a.has_db ≡ true) where
  module _ (t : ThreadContext) (id : ℕ) (known : t.thread_id ≡ r.threads.uuid_str id) where
    -- the world after the two messages of a turn
    abbrev turned : Text → Text → List Citation → World r.threads → World r.threads
    turned question text citations w =
        insert_message r.threads id Role.assistant text (map r.model_dump citations) none
          (insert_message r.threads id Role.user question [] none w)

    record_turn_lem :
        (question text : Text) (citations : List Citation) (w : World r.threads)
        → record_turn r a t question text citations w ≡ (ok tt, turned question text citations w)
    unfolding record_turn
    record_turn_lem question text citations w =
        rw
          (
            open_session,
            known,
            uuid_str-truthy r.threads,
            persist_turn_lem r.threads (r.threads.uuid_str id) id (r.threads.uuid-uuid_str id),
          )
          refl

    titled :
        (question text : Text) (w : World r.threads)
        → (title : Option Text) × (u : World r.threads) × (maybe_auto_title r a t question text w
            ≡ (ok title, u))
          × (u.messages ≡ w.messages)
    unfolding maybe_auto_title
    titled question text w =
        elim (Bool-cases
          (not a.has_db || (not t.created_this_request || not (truthy t.thread_id)))) [
            | inl e ↦ rw e (none, w, refl, refl)
            | inr e ↦
                let (b, u, h, kept) =
                  set_title_for_new_thread-Returns r.threads (r.threads.uuid_str id) id
                    (r.threads.uuid-uuid_str id) a.workspace_id
                    (r.generate_thread_title question text) true w in
                rw (e, known, h) (_, u, refl, kept)
          ]

    finish_lem :
        (question text : Text) (citations : List Citation) (m n : ℕ) (w : World r.threads)
        → (u : World r.threads) × (finish r a t question text citations m n w ≡ (
          ok record {
            answer = text;
            citations = citations;
            chunks_retrieved = m;
            chunks_used = n;
            thread_id = some (r.threads.uuid_str id);
          },
          u,
        ))
          × (u.messages ≡ (turned question text citations w).messages)
    unfolding finish
    finish_lem question text citations m n w =
        let (title, u, h, kept) = titled question text (turned question text citations w) in
        rw (record_turn_lem, h, known, uuid_str-truthy r.threads) (u, refl, kept)

  load_with_db-thread :
      (thread_id : Option Text) (w u : World r.threads) (t : ThreadContext)
      → load_with_db r a thread_id w ≡ (ok t, u)
      → (id : ℕ) × (t.thread_id ≡ r.threads.uuid_str id)
  load_with_db-thread thread_id w u t h =
      let ((thread, created), u1, got, h1) =
        >>=-ok (get_or_create_thread r.threads thread_id a.workspace_id a.user_id) _ h in
      let resolved = r.threads.uuid_str thread.id in
      let (history, u2, loaded, h2) =
        >>=-ok (load_history r thread_id resolved a.workspace_id) _ h1 in
      (thread.id, ground arith)

  load_with_db-HasMessages :
      (stored : r.threads.messages.State) (thread_id : Option Text)
      → Keeps (HasMessages r.threads stored) (load_with_db r a thread_id)
  load_with_db-HasMessages stored thread_id =
      let P = HasMessages r.threads stored in
      >>=-Keeps P (get_or_create_thread r.threads thread_id a.workspace_id a.user_id) _
        (get_or_create_thread-HasMessages r.threads stored thread_id a.workspace_id a.user_id)
        (λ (thread, created).
          >>=-Keeps P (load_history r thread_id (r.threads.uuid_str thread.id) a.workspace_id) _
            (>>=-Keeps P (if truthy (given r thread_id) then _ else _) _
              (if-Keeps P (truthy (given r thread_id)) _ _
                (load_history-Keeps r.threads P (r.threads.uuid_str thread.id) a.workspace_id)
                (λ w h. h))
              (λ messages w h. h))
            (λ history w h. h))

  -- the turn of question and answer, as the last two messages
  abbrev Turn : Text → ChatResult → List (AiMessage r.threads.Citation) → Type 0
  Turn question res messages =
      (id : ℕ) × (x : AiMessage r.threads.Citation) × (y : AiMessage r.threads.Citation) × (messages
        ≡ x ∷ y ∷ [])
      × (res.thread_id ≡ some (r.threads.uuid_str id))
      × (x.thread_id ≡ id)
      × (x.role ≡ Role.user)
      × (x.content ≡ question)
      × (x.citations ≡ [])
      × (y.thread_id ≡ id)
      × (y.role ≡ Role.assistant)
      × (y.content ≡ res.answer)
      × (y.citations ≡ map r.model_dump res.citations)

  -- What a call that returned or raised adds to the messages.
  abbrev pub IsRecorded : Text → World r.threads → Result ChatResult × World r.threads → Type 0
  IsRecorded question before (err e, after) = rows r.threads after ≡ rows r.threads before
  IsRecorded question before (ok res, after) =
      (turn : List (AiMessage r.threads.Citation)) × Turn question res turn
      × (rows r.threads after ≡ rows r.threads before ++ turn)

  rows-turned :
      (t : ThreadContext) (id : ℕ) (known : t.thread_id ≡ r.threads.uuid_str id)
      (question text : Text) (citations : List Citation) (w : World r.threads)
      → let asked = insert_message r.threads id Role.user question [] none w in
        rows r.threads (turned t id known question text citations w)
        ≡ rows r.threads w
          ++ message_at r.threads id Role.user question [] none w
            ∷ message_at r.threads id Role.assistant text (map r.model_dump citations) none asked
            ∷ []
  rows-turned t id known question text citations w =
      rw (r.threads.messages.insert_lem, r.threads.messages.insert_lem, append_assoc) refl

  finish-IsRecorded :
      (t : ThreadContext) (id : ℕ) (known : t.thread_id ≡ r.threads.uuid_str id)
      (question text : Text) (citations : List Citation) (m n : ℕ) (w0 w : World r.threads)
      → w.messages ≡ w0.messages
      → IsRecorded question w0 (finish r a t question text citations m n w)
  finish-IsRecorded t id known question text citations m n w0 w same =
      let (u, h, kept) = finish_lem t id known question text citations m n w in
      let asked = insert_message r.threads id Role.user question [] none w in
      let x = message_at r.threads id Role.user question [] none w in
      let y = message_at r.threads id Role.assistant text (map r.model_dump citations) none asked in
      rw h (
        x ∷ y ∷ [],
        (id, x, y, refl, refl, refl, refl, refl, refl, refl, refl, refl, refl),
        cc (
          ap r.threads.messages.rows kept,
          rows-turned t id known question text citations w,
          ap r.threads.messages.rows same,
        ),
      )

  generate-IsRecorded :
      (t : ThreadContext) (id : ℕ) (question : Text) (xs : List SearchResult)
      (w0 w : World r.threads)
      → t.thread_id ≡ r.threads.uuid_str id
      → w.messages ≡ w0.messages
      → IsRecorded question w0 (generate r a t question xs w)
  generate-IsRecorded t id question [] w0 w known same =
      finish-IsRecorded t id known question empty_retrieval_answer [] 0 0 w0 w same
  generate-IsRecorded t id question (x ∷ xs) w0 w known same =
      let built = built_for r t question (x ∷ xs) in
      elim (Result-cases (r.complete built.messages)) [
        | inr (e, h) ↦ rw h (ap r.threads.messages.rows same)
        | inl (raw, h) ↦ rw h (finish-IsRecorded t id known question _ _ _ _ w0 w same)
      ]

  load_thread_context_lem :
      (thread_id : Option Text) (w : World r.threads)
      → load_thread_context r a thread_id w ≡ load_with_db r a thread_id w
  unfolding load_thread_context
  load_thread_context_lem thread_id w =
      ap
        (λ b.
          (if not b
              then pure record {
                thread_id = given r thread_id;
                history = [];
                created_this_request = false;
              }
              else load_with_db r a thread_id)
            w)
        open_session

  -- A call of `answer` with an open session either raises and leaves the messages as they were, or
  -- returns and adds two messages to the thread that it names: the user's question and the
  -- assistant's answer, with the citations that it returns.
  pub answer-IsRecorded :
      (question : Text) (limit : ℕ) (thread_id : Option Text) (w : World r.threads)
      → IsRecorded question w (answer r a question limit thread_id w)
  unfolding answer
  answer-IsRecorded question limit thread_id w =
      let P = HasMessages r.threads w.messages in
      let loading = load_with_db r a thread_id in
      let searching = search r.client question (str a.workspace_id) (str a.user_id) a.role limit in
      let loaded = load_with_db-HasMessages w.messages thread_id w refl in
      rw (load_thread_context_lem thread_id w) (elim (Exec-cases loading w) [
        | inr (e, u, h) ↦ rw h (cc (loaded, h))
        | inl (t, u, h) ↦
            let (id, known) = load_with_db-thread thread_id w u t h in
            let same : u.messages ≡ w.messages = cc (loaded, h) in
            let searched =
              search-Keeps r.client (str a.workspace_id) (str a.user_id) a.role P question limit u
                same in
            rw h (elim (Exec-cases searching u) [
              | inr (e, u', h') ↦ rw h' (ap r.threads.messages.rows (cc (searched, h')))
              | inl (xs, u', h') ↦
                  rw h' (generate-IsRecorded t id question xs w u' known (cc (searched, h')))
            ])
      ])
