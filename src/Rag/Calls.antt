-- ===== src/Rag/Calls.antt =====
-- Histories of the calls that reach the threads: those of RagService and of ai_routes/threads.py.
use system_dashnote.Prelude.{
  ℕ, not, ◌&&◌, ◌||◌, true, Option, none, some, List, [], ◌∷◌, map, select, length, take,
  if◌then◌else◌,
}
use system_dashnote.Prelude.Text.{Text, str}
use system_dashnote.Prelude.Exec.{
  Exn, pure, raise_if, from_result, Keeps, >>=-Keeps, if-Keeps, or_raise-Keeps, raise_if-Keeps,
}
use system_dashnote.Auth.Models.{RequestContext}
use system_dashnote.Retrieval.Search.{SearchResult, search}
use system_dashnote.Retrieval.Disclosure.{search-Keeps}
use system_dashnote.Threads.Models.{World, Role}
use system_dashnote.Threads.Repository
use system_dashnote.Threads.Service
use system_dashnote.Threads.Service.{truthy, get_or_create_thread, persist_turn}
use system_dashnote.Threads.Router
use system_dashnote.Threads.Stable
use system_dashnote.Rag.Service.{
  Rag, Asker, citation_from_chunk, empty_retrieval_answer, built_for, ThreadContext, Citation,
  StreamEvent, load_thread_context, load_with_db, load_history, given, maybe_auto_title,
  record_turn, finish, generate, answer,
}
use system_dashnote.Rag.Stream.{close, after_stream, stream_answer}
use system_dashnote.Rag.Stream
use system_dashnote.Context.Prompts.{Chunk}

pub data Call : Type 0 where
  ask stream : (a : Asker) (question : Text) (limit : ℕ) (thread_id : Option Text) → Call
  list : (ctx : RequestContext) → Call
  read : (thread_id : Text) (ctx : RequestContext) → Call
  rename : (thread_id title : Text) (ctx : RequestContext) → Call
  delete : (thread_id : Text) (ctx : RequestContext) → Call

module _ (r : Rag) where
  abbrev pub perform : Call → World r.threads → World r.threads
  perform (ask a question limit thread_id) w = (answer r a question limit thread_id w).1
  perform (stream a question limit thread_id) w = (stream_answer r a question limit thread_id w).1
  perform (list ctx) w = (Router.list_threads r.threads ctx w).1
  perform (read thread_id ctx) w = (Router.get_thread_messages r.threads thread_id ctx w).1
  perform (rename thread_id title ctx) w = (Router.rename_thread r.threads thread_id title ctx w).1
  perform (delete thread_id ctx) w = (Router.delete_thread r.threads thread_id ctx w).1

  unfoldable pub perform_all : List Call → World r.threads → World r.threads
  perform_all [] w = w
  perform_all (call ∷ calls) w = perform_all calls (perform call w)

  -- A property that every statement on the two tables keeps.
  pub record IsStable (P : World r.threads → Type 0) : Type 0 where
    pub created :
        (workspace_id user_id : ℕ) (title : Option Text)
        → Keeps P (Repository.create_thread r.threads workspace_id user_id title)
    pub retitled :
        (thread_id : Text) (workspace_id : ℕ) (title : Text)
        → Keeps P (Repository.update_thread_title r.threads thread_id workspace_id title)
    pub deleted :
        (thread_id : Text) (workspace_id : ℕ)
        → Keeps P (Repository.delete_thread r.threads thread_id workspace_id)
    pub saved :
        (thread_id : Text) (role : Role) (content : Text) (citations : List r.threads.Citation)
        (token_count : Option ℕ)
        → Keeps P (Repository.save_message r.threads thread_id role content citations token_count)

  module _ (P : World r.threads → Type 0) (p : IsStable P) where
    load_history-Keeps :
        (thread_id : Option Text) (resolved : Text) (workspace_id : ℕ)
        → Keeps P (load_history r thread_id resolved workspace_id)
    load_history-Keeps thread_id resolved workspace_id =
        >>=-Keeps P (if truthy (given r thread_id) then _ else _) _
          (if-Keeps P (truthy (given r thread_id)) _ _
            (Stable.load_history-Keeps r.threads P resolved workspace_id) (λ w h. h))
          (λ messages w h. h)

    load_with_db-Keeps :
        (a : Asker) (thread_id : Option Text) → Keeps P (load_with_db r a thread_id)
    load_with_db-Keeps a thread_id =
        >>=-Keeps P (get_or_create_thread r.threads thread_id a.workspace_id a.user_id) _
          (Stable.get_or_create_thread-Keeps r.threads P p.created p.retitled thread_id
            a.workspace_id a.user_id)
          (λ (thread, created).
            >>=-Keeps P (load_history r thread_id (r.threads.uuid_str thread.id) a.workspace_id) _
              (load_history-Keeps thread_id (r.threads.uuid_str thread.id) a.workspace_id)
              (λ history w h. h))

    load_thread_context-Keeps :
        (a : Asker) (thread_id : Option Text) → Keeps P (load_thread_context r a thread_id)
    unfolding load_thread_context
    load_thread_context-Keeps a thread_id =
        if-Keeps P (not a.has_db) _ _ (λ w h. h) (load_with_db-Keeps a thread_id)

    maybe_auto_title-Keeps :
        (a : Asker) (t : ThreadContext) (question text : Text)
        → Keeps P (maybe_auto_title r a t question text)
    unfolding maybe_auto_title
    maybe_auto_title-Keeps a t question text =
        if-Keeps P (not a.has_db || (not t.created_this_request || not (truthy t.thread_id))) _ _
          (λ w h. h)
          (>>=-Keeps P
            (Service.set_title_for_new_thread r.threads t.thread_id a.workspace_id
              (r.generate_thread_title question text) true)
            _
            (Stable.set_title_for_new_thread-Keeps r.threads P p.created p.retitled t.thread_id
              a.workspace_id (r.generate_thread_title question text) _)
            (λ titled w h. h))

    record_turn-Keeps :
        (a : Asker) (t : ThreadContext) (question text : Text) (citations : List Citation)
        → Keeps P (record_turn r a t question text citations)
    unfolding record_turn persist_turn
    record_turn-Keeps a t question text citations =
        if-Keeps P (a.has_db && truthy t.thread_id) _ _
          (>>=-Keeps P (Repository.save_message r.threads t.thread_id Role.user question [] none) _
            (p.saved t.thread_id Role.user question [] none)
            (λ u. p.saved t.thread_id Role.assistant text (map r.model_dump citations) none))
          (λ w h. h)

    finish-Keeps :
        (a : Asker) (t : ThreadContext) (question text : Text) (citations : List Citation) (m n : ℕ)
        → Keeps P (finish r a t question text citations m n)
    unfolding finish
    finish-Keeps a t question text citations m n =
        >>=-Keeps P (record_turn r a t question text citations) _
          (record_turn-Keeps a t question text citations)
          (λ u.
            >>=-Keeps P (maybe_auto_title r a t question text) _
              (maybe_auto_title-Keeps a t question text) (λ title w h. h))

    generate-Keeps :
        (a : Asker) (t : ThreadContext) (question : Text) (xs : List SearchResult)
        → Keeps P (generate r a t question xs)
    generate-Keeps a t question [] = finish-Keeps a t question _ [] 0 0
    generate-Keeps a t question (x ∷ xs) =
        >>=-Keeps P (from_result (r.complete (built_for r t question (x ∷ xs)).messages)) _
          (λ w h. h) (λ raw. finish-Keeps a t question _ _ _ _)

    answer-Keeps :
        (a : Asker) (question : Text) (limit : ℕ) (thread_id : Option Text)
        → Keeps P (answer r a question limit thread_id)
    unfolding answer
    answer-Keeps a question limit thread_id =
        >>=-Keeps P (load_thread_context r a thread_id) _ (load_thread_context-Keeps a thread_id)
          (λ t.
            >>=-Keeps P (search r.client question (str a.workspace_id) (str a.user_id) a.role limit)
              _ (search-Keeps r.client (str a.workspace_id) (str a.user_id) a.role P question limit)
              (λ xs. generate-Keeps a t question xs))

    close-Keeps :
        (a : Asker) (t : ThreadContext) (question text : Text) (citations : List Citation) (m n : ℕ)
        (tokens : List StreamEvent)
        → Keeps P (close r a t question text citations m n tokens)
    unfolding close
    close-Keeps a t question text citations m n tokens =
        >>=-Keeps P (if truthy text then record_turn r a t question text citations else pure tt) _
          (if-Keeps P (truthy text) _ _ (record_turn-Keeps a t question text citations) (λ w h. h))
          (λ u.
            >>=-Keeps P (maybe_auto_title r a t question text) _
              (maybe_auto_title-Keeps a t question text) (λ title w h. h))

    stream_answer-Keeps :
        (a : Asker) (question : Text) (limit : ℕ) (thread_id : Option Text)
        → Keeps P (stream_answer r a question limit thread_id)
    unfolding stream_answer
    stream_answer-Keeps a question limit thread_id =
        >>=-Keeps P (load_thread_context r a thread_id) _ (load_thread_context-Keeps a thread_id)
          (λ t.
            >>=-Keeps P (search r.client question (str a.workspace_id) (str a.user_id) a.role limit)
              _ (search-Keeps r.client (str a.workspace_id) (str a.user_id) a.role P question limit)
              (streamed t))
      where
        broken_or_not :
            (t : ThreadContext) (chunks : List Chunk) (n : ℕ) (deltas : List Text) (e : Option Exn)
            → Keeps P (after_stream r a t question chunks n deltas e)
        broken_or_not t chunks n deltas (some e) = λ w h. h
        broken_or_not t chunks n deltas none =
            close-Keeps a t question (Stream.join deltas) (map citation_from_chunk (take 5 chunks))
              n (length chunks) (map StreamEvent.token deltas)

        streamed :
            (t : ThreadContext) (xs : List SearchResult)
            → Keeps P (Stream.generate r a t question xs)
        streamed t [] =
            close-Keeps a t question empty_retrieval_answer [] 0 0
              (StreamEvent.token empty_retrieval_answer ∷ [])
        streamed t (x ∷ xs) =
            >>=-Keeps P (from_result (r.complete_stream (built_for r t question (x ∷ xs)).messages))
              _ (λ w h. h)
              (λ (deltas, e).
                broken_or_not t (built_for r t question (x ∷ xs)).context_chunks (length (x ∷ xs))
                  (select truthy deltas) e)

    get_or_404-Keeps :
        (thread_id : Text) (workspace_id : ℕ)
        → Keeps P (Router.get_or_404 r.threads thread_id workspace_id)
    get_or_404-Keeps thread_id workspace_id =
        >>=-Keeps P (Repository.get_thread r.threads thread_id workspace_id) _
          (Stable.get_thread-Keeps r.threads P thread_id workspace_id) (λ o. or_raise-Keeps P o _)

    get_thread_messages-Keeps :
        (thread_id : Text) (ctx : RequestContext)
        → Keeps P (Router.get_thread_messages r.threads thread_id ctx)
    unfolding Router.get_thread_messages
    get_thread_messages-Keeps thread_id ctx =
        >>=-Keeps P (Repository.get_recent_messages r.threads thread_id ctx.workspace_id 50) _
          (Stable.get_recent_messages-Keeps r.threads P thread_id ctx.workspace_id 50)
          (λ messages.
            >>=-Keeps P (Router.checked r.threads thread_id ctx.workspace_id messages) _
              (shown messages) (λ ms w h. h))
      where
        shown :
            (messages : List _)
            → Keeps P (Router.checked r.threads thread_id ctx.workspace_id messages)
        shown [] =
            >>=-Keeps P (Router.get_or_404 r.threads thread_id ctx.workspace_id) _
              (get_or_404-Keeps thread_id ctx.workspace_id) (λ t w h. h)
        shown (m ∷ ms) = λ w h. h

    rename_thread-Keeps :
        (thread_id title : Text) (ctx : RequestContext)
        → Keeps P (Router.rename_thread r.threads thread_id title ctx)
    unfolding Router.rename_thread
    rename_thread-Keeps thread_id title ctx =
        >>=-Keeps P (raise_if (not (truthy (r.threads.strip title))) _) _ (raise_if-Keeps P _ _)
          (λ u.
            >>=-Keeps P (Router.get_or_404 r.threads thread_id ctx.workspace_id) _
              (get_or_404-Keeps thread_id ctx.workspace_id)
              (λ t.
                >>=-Keeps P
                  (Service.rename_thread r.threads thread_id ctx.workspace_id
                    (r.threads.strip title))
                  _
                  (Stable.rename_thread-Keeps r.threads P p.created p.retitled thread_id
                    ctx.workspace_id _)
                  (λ renamed.
                    >>=-Keeps P (raise_if (not renamed) (Router.not_found r.threads)) _
                      (raise_if-Keeps P (not renamed) _)
                      (λ v.
                        >>=-Keeps P (Router.get_or_404 r.threads thread_id ctx.workspace_id) _
                          (get_or_404-Keeps thread_id ctx.workspace_id) (λ t' w h. h)))))

    delete_thread-Keeps :
        (thread_id : Text) (ctx : RequestContext)
        → Keeps P (Router.delete_thread r.threads thread_id ctx)
    unfolding Router.delete_thread
    delete_thread-Keeps thread_id ctx =
        >>=-Keeps P (Repository.delete_thread r.threads thread_id ctx.workspace_id) _
          (p.deleted thread_id ctx.workspace_id) (λ deleted. raise_if-Keeps P (not deleted) _)

    perform-Keeps : (call : Call) (w : World r.threads) → P w → P (perform call w)
    perform-Keeps (ask a question limit thread_id) = answer-Keeps a question limit thread_id
    perform-Keeps (stream a question limit thread_id) =
        stream_answer-Keeps a question limit thread_id
    perform-Keeps (list ctx) = λ w h. unfold Router.list_threads in h
    perform-Keeps (read thread_id ctx) = get_thread_messages-Keeps thread_id ctx
    perform-Keeps (rename thread_id title ctx) = rename_thread-Keeps thread_id title ctx
    perform-Keeps (delete thread_id ctx) = delete_thread-Keeps thread_id ctx

    pub perform_all-Keeps :
        (calls : List Call) (w : World r.threads) → P w → P (perform_all calls w)
    unfolding perform_all
    perform_all-Keeps [] w h = h
    perform_all-Keeps (call ∷ calls) w h =
        perform_all-Keeps calls (perform call w) (perform-Keeps call w h)
