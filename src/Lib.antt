-- ===== src/Lib.antt =====
-- Verification of the DashNote backend: a FastAPI service for notes shared in workspaces, with an
-- assistant over them. The paths below are the repository's, under src/.
--
-- Parts, and how they meet. A request comes with an access token, from which
-- core/security/dependency.py makes a RequestContext: user, workspace and role. The handlers of
-- auth/ issue, exchange and end tokens; the state of the tokens is in the token store of
-- core/redis/redis.py. membership/ and notes/ work on tables of Postgres, for the workspace of the
-- context. The reads of notes/ go through the cache of core/redis/cache.py. The limiter of
-- core/security/rate_limit.py stands in front of the routes. The assistant builds its messages
-- with ai/memory/context_builder.py and sends them through shared/llm/; ai/services/rag_service.py
-- joins the search, the context, the model and the threads of ai_memory/. integrations/ turns mails
-- and WhatsApp messages into notes.
--
-- Files:
--   Prelude     lists, texts and tests that the modules share; Prelude/Exec is the monad of the
--               handlers, which change a state and may raise: what was written before a raise
--               stays written
--   Redis       Redis as a parameter: the commands that the program sends, with the laws that
--               their documentation states, and a model in memory that meets them
--   Database    a table of Postgres as a parameter, in the same way
--   Tokens      core/redis/redis.py: Keys (the `_…_key` methods), Store (the operations, each for
--               both stores), Refresh, Revoke and Reset (what they do), Trace (histories),
--               Sessions (the same without Redis), Represents, Steps and Refinement
--   Auth        auth/ and core/security/: Platform (bcrypt, JWT, secrets and uuid, as parameters),
--               Security (auth/security.py), Context (dependency.py, permissions.py), Service,
--               Router, and the theorems in Issue, Sessions and Passwords
--   Membership  membership/: Repository, Service, Router; Changes says what one request may do to
--               the rows, Tenancy and Unique what follows for histories of requests
--   RateLimit   core/security/rate_limit.py: Limiter and Window
--   Context     ai/memory/context_builder.py and ai/prompts/rag.py: Builder, Prompts, Budget
--   Llm         shared/llm/fallback.py and retry.py, and llm_model_candidates of config.py:
--               Candidates (`_candidates`, `_remember`, `_mark_gone`), Retry, Fallback; the theorems
--               are in Walk, Cache and Order
--   Notes       notes/ and core/redis/cache.py: Permissions, Repository, Cache, Router, Service; the
--               theorems are in Visibility, Authority, Fresh and Stale
--   Retrieval   ai/retrieval/filters.py, the payload of workspace_search.py, and wrapper.py: Filter
--               and Search; the theorems are in Mirror, Edit and Disclosure
--   Threads     ai_memory/, ai/memory/service.py and ai_routes/threads.py: Models, Repository,
--               Service, Router; Stable and Messages say what they keep, History what a turn adds
--   Rag         ai/services/rag_service.py: Service (answer) and Stream (stream_answer); Calls is
--               histories of calls on threads; the theorems are in Grounding, Transcript, Deleted
--   Inbound     integrations/: Models, Identity, Attachments, Ingest, Links, Router; Requests is
--               histories of requests; Stored, Once and Requests are about ingestion, Held, Phones
--               and Confirm about the links of phones
--   Embeddings  ai/embeddings/chunker.py: Chunker, and Located, on the spans of the chunks
--   Files       files/repository.py, validate_file of core/storage/utils.py, files/permissions.py:
--               Permissions, Repository and Validation; the theorems are in Listing and Links
--
-- State. A handler is a function from a state to a result and a state. Its state is a record of the
-- tables and stores that it may touch, with the clock and the number of random draws where it uses
-- them. Handlers run one after another: interleavings of two requests are not modelled. Lookups
-- return what `scalar_one_or_none` does, with the exception for two rows.
--
-- Numbers are natural numbers; identifiers and times are never negative. Where the code formats a
-- key, the key is the text that it formats, as a list of code points. No function runs on fuel but
-- the printing of decimals, which gets one more than the number and is shown to print all digits.
--
-- Not modelled: logs, metrics and mails; the timestamps of other rows; and the parts of the program
-- that are named in no line above, such as notebooks, pages, the agent's routes and tools, the worker
-- and the indexing. The timestamps of threads and messages are modelled, as numbers of transactions.
pub mod Prelude
pub mod Redis
pub mod Tokens
pub mod Database
pub mod Auth
pub mod Membership
pub mod RateLimit
pub mod Context
pub mod Llm
pub mod Notes
pub mod Retrieval
pub mod Threads
pub mod Rag
pub mod Inbound
pub mod Embeddings
pub mod Files
