-- ===== src/Rag/Grounding.antt =====
-- Where the citations of an answer come from.
use system_dashnote.Prelude.{◌≡◌, Option, none, some}
use system_dashnote.Prelude.Text.{Text, str}
use system_dashnote.Context.Prompts.{Chunk}
use system_dashnote.Retrieval.Search.{SearchResult}
use system_dashnote.Retrieval.Disclosure.{IsReadable}
use system_dashnote.Rag.Service.{Rag, Asker, Citation, chunk_dict, citation_from_chunk}

-- `P` of what is found, if anything is.
abbrev IfSome : (Chunk → Type 0) → Option Chunk → Type 0
IfSome P none = Unit
IfSome P (some c) = P c

module _ (Q : Citation → Type 0) where
  abbrev IsCitable : Chunk → Type 0
  IsCitable c = Q (citation_from_chunk c)

module _ (r : Rag) (a : Asker) where
  -- The citation is of a result that the caller may read.
  abbrev pub IsGrounded : Citation → Type 0
  IsGrounded c =
      (x : SearchResult) × IsReadable (str a.workspace_id) (str a.user_id) a.role x
      × (c ≡ citation_from_chunk (chunk_dict x))
