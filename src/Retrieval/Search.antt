-- ===== src/Retrieval/Search.antt =====
-- ai/retrieval/wrapper.py: WorkspaceVectorSearch.search. A score is a number of ten-thousandths.
use system_dashnote.Prelude.{
  ℕ, ◌≡◌, Bool, true, List, [], ◌∷◌, ◌++◌, map, take, ltb, String, All, if◌then◌else◌,
}
use system_dashnote.Prelude.Text.{Text, codes}
use system_dashnote.Prelude.Exec.{Exec, Result, ok, pure, from_result, ◌>>=◌}
use system_dashnote.Retrieval.Filter.{VectorStore, Filter, Payload, build_rbac_filter}

-- A point of the vector store; a key that its payload does not have is the empty text.
pub record Point : Type 0 where
  pub id : Text
  pub score : ℕ
  pub payload : Payload
  pub is_private : Bool
  pub text : Text
  pub chunk_text : Text
  pub title : Text
  pub note_id : Text
  pub file_id : Text
  pub chunk_index : ℕ

pub data Collection : Type 0 where
  notes files : Collection

-- Qdrant's client and the embedding provider, as parameters: a query returns points that match its
-- filter, or fails.
pub record Client : Type 1 where
  pub store : VectorStore
  pub Vector : Type 0
  pub embed_single : Text → Result Vector
  pub query_points : Collection → Vector → Filter → ℕ → Result (List Point)
  pub query_points-matches :
      (c : Collection) (q : Vector) (f : Filter) (limit : ℕ) (ps : List Point)
      → query_points c q f limit ≡ ok ps
      → All (λ p. store.matches f p.payload ≡ true) ps

pub data SourceType : Type 0 where
  note file : SourceType

pub record SearchResult : Type 0 where
  pub chunk_id : Text
  pub note_id : Text
  pub workspace_id : Text
  pub created_by : Text
  pub visibility : Text
  pub chunk_text : Text
  pub title : Text
  pub chunk_index : ℕ
  pub score : ℕ
  pub source_type : SourceType
  pub file_id : Text

-- `s or t`
abbrev pub or_else : Text → Text → Text
or_else [] t = t
or_else (c ∷ s) t = c ∷ s

abbrev for_note : SourceType → Text → Text
for_note SourceType.note s = s
for_note SourceType.file s = []

abbrev for_file : SourceType → Text → Text
for_file SourceType.note s = []
for_file SourceType.file s = s

-- `_map_point`
abbrev pub map_point : SourceType → Point → SearchResult
map_point source_type p = record {
  chunk_id = p.id;
  note_id = for_note source_type p.note_id;
  workspace_id = p.payload.workspace_id;
  created_by = p.payload.created_by;
  visibility =
      or_else p.payload.visibility (if p.is_private then codes "private" else codes "public");
  chunk_text = or_else p.text p.chunk_text;
  title = p.title;
  chunk_index = p.chunk_index;
  score = p.score;
  source_type = source_type;
  file_id = for_file source_type p.file_id;
}

-- `results.sort(key=lambda item: item.score, reverse=True)`, which is stable
abbrev pub insert_result : SearchResult → List SearchResult → List SearchResult
insert_result r [] = r ∷ []
insert_result r (s ∷ rs) =
    let rest = insert_result r rs in if ltb r.score s.score then s ∷ rest else r ∷ s ∷ rs

unfoldable pub sort_by_score : List SearchResult → List SearchResult
sort_by_score [] = []
sort_by_score (r ∷ rs) = insert_result r (sort_by_score rs)

module _ (c : Client) {S : Type 0} where
  unfoldable pub search :
      (query_text workspace_id user_id : Text) (role : String) (limit : ℕ)
      → Exec S (List SearchResult)
  search query_text workspace_id user_id role limit = do
    query_vector ← from_result (c.embed_single query_text)
    let rbac_filter = build_rbac_filter workspace_id user_id role
    found_notes ← from_result (c.query_points Collection.notes query_vector rbac_filter limit)
    found_files ← from_result (c.query_points Collection.files query_vector rbac_filter limit)
    let results =
        map (map_point SourceType.note) found_notes ++ map (map_point SourceType.file) found_files
    pure (take limit (sort_by_score results))
