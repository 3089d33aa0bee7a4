-- ===== src/Retrieval/Filter.antt =====
-- ai/retrieval/filters.py: build_rbac_filter, and the payload of ai/retrieval/workspace_search.py.
use system_dashnote.Prelude.{
  ℕ, ◌≡◌, Bool, true, ◌&&◌, String, List, [], ◌∷◌, str_eq, any_of, leb, length, select,
  if◌then◌else◌,
}
use system_dashnote.Prelude.Text.{Text, codes, text_eq}

-- `FieldCondition(key=…, match=MatchValue(value=…))`, for the keys that are used
pub data Key : Type 0 where
  workspace_id visibility created_by : Key

pub record FieldCondition : Type 0 where
  pub key : Key
  pub value : Text

pub record Filter : Type 0 where
  pub must : List FieldCondition
  pub should : List FieldCondition
  -- `MinShould`: so many of its conditions
  pub min_should : List FieldCondition × ℕ

unfoldable pub build_rbac_filter : Text → Text → String → Filter
build_rbac_filter workspace user_id role =
    let workspace_condition : FieldCondition = record { key = workspace_id; value = workspace } in
    let should_conditions : List FieldCondition =
      (record { key = visibility; value = codes "public" })
      ∷ (record { key = created_by; value = user_id })
      ∷ [] in
    if any_of (str_eq role) ("owner" ∷ "admin" ∷ [])
    then record { must = workspace_condition ∷ []; should = []; min_should = ([], 0) }
    else record {
      must = workspace_condition ∷ [];
      should = should_conditions;
      min_should = (should_conditions, 1);
    }

-- The part of a point's payload that the filter reads.
pub record Payload : Type 0 where
  pub workspace_id : Text
  pub visibility : Text
  pub created_by : Text

abbrev pub value_at : Key → Payload → Text
value_at Key.workspace_id p = p.workspace_id
value_at Key.visibility p = p.visibility
value_at Key.created_by p = p.created_by

abbrev pub holds : Payload → FieldCondition → Bool
holds p c = text_eq (value_at c.key p) c.value

abbrev pub all_of : Payload → List FieldCondition → Bool
all_of p [] = true
all_of p (c ∷ cs) = holds p c && all_of p cs

-- `should` asks for one of its conditions, when it has any.
abbrev pub should_of : Payload → List FieldCondition → Bool
should_of p [] = true
should_of p (c ∷ cs) = any_of (holds p) (c ∷ cs)

-- The payload of a chunk of a note, as `upsert_chunks` writes it.
unfoldable pub payload_of_chunk : Text → Text → Bool → Payload
payload_of_chunk workspace author is_private = record {
  workspace_id = workspace;
  visibility = if is_private then codes "private" else codes "public";
  created_by = author;
}

-- Qdrant, the vector store, as a parameter: a point is found only if its payload matches the
-- filter, which its documentation defines by the three parts.
pub record VectorStore : Type 0 where
  pub matches : Filter → Payload → Bool
  pub matches_lem :
      (f : Filter) (p : Payload)
      → matches f p ≡ (
          all_of p f.must
          && (should_of p f.should
              && leb f.min_should.1 (length (select (holds p) f.min_should.0))))
