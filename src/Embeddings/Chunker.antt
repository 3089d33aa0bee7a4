-- ===== src/Embeddings/Chunker.antt =====
-- TextChunker (ai/embeddings/chunker.py).
use system_dashnote.Prelude.{
  ℕ, zero, suc, ◌+◌, Bool, true, false, ◌&&◌, Option, none, some, List, [], ◌∷◌, ◌++◌, ltb, ◌==◌,
  if◌then◌else◌, length,
}
use system_dashnote.Prelude.Text.{Text, codes, str}

-- The third-party splitter, and what the code uses of Python: RecursiveCharacterTextSplitter with the
-- settings, `str.strip`, `len(text.split())`, and `uuid5` in the name space of URLs, printed.
pub record Library : Type 0 where
  pub split_text : Text → List Text
  pub strip : Text → Text
  pub count_words : Text → ℕ
  pub uuid5 : Text → Text

pub record ChunkResult : Type 0 where
  pub chunk_id : Text
  pub note_id : Text
  pub chunk_index : ℕ
  pub text : Text
  pub char_start : ℕ
  pub char_end : ℕ
  pub token_estimate : ℕ

unfoldable pub starts_with : Text → Text → Bool
starts_with [] text = true
starts_with (c ∷ sub) [] = false
starts_with (c ∷ sub) (x ∷ text) = c == x && starts_with sub text

abbrev pub one_later : Option ℕ → Option ℕ
one_later none = none
one_later (some position) = some (1 + position)

-- `text.find(sub, start)`, where `none` stands for -1
unfoldable pub find : Text → Text → ℕ → Option ℕ
unfolding starts_with
find sub [] zero = if starts_with sub [] then some 0 else none
find sub (x ∷ text) zero =
    let later = one_later (find sub text 0) in if starts_with sub (x ∷ text) then some 0 else later
find sub [] (suc start) = none
find sub (x ∷ text) (suc start) = one_later (find sub text start)

abbrev pub start_of : Option ℕ → ℕ
start_of none = 0
start_of (some char_start) = char_start

abbrev pub end_of : Option ℕ → Text → ℕ
end_of none chunk_text = 0
end_of (some char_start) chunk_text = char_start + length chunk_text

abbrev pub search_after : Option ℕ → ℕ → ℕ
search_after none search_start = search_start
search_after (some char_start) search_start = char_start + 1

-- `f"# {title}\n\n{content}"`
abbrev pub full_text_of : Text → Text → Text
full_text_of title content = codes "# " ++ (title ++ (10 ∷ 10 ∷ content))

module _ (l : Library) (min_length : ℕ) where
  unfoldable pub make_chunk_id : Text → ℕ → Text
  make_chunk_id note_id index = l.uuid5 (note_id ++ (58 ∷ str index))

  abbrev pub is_short : Text → Bool
  is_short chunk_text = ltb (length (l.strip chunk_text)) min_length

  unfoldable pub result_of : Text → ℕ → Text → Option ℕ → ChunkResult
  unfolding make_chunk_id
  result_of note_id index chunk_text found = record {
    chunk_id = make_chunk_id note_id index;
    note_id = note_id;
    chunk_index = index;
    text = chunk_text;
    char_start = start_of found;
    char_end = end_of found chunk_text;
    token_estimate = l.count_words chunk_text;
  }

  -- the loop of `chunk_note`, from an index on
  unfoldable pub chunk_from : Text → Text → ℕ → ℕ → List Text → List ChunkResult
  unfolding find result_of
  chunk_from note_id full_text index search_start [] = []
  chunk_from note_id full_text index search_start (chunk_text ∷ raw_chunks) =
      let found = find chunk_text full_text search_start in
      let short = is_short chunk_text in
      let next = if short then search_start else search_after found search_start in
      let rest = chunk_from note_id full_text (suc index) next raw_chunks in
      if short then rest else result_of note_id index chunk_text found ∷ rest

  abbrev pub is_blank : Text → Bool
  is_blank content = length (l.strip content) == 0

  unfoldable pub chunk_note : Text → Text → Text → List ChunkResult
  unfolding chunk_from
  chunk_note note_id title [] = []
  chunk_note note_id title (c ∷ content) =
      let full_text = full_text_of title (c ∷ content) in
      let results = chunk_from note_id full_text 0 0 (l.split_text full_text) in
      if is_blank (c ∷ content) then [] else results
