-- ===== src/Embeddings/Tests.antt =====
-- A note of two paragraphs, the second of which is short.
use system_dashnote.Prelude.{◌≡◌, refl, [], ◌∷◌}
use system_dashnote.Prelude.Text.{codes, str}
use system_dashnote.Embeddings.Chunker.{
  Library, find, starts_with, make_chunk_id, result_of, chunk_from, chunk_note,
}
use system_dashnote.Embeddings.Located

-- A splitter that knows one note.
abbrev library : Library
library = record {
  split_text = λ t. codes "# T" ∷ codes "ab" ∷ codes "long one" ∷ [];
  strip = λ t. t;
  count_words = λ t. 1;
  uuid5 = λ t. t;
}

chunk_note_runs : chunk_note library 3 (codes "n") (codes "T") (codes "ab long one") ≡ (
    (record {
      chunk_id = codes "n:0";
      note_id = codes "n";
      chunk_index = 0;
      text = codes "# T";
      char_start = 0;
      char_end = 3;
      token_estimate = 1;
    })
    ∷ (record {
      chunk_id = codes "n:2";
      note_id = codes "n";
      chunk_index = 2;
      text = codes "long one";
      char_start = 8;
      char_end = 16;
      token_estimate = 1;
    })
    ∷ [])
unfolding chunk_note chunk_from result_of make_chunk_id find starts_with str
chunk_note_runs = refl
