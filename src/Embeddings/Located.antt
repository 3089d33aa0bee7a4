-- ===== src/Embeddings/Located.antt =====
-- What the chunks of a note say about where they are.
use system_dashnote.Prelude.{
  ℕ, zero, suc, ◌+◌, ◌-◌, ◌≡◌, ◌≤◌, ◌⊎◌, refl, false, Option, none, some, List, [], ◌∷◌, arith,
  length, take, drop,
}
use system_dashnote.Prelude.Text.{Text}
use system_dashnote.Embeddings.Chunker.{
  Library, ChunkResult, find, is_short, make_chunk_id, one_later,
}

one_later_lem :
    (o : Option ℕ) (position : ℕ)
    → one_later o ≡ some position
    → (p : ℕ) × (o ≡ some p) × (position ≡ suc p)
one_later_lem none position h = cc
one_later_lem (some p) position h = (p, refl, grind arith)

find-after :
    (sub text : Text) (start position : ℕ) → find sub text start ≡ some position → start ≤ position
unfolding find
find-after sub text zero position h = omega arith
find-after sub [] (suc start) position h = cc
find-after sub (x ∷ text) (suc start) position h =
    let (p, e, f) = one_later_lem (find sub text start) position h in
    omega (arith, f, find-after sub text start p e)

-- A span that is empty at the start, where the text was not found, or cuts the text out.
abbrev pub IsSpan : Text → ChunkResult → Type 0
IsSpan full_text c =
    ((c.char_start ≡ 0) × (c.char_end ≡ 0))
    ⊎ ((c.char_end ≡ c.char_start + length c.text)
        × (take (length c.text) (drop c.char_start full_text) ≡ c.text))

module _ (l : Library) (min_length : ℕ) where
  -- A chunk of the splitter's, from an index on, with the id of its index, long enough, and located.
  abbrev pub IsChunk : Text → Text → List Text → ℕ → ChunkResult → Type 0
  IsChunk note_id full_text raw_chunks index c =
      (index ≤ c.chunk_index)
      × (take 1 (drop (c.chunk_index - index) raw_chunks) ≡ c.text ∷ [])
      × (c.chunk_id ≡ make_chunk_id l min_length note_id c.chunk_index)
      × (is_short l min_length c.text ≡ false)
      × IsSpan full_text c
