-- ===== src/Retrieval/Memory.antt =====
-- A vector store in memory: it shows that the assumptions can be met, and runs the tests.
use system_dashnote.Prelude.{
  ◌≡◌, refl, sym, arith, true, ◌&&◌, List, select, select-All, All, length, leb,
}
use system_dashnote.Prelude.Text.{Text}
use system_dashnote.Prelude.Exec.{ok}
use system_dashnote.Retrieval.Filter.{VectorStore, Filter, all_of, should_of, holds}
use system_dashnote.Retrieval.Search.{Client, Point, Collection}

abbrev pub store : VectorStore
store = record {
  matches = λ f p.
      all_of p f.must
      && (should_of p f.should && leb f.min_should.1 (length (select (holds p) f.min_should.0)));
  matches_lem = λ f p. refl;
}

abbrev points : List Point → List Point → Collection → List Point
points in_notes in_files Collection.notes = in_notes
points in_notes in_files Collection.files = in_files

pub query_points-matches :
    (in_notes in_files : List Point) (c : Collection) (f : Filter) (ps : List Point)
    → ok (select (λ p. store.matches f p.payload) (points in_notes in_files c)) ≡ ok ps
    → All (λ p. store.matches f p.payload ≡ true) ps
query_points-matches in_notes in_files c f ps h =
    let found = select (λ p. store.matches f p.payload) (points in_notes in_files c) in
    let same : found ≡ ps = ground arith in
    rw (sym same) (select-All (λ p. store.matches f p.payload) (points in_notes in_files c))

-- A query returns the points that match.
abbrev pub client : (in_notes in_files : List Point) → Client
client in_notes in_files = record {
  store = store;
  Vector = Text;
  embed_single = λ s. ok s;
  query_points =
      λ c q f limit. ok (select (λ p. store.matches f p.payload) (points in_notes in_files c));
  query_points-matches = λ c q f limit. query_points-matches in_notes in_files c f;
}
