-- ===== src/Context/Budget.antt =====
-- What the builder keeps of the history and of the chunks, and that it keeps to its budget.
use system_dashnote.Prelude.{
  ℕ, suc, ◌+◌, ◌-◌, ◌<◌, ◌≤◌, ◌≡◌, ◌⊎◌, inl, inr, refl, ap, Bool, true, false, ◌&&◌, List, [], ◌∷◌,
  ◌++◌, arith, length, take, ltb, Bool-cases, if◌then◌else◌,
}
use system_dashnote.Prelude.Text.{Text, codes}
use system_dashnote.Context.Prompts.{Chunk, rag_system_instruction, build_rag_user_message}
use system_dashnote.Context.Builder.{Message, fit_history, fit_chunks, build}

abbrev pub history_size : List Message → ℕ
history_size [] = 0
history_size (m ∷ ms) = length m.content + history_size ms

abbrev pub chunks_size : List Chunk → ℕ
chunks_size [] = 0
chunks_size (c ∷ cs) = length c.text + chunks_size cs

-- The longest prefix of the history whose size, added to `used`, stays within `budget`.
abbrev pub LongestHistory : ℕ → ℕ → List Message → ℕ → Type 0
LongestHistory budget used ms n =
    (used + history_size (take n ms) ≤ budget)
    × ((length ms ≤ n) ⊎ (budget < used + history_size (take (suc n) ms)))

fit_history_lem :
    (budget used : ℕ) (ms : List Message)
    → used ≤ budget
    → (n : ℕ) × ((fit_history budget used ms).0 ≡ take n ms)
      × ((fit_history budget used ms).1 ≡ used + history_size (take n ms))
      × LongestHistory budget used ms n
unfolding fit_history
fit_history_lem budget used [] h = (0, refl, omega arith, (omega arith, inl (omega arith)))
fit_history_lem budget used (m ∷ ms) h = elim (Bool-cases (ltb budget (used + length m.content))) [
  | inl over ↦ rw over (0, refl, omega arith, (omega arith, inr (ground arith)))
  | inr fits ↦
      let (n, same, size, (within, longest)) =
        fit_history_lem budget (used + length m.content) ms (ground arith) in
      rw fits (
        suc n,
        ap (λ x. m ∷ x) same,
        omega (arith, size),
        (omega (arith, within), ground (arith, longest)),
      )
]

-- The longest prefix of the chunks that stays within the budget; but one chunk is always taken, if
-- none is there already.
abbrev pub LongestChunks : ℕ → Bool → ℕ → List Chunk → ℕ → Type 0
LongestChunks budget fitted used cs n =
    ((used + chunks_size (take n cs) ≤ budget) ⊎ (length (take n cs) ≤ (if fitted then 0 else 1)))
    × ((length cs ≤ n) ⊎ (budget < used + chunks_size (take (suc n) cs)))

size-empty : (cs : List Chunk) → length cs ≤ 0 → chunks_size cs ≡ 0
size-empty [] h = refl
size-empty (c ∷ cs) h = absurd (omega arith)

fit_chunks_lem :
    (budget used : ℕ) (fitted : Bool) (cs : List Chunk)
    → (n : ℕ) × ((fit_chunks budget fitted used cs).0 ≡ take n cs)
      × ((fit_chunks budget fitted used cs).1 ≡ used + chunks_size (take n cs))
      × LongestChunks budget fitted used cs n
unfolding fit_chunks
fit_chunks_lem budget used fitted [] =
    (0, refl, omega arith, (inr (ground arith), inl (omega arith)))
fit_chunks_lem budget used fitted (c ∷ cs) =
    elim (Bool-cases (ltb budget (used + length c.text) && fitted)) [
      | inl over ↦ rw over (0, refl, omega arith, (inr (ground arith), inr (ground arith)))
      | inr fits ↦
          let (n, same, size, (within, longest)) =
            fit_chunks_lem budget (used + length c.text) true cs in
          rw fits (
            suc n,
            ap (λ x. c ∷ x) same,
            omega (arith, size),
            (ground (arith, within, size-empty (take n cs)), ground (arith, longest)),
          )
    ]

fit_chunks-first :
    (budget used : ℕ) (c : Chunk) (cs : List Chunk)
    → (fit_chunks budget false used (c ∷ cs)).0
      ≡ c ∷ (fit_chunks budget true (used + length c.text) cs).0
unfolding fit_chunks
fit_chunks-first budget used c cs = elim (Bool-cases (ltb budget (used + length c.text))) [
  | inl b ↦ rw b refl
  | inr b ↦ rw b refl
]

module _ (history_budget : ℕ → ℕ) (budget : ℕ) where
  pub build_lem :
      (question : Text) (history : List Message) (chunks : List Chunk)
      → (n : ℕ) × (k : ℕ) × LongestHistory (history_budget budget) 0 history n
        × LongestChunks (budget - history_size (take n history)) false 0 chunks k
        × (build history_budget budget question history chunks ≡ record {
          messages =
              (record { role = codes "system"; content = rag_system_instruction }) ∷ take n history
              ++ (record {
                role = codes "user";
                content = build_rag_user_message question (take k chunks);
              })
                ∷ [];
          context_chunks = take k chunks;
          history_messages_used = length (take n history);
          context_chunks_used = length (take k chunks);
          total_chars = history_size (take n history) + chunks_size (take k chunks);
        })
  unfolding build
  build_lem question history chunks =
      let (n, same, size, longest) =
        fit_history_lem (history_budget budget) 0 history (omega arith) in
      let size0 : (fit_history (history_budget budget) 0 history).1
          ≡ history_size (take n history) =
        omega (arith, size) in
      let left = budget - history_size (take n history) in
      let (k, same', size', longest') = fit_chunks_lem left 0 false chunks in
      let size1 : (fit_chunks left false 0 chunks).1 ≡ chunks_size (take k chunks) =
        omega (arith, size') in
      (n, k, longest, longest', rw (same, size0, same', size1) refl)

  -- If the budget of the history is a part of the budget, then what is sent of history and chunks
  -- stays within the budget, unless a single chunk is sent.
  pub total_within_budget :
      history_budget budget ≤ budget
      → (question : Text) (history : List Message) (chunks : List Chunk)
      → let built = build history_budget budget question history chunks in
        (built.total_chars ≤ budget) ⊎ (built.context_chunks_used ≡ 1)
  total_within_budget part_of question history chunks =
      let (n, k, longest, longest', e) = build_lem question history chunks in
      rw e (ground (arith, part_of, longest, longest', size-empty (take k chunks)))

  -- Whenever chunks were retrieved, at least the first of them is sent.
  pub never_without_context :
      (question : Text) (history : List Message) (c : Chunk) (cs : List Chunk)
      → (rest : List Chunk) × ((build history_budget budget question history
            (c ∷ cs)).context_chunks
          ≡ c ∷ rest)
  unfolding build
  never_without_context question history c cs = (_, fit_chunks-first _ 0 c cs)
