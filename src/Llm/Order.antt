-- ===== src/Llm/Order.antt =====
-- The configured models, and the order in which a call tries them.
use system_dashnote.Prelude.{
  ◌≡◌, refl, true, false, ◌||◌, List, [], ◌∷◌, arith, Bool-cases, inl, inr,
}
use system_dashnote.Prelude.Text.{Text, text_eq, elem, text_eq_refl, text_eq_iff}
use system_dashnote.Llm.Provider.{Provider}
use system_dashnote.Llm.Candidates.{empty, unique_from, llm_model_candidates, stripped, cut}

-- No model twice, and none without a name.
abbrev pub IsListOfModels : List Text → Type 0
IsListOfModels [] = Unit
IsListOfModels (m ∷ ms) = (empty m ≡ false) × (elem m ms ≡ false) × IsListOfModels ms

unique_from-seen :
    (m : Text) (seen xs : List Text) → elem m seen ≡ true → elem m (unique_from seen xs) ≡ false
unfolding unique_from
unique_from-seen m seen [] h = refl
unique_from-seen m seen (x ∷ xs) h = elim (Bool-cases (empty x || elem x seen)) [
  | inl skipped ↦ rw skipped (unique_from-seen m seen xs h)
  | inr taken ↦
      let other : text_eq m x ≡ false = elim (Bool-cases (text_eq m x)) [
        | inr b ↦ b
        | inl same ↦
            let here : elem x seen ≡ true = rw ((text_eq_iff m x).0 same) at h in
            absurd (ground (arith, here, taken))
      ] in
      let known : elem m (x ∷ seen) ≡ true = rw other h in
      rw (taken, other) (unique_from-seen m (x ∷ seen) xs known)
]

unique_from-IsListOfModels : (seen xs : List Text) → IsListOfModels (unique_from seen xs)
unfolding unique_from
unique_from-IsListOfModels seen [] = tt
unique_from-IsListOfModels seen (x ∷ xs) = elim (Bool-cases (empty x || elem x seen)) [
  | inl skipped ↦ rw skipped (unique_from-IsListOfModels seen xs)
  | inr taken ↦ rw taken (
    ground arith,
    unique_from-seen x (x ∷ seen) xs (rw (text_eq_refl x) refl),
    unique_from-IsListOfModels (x ∷ seen) xs,
  )
]

-- The models of the settings are distinct and have names, whatever the settings contain.
pub llm_model_candidates-IsListOfModels :
    (strip : Text → Text) (llm_model llm_model_fallbacks : Text)
    → IsListOfModels (llm_model_candidates strip llm_model llm_model_fallbacks)
unfolding llm_model_candidates
llm_model_candidates-IsListOfModels strip llm_model llm_model_fallbacks =
    unique_from-IsListOfModels [] (stripped strip (llm_model ∷ cut [] llm_model_fallbacks))
