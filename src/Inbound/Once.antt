-- ===== src/Inbound/Once.antt =====
-- An inbound message becomes one note, however often it is delivered.
use system_dashnote.Prelude.{
  ◌≡◌, refl, sym, ap, ◌∙◌, false, ◌&&◌, Bool-cases, inl, inr, Option, none, some, List, [], ◌∷◌,
  select, select-append, arith,
}
use system_dashnote.Prelude.Text.{Text, text_eq, text_eq_refl, text_eq_iff}
use system_dashnote.Prelude.Exec.{Result-cases, Exec-cases, ok, Keeps, >>=-Keeps, >>=-state}
use system_dashnote.Database.{one_or_none}
use system_dashnote.Notes.Repository
use system_dashnote.Inbound.Models.{Services, World, InboundIdempotency, InboundIngestResponse}
use system_dashnote.Inbound.Ingest.{
  Inbound, is_key, get_existing_ingest, get_note, row_for, store_message, ingest_new, new_or_known,
  answer_duplicate, ingest_text_message,
}
use system_dashnote.Membership.Changes.{found-cases}
use system_dashnote.Inbound.Stored.{store_message-HasIngests}

module _ (v : Services) (channel id : Text) (row : InboundIdempotency) where
  -- The row is the only one of the key.
  abbrev pub IsIngested : World v → Type 0
  IsIngested w = select (is_key v channel id) (v.ingests.rows w.ingests) ≡ row ∷ []

  get_existing-ingested :
      (w : World v) → IsIngested w → get_existing_ingest v channel id w ≡ (ok (some row), w)
  unfolding get_existing_ingest
  get_existing-ingested w h = rw (v.ingests.fetch_lem, h) refl

  insert-other :
      (x : InboundIdempotency) (s : v.ingests.State)
      → is_key v channel id x ≡ false
      → select (is_key v channel id) (v.ingests.rows s) ≡ row ∷ []
      → select (is_key v channel id) (v.ingests.rows (v.ingests.insert x s)) ≡ row ∷ []
  insert-other x s other h = rw (v.ingests.insert_lem, select-append, other, h) refl

  ingest_new-IsIngested :
      (m : Inbound)
      → (text_eq m.channel channel && text_eq m.provider_message_id id) ≡ false
      → Keeps IsIngested (ingest_new v m)
  unfolding ingest_new
  ingest_new-IsIngested m other w h =
      let kept = store_message-HasIngests v w.ingests m w refl in
      elim (Exec-cases (store_message v m) w) [
        | inr (e, u, k) ↦ let same : u.ingests ≡ w.ingests = cc (kept, k) in rw (k, same) h
        | inl ((note, results), u, k) ↦
            let same : u.ingests ≡ w.ingests = cc (kept, k) in
            rw k (insert-other (row_for v m note) u.ingests other (rw same h))
      ]

  answer_duplicate-state :
      (existing : InboundIdempotency) (w : World v) → (answer_duplicate v existing w).1 ≡ w
  answer_duplicate-state existing w =
      >>=-state (get_note v existing.workspace_id existing.note_id) _ w (λ note u. refl)

  -- the same message again
  pub ingest_text_message-again :
      (m : Inbound) (w : World v)
      → m.channel ≡ channel
      → m.provider_message_id ≡ id
      → IsIngested w
      → ingest_text_message v m w ≡ answer_duplicate v row w
  unfolding ingest_text_message
  ingest_text_message-again m w c i h =
      let found : get_existing_ingest v m.channel m.provider_message_id w ≡ (ok (some row), w) =
        cc (c, i, get_existing-ingested w h) in
      rw found refl

  new_or_known-IsIngested :
      (m : Inbound) (o : Option InboundIdempotency)
      → (text_eq m.channel channel && text_eq m.provider_message_id id) ≡ false
      → Keeps IsIngested (new_or_known v m o)
  new_or_known-IsIngested m none other = ingest_new-IsIngested m other
  new_or_known-IsIngested m (some existing) other = λ u k. rw (answer_duplicate-state existing u) k

  ingest_other-IsIngested :
      (m : Inbound)
      → (text_eq m.channel channel && text_eq m.provider_message_id id) ≡ false
      → Keeps IsIngested (ingest_text_message v m)
  unfolding ingest_text_message
  ingest_other-IsIngested m other =
      >>=-Keeps IsIngested (get_existing_ingest v m.channel m.provider_message_id)
        (new_or_known v m) (unfold get_existing_ingest in λ u k. k)
        (λ o. new_or_known-IsIngested m o other)

  -- Another message is ingested, or the same one again.
  pub ingest_text_message-IsIngested : (m : Inbound) → Keeps IsIngested (ingest_text_message v m)
  ingest_text_message-IsIngested m w h =
      elim (Bool-cases (text_eq m.channel channel && text_eq m.provider_message_id id)) [
        | inl e ↦
            let c : m.channel ≡ channel = ground (arith, text_eq_iff m.channel channel) in
            let i : m.provider_message_id ≡ id =
              ground (arith, text_eq_iff m.provider_message_id id) in
            rw (ingest_text_message-again m w c i h, answer_duplicate-state row w) h
        | inr other ↦ ingest_other-IsIngested m other w h
      ]

pub one_or_none-none : {Row : Type 0} (xs : List Row) → one_or_none xs ≡ ok none → xs ≡ []
one_or_none-none [] h = refl
one_or_none-none (x ∷ []) h = absurd (ground arith)
one_or_none-none (x ∷ y ∷ xs) h = absurd (ground arith)

pub one_or_none-some :
    {Row : Type 0} (xs : List Row) (r : Row) → one_or_none xs ≡ ok (some r) → xs ≡ r ∷ []
one_or_none-some [] r h = absurd (ground arith)
one_or_none-some (x ∷ []) r h = ground arith
one_or_none-some (x ∷ y ∷ xs) r h = absurd (ground arith)

module _ (v : Services) (m : Inbound) (resp : InboundIngestResponse) where
  -- the row of an answer
  abbrev pub Names : InboundIdempotency → Type 0
  Names row =
      (row.note_id ≡ resp.note_id)
      × (row.workspace_id ≡ resp.workspace_id)
      × (row.user_id ≡ resp.user_id)

  abbrev pub Stored : World v → Type 0
  Stored u =
      (row : InboundIdempotency) × Names row × IsIngested v m.channel m.provider_message_id row u

  ingest_new-stores :
      (w u : World v)
      → select (is_key v m.channel m.provider_message_id) (v.ingests.rows w.ingests) ≡ []
      → ingest_new v m w ≡ (ok resp, u)
      → Stored u
  unfolding ingest_new
  ingest_new-stores w u empty =
      let kept = store_message-HasIngests v w.ingests m w refl in
      elim (Exec-cases (store_message v m) w) [
        | inr (e, w1, k) ↦ rw k (λ h. absurd (ground arith))
        | inl ((note, results), w1, k) ↦
            let same : w1.ingests ≡ w.ingests = cc (kept, k) in
            let row = row_for v m note in
            let only : IsIngested v m.channel m.provider_message_id row
                record w1 { ingests = v.ingests.insert row w1.ingests } =
              rw (v.ingests.insert_lem, select-append, same, empty, text_eq_refl, text_eq_refl)
                refl in
            rw k (λ h.
              let reached : record w1 { ingests = v.ingests.insert row w1.ingests } ≡ u =
                ap (λ x. x.1) h in
              (row, (ground arith, ground arith, ground arith), rw (sym reached) only))
      ]

  answer_duplicate-Names :
      (row : InboundIdempotency) (w u : World v)
      → answer_duplicate v row w ≡ (ok resp, u)
      → Names row
  answer_duplicate-Names row w u =
      elim (Result-cases
        (Repository.get v.tables.notes row.workspace_id row.note_id w.session.notes)) [
          | inl (note, k) ↦ rw k (λ h. (ground arith, ground arith, ground arith))
          | inr (e, k) ↦ rw k (λ h. absurd (ground arith))
        ]

  answer_duplicate-stores :
      (row : InboundIdempotency) (w u : World v)
      → IsIngested v m.channel m.provider_message_id row w
      → answer_duplicate v row w ≡ (ok resp, u)
      → Stored u
  answer_duplicate-stores row w u only h =
      let same : w ≡ u =
        sym (answer_duplicate-state v m.channel m.provider_message_id row row w)
        ∙ ap (λ x. x.1) h in
      (row, answer_duplicate-Names row w u h, rw (sym same) only)

  -- What is stored once an ingestion answered.
  pub ingest_text_message-stores :
      (w u : World v) → ingest_text_message v m w ≡ (ok resp, u) → Stored u
  unfolding ingest_text_message get_existing_ingest
  ingest_text_message-stores w u =
      let found = v.ingests.fetch (is_key v m.channel m.provider_message_id) w.ingests in
      let same = v.ingests.fetch_lem (is_key v m.channel m.provider_message_id) w.ingests in
      elim (found-cases (one_or_none found)) [
        | inl (e, k) ↦ rw k (λ h. absurd (ground arith))
        | inr (inl k) ↦ rw k (ingest_new-stores w u (sym same ∙ one_or_none-none found k))
        | inr (inr (row, k)) ↦
            rw k (answer_duplicate-stores row w u (sym same ∙ one_or_none-some found row k))
      ]
