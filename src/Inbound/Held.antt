-- ===== src/Inbound/Held.antt =====
-- One row of a phone in the table of links, among changes of others.
use system_dashnote.Prelude.{
  ℕ, ◌≡◌, ◌≢◌, refl, ◌∙◌, ap, sym, Bool, Bool-cases, inl, inr, ◌==◌, true, false, not, List, [],
  ◌∷◌, map, select, select-append, All, select-All, ==_iff, All-select, All-append, All-map,
  All-weaken, arith, if◌then◌else◌,
}
use system_dashnote.Prelude.Text.{text_eq}
use system_dashnote.Inbound.Models.{Services, WhatsAppIdentityLink}

-- `l` is the only row of its phone, and its id is no other row's.
abbrev pub IsHeld : WhatsAppIdentityLink → List WhatsAppIdentityLink → Type 0
IsHeld l rows =
    (select (λ x. text_eq x.phone l.phone) rows ≡ l ∷ []) × All (λ x. x.id ≡ l.id → x ≡ l) rows

All-along :
    (Q : WhatsAppIdentityLink → Type 0) (xs ys : List WhatsAppIdentityLink)
    → xs ≡ ys
    → All Q ys
    → All Q xs
All-along Q xs ys e h = rw e h

module _ (p : WhatsAppIdentityLink → Bool) (l : WhatsAppIdentityLink) where
  pub All-found :
      (Q : WhatsAppIdentityLink → Type 0) (rows : List WhatsAppIdentityLink)
      → select p rows ≡ l ∷ []
      → All Q rows
      → Q l
  All-found Q rows h k = (All-along Q (l ∷ []) (select p rows) (sym h) (All-select Q p rows k)).0

  pub passes : (rows : List WhatsAppIdentityLink) → select p rows ≡ l ∷ [] → p l ≡ true
  passes rows h =
      (All-along (λ x. p x ≡ true) (l ∷ []) (select p rows) (sym h) (select-All p rows)).0

  All-unselect :
      (Q : WhatsAppIdentityLink → Type 0) (rows : List WhatsAppIdentityLink)
      → All Q (select p rows)
      → All (λ x. p x ≡ true → Q x) rows
  All-unselect Q [] = λ h. tt
  All-unselect Q (x ∷ rows) = elim (Bool-cases (p x)) [
    | inl e ↦ rw e (λ h. ((λ on. h.0), All-unselect Q rows h.1))
    | inr e ↦ rw e (λ h. ((λ on. absurd (ground arith)), All-unselect Q rows h))
  ]

  -- Every row that passes is `l`.
  pub only :
      (rows : List WhatsAppIdentityLink)
      → select p rows ≡ l ∷ []
      → All (λ x. p x ≡ true → x ≡ l) rows
  only rows h =
      All-unselect (λ x. x ≡ l) rows (All-along (λ x. x ≡ l) (select p rows) (l ∷ []) h (refl, tt))

  -- An UPDATE that no row notices.
  select-update :
      (c : WhatsAppIdentityLink → Bool) (r : WhatsAppIdentityLink)
      → p r ≡ false
      → (rows : List WhatsAppIdentityLink) → All (λ x. c x ≡ true → p x ≡ false) rows
      → select p (map (λ x. if c x then r else x) rows) ≡ select p rows
  select-update c r hidden [] h = refl
  select-update c r hidden (x ∷ rows) h = elim (Bool-cases (c x)) [
    | inl e ↦ rw (e, hidden, h.0 e) (select-update c r hidden rows h.1)
    | inr e ↦ rw e (elim (Bool-cases (p x)) [
      | inl f ↦ rw f (ap (λ ys. x ∷ ys) (select-update c r hidden rows h.1))
      | inr f ↦ rw f (select-update c r hidden rows h.1)
    ])
  ]

  -- A DELETE of others.
  select-remove :
      (c : WhatsAppIdentityLink → Bool) (rows : List WhatsAppIdentityLink)
      → All (λ x. c x ≡ true → p x ≡ false) rows
      → select p (select (λ x. not (c x)) rows) ≡ select p rows
  select-remove c [] h = refl
  select-remove c (x ∷ rows) h = elim (Bool-cases (c x)) [
    | inl e ↦ rw (e, h.0 e) (select-remove c rows h.1)
    | inr e ↦ rw e (elim (Bool-cases (p x)) [
      | inl f ↦ rw f (ap (λ ys. x ∷ ys) (select-remove c rows h.1))
      | inr f ↦ rw f (select-remove c rows h.1)
    ])
  ]

module _ (v : Services) (l : WhatsAppIdentityLink) where
  abbrev pub on_phone : WhatsAppIdentityLink → Bool
  on_phone x = text_eq x.phone l.phone

  abbrev pub Held : v.links.State → Type 0
  Held s = IsHeld l (v.links.rows s)

  -- the rows of another id are not of the phone
  hides :
      (id : ℕ) (rows : List WhatsAppIdentityLink)
      → id ≢ l.id
      → select on_phone rows ≡ l ∷ []
      → All (λ x. (x.id == id) ≡ true → on_phone x ≡ false) rows
  hides id rows other h =
      All-weaken (λ x. on_phone x ≡ true → x ≡ l)
        (λ x same same_id. elim (Bool-cases (on_phone x)) [
          | inl on ↦ absurd (other (cc ((==_iff x.id id).0 same_id, ap (λ y. y.id) (same on))))
          | inr off ↦ off
        ])
        rows (only on_phone l rows h)

  pub update-Held :
      (r : WhatsAppIdentityLink) (s : v.links.State)
      → r.id ≢ l.id
      → on_phone r ≡ false
      → Held s
      → Held (v.links.update (λ x. x.id == r.id) (λ x. r) s)
  update-Held r s other hidden (h, keyed) = rw v.links.update_lem (
    select-update on_phone l (λ x. x.id == r.id) r hidden (v.links.rows s)
          (hides r.id (v.links.rows s) other h)
        ∙ h,
    All-map _ (λ x. if x.id == r.id then r else x) (v.links.rows s)
        (All-weaken (λ x. x.id ≡ l.id → x ≡ l)
          (λ x k. elim (Bool-cases (x.id == r.id)) [
            | inl e ↦ rw e (λ same. absurd (other same))
            | inr e ↦ rw e k
          ])
          (v.links.rows s) keyed),
  )

  pub remove-Held :
      (id : ℕ) (s : v.links.State) → id ≢ l.id → Held s → Held (v.links.remove (λ x. x.id == id) s)
  remove-Held id s other (h, keyed) = rw v.links.remove_lem (
    select-remove on_phone l (λ x. x.id == id) (v.links.rows s) (hides id (v.links.rows s) other h)
        ∙ h,
    All-select _ _ (v.links.rows s) keyed,
  )

  pub insert-Held :
      (r : WhatsAppIdentityLink) (s : v.links.State)
      → All (λ x. x.id ≢ r.id) (v.links.rows s)
      → on_phone r ≡ false
      → Held s
      → Held (v.links.insert r s)
  insert-Held r s fresh hidden (h, keyed) =
      let other : l.id ≢ r.id = All-found on_phone l (λ x. x.id ≢ r.id) (v.links.rows s) h fresh in
      rw v.links.insert_lem (
        rw (select-append, hidden, h) refl,
        All-append _ (v.links.rows s) _ keyed ((λ same. absurd (other (sym same))), tt),
      )
