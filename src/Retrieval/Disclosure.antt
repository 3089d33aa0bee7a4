-- ===== src/Retrieval/Disclosure.antt =====
-- What a search gives its caller to read.
use system_dashnote.Prelude.{
  ℕ, ◌≡◌, refl, sym, ◌⊎◌, inl, inr, true, List, [], ◌∷◌, ◌++◌, map, take, ltb, String, All, All-map,
  All-append, All-take, All-weaken, Bool-cases, arith, any_of, str_eq,
}
use system_dashnote.Prelude.Text.{Text, codes, text_eq_iff}
use system_dashnote.Prelude.Exec.{Result-cases, ok, Keeps, >>=-Keeps, from_result}
use system_dashnote.Retrieval.Filter.{Payload, build_rbac_filter}
use system_dashnote.Retrieval.Search.{
  Point, Client, SourceType, SearchResult, map_point, insert_result, sort_by_score, search,
  Collection,
}

-- The result is of the workspace, and public or the user's own unless the role is staff.
abbrev pub IsReadable : Text → Text → String → SearchResult → Type 0
IsReadable workspace user role r =
    (r.workspace_id ≡ workspace)
    × ((any_of (str_eq role) ("owner" ∷ "admin" ∷ []) ≡ true)
        ⊎ ((r.visibility ≡ codes "public") ⊎ (r.created_by ≡ user)))

module _ (P : SearchResult → Type 0) where
  All-insert_result :
      (r : SearchResult) (rs : List SearchResult) → P r → All P rs → All P (insert_result r rs)
  All-insert_result r [] h k = (h, tt)
  All-insert_result r (s ∷ rs) h k = elim (Bool-cases (ltb r.score s.score)) [
    | inl e ↦ rw e (k.0, All-insert_result r rs h k.1)
    | inr e ↦ rw e (h, k)
  ]

  All-sort_by_score : (rs : List SearchResult) → All P rs → All P (sort_by_score rs)
  unfolding sort_by_score
  All-sort_by_score [] h = tt
  All-sort_by_score (r ∷ rs) h =
      All-insert_result r (sort_by_score rs) h.0 (All-sort_by_score rs h.1)

module _ (c : Client) (workspace user : Text) (role : String) where
  -- What the filter says of a payload.
  IsAllowed : Payload → Type 0
  IsAllowed p =
      (p.workspace_id ≡ workspace)
      × ((any_of (str_eq role) ("owner" ∷ "admin" ∷ []) ≡ true)
          ⊎ ((p.visibility ≡ codes "public") ⊎ (p.created_by ≡ user)))

  matches-IsAllowed :
      (p : Payload) → c.store.matches (build_rbac_filter workspace user role) p ≡ true → IsAllowed p
  unfolding build_rbac_filter IsAllowed
  matches-IsAllowed p =
      let workspace_iff = text_eq_iff p.workspace_id workspace in
      let public_iff = text_eq_iff p.visibility (codes "public") in
      let own_iff = text_eq_iff p.created_by user in
      elim (Bool-cases (any_of (str_eq role) ("owner" ∷ "admin" ∷ []))) [
        | inl staff ↦
            rw (staff, c.store.matches_lem) (λ h. (ground (arith, workspace_iff), inl refl))
        | inr member ↦
            rw (member, c.store.matches_lem)
              (λ h. (ground (arith, workspace_iff), inr (ground (arith, public_iff, own_iff))))
      ]

  map_point-IsReadable :
      (source : SourceType) (p : Point)
      → IsAllowed p.payload
      → IsReadable workspace user role (map_point source p)
  unfolding IsAllowed
  map_point-IsReadable source p (same, inl staff) = (same, inl staff)
  map_point-IsReadable source p (same, inr (inl public)) = (same, inr (inl (rw public refl)))
  map_point-IsReadable source p (same, inr (inr own)) = (same, inr (inr own))

  found-IsReadable :
      (source : SourceType) (collection : Collection) (q : c.Vector) (limit : ℕ) (ps : List Point)
      → c.query_points collection q (build_rbac_filter workspace user role) limit ≡ ok ps
      → All (IsReadable workspace user role) (map (map_point source) ps)
  found-IsReadable source collection q limit ps h =
      All-map (IsReadable workspace user role) (map_point source) ps (
        All-weaken (λ p. c.store.matches (build_rbac_filter workspace user role) p.payload ≡ true)
          (λ p m. map_point-IsReadable source p (matches-IsAllowed p.payload m)) ps
          (c.query_points-matches collection q (build_rbac_filter workspace user role) limit ps h))

  -- Every result of a search is of the caller's workspace, and public or the caller's own unless
  -- the caller is an owner or admin.
  pub search-IsReadable :
      {S : Type 0} (query_text : Text) (limit : ℕ) (s t : S) (rs : List SearchResult)
      → search c query_text workspace user role limit s ≡ (ok rs, t)
      → All (IsReadable workspace user role) rs
  unfolding search
  search-IsReadable query_text limit s t rs =
      let readable = IsReadable workspace user role in
      let filter = build_rbac_filter workspace user role in
      elim (Result-cases (c.embed_single query_text)) [
        | inr (e, h) ↦ rw h (λ k. absurd (ground arith))
        | inl (q, h) ↦ rw h (elim (Result-cases (c.query_points Collection.notes q filter limit)) [
          | inr (e, h1) ↦ rw h1 (λ k. absurd (ground arith))
          | inl (ns, h1) ↦
              rw h1 (elim (Result-cases (c.query_points Collection.files q filter limit)) [
                | inr (e, h2) ↦ rw h2 (λ k. absurd (ground arith))
                | inl (fs, h2) ↦ rw h2 (λ k.
                    let results =
                      map (map_point SourceType.note) ns ++ map (map_point SourceType.file) fs in
                    let same : take limit (sort_by_score results) ≡ rs = ground arith in
                    rw (sym same) (
                      All-take readable limit (sort_by_score results) (
                        All-sort_by_score readable results (
                          All-append readable (map (map_point SourceType.note) ns) _
                            (found-IsReadable SourceType.note Collection.notes q limit ns h1)
                            (found-IsReadable SourceType.file Collection.files q limit fs h2)))))
              ])
        ])
      ]

  -- A search changes nothing.
  pub search-Keeps :
      {S : Type 0} (P : S → Type 0) (query_text : Text) (limit : ℕ)
      → Keeps P (search c query_text workspace user role limit)
  unfolding search
  search-Keeps P query_text limit =
      >>=-Keeps P (from_result (c.embed_single query_text)) _ (λ s h. h)
        (λ q.
          >>=-Keeps P (from_result (c.query_points Collection.notes q _ limit)) _ (λ s h. h)
            (λ ns.
              >>=-Keeps P (from_result (c.query_points Collection.files q _ limit)) _ (λ s h. h)
                (λ fs s h. h)))
