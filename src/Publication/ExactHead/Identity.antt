-- ===== src/Publication/ExactHead/Identity.antt =====
-- What the search for the exact head finds: all candidates of the identity, of which there is at most one in
-- each state.
use mathlib.Core.List.{append-nil, append_assoc}
use mathlib.Core.Path.{subst}
use dev_platform.Base.{
  String, ◌≡◌, refl, sym, ap, ◌∙◌, Bool, true, false, ◌&&◌, ◌==◌, eq_iff, Option, none, some, map,
  arith, inl, inr, ◌⊎◌,
}
use dev_platform.Base.{List, [], ◌∷◌, ◌++◌, keep, if◌then◌else◌}
use dev_platform.Base.Json.{Json, Fields, close}
use dev_platform.Publication.ExactHead.{
  Found, LookupError, HeadLookup, available, not_available, several_open, several_merged,
  several_closed, open_and_merged, place_open, place_merged, place_closed, place_stale, place,
  nothing_found, concluded, state_of_pr, head_of_pr, normalised, stable_pr_ref, is_candidate,
  placed, step, scan, find_exact_head_pr,
}

abbrev pub optional : Option Fields → List Fields
optional none = []
optional (some pr) = pr ∷ []

abbrev pub one_if : Bool → Fields → List Fields
one_if b pr = if b then pr ∷ [] else []

available_inj : {f g : Found} → available f ≡ available g → f ≡ g
available_inj h = cc

never-available : {e : LookupError} {g : Found} → not_available e ≡ available g → ⊥
never-available h = cc

true-false : true ≡ false → ⊥
true-false h = cc

abbrev no_fields : Fields
no_fields = close

-- The pull request is added in the states that the flags name.
abbrev Adds : Bool → Bool → Bool → Fields → Found → Found → Type 0
Adds o m c pr f g =
    (optional g.exact_open ≡ optional f.exact_open ++ one_if o pr)
    × (optional g.exact_merged ≡ optional f.exact_merged ++ one_if m pr)
    × (optional g.exact_closed ≡ optional f.exact_closed ++ one_if c pr)

place_open-Adds :
    (pr : Fields) (f g : Found) → place_open pr f ≡ available g → Adds true false false pr f g
unfolding place_open
place_open-Adds pr f g h = go f.exact_open refl h
  where
    go :
        (o : Option Fields)
        → f.exact_open ≡ o
        → (elim o as (λ x. HeadLookup) [
          | none ↦ available (record f { exact_open = some pr })
          | some other ↦ not_available several_open
        ])
          ≡ available g
        → Adds true false false pr f g
    go none e h =
        subst (Adds true false false pr f) (available_inj h)
          (ap (λ x. optional x ++ (pr ∷ [])) (sym e), sym (append-nil _), sym (append-nil _))
    go (some other) e h = cc

place_merged-Adds :
    (pr : Fields) (f g : Found) → place_merged pr f ≡ available g → Adds false true false pr f g
unfolding place_merged
place_merged-Adds pr f g h = go f.exact_merged refl h
  where
    go :
        (o : Option Fields)
        → f.exact_merged ≡ o
        → (elim o as (λ x. HeadLookup) [
          | none ↦ available (record f { exact_merged = some pr })
          | some other ↦ not_available several_merged
        ])
          ≡ available g
        → Adds false true false pr f g
    go none e h =
        subst (Adds false true false pr f) (available_inj h)
          (sym (append-nil _), ap (λ x. optional x ++ (pr ∷ [])) (sym e), sym (append-nil _))
    go (some other) e h = cc

place_closed-Adds :
    (pr : Fields) (f g : Found) → place_closed pr f ≡ available g → Adds false false true pr f g
unfolding place_closed
place_closed-Adds pr f g h = go f.exact_closed refl h
  where
    go :
        (o : Option Fields)
        → f.exact_closed ≡ o
        → (elim o as (λ x. HeadLookup) [
          | none ↦ available (record f { exact_closed = some pr })
          | some other ↦ not_available several_closed
        ])
          ≡ available g
        → Adds false false true pr f g
    go none e h =
        subst (Adds false false true pr f) (available_inj h)
          (sym (append-nil _), sym (append-nil _), ap (λ x. optional x ++ (pr ∷ [])) (sym e))
    go (some other) e h = cc

Adds-same : (pr : Fields) (f : Found) → Adds false false false pr f f
Adds-same pr f = (sym (append-nil _), sym (append-nil _), sym (append-nil _))

place_stale-Adds :
    (pr : Fields) (f g : Found) → place_stale pr f ≡ available g → Adds false false false pr f g
unfolding place_stale
place_stale-Adds pr f g h = go f.stale_open h
  where
    go :
        (o : Option Fields)
        → (elim o as (λ x. HeadLookup) [
          | none ↦ available (record f { stale_open = some pr })
          | some other ↦ available f
        ])
          ≡ available g
        → Adds false false false pr f g
    go none h = subst (Adds false false false pr f) (available_inj h) (Adds-same pr f)
    go (some other) h = subst (Adds false false false pr f) (available_inj h) (Adds-same pr f)

apart : (s a b : String) → (b == a) ≡ false → (s == a) ≡ true → (s == b) ≡ false
apart s a b d h = ground (arith, eq_iff s a, eq_iff s b, eq_iff b a)

place_flags :
    (a o m c : Bool) (pr : Fields) (f g : Found)
    → (o ≡ true → m ≡ false)
    → (o ≡ true → c ≡ false)
    → (m ≡ true → c ≡ false)
    → (if a && o
        then place_open pr f
        else if a && m
        then place_merged pr f
        else if a && c
        then place_closed pr f
        else if o
        then place_stale pr f
        else available f)
      ≡ available g
    → Adds (a && o) (a && m) (a && c) pr f g
place_flags false true m c pr f g p q r h = place_stale-Adds pr f g h
place_flags false false m c pr f g p q r h =
    subst (Adds false false false pr f) (available_inj h) (Adds-same pr f)
place_flags true true true c pr f g p q r h = absurd (true-false (p refl))
place_flags true true false true pr f g p q r h = absurd (true-false (q refl))
place_flags true true false false pr f g p q r h = place_open-Adds pr f g h
place_flags true false true true pr f g p q r h = absurd (true-false (r refl))
place_flags true false true false pr f g p q r h = place_merged-Adds pr f g h
place_flags true false false true pr f g p q r h = place_closed-Adds pr f g h
place_flags true false false false pr f g p q r h =
    subst (Adds false false false pr f) (available_inj h) (Adds-same pr f)

place-Adds :
    (at_head : Bool) (s : String) (pr : Fields) (f g : Found)
    → place at_head s pr f ≡ available g
    → Adds (at_head && s == "OPEN") (at_head && s == "MERGED") (at_head && s == "CLOSED") pr f g
unfolding place
place-Adds at_head s pr f g h =
    place_flags at_head (s == "OPEN") (s == "MERGED") (s == "CLOSED") pr f g
      (apart s "OPEN" "MERGED" refl) (apart s "OPEN" "CLOSED" refl) (apart s "MERGED" "CLOSED" refl)
      h

module _ (upper : String → String) (text_of : Json → String)
    (branch base_branch local_head : String) where
  -- A candidate of the branch and base, with the exact head and the state.
  abbrev pub is_exact : String → Fields → Bool
  is_exact state c =
      is_candidate upper text_of branch base_branch local_head c
      && (head_of_pr upper text_of c == local_head && state_of_pr upper text_of c == state)

  abbrev pub exact_with : String → List Fields → List Fields
  exact_with state cs = map (normalised upper text_of) (keep (is_exact state) cs)

  -- What has been found grows by the exact candidates.
  abbrev Grows : List Fields → Found → Found → Type 0
  Grows cs f g =
      (optional g.exact_open ≡ optional f.exact_open ++ exact_with "OPEN" cs)
      × (optional g.exact_merged ≡ optional f.exact_merged ++ exact_with "MERGED" cs)
      × (optional g.exact_closed ≡ optional f.exact_closed ++ exact_with "CLOSED" cs)

  one_if-map :
      (b : Bool) (c : Fields)
      → one_if b (normalised upper text_of c)
        ≡ map (normalised upper text_of) (if b then c ∷ [] else [])
  one_if-map true c = refl
  one_if-map false c = refl

  placed-Grows :
      (c : Fields) (o : Option String) (f g : Found)
      → placed upper text_of branch base_branch local_head c o f ≡ available g
      → is_candidate upper text_of branch base_branch local_head c ≡ true
      → Grows (c ∷ []) f g
  unfolding placed
  placed-Grows c none f g h k = absurd (never-available h)
  placed-Grows c (some ref) f g h k =
      let (o, m, x) =
        place-Adds (head_of_pr upper text_of c == local_head) (state_of_pr upper text_of c)
          (normalised upper text_of c) f g h in
      rw k (
        o ∙ ap (λ t. optional f.exact_open ++ t) (one_if-map _ c),
        m ∙ ap (λ t. optional f.exact_merged ++ t) (one_if-map _ c),
        x ∙ ap (λ t. optional f.exact_closed ++ t) (one_if-map _ c),
      )

  passed_by :
      (c : Fields) (f g : Found)
      → is_candidate upper text_of branch base_branch local_head c ≡ false
      → f ≡ g
      → Grows (c ∷ []) f g
  passed_by c f g e h = rw e (subst (Adds false false false c f) h (Adds-same c f))

  step-Grows :
      (c : Fields) (f g : Found)
      → step upper text_of branch base_branch local_head c f ≡ available g
      → Grows (c ∷ []) f g
  unfolding step
  step-Grows c f g h = go (is_candidate upper text_of branch base_branch local_head c) refl h
    where
      go :
          (b : Bool)
          → is_candidate upper text_of branch base_branch local_head c ≡ b
          → (if b
              then placed upper text_of branch base_branch local_head c
                  (stable_pr_ref upper text_of (normalised upper text_of c))
                  f
              else available f)
            ≡ available g
          → Grows (c ∷ []) f g
      go true e h = placed-Grows c _ f g h e
      go false e h = passed_by c f g e (available_inj h)

  exact_with-cons :
      (state : String) (c : Fields) (cs : List Fields)
      → exact_with state (c ∷ []) ++ exact_with state cs ≡ exact_with state (c ∷ cs)
  exact_with-cons state c cs =
      elim (is_exact state c)
        as (λ b.
          map (normalised upper text_of) (if b then c ∷ [] else []) ++ exact_with state cs
          ≡ map (normalised upper text_of)
              (if b then c ∷ keep (is_exact state) cs else keep (is_exact state) cs)) [
                | true ↦ refl
                | false ↦ refl
              ]

  joined :
      (state : String) (c : Fields) (cs : List Fields) (xs ys zs : List Fields)
      → ys ≡ xs ++ exact_with state (c ∷ [])
      → zs ≡ ys ++ exact_with state cs
      → zs ≡ xs ++ exact_with state (c ∷ cs)
  joined state c cs xs ys zs h k =
      k
      ∙ ap (λ t. t ++ exact_with state cs) h
      ∙ (append_assoc xs (exact_with state (c ∷ [])) (exact_with state cs)
          ∙ ap (λ t. xs ++ t) (exact_with-cons state c cs))

  scan-eq-available :
      (cs : List Fields) (l : HeadLookup) (g : Found)
      → scan upper text_of branch base_branch local_head cs l ≡ available g
      → (f : Found) × (l ≡ available f)
  unfolding scan
  scan-eq-available [] (not_available e) g h = absurd (never-available h)
  scan-eq-available (c ∷ cs) (not_available e) g h = absurd (never-available h)
  scan-eq-available cs (available f) g h = (f, refl)

  scan-Grows :
      (cs : List Fields) (f g : Found)
      → scan upper text_of branch base_branch local_head cs (available f) ≡ available g
      → Grows cs f g
  unfolding scan
  scan-Grows [] f g h =
      subst (Adds false false false no_fields f) (available_inj h) (Adds-same no_fields f)
  scan-Grows (c ∷ cs) f g h =
      let (f', e) =
        scan-eq-available cs (step upper text_of branch base_branch local_head c f) g h in
      let (o, m, x) = step-Grows c f f' e in
      let (o', m', x') =
        scan-Grows cs f' g
          (subst (λ l. scan upper text_of branch base_branch local_head cs l ≡ available g) e h) in
      (
        joined "OPEN" c cs _ _ _ o o',
        joined "MERGED" c cs _ _ _ m m',
        joined "CLOSED" c cs _ _ _ x x',
      )

  concluded-eq-available :
      (l : HeadLookup) (g : Found)
      → concluded l ≡ available g
      → (l ≡ available g) × ((g.exact_open ≡ none) ⊎ (g.exact_merged ≡ none))
  unfolding concluded
  concluded-eq-available (not_available e) g h = absurd (never-available h)
  concluded-eq-available (available f) g h = go f.exact_open refl f.exact_merged refl h
    where
      go :
          (o : Option Fields)
          → f.exact_open ≡ o
          → (m : Option Fields) → f.exact_merged ≡ m
          → (elim o as (λ x. HeadLookup) [
            | none ↦ available f
            | some pr ↦ elim m as (λ x. HeadLookup) [
              | none ↦ available f
              | some other ↦ not_available open_and_merged
            ]
          ])
            ≡ available g
          → (available f ≡ available g) × ((g.exact_open ≡ none) ⊎ (g.exact_merged ≡ none))
      go none e m e' h = (h, inl (ap (λ t. t.exact_open) (sym (available_inj h)) ∙ e))
      go (some pr) e none e' h = (h, inr (ap (λ t. t.exact_merged) (sym (available_inj h)) ∙ e'))
      go (some pr) e (some other) e' h = absurd (never-available h)

  -- Where the search is available, its open, merged and closed pull requests are each all the candidates of
  -- the branch, the base, the exact head and that state, with state and head normalised, and it has no open
  -- or no merged one.
  pub find_exact_head_pr-exact :
      (candidates : List Fields) (found : Found)
      → find_exact_head_pr upper text_of branch base_branch local_head (some candidates)
        ≡ available found
      → (optional found.exact_open ≡ exact_with "OPEN" candidates)
        × (optional found.exact_merged ≡ exact_with "MERGED" candidates)
        × (optional found.exact_closed ≡ exact_with "CLOSED" candidates)
        × ((found.exact_open ≡ none) ⊎ (found.exact_merged ≡ none))
  unfolding find_exact_head_pr
  find_exact_head_pr-exact candidates found h =
      let (e, one) = concluded-eq-available _ found h in
      let (o, m, x) = scan-Grows candidates nothing_found found e in (o, m, x, one)
