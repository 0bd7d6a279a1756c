-- ===== src/Checks/Select/Attribution.antt =====
-- A selected check lists only paths that its own rule matches, and no check is selected twice.
use dev_platform.Base.{
  String, ◌≡◌, refl, sym, ◌∙◌, inl, inr, Bool, true, false, ◌&&◌, ◌==◌, eq_iff, ap,
}
use dev_platform.Base.{
  List, [], ◌∷◌, ◌++◌, map, arith, any, all, contains, All, Distinct, Distinct-append,
}
use mathlib.Core.List.{map-append}
use dev_platform.Base.{contains-append, all-append, if◌then◌else◌, Bool-cases}
use dev_platform.Checks.Config.{Rule, Check}
use dev_platform.Checks.Select.{Selection, new_check, append_path, select_rule, rule_matches}
use dev_platform.Checks.Select.{match_rules, note_unmatched, select_paths, start}

module _ (fits : String → String → Bool) where
  abbrev check_fits : Check → Bool
  check_fits c = all (λ q. fits q c.id) c.paths

  all-append_path :
      (id path : String) (cs : List Check)
      → fits path id ≡ true
      → all check_fits cs ≡ true
      → all check_fits (append_path id path cs) ≡ true
  unfolding append_path
  all-append_path id path [] f h = refl
  all-append_path id path (c ∷ cs) f h = ground (
    arith,
    all-append_path id path cs f,
    eq_iff c.id id,
    all-append (λ (q : String). fits q c.id) c.paths (path ∷ []),
  )

  all-select_rule :
      (path id : String) (rule : Rule) (s : Selection)
      → fits path id ≡ true
      → all check_fits s.selected ≡ true
      → all check_fits (select_rule path id rule s).selected ≡ true
  unfolding select_rule new_check
  all-select_rule path id rule s f h = ground (
    arith,
    all-append_path id path s.selected f,
    all-append_path id path (s.selected ++ (new_check id rule ∷ [])) f,
    all-append check_fits s.selected (new_check id rule ∷ []),
  )

  module _ (fnmatch : String → String → Bool) where
    abbrev Sound : List (String × Rule) → Type 0
    Sound = All (λ (id, rule). (q : String) → rule_matches fnmatch q rule ≡ true → fits q id ≡ true)

    all-match_rules :
        (path : String) (rules : List (String × Rule)) (m : Bool) (s : Selection)
        → Sound rules
        → all check_fits s.selected ≡ true
        → all check_fits (match_rules fnmatch path rules (m, s)).1.selected ≡ true
    unfolding match_rules
    all-match_rules path [] m s k h = h
    all-match_rules path ((id, rule) ∷ rules) m s (here, k) h =
        go (rule_matches fnmatch path rule) refl (all-match_rules path rules)
      where
        go :
            (b : Bool)
            → rule_matches fnmatch path rule ≡ b
            → ((m : Bool) (s : Selection)
                → Sound rules
                → all check_fits s.selected ≡ true
                → all check_fits (match_rules fnmatch path rules (m, s)).1.selected ≡ true)
            → all check_fits
                (match_rules fnmatch path rules
                  (if b then (true, select_rule path id rule s) else (m, s))).1.selected
              ≡ true
        go true e ih = ih true _ k (all-select_rule path id rule s (here path e) h)
        go false e ih = ih m s k h

    all-note_unmatched :
        (path : String) (m : Bool) (s : Selection)
        → all check_fits s.selected ≡ true
        → all check_fits (note_unmatched path (m, s)).selected ≡ true
    unfolding note_unmatched
    all-note_unmatched path true s h = h
    all-note_unmatched path false s h = h

    pub all-select_paths :
        (rules : List (String × Rule)) (paths : List String) (s : Selection)
        → Sound rules
        → all check_fits s.selected ≡ true
        → all check_fits (select_paths fnmatch rules paths s).selected ≡ true
    unfolding select_paths
    all-select_paths rules [] s k h = h
    all-select_paths rules (path ∷ paths) s k h = all-select_paths rules paths _ k (
        all-note_unmatched path (match_rules fnmatch path rules (false, s)).0
          (match_rules fnmatch path rules (false, s)).1 (all-match_rules path rules false s k h))

module _ (fnmatch : String → String → Bool) where
  -- The configuration has a rule under this id that matches the path.
  abbrev pub backed : List (String × Rule) → String → String → Bool
  backed rules q i = any (λ (id, rule). id == i && rule_matches fnmatch q rule) rules

  Sound-mono :
      (f g : String → String → Bool)
      → ((q id : String) → f q id ≡ true → g q id ≡ true)
      → (rules : List (String × Rule)) → Sound f fnmatch rules
      → Sound g fnmatch rules
  Sound-mono f g k [] h = tt
  Sound-mono f g k ((id, rule) ∷ rules) (h, hs) = (λ q m. k q id (h q m), Sound-mono f g k rules hs)

  Sound-backed : (rules : List (String × Rule)) → Sound (backed rules) fnmatch rules
  Sound-backed [] = tt
  Sound-backed ((id, rule) ∷ rules) = (
    λ q m. ground (arith, eq_iff id id),
    Sound-mono (backed rules) (backed ((id, rule) ∷ rules)) (λ q i h. ground arith) rules
        (Sound-backed rules),
  )

  -- Each path that a check selected by `select_paths` lists matches a rule that the configuration has under
  -- the check's id.
  pub select_paths-backed :
      (rules : List (String × Rule)) (paths : List String)
      → all
          (λ c. all (λ q. backed rules q c.id) c.paths)
          (select_paths fnmatch rules paths start).selected
        ≡ true
  select_paths-backed rules paths =
      all-select_paths (backed rules) fnmatch rules paths start (Sound-backed rules) refl

-- The ids of the selected checks are what `seen` holds, and no id stands twice.
record IsIndexed (s : Selection) : Type 0 where
  same : (i : String) → contains s.seen i ≡ contains (map (λ c. c.id) s.selected) i
  distinct : Distinct (map (λ c. c.id) s.selected)

ids-append_path :
    (id path : String) (cs : List Check)
    → map (λ c. c.id) (append_path id path cs) ≡ map (λ c. c.id) cs
unfolding append_path
ids-append_path id path [] = refl
ids-append_path id path (c ∷ cs) =
    elim (c.id == id)
      as (λ b.
        map (λ c. c.id)
          (if b
            then record c { paths = c.paths ++ (path ∷ []) } ∷ cs
            else c ∷ append_path id path cs)
        ≡ c.id ∷ map (λ c. c.id) cs) [
          | true ↦ refl
          | false ↦ ap (λ is. c.id ∷ is) (ids-append_path id path cs)
        ]

select_rule-IsIndexed :
    (path id : String) (rule : Rule) (s : Selection)
    → IsIndexed s
    → IsIndexed (select_rule path id rule s)
unfolding select_rule new_check
select_rule-IsIndexed path id rule s v = elim (Bool-cases (contains s.seen id)) [
  | inl e ↦ rw e (record {
    same = λ i. v.same i ∙ rw ids-append_path;
    distinct = rw ids-append_path v.distinct;
  })
  | inr e ↦ rw e (record {
    same = λ i.
        rw (ids-append_path, map-append, contains-append) (ground (arith, v.same i, eq_iff i id));
    distinct =
        rw (ids-append_path, map-append) (Distinct-append _ id v.distinct (sym (v.same id) ∙ e));
  })
]

module _ (fnmatch : String → String → Bool) where
  match_rules-IsIndexed :
      (path : String) (rules : List (String × Rule)) (m : Bool) (s : Selection)
      → IsIndexed s
      → IsIndexed (match_rules fnmatch path rules (m, s)).1
  unfolding match_rules
  match_rules-IsIndexed path [] m s v = v
  match_rules-IsIndexed path ((id, rule) ∷ rules) m s v =
      elim (rule_matches fnmatch path rule)
        as (λ b.
          IsIndexed
            (match_rules fnmatch path rules
              (if b then (true, select_rule path id rule s) else (m, s))).1) [
                | true ↦
                    match_rules-IsIndexed path rules true _ (select_rule-IsIndexed path id rule s v)
                | false ↦ match_rules-IsIndexed path rules m s v
              ]

  note_unmatched-IsIndexed :
      (path : String) (m : Bool) (s : Selection)
      → IsIndexed s
      → IsIndexed (note_unmatched path (m, s))
  unfolding note_unmatched
  note_unmatched-IsIndexed path true s v = v
  note_unmatched-IsIndexed path false s v = record { same = v.same; distinct = v.distinct }

  select_paths-IsIndexed :
      (rules : List (String × Rule)) (paths : List String) (s : Selection)
      → IsIndexed s
      → IsIndexed (select_paths fnmatch rules paths s)
  unfolding select_paths
  select_paths-IsIndexed rules [] s v = v
  select_paths-IsIndexed rules (path ∷ paths) s v =
      select_paths-IsIndexed rules paths _
        (note_unmatched-IsIndexed path _ _ (match_rules-IsIndexed path rules false s v))

  -- The ids of the checks that `select_paths` selects are distinct.
  pub select_paths-Distinct :
      (rules : List (String × Rule)) (paths : List String)
      → Distinct (map (λ c. c.id) (select_paths fnmatch rules paths start).selected)
  select_paths-Distinct rules paths =
      (select_paths-IsIndexed rules paths start
        (record { same = λ i. refl; distinct = tt })).distinct
