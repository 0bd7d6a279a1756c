-- ===== src/Checks/Select/Loop.antt =====
-- What one path and one rule do to the state of the selection loop.
use dev_platform.Base.{String, ◌≡◌, refl, ◌∙◌, Bool, true, false, ◌||◌, ◌==◌, eq_iff, if◌then◌else◌}
use dev_platform.Base.{List, [], ◌∷◌, ◌++◌, arith, any, contains, any-append, contains-append}
use dev_platform.Checks.Config.{Rule, Check}
use dev_platform.Checks.Select.{Selection, new_check, append_path, select_rule, rule_matches}
use dev_platform.Checks.Select.{match_rules}

-- Some check of the list has this `id`, or lists this path.
abbrev pub has_id : String → List Check → Bool
has_id i cs = any (λ c. c.id == i) cs

abbrev pub listed : String → List Check → Bool
listed q cs = any (λ c. contains c.paths q) cs

module _ (id path : String) where
  listed-append_path :
      (cs : List Check) → has_id id cs ≡ true → listed path (append_path id path cs) ≡ true
  unfolding append_path
  listed-append_path [] h = cc
  listed-append_path (c ∷ cs) h =
      ground
        (arith, listed-append_path cs, contains-append c.paths (path ∷ []) path, eq_iff path path)

  listed-append_path_of :
      (q : String) (cs : List Check) → listed q cs ≡ true → listed q (append_path id path cs) ≡ true
  unfolding append_path
  listed-append_path_of q [] h = cc
  listed-append_path_of q (c ∷ cs) h =
      ground (arith, listed-append_path_of q cs, contains-append c.paths (path ∷ []) q)

  has_id-append_path :
      (i : String) (cs : List Check) → has_id i (append_path id path cs) ≡ has_id i cs
  unfolding append_path
  has_id-append_path i [] = refl
  has_id-append_path i (c ∷ cs) = ground (arith, has_id-append_path i cs)

-- The set `seen` holds ids of selected checks, and `q` is listed if the flag says so.
pub record IsTracked (q : String) (flag : Bool) (s : Selection) : Type 0 where
  pub seen_selected : (i : String) → contains s.seen i ≡ true → has_id i s.selected ≡ true
  pub listed_path : flag ≡ true → listed q s.selected ≡ true

seen-select_rule :
    (path id : String) (rule : Rule) (s : Selection)
    → ((i : String) → contains s.seen i ≡ true → has_id i s.selected ≡ true)
    → (i : String) → contains (select_rule path id rule s).seen i ≡ true
    → has_id i (select_rule path id rule s).selected ≡ true
unfolding select_rule new_check
seen-select_rule path id rule s h i m = ground (
  arith,
  h i,
  h id,
  eq_iff i id,
  eq_iff id i,
  has_id-append_path id path i s.selected,
  has_id-append_path id path i (s.selected ++ (new_check id rule ∷ [])),
  any-append (λ (c : Check). c.id == i) s.selected (new_check id rule ∷ []),
)

listed-select_rule :
    (path id : String) (rule : Rule) (s : Selection)
    → ((i : String) → contains s.seen i ≡ true → has_id i s.selected ≡ true)
    → listed path (select_rule path id rule s).selected ≡ true
unfolding select_rule new_check
listed-select_rule path id rule s h = ground (
  arith,
  h id,
  eq_iff id id,
  listed-append_path id path s.selected,
  listed-append_path id path (s.selected ++ (new_check id rule ∷ [])),
  any-append (λ (c : Check). c.id == id) s.selected (new_check id rule ∷ []),
)

listed-select_rule_of :
    (path id : String) (rule : Rule) (s : Selection) (q : String)
    → listed q s.selected ≡ true
    → listed q (select_rule path id rule s).selected ≡ true
unfolding select_rule new_check
listed-select_rule_of path id rule s q m = ground (
  arith,
  listed-append_path_of id path q s.selected,
  listed-append_path_of id path q (s.selected ++ (new_check id rule ∷ [])),
  any-append (λ (c : Check). contains c.paths q) s.selected (new_check id rule ∷ []),
)

unknown-select_rule :
    (path id : String) (rule : Rule) (s : Selection)
    → (select_rule path id rule s).unknown ≡ s.unknown
unfolding select_rule
unknown-select_rule path id rule s = ground arith

module _ (fnmatch : String → String → Bool) where
  abbrev pub some_rule_matches : List (String × Rule) → String → Bool
  some_rule_matches rules path = any (λ (id, rule). rule_matches fnmatch path rule) rules

  pub match_rules-IsTracked :
      (path : String) (rules : List (String × Rule)) (m : Bool) (s : Selection)
      → IsTracked path m s
      → let r = match_rules fnmatch path rules (m, s) in IsTracked path r.0 r.1
  unfolding match_rules
  match_rules-IsTracked path [] m s t = t
  match_rules-IsTracked path ((id, rule) ∷ rules) m s t =
      elim (rule_matches fnmatch path rule)
        as (λ b.
          let p : Bool × Selection = if b then (true, select_rule path id rule s) else (m, s) in
          let r = match_rules fnmatch path rules p in IsTracked path r.0 r.1) [
            | true ↦ match_rules-IsTracked path rules true (select_rule path id rule s) (record {
              seen_selected = seen-select_rule path id rule s t.seen_selected;
              listed_path = λ _. listed-select_rule path id rule s t.seen_selected;
            })
            | false ↦ match_rules-IsTracked path rules m s t
          ]

  pub flag-match_rules :
      (path : String) (rules : List (String × Rule)) (m : Bool) (s : Selection)
      → (match_rules fnmatch path rules (m, s)).0 ≡ (m || some_rule_matches rules path)
  unfolding match_rules
  flag-match_rules path [] m s = ground arith
  flag-match_rules path ((id, rule) ∷ rules) m s =
      elim (rule_matches fnmatch path rule)
        as (λ b.
          (match_rules fnmatch path rules
            (if b then (true, select_rule path id rule s) else (m, s))).0
          ≡ (m || (b || some_rule_matches rules path))) [
            | true ↦ flag-match_rules path rules true (select_rule path id rule s) ∙ ground arith
            | false ↦ flag-match_rules path rules m s
          ]

  pub unknown-match_rules :
      (path : String) (rules : List (String × Rule)) (m : Bool) (s : Selection)
      → (match_rules fnmatch path rules (m, s)).1.unknown ≡ s.unknown
  unfolding match_rules
  unknown-match_rules path [] m s = refl
  unknown-match_rules path ((id, rule) ∷ rules) m s =
      elim (rule_matches fnmatch path rule)
        as (λ b.
          (match_rules fnmatch path rules
            (if b then (true, select_rule path id rule s) else (m, s))).1.unknown
          ≡ s.unknown) [
            | true ↦
                unknown-match_rules path rules true (select_rule path id rule s)
                ∙ unknown-select_rule path id rule s
            | false ↦ unknown-match_rules path rules m s
          ]

  pub listed-match_rules :
      (path : String) (rules : List (String × Rule)) (m : Bool) (s : Selection) (q : String)
      → listed q s.selected ≡ true
      → listed q (match_rules fnmatch path rules (m, s)).1.selected ≡ true
  unfolding match_rules
  listed-match_rules path [] m s q h = h
  listed-match_rules path ((id, rule) ∷ rules) m s q h =
      elim (rule_matches fnmatch path rule)
        as (λ b.
          listed q
            (match_rules fnmatch path rules
              (if b then (true, select_rule path id rule s) else (m, s))).1.selected
          ≡ true) [
            | true ↦
                listed-match_rules path rules true (select_rule path id rule s) q
                  (listed-select_rule_of path id rule s q h)
            | false ↦ listed-match_rules path rules m s q h
          ]
