-- ===== src/Rollout/Streak/Closing.antt =====
-- When maintenance closes the issue of a streak.
use dev_platform.Base.{
  ℕ, String, ◌≡◌, refl, ap, Bool, true, false, not, Option, none, some, if◌then◌else◌,
}
use dev_platform.Base.Json.{ℤ, Json, Fields, lookup, as_text}
use dev_platform.Rollout.Version.{Version, version_ltb, version_leb, parse_version}
use dev_platform.Rollout.Identity.{has_text}
use dev_platform.Rollout.Streak.{
  Issue, Recovery, parse_state, comparison, compare_versions, at_current, at_failed_version,
  at_failed, at_prior, after_recovery, reconcile,
}
use dev_platform.Rollout.Streak.Recovery.{
  foreign, no_release, invalid_release, unproved, older, recovered,
}

module _ (loads : String → Option Json) (float_eq : String → ℤ → Bool) (text_of : Json → String)
    (digit : ℕ → Option ℕ) where
  -- The state names the repository and a failed version, and the current version is that one or a later one.
  abbrev pub Proves : Option Fields → String → Option String → Type 0
  Proves prior repository current =
      (state : Fields) × (failed : String) × (v : Version) × (now : String) × (w : Version) × (prior
        ≡ some state)
      × (has_text "repository" repository state ≡ true)
      × (as_text (lookup "last_failed_release" state) ≡ some failed)
      × (parse_version digit failed ≡ some v)
      × (current ≡ some now)
      × (parse_version digit now ≡ some w)
      × (version_leb v w ≡ true)

  is_recovered : Option Recovery → Bool
  is_recovered (some (recovered a b)) = true
  is_recovered _ = false

  some_issue-after_recovery :
      (o : Option Recovery) (issue : Issue)
      → after_recovery loads float_eq text_of digit o (some issue) ≡ none
      → is_recovered o ≡ true
  unfolding after_recovery is_recovered
  some_issue-after_recovery none issue h = cc
  some_issue-after_recovery (some foreign) issue h = cc
  some_issue-after_recovery (some no_release) issue h = cc
  some_issue-after_recovery (some invalid_release) issue h = cc
  some_issue-after_recovery (some unproved) issue h = cc
  some_issue-after_recovery (some (older a b)) issue h = cc
  some_issue-after_recovery (some (recovered a b)) issue h = refl

  recovered-comparison :
      (t : Bool) (now failed : String)
      → is_recovered (some (comparison t now failed)) ≡ true
      → t ≡ false
  unfolding comparison is_recovered
  recovered-comparison true now failed h = cc
  recovered-comparison false now failed h = refl

  recovered-compare_versions :
      (failed : String) (v : Version) (now : String) (o : Option Version)
      → is_recovered (compare_versions loads float_eq text_of digit failed v now o) ≡ true
      → (w : Version) × (o ≡ some w) × (version_leb v w ≡ true)
  unfolding compare_versions is_recovered version_leb
  recovered-compare_versions failed v now none h = cc
  recovered-compare_versions failed v now (some w) h =
      (w, refl, ap not (recovered-comparison (version_ltb w v) now failed h))

  recovered-at_prior :
      (o : Option Fields) (repository : String) (current : Option String)
      → is_recovered (at_prior loads float_eq text_of digit o repository current) ≡ true
      → Proves o repository current
  unfolding at_prior is_recovered
  recovered-at_prior none repository current h = cc
  recovered-at_prior (some state) repository current h =
      owned (has_text "repository" repository state) refl h
    where
      with_version :
          (failed : String) (v : Version)
          → has_text "repository" repository state ≡ true
          → as_text (lookup "last_failed_release" state) ≡ some failed
          → parse_version digit failed ≡ some v
          → (c : Option String) → current ≡ c
          → is_recovered (at_current loads float_eq text_of digit failed v c) ≡ true
          → Proves (some state) repository current
      with_version failed v t r e none ec h = cc
      with_version failed v t r e (some now) ec h =
          let (w, p, q) = recovered-compare_versions failed v now (parse_version digit now) h in
          (state, failed, v, now, w, refl, t, r, e, ec, p, q)

      with_failed :
          (failed : String)
          → has_text "repository" repository state ≡ true
          → as_text (lookup "last_failed_release" state) ≡ some failed
          → (o : Option Version) → parse_version digit failed ≡ o
          → is_recovered (at_failed_version loads float_eq text_of digit failed o current) ≡ true
          → Proves (some state) repository current
      with_failed failed t r none e h = cc
      with_failed failed t r (some v) e h = with_version failed v t r e current refl h

      with_release :
          has_text "repository" repository state ≡ true
          → (o : Option String) → as_text (lookup "last_failed_release" state) ≡ o
          → is_recovered (at_failed loads float_eq text_of digit o current) ≡ true
          → Proves (some state) repository current
      with_release t none r h = cc
      with_release t (some failed) r h = with_failed failed t r (parse_version digit failed) refl h

      owned :
          (t : Bool)
          → has_text "repository" repository state ≡ t
          → is_recovered (
              if t
              then at_failed loads float_eq text_of digit
                  (as_text (lookup "last_failed_release" state))
                  current
              else some foreign)
            ≡ true
          → Proves (some state) repository current
      owned false e h = cc
      owned true e h = with_release e (as_text (lookup "last_failed_release" state)) refl h

  -- Where maintenance closes an issue, the issue's state names the repository and a failed version that
  -- parses, and the project's current version is known, parses and is not lower.
  pub reconcile_closes :
      (repository : String) (current : Option String) (issue : Issue)
      → reconcile loads float_eq text_of digit repository current (some issue) ≡ none
      → Proves (parse_state loads float_eq text_of issue.body) repository current
  unfolding reconcile
  reconcile_closes repository current issue h =
      recovered-at_prior (parse_state loads float_eq text_of issue.body) repository current
        (some_issue-after_recovery _ issue h)
