-- ===== src/StartTier/Receipts.antt =====
-- What is recommended passes the validation, and what passes it can be executed.
use mathlib.Core.Path.{subst}
use dev_platform.Base.{
  String, ◌≡◌, ◌∙◌, ap, sym, refl, Bool, true, false, not, ◌==◌, Option, none, some,
}
use dev_platform.Base.{all-contains, contains, arith, inl, inr, Bool-cases}
use dev_platform.Base.Result.{Result, ok, ◌>>=◌, >>=-eq-ok, ok-injective}
use dev_platform.Base.Text.{strip, is_blank, is_blank-strip}
use dev_platform.Base.Json.{Fields, obj, lookup, as_text}
use dev_platform.StartTier.{
  StartTierError, recommend_start_tier, trigger_and_tier, resolve_effort, receipt,
}
use dev_platform.StartTier.{validate_fields, validate_routing_receipt}
use dev_platform.StartTier.{strong_triggers, routing_confidence_values, assurance_values}
use dev_platform.StartTier.{effort_hint_values, tier_to_profile}

abbrev filled : String → Bool
filled s = not (is_blank s)

effort_filled : (s : String) → contains effort_hint_values s ≡ true → filled s ≡ true
unfolding is_blank
effort_filled s h = all-contains filled effort_hint_values s refl h

assurance_filled : (s : String) → contains assurance_values s ≡ true → filled s ≡ true
unfolding is_blank
assurance_filled s h = all-contains filled assurance_values s refl h

version_filled : is_blank "v1" ≡ false
unfolding is_blank
version_filled = refl

-- The tier that goes with a trigger: none for R2, a listed one for R3.
data Chosen : Option String → String → Type 0 where
  plain : Chosen none "R2"
  hard : (trigger : String) → contains strong_triggers trigger ≡ true → Chosen (some trigger) "R3"

receipt_validates :
    (family confidence assurance effort tier : String) (trigger : Option String)
    → Chosen trigger tier
    → is_blank family ≡ false
    → contains routing_confidence_values confidence ≡ true
    → contains assurance_values assurance ≡ true
    → contains effort_hint_values effort ≡ true
    → let fs = receipt tier family confidence assurance effort trigger in validate_fields fs ≡ ok fs
unfolding receipt validate_fields
receipt_validates family confidence assurance effort tier trigger plain f c a e = ground (
  arith,
  version_filled,
  effort_filled confidence c,
  assurance_filled assurance a,
  effort_filled effort e,
)
receipt_validates family confidence assurance effort tier trigger (hard t h) f c a e = ground (
  arith,
  version_filled,
  effort_filled confidence c,
  assurance_filled assurance a,
  effort_filled effort e,
)

Chosen-trigger_and_tier :
    (trigger : Option String) (r : Option String × String)
    → trigger_and_tier trigger ≡ ok r
    → Chosen r.0 r.1
unfolding trigger_and_tier
Chosen-trigger_and_tier none r h = subst (λ r. Chosen r.0 r.1) (ok-injective h) plain
Chosen-trigger_and_tier (some t) r h = elim (Bool-cases (contains strong_triggers (strip t))) [
  | inl e ↦ subst (λ r. Chosen r.0 r.1) (ok-injective (rw e at h)) (hard (strip t) e)
  | inr e ↦ cc (rw e at h)
]

abbrev Listed : String → Type 0
Listed effort = contains effort_hint_values effort ≡ true

resolve_effort-listed :
    (tier : String) (hint : Option String) (effort : String)
    → resolve_effort tier hint ≡ ok effort
    → contains effort_hint_values effort ≡ true
unfolding resolve_effort
resolve_effort-listed tier none effort h = elim (Bool-cases (tier == "R3")) [
  | inl e ↦ subst Listed (ok-injective (rw e at h)) refl
  | inr e ↦ subst Listed (ok-injective (rw e at h)) refl
]
resolve_effort-listed tier (some hint) effort h = ground arith

abbrev pub tier_for : Option String → String
tier_for none = "R2"
tier_for (some t) = "R3"

abbrev pub profile_for : Option String → String
profile_for none = "standard"
profile_for (some t) = "complex"

tier_of_trigger :
    (trigger chosen : Option String) (tier : String)
    → trigger_and_tier trigger ≡ ok (chosen, tier)
    → tier ≡ tier_for trigger
unfolding trigger_and_tier
tier_of_trigger none chosen tier h = ap (λ r. r.1) (sym (ok-injective h))
tier_of_trigger (some t) chosen tier h = elim (Bool-cases (contains strong_triggers (strip t))) [
  | inl e ↦ ap (λ r. r.1) (sym (ok-injective (rw e at h)))
  | inr e ↦ cc (rw e at h)
]

tier_to_profile-tier_for :
    (trigger : Option String) → tier_to_profile (tier_for trigger) ≡ ok (profile_for trigger)
unfolding tier_to_profile
tier_to_profile-tier_for none = refl
tier_to_profile-tier_for (some t) = refl

module _ (trigger : Option String) (family confidence assurance : String)
    (effort_hint : Option String) where
  -- The parts of a recommendation that is made.
  record Parts (fs : Fields) : Type 0 where
    tier : String
    effort : String
    chosen_trigger : Option String
    same : receipt tier (strip family) confidence assurance effort chosen_trigger ≡ fs
    chosen : Chosen chosen_trigger tier
    from_trigger : trigger_and_tier trigger ≡ ok (chosen_trigger, tier)
    named : is_blank family ≡ false
    confident : contains routing_confidence_values confidence ≡ true
    assured : contains assurance_values assurance ≡ true
    hinted : contains effort_hint_values effort ≡ true

  abbrev tail : Result StartTierError Fields
  tail = do
    chosen ← trigger_and_tier trigger
    effort ← resolve_effort chosen.1 effort_hint
    ok (receipt chosen.1 (strip family) confidence assurance effort chosen.0)

  Parts-tail :
      (fs : Fields)
      → is_blank family ≡ false
      → contains routing_confidence_values confidence ≡ true
      → contains assurance_values assurance ≡ true
      → tail ≡ ok fs
      → Parts fs
  Parts-tail fs e c a h =
      let (r, found, h') = >>=-eq-ok (trigger_and_tier trigger) _ h in
      let (effort, hint, h'') = >>=-eq-ok (resolve_effort r.1 effort_hint) _ h' in
      record {
        tier = r.1;
        effort = effort;
        chosen_trigger = r.0;
        same = ok-injective h'';
        chosen = Chosen-trigger_and_tier trigger r found;
        from_trigger = found;
        named = e;
        confident = c;
        assured = a;
        hinted = resolve_effort-listed r.1 effort_hint effort hint;
      }

  recommend-Parts :
      (fs : Fields)
      → recommend_start_tier trigger family confidence assurance effort_hint ≡ ok fs
      → Parts fs
  unfolding recommend_start_tier
  recommend-Parts fs h = elim (Bool-cases (is_blank family)) [
    | inl e ↦ cc (rw e at h)
    | inr e ↦ elim (Bool-cases (contains routing_confidence_values confidence)) [
      | inr c ↦ cc (rw (e, c) at h)
      | inl c ↦ elim (Bool-cases (contains assurance_values assurance)) [
        | inr a ↦ cc (rw (e, c, a) at h)
        | inl a ↦ Parts-tail fs e c a (rw (e, c, a) at h)
      ]
    ]
  ]

  -- A recommendation that is made is accepted by `validate_routing_receipt`, unchanged.
  pub recommend_start_tier-validates :
      {fs : Fields}
      → recommend_start_tier trigger family confidence assurance effort_hint ≡ ok fs
      → validate_routing_receipt (obj fs) ≡ ok (some fs)
  unfolding validate_routing_receipt
  recommend_start_tier-validates {fs} h =
      let p = recommend-Parts fs h in
      subst (λ fs. validate_routing_receipt (obj fs) ≡ ok (some fs)) p.same
        (rw (
          receipt_validates (strip family) confidence assurance p.effort p.tier p.chosen_trigger
            p.chosen (is_blank-strip family ∙ p.named) p.confident p.assured p.hinted))

  -- A recommendation that is made has the tier R3 if a trigger was given and R2 if not, and the tier maps
  -- to the profile `complex` or `standard`.
  pub recommend_start_tier_tier :
      {fs : Fields}
      → recommend_start_tier trigger family confidence assurance effort_hint ≡ ok fs
      → (tier : String) × (as_text (lookup "recommended_start_tier" fs) ≡ some tier)
        × (tier ≡ tier_for trigger)
        × (tier_to_profile tier ≡ ok (profile_for trigger))
  unfolding receipt as_text lookup
  recommend_start_tier_tier {fs} h =
      let p = recommend-Parts fs h in
      let t = tier_of_trigger trigger p.chosen_trigger p.tier p.from_trigger in
      (
        p.tier,
        subst (λ fs. as_text (lookup "recommended_start_tier" fs) ≡ some p.tier) p.same refl,
        t,
        rw t (tier_to_profile-tier_for trigger),
      )
