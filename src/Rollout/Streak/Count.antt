-- ===== src/Rollout/Streak/Count.antt =====
-- The count of consecutive failures over a sequence of attempts.
use mathlib.Core.Option.{bind}
use mathlib.Core.Path.{subst}
use Prim.Native.String.{String}
use dev_platform.Base.{
  ℕ, ◌+◌, suc, ◌≡◌, refl, sym, ap, ◌∙◌, Bool, true, false, not, ◌||◌, leb, ltb, Option, none, some,
  ◌==◌,
}
use dev_platform.Base.{List, [], ◌∷◌, all, length, arith, eq_iff, Bool-cases, inl, inr}
use dev_platform.Base.Json.{ℤ, pos, Json, str, obj, Fields}
use dev_platform.Rollout.Identity.{int_ltb}
use dev_platform.Rollout.Block.{find_block}
use dev_platform.Rollout.Block.Found.{is_plain, is_one_line}
use dev_platform.Rollout.Streak.Rendered.{find_block-render_body}
use dev_platform.Rollout.Streak.{
  summary_lines, Failure, Issue, state_fields, sorted_fields, body_of, is_labelled, parse_state,
  at_least_one, next_of, read_prior, judged, updated, render_body, record_failure,
}

not-ltb : (a b : ℕ) → not (ltb a b) ≡ leb b a
not-ltb a b = ground arith

module _ (loads : String → Option Json) (float_eq : String → ℤ → Bool) (text_of : Json → String)
    (dumps : Fields → String) (repository : String) (threshold : ℕ) where
  -- The state as it is read back, its keys in order.
  abbrev pub kept : ℕ → String → Failure → Fields
  kept n first f = sorted_fields (state_fields repository (pos n) first f)

  -- The lines before the block have no `<`, the state is written on one line, and `json.loads` reads back what
  -- `json.dumps` wrote.
  abbrev pub Readable : Fields → Type 0
  Readable s =
      (all is_plain (summary_lines text_of s) ≡ true)
      × (is_one_line (dumps (sorted_fields s)) ≡ true)
      × (loads (dumps (sorted_fields s)) ≡ some (obj (sorted_fields s)))

  -- The states of a streak from its `n`th failure, which is the first of the list.
  abbrev pub AllReadable : ℕ → String → List Failure → Type 0
  AllReadable n first [] = Unit
  AllReadable n first (f ∷ fs) =
      Readable (state_fields repository (pos n) first f) × AllReadable (suc n) first fs

  -- The issue records `n` failures, of which the first was at `first` and the last is `f`.
  abbrev pub Tracks : ℕ → String → Failure → Issue → Type 0
  Tracks n first f issue =
      (parse_state loads float_eq text_of issue.body ≡ some (kept n first f))
      × (issue.labelled ≡ leb threshold n)

  -- the issue after the failures, in order
  abbrev pub after_failures : Issue → List Failure → Issue
  after_failures issue [] = issue
  after_failures issue (f ∷ fs) =
      after_failures
        (record_failure loads float_eq text_of dumps repository (pos threshold) (some issue) f) fs

  abbrev pub last_of : Failure → List Failure → Failure
  last_of f [] = f
  last_of f (g ∷ gs) = last_of g gs

  parsed :
      (n : ℕ) (first : String) (f : Failure) (body : String)
      → find_block body ≡ some (dumps (kept n first f))
      → loads (dumps (kept n first f)) ≡ some (obj (kept n first f))
      → parse_state loads float_eq text_of body ≡ some (kept n first f)
  unfolding parse_state state_fields sorted_fields bind
  parsed n first f body h k = rw (h, k) refl

  parse_state_rendered :
      (n : ℕ) (first : String) (f : Failure)
      → Readable (state_fields repository (pos n) first f)
      → parse_state loads float_eq text_of
          (render_body text_of dumps (state_fields repository (pos n) first f))
        ≡ some (kept n first f)
  parse_state_rendered n first f (plain, one_line, read) =
      parsed n first f _ (find_block-render_body text_of dumps _ plain one_line) read

  recorded :
      (issue : Option Issue) (f : Failure) (n : ℕ) (s : Fields)
      → next_of loads float_eq text_of
          (body_of issue)
          (read_prior loads float_eq text_of (body_of issue))
          repository
          (pos threshold)
          f
        ≡ (s, pos n, false)
      → record_failure loads float_eq text_of dumps repository (pos threshold) issue f ≡ record {
        body = render_body text_of dumps s;
        labelled = is_labelled issue || leb threshold n;
      }
  unfolding record_failure
  recorded issue f n s h =
      ap
        (λ t.
          updated loads float_eq text_of dumps issue
            (judged loads float_eq text_of (pos threshold) t))
        h
      ∙ ap (λ b. record { body = render_body text_of dumps s; labelled = is_labelled issue || b })
          (not-ltb n threshold)

  first_lem :
      (f : Failure)
      → next_of loads float_eq text_of
          (body_of none)
          (read_prior loads float_eq text_of (body_of none))
          repository
          (pos threshold)
          f
        ≡ (state_fields repository (pos 1) f.version f, pos 1, false)
  unfolding next_of body_of
  first_lem f = refl

  Tracks-first :
      (f : Failure)
      → Readable (state_fields repository (pos 1) f.version f)
      → Tracks 1 f.version f
          (record_failure loads float_eq text_of dumps repository (pos threshold) none f)
  unfolding is_labelled
  Tracks-first f r =
      subst (Tracks 1 f.version f) (sym (recorded none f 1 _ (first_lem f)))
        (parse_state_rendered 1 f.version f r, refl)

  next_lem :
      (n : ℕ) (first : String) (e f : Failure) (body : String)
      → (first == "") ≡ false
      → text_of (str first) ≡ first
      → next_of loads float_eq text_of
          (some body)
          (some (kept n first e))
          repository
          (pos threshold)
          f
        ≡ (state_fields repository (pos (suc n)) first f, pos (suc n), false)
  unfolding next_of sorted_fields state_fields
  next_lem n first e f body d t = rw ((eq_iff repository repository).1 refl, d, t) refl

  Tracks-next :
      (n : ℕ) (first : String) (e f : Failure) (issue : Issue)
      → Readable (state_fields repository (pos (suc n)) first f)
      → (first == "") ≡ false
      → text_of (str first) ≡ first
      → Tracks n first e issue
      → Tracks
          (suc n)
          first
          f
          (record_failure loads float_eq text_of dumps repository (pos threshold) (some issue) f)
  unfolding body_of is_labelled read_prior
  Tracks-next n first e f issue r d t (p, l) =
      let k = recorded (some issue) f (suc n) _ (
        ap (λ q. next_of loads float_eq text_of (some issue.body) q repository (pos threshold) f) p
        ∙ next_lem n first e f issue.body d t) in
      subst (Tracks (suc n) first f) (sym k) (parse_state_rendered (suc n) first f r, ground arith)

  Tracks-after_failures :
      (n : ℕ) (first : String) (e : Failure) (issue : Issue) (fs : List Failure)
      → AllReadable (suc n) first fs
      → (first == "") ≡ false
      → text_of (str first) ≡ first
      → Tracks n first e issue
      → Tracks (length fs + n) first (last_of e fs) (after_failures issue fs)
  Tracks-after_failures n first e issue [] rs d t k =
      subst (λ x. Tracks x first e issue) (omega arith) k
  Tracks-after_failures n first e issue (f ∷ fs) (r, rs) d t k =
      let i =
        record_failure loads float_eq text_of dumps repository (pos threshold) (some issue) f in
      let m : length fs + suc n ≡ suc (length fs) + n = omega arith in
      subst (λ x. Tracks x first (last_of f fs) (after_failures i fs)) m
        (Tracks-after_failures (suc n) first f i fs rs d t (Tracks-next n first e f issue r d t k))

  -- From no issue, where no line before the state's block has a `<`, each state is written on one line,
  -- `json.loads` reads back what `json.dumps` wrote, and the first version is not empty and `str` leaves it
  -- as it is: after the failures the issue's state holds their number, the first version and the last
  -- failure, and the issue has the alert label exactly if the threshold is at most their number.
  pub record_failure_counts :
      (f : Failure) (fs : List Failure)
      → AllReadable 1 f.version (f ∷ fs)
      → (f.version == "") ≡ false
      → text_of (str f.version) ≡ f.version
      → Tracks (length fs + 1) f.version (last_of f fs) (
          after_failures
            (record_failure loads float_eq text_of dumps repository (pos threshold) none f)
            fs)
  record_failure_counts f fs (r, rs) d t =
      Tracks-after_failures 1 f.version f _ fs rs d t (Tracks-first f r)

  at_least_one_lem :
      int_ltb (at_least_one loads float_eq text_of (pos threshold)) (pos threshold) ≡ false
  unfolding at_least_one int_ltb
  at_least_one_lem = elim (Bool-cases (ltb threshold 1)) [
    | inl h ↦ rw h (ground arith)
    | inr h ↦ rw h (ground arith)
  ]

  -- A failure recorded on an issue whose state cannot be read leaves the issue with the alert label,
  -- whatever the threshold is.
  pub record_failure_unreadable :
      (issue : Issue) (f : Failure)
      → parse_state loads float_eq text_of issue.body ≡ none
      → (record_failure loads float_eq text_of dumps repository
          (pos threshold)
          (some issue)
          f).labelled
        ≡ true
  unfolding record_failure body_of is_labelled read_prior
  record_failure_unreadable issue f h = rw (h, at_least_one_lem) (ground arith)
