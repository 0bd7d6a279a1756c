-- ===== src/Friction/Review/Emptied.antt =====
-- A review through the last id of a batch leaves nothing pending, and forgets the routes.
use mathlib.Core.Path.{subst}
use dev_platform.Base.{
  ℕ, zero, suc, ◌≤◌, ◌≡◌, refl, ◌∙◌, sym, ap, Bool, true, false, String, Option, none, some, arith,
  Bool-cases, inl, inr, ltb, ltb→lt, eq_iff,
}
use dev_platform.Base.{
  List, [], ◌∷◌, ◌++◌, any, drop, drop-length, length, length-append, if◌then◌else◌,
}
use dev_platform.Base.Json.{Json, str, obj, Fields, lookup}
use dev_platform.Base.Result.{ok, >>=-eq-ok, ok-injective}
use dev_platform.Rollout.Identity.{has_text}
use dev_platform.Friction.{Readers, LogFile, StateFile, stored}
use dev_platform.Friction.Events.{read_events}
use dev_platform.Friction.State.{reviewed_of, read_state}
use dev_platform.Friction.Review.{
  Report, report_of, Batch, index_of, last_id, advanced, review_payload, mark_reviewed,
  pending_batch, enough, any_urgent, batch_of, cut_batch,
}

enough-ok : (n : ℕ) {b : Bool} → enough n ≡ ok b → enough n ≡ ok true
unfolding enough
enough-ok n h = ground arith

cut_batch-parts :
    (min_events : ℕ) (events : List Fields) (n : ℕ) {batch : Batch}
    → cut_batch min_events events n ≡ ok batch
    → (n ≤ length events)
      × (urgent : Bool) × (batch ≡ batch_of min_events (length events) n (drop n events) urgent)
unfolding cut_batch
cut_batch-parts min_events events n h = elim (Bool-cases (ltb (length events) n)) [
  | inl e ↦ cc
  | inr e ↦
      let (urgent, u, b) = >>=-eq-ok (any_urgent (drop n events)) _ (rw e at h) in
      (ground arith, urgent, sym (ok-injective b))
]

last_id-append :
    (front : List Fields) (last : Fields) → last_id (front ++ (last ∷ [])) ≡ lookup "id" last
unfolding last_id
last_id-append [] last = refl
last_id-append (event ∷ []) last = refl
last_id-append (event ∷ next ∷ front) last = last_id-append (next ∷ front) last

last_id-nothing : (n : ℕ) {j : Json} → last_id (drop n []) ≡ some j → ⊥
unfolding last_id
last_id-nothing zero h = cc
last_id-nothing (suc n) h = cc

-- The id that a batch names is that of the last event.
last_id-drop :
    (n : ℕ) (front : List Fields) (last : Fields) {j : Json}
    → last_id (drop n (front ++ (last ∷ []))) ≡ some j
    → lookup "id" last ≡ some j
last_id-drop zero front last h = sym (last_id-append front last) ∙ h
last_id-drop (suc n) [] last h = absurd (last_id-nothing n h)
last_id-drop (suc n) (event ∷ front) last h = last_id-drop n front last h

if_some : (b : Bool) {o : Option Json} {j : Json} → (if b then o else none) ≡ some j → o ≡ some j
if_some true h = h
if_some false h = cc

through_id-last :
    (min_events total n : ℕ) (pending : List Fields) (urgent : Bool) {j : Json}
    → (batch_of min_events total n pending urgent).through_id ≡ some j
    → last_id pending ≡ some j
unfolding batch_of
through_id-last min_events total n pending urgent h = if_some _ h

has_text-true :
    (id : String) (event : Fields)
    → lookup "id" event ≡ some (str id)
    → has_text "id" id event ≡ true
unfolding has_text
has_text-true id event e = rw (e, has_text) (ground (arith, eq_iff id id))

later_found :
    (b : Bool) (rest : Option ℕ) (n : ℕ)
    → b ≡ false
    → rest ≡ some n
    → (if b then some 0 else elim rest [ none ↦ none | some i ↦ some (suc i) ]) ≡ some (suc n)
later_found b rest n h e = rw (h, e) refl

index_of-end :
    (id : String) (front : List Fields) (last : Fields)
    → any (has_text "id" id) front ≡ false
    → lookup "id" last ≡ some (str id)
    → index_of id (front ++ (last ∷ [])) ≡ some (length front)
unfolding index_of
index_of-end id [] last h e = rw (has_text-true id last e) refl
index_of-end id (event ∷ front) last h e =
    later_found (has_text "id" id event) (index_of id (front ++ (last ∷ []))) (length front)
      (ground arith) (index_of-end id front last (ground arith) e)

advanced-accepted :
    (id now path : String) (n index : ℕ)
    → n ≤ suc index
    → advanced id now path n (some index) ≡ ok (review_payload id now path (suc index))
unfolding advanced
advanced-accepted id now path n index le = elim (Bool-cases (ltb (suc index) n)) [
  | inl e ↦ absurd (omega (arith, ltb→lt (suc index) n e, le))
  | inr e ↦ rw e refl
]

cut_batch-all :
    (min_events : ℕ) (events : List Fields)
    → cut_batch min_events events (length events)
      ≡ ok (batch_of min_events (length events) (length events) [] false)
unfolding cut_batch any_urgent
cut_batch-all min_events events = rw (not_less (length events), drop-length events) refl
  where
    not_less : (n : ℕ) → ltb n n ≡ false
    not_less n = ground arith

module _ (readers : Readers) (tolerant : Bool) (log : LogFile) where
  mark_accepted :
      (id : String) (report : Report) (path now : String) (file : StateFile) (events : List Fields)
      (state : Fields) (n index : ℕ)
      → report_of report ≡ ok path
      → read_events readers tolerant none log ≡ ok events
      → read_state readers log file ≡ ok state
      → reviewed_of state ≡ ok n
      → index_of id events ≡ some index
      → n ≤ suc index
      → mark_reviewed readers tolerant id report now log file
        ≡ ok (review_payload id now path (suc index))
  unfolding mark_reviewed
  mark_accepted id report path now file events state n index p e s k i le =
      rw (p, e, s, k, i) (advanced-accepted id now path n index le)

  pending_marked :
      (min_events : ℕ) (id now path : String) (events : List Fields) (count : ℕ)
      → enough min_events ≡ ok true
      → read_events readers tolerant none log ≡ ok events
      → length events ≡ count
      → pending_batch readers tolerant min_events log
          (stored (obj (review_payload id now path count)))
        ≡ ok (batch_of min_events count count [] false)
  unfolding pending_batch
  pending_marked min_events id now path events count a e c =
      rw (a, e)
        (subst (λ n. cut_batch min_events events n ≡ ok (batch_of min_events n n [] false)) c
          (cut_batch-all min_events events))

-- Where a batch names an id that no event before the last has, and the report is a file below the root, the
-- mark through this id is accepted, and the batch that is pending after it has no event.
pub mark_reviewed-empties :
    (readers : Readers) (tolerant : Bool) (min_events : ℕ) (id : String) (report : Report)
    (path now : String) (log : LogFile) (file : StateFile) (front : List Fields) (last : Fields)
    {batch : Batch}
    → read_events readers tolerant none log ≡ ok (front ++ (last ∷ []))
    → any (has_text "id" id) front ≡ false
    → pending_batch readers tolerant min_events log file ≡ ok batch
    → batch.through_id ≡ some (str id)
    → report_of report ≡ ok path
    → (payload : Fields) × (mark_reviewed readers tolerant id report now log file ≡ ok payload)
      × (pending_batch readers tolerant min_events log (stored (obj payload))
          ≡ ok (batch_of min_events (suc (length front)) (suc (length front)) [] false))
unfolding pending_batch
mark_reviewed-empties readers tolerant min_events id report path now log file front last e fresh b t
      p =
    let all = front ++ (last ∷ []) in
    let (accepted, a, h1) = >>=-eq-ok (enough min_events) _ b in
    let (events, f, h2) = >>=-eq-ok (read_events readers tolerant none log) _ h1 in
    let (state, s, h3) = >>=-eq-ok (read_state readers log file) _ h2 in
    let (n, k, h4) = >>=-eq-ok (reviewed_of state) _ h3 in
    let same = ok-injective (sym f ∙ e) in
    let (le, urgent, shown) = cut_batch-parts min_events events n h4 in
    let named =
      through_id-last min_events (length events) n (drop n events) urgent
        (sym (ap (λ r. r.through_id) shown) ∙ t) in
    let id_of_last =
      last_id-drop n front last (subst (λ es. last_id (drop n es) ≡ some (str id)) same named) in
    let found = index_of-end id front last fresh id_of_last in
    let count = length-append front (last ∷ []) in
    (
      review_payload id now path (suc (length front)),
      mark_accepted readers tolerant log id report path now file all state n (length front) p e s k
          found (omega (arith, count, ap length same, le)),
      pending_marked readers tolerant log min_events id now path all (suc (length front))
          (enough-ok min_events a) e (omega (arith, count)),
    )
