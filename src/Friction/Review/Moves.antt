-- ===== src/Friction/Review/Moves.antt =====
-- The contract of the review: a log is a reviewed part and a pending part, a batch shows the pending part, and a
-- mark moves events from the front of the pending part to the end of the reviewed part.
use mathlib.Core.Path.{subst}
use dev_platform.Base.{
  ℕ, suc, ◌≤◌, ◌≡◌, refl, ◌∙◌, sym, ap, Bool, true, false, String, Option, none, some, arith, ◌⊎◌,
  inl, inr, some_inj, ◌==◌, eq_iff,
}
use dev_platform.Base.{
  List, [], ◌∷◌, ◌++◌, take, drop, take-drop, cut_between, length, length-take, take-append,
  drop-append, if◌then◌else◌,
}
use dev_platform.Base.Json.{Json, null, bool, int, float, str, arr, obj, Fields, lookup, as_text}
use dev_platform.Base.Result.{Result, ok, ok-injective}
use dev_platform.Rollout.Identity.{has_text}
use dev_platform.Friction.{Fault, Readers, LogFile, StateFile, stored}
use dev_platform.Friction.Events.{read_events}
use dev_platform.Friction.State.{stored_count}
use dev_platform.Friction.Review.{Report, index_of, last_id, review_payload, mark_reviewed}
use dev_platform.Friction.Review.Cursor.{mark_reviewed-parts, read_state-count}

has_text-eq :
    (key id : String) (fs : Fields) → has_text key id fs ≡ true → lookup key fs ≡ some (str id)
unfolding has_text
has_text-eq key id fs h = go (lookup key fs) h
  where
    go :
        (j : Option Json)
        → (elim (as_text j) [ none ↦ false | some s ↦ s == id ]) ≡ true
        → j ≡ some (str id)
    go none e = cc
    go (some (str s)) e = ap (λ t. some (str t)) ((eq_iff s id).0 e)
    go (some null) e = cc
    go (some (bool b)) e = cc
    go (some (int z)) e = cc
    go (some (float f)) e = cc
    go (some (arr js)) e = cc
    go (some (obj fs)) e = cc

one : (event : Fields) → last_id (event ∷ []) ≡ lookup "id" event
unfolding last_id
one event = refl

-- The count that a mark writes.
pub written :
    (id now path : String) (count : ℕ)
    → stored_count (stored (obj (review_payload id now path count))) ≡ ok count
unfolding stored_count
written id now path count = refl

last_id-take :
    (event : Fields) (i : ℕ) (events : List Fields)
    → suc i ≤ length events
    → last_id (event ∷ take (suc i) events) ≡ last_id (take (suc i) events)
unfolding last_id
last_id-take event i [] h = absurd (omega arith)
last_id-take event i (next ∷ events) h = refl

next_found :
    (b : Bool) (rest : Option ℕ) {i : ℕ}
    → (if b then some 0 else elim rest [ none ↦ none | some j ↦ some (suc j) ]) ≡ some i
    → ((b ≡ true) × (i ≡ 0)) ⊎ ((b ≡ false) × (j : ℕ) × (rest ≡ some j) × (i ≡ suc j))
next_found true rest h = inl (refl, sym (some_inj h))
next_found false none h = cc
next_found false (some j) h = inr (refl, j, refl, sym (some_inj h))

-- The position found ends a part of the list whose last event has the id.
pub index_of-last :
    (id : String) (events : List Fields) (i : ℕ)
    → index_of id events ≡ some i
    → (suc i ≤ length events) × (last_id (take (suc i) events) ≡ some (str id))
unfolding index_of
index_of-last id [] i h = cc
index_of-last id (event ∷ events) i h =
    elim (next_found (has_text "id" id event) (index_of id events) h) [
      | inl (e, z) ↦
          subst
            (λ n. (suc n ≤ suc (length events)) × (last_id (event ∷ take n events) ≡ some (str id)))
            (sym z) (omega arith, ends event events e)
      | inr (e, j, f, z) ↦
          let (fits, last) = index_of-last id events j f in
          subst
            (λ n. (suc n ≤ suc (length events)) × (last_id (event ∷ take n events) ≡ some (str id)))
            (sym z) (omega arith, last_id-take event j events fits ∙ last)
    ]
  where
    ends :
        (event : Fields) (events : List Fields)
        → has_text "id" id event ≡ true
        → last_id (event ∷ take 0 events) ≡ some (str id)
    ends event events e = one event ∙ has_text-eq "id" id event e

-- What is reviewed, and what waits.
pub record View : Type 0 where
  pub reviewed : List Fields
  pub pending : List Fields

-- The files hold the view.
abbrev pub IsView : Readers → Bool → LogFile → StateFile → View → Type 0
IsView readers tolerant log file v =
    (read_events readers tolerant none log ≡ ok (v.reviewed ++ v.pending))
    × (stored_count file ≡ ok (length v.reviewed))

-- A review through an id: a part of what waits, which ends with the id where it is not empty, is reviewed next.
abbrev pub IsReviewed : String → View → View → Type 0
IsReviewed id v w =
    (moved : List Fields) × (v.pending ≡ moved ++ w.pending)
    × (w.reviewed ≡ v.reviewed ++ moved)
    × (last_id w.reviewed ≡ some (str id))

same_count : {a b : ℕ} {r : Result Fault ℕ} → r ≡ ok a → r ≡ ok b → a ≡ b
same_count h k = ok-injective (sym h ∙ k)

moved_view :
    (readers : Readers) (tolerant : Bool) (id : String) (log : LogFile) (v : View) (index : ℕ)
    → read_events readers tolerant none log ≡ ok (v.reviewed ++ v.pending)
    → index_of id (v.reviewed ++ v.pending) ≡ some index
    → length v.reviewed ≤ suc index
    → (w : View) × (read_events readers tolerant none log ≡ ok (w.reviewed ++ w.pending))
      × (length w.reviewed ≡ suc index)
      × IsReviewed id v w
moved_view readers tolerant id log v index e i le =
    let all = v.reviewed ++ v.pending in
    let (fits, last) = index_of-last id all index i in
    let (moved, rest, first) = cut_between (length v.reviewed) (suc index) all le in
    (
      record { reviewed = take (suc index) all; pending = drop (suc index) all },
      e ∙ ap ok (sym (take-drop (suc index) all)),
      length-take (suc index) all fits,
      (
        moved,
        sym (drop-append v.reviewed v.pending) ∙ rest,
        first ∙ ap (λ xs. xs ++ moved) (take-append v.reviewed v.pending),
        last,
      ),
    )

-- Where the log and the state's count hold a view, a reviewed part and a pending part of the events, and a
-- mark is accepted, they hold a view after it in which a part from the front of the pending events has
-- moved to the end of the reviewed ones, and the last reviewed event has the id.
pub mark_reviewed-IsReviewed :
    (readers : Readers) (tolerant : Bool) (id : String) (report : Report) (now : String)
    (log : LogFile) (file : StateFile) (v : View) {payload : Fields}
    → IsView readers tolerant log file v
    → mark_reviewed readers tolerant id report now log file ≡ ok payload
    → (w : View) × IsView readers tolerant log (stored (obj payload)) w × IsReviewed id v w
mark_reviewed-IsReviewed readers tolerant id report now log file v {payload} (e, c) h =
    let (path, events, state, current, index, f, s, k, i, le, p) =
      mark_reviewed-parts readers tolerant id report now log file h in
    let events_eq = ok-injective (sym f ∙ e) in
    let current_eq = same_count (sym (read_state-count readers log file s) ∙ k) c in
    let (w, g, n, moved) =
      moved_view readers tolerant id log v index e (ap (index_of id) (sym events_eq) ∙ i)
        (rw current_eq at le) in
    (
      w,
      (
        g,
        ap (λ q. stored_count (stored (obj q))) p
            ∙ (written id now path (suc index) ∙ ap ok (sym n)),
      ),
      moved,
    )
