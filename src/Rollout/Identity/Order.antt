-- ===== src/Rollout/Identity/Order.antt =====
-- The order of the eligible pull requests, which `sorted` gives.
use dev_platform.Base.{ℕ, ◌≡◌, refl, Bool, true, false, Option, some, List, [], ◌∷◌, arith}
use dev_platform.Base.{All, if◌then◌else◌}
use dev_platform.Base.Json.{ℤ, pos, negsuc}
use dev_platform.Rollout.Version.{Version, version_ltb, parse_version}
use dev_platform.Rollout.Version.Order.{version_ltb_asymm}
use dev_platform.Rollout.Identity.{RolloutPr, int_ltb, key_ltb, pr_ltb, insert_pr, sort_prs}

int_ltb_trans : (a b c : ℤ) → int_ltb b a ≡ false → int_ltb c b ≡ false → int_ltb c a ≡ false
unfolding int_ltb
int_ltb_trans (pos a) (pos b) (pos c) h k = ground arith
int_ltb_trans (pos a) (pos b) (negsuc c) h k = ground arith
int_ltb_trans (pos a) (negsuc b) (pos c) h k = ground arith
int_ltb_trans (pos a) (negsuc b) (negsuc c) h k = ground arith
int_ltb_trans (negsuc a) (pos b) (pos c) h k = ground arith
int_ltb_trans (negsuc a) (pos b) (negsuc c) h k = ground arith
int_ltb_trans (negsuc a) (negsuc b) (pos c) h k = ground arith
int_ltb_trans (negsuc a) (negsuc b) (negsuc c) h k = ground arith

int_ltb_asymm : (a b : ℤ) → int_ltb a b ≡ true → int_ltb b a ≡ false
unfolding int_ltb
int_ltb_asymm (pos a) (pos b) h = ground arith
int_ltb_asymm (pos a) (negsuc b) h = ground arith
int_ltb_asymm (negsuc a) (pos b) h = ground arith
int_ltb_asymm (negsuc a) (negsuc b) h = ground arith

-- `u` is at most `v`, and `v` at most `w`: then `u` is at most `w`, and if they are alike, `v` is like both.
version_le_trans :
    (u v w : Version) → version_ltb v u ≡ false → version_ltb w v ≡ false → version_ltb w u ≡ false
unfolding version_ltb
version_le_trans (a, b, c) (x, y, z) (p, q, r) h k = ground arith

version_lt_le_trans :
    (u v w : Version) → version_ltb u v ≡ true → version_ltb w v ≡ false → version_ltb u w ≡ true
unfolding version_ltb
version_lt_le_trans (a, b, c) (x, y, z) (p, q, r) h k = ground arith

version_le_lt_trans :
    (u v w : Version) → version_ltb v u ≡ false → version_ltb v w ≡ true → version_ltb u w ≡ true
unfolding version_ltb
version_le_lt_trans (a, b, c) (x, y, z) (p, q, r) h k = ground arith

key_ltb_trans :
    (u v w : Version) (k m n : ℤ)
    → key_ltb (some v) m (some u) k ≡ false
    → key_ltb (some w) n (some v) m ≡ false
    → key_ltb (some w) n (some u) k ≡ false
unfolding key_ltb
key_ltb_trans u v w k m n h l = ground (
  arith,
  int_ltb_trans k m n,
  version_le_trans u v w,
  version_lt_le_trans u v w,
  version_le_lt_trans u v w,
)

key_ltb_asymm :
    (v w : Version) (m n : ℤ)
    → key_ltb (some v) m (some w) n ≡ true
    → key_ltb (some w) n (some v) m ≡ false
unfolding key_ltb
key_ltb_asymm v w m n h = ground (arith, int_ltb_asymm m n, version_ltb_asymm v w)

module _ (digit : ℕ → Option ℕ) where
  -- The version parses.
  abbrev pub Exact : RolloutPr → Type 0
  Exact p = (v : Version) × (parse_version digit p.version ≡ some v)

  abbrev pub NotAfter : RolloutPr → RolloutPr → Type 0
  NotAfter p q = pr_ltb digit q p ≡ false

  abbrev pub Ascending : List RolloutPr → Type 0
  Ascending [] = Unit
  Ascending (p ∷ ps) = All (NotAfter p) ps × Ascending ps

  NotAfter-trans :
      (p q r : RolloutPr) → Exact p → Exact q → Exact r → NotAfter p q → NotAfter q r → NotAfter p r
  unfolding pr_ltb
  NotAfter-trans p q r (u, eu) (v, ev) (w, ew) h k =
      rw (eu, ew)
        (key_ltb_trans u v w p.number q.number r.number (rw (eu, ev) at h) (rw (ev, ew) at k))

  NotAfter-pr_ltb : (p q : RolloutPr) → Exact p → Exact q → pr_ltb digit p q ≡ true → NotAfter p q
  unfolding pr_ltb
  NotAfter-pr_ltb p q (u, eu) (v, ev) h =
      rw (eu, ev) (key_ltb_asymm u v p.number q.number (rw (eu, ev) at h))

  pub All-insert_pr :
      (P : RolloutPr → Type 0) (p : RolloutPr) (qs : List RolloutPr)
      → P p
      → All P qs
      → All P (insert_pr digit p qs)
  unfolding insert_pr
  All-insert_pr P p [] h a = (h, tt)
  All-insert_pr P p (q ∷ qs) h (b, a) = go (All-insert_pr P p qs h a) (pr_ltb digit q p)
    where
      go :
          All P (insert_pr digit p qs)
          → (t : Bool) → All P (if t then q ∷ insert_pr digit p qs else p ∷ q ∷ qs)
      go i true = (b, i)
      go i false = (h, (b, a))

  pub All-sort_prs :
      (P : RolloutPr → Type 0) (ps : List RolloutPr) → All P ps → All P (sort_prs digit ps)
  unfolding sort_prs
  All-sort_prs P [] a = tt
  All-sort_prs P (p ∷ ps) (h, a) = All-insert_pr P p (sort_prs digit ps) h (All-sort_prs P ps a)

  later :
      (p q : RolloutPr) (qs : List RolloutPr)
      → Exact p
      → Exact q
      → All Exact qs
      → NotAfter p q
      → All (NotAfter q) qs
      → All (NotAfter p) qs
  later p q [] ep eq es h a = tt
  later p q (r ∷ rs) ep eq (er, es) h (b, a) =
      (NotAfter-trans p q r ep eq er h b, later p q rs ep eq es h a)

  Ascending-insert_pr :
      (p : RolloutPr) (qs : List RolloutPr)
      → Exact p
      → All Exact qs
      → Ascending qs
      → Ascending (insert_pr digit p qs)
  unfolding insert_pr
  Ascending-insert_pr p [] ep es s = (tt, tt)
  Ascending-insert_pr p (q ∷ qs) ep (eq, es) (a, s) =
      go (Ascending-insert_pr p qs ep es s) (pr_ltb digit q p) refl
    where
      go :
          Ascending (insert_pr digit p qs)
          → (t : Bool) → pr_ltb digit q p ≡ t
          → Ascending (if t then q ∷ insert_pr digit p qs else p ∷ q ∷ qs)
      go i true e = (All-insert_pr (NotAfter q) p qs (NotAfter-pr_ltb q p eq ep e) a, i)
      go i false e = ((e, later p q qs ep eq es e a), (a, s))

  pub Ascending-sort_prs : (ps : List RolloutPr) → All Exact ps → Ascending (sort_prs digit ps)
  unfolding sort_prs
  Ascending-sort_prs [] es = tt
  Ascending-sort_prs (p ∷ ps) (ep, es) =
      Ascending-insert_pr p (sort_prs digit ps) ep (All-sort_prs Exact ps es)
        (Ascending-sort_prs ps es)
