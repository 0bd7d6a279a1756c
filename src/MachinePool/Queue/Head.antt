-- ===== src/MachinePool/Queue/Head.antt =====
-- Only the head of the queue is admitted: no live ticket of a lower rank, or of the same rank and an
-- earlier arrival, is passed over.
use mathlib.Core.Path.{subst}
use dev_platform.Base.{ℕ, String, ◌≡◌, refl, sym, ◌∙◌, Bool, true, false, ◌||◌, ◌==◌, eq_iff}
use dev_platform.Base.{Option, some, List, [], ◌∷◌, map, keep, All, if◌then◌else◌}
use dev_platform.Base.{some_inj, ap, arith, inl, inr, Bool-cases}
use dev_platform.Base.Result.{Result, ok, err, >>=-eq-ok, ok-injective}
use dev_platform.MachinePool.Queue.{
  Ticket, PoolError, Order, order_ltb, Queued, queued_ltb, enqueue,
}
use dev_platform.MachinePool.Queue.{ticket_order, list_tickets, scan_queue, admitted}
use dev_platform.MachinePool.Queue.{Machine, is_first, after_scan, admit_if_head}

abbrev NoneBefore : Order → List Queued → Type 0
NoneBefore o = All (λ q. order_ltb q.order o ≡ false)

abbrev Ordered : List Queued → Type 0
Ordered [] = Unit
Ordered (q ∷ qs) = NoneBefore q.order qs × Ordered qs

order_ltb_trans :
    (a b c : Order) → order_ltb b a ≡ false → order_ltb c b ≡ false → order_ltb c a ≡ false
unfolding order_ltb
order_ltb_trans (a, x) (b, y) (c, z) h k = ground arith

NoneBefore-trans :
    (a b : Order) (qs : List Queued) → order_ltb b a ≡ false → NoneBefore b qs → NoneBefore a qs
NoneBefore-trans a b [] h n = tt
NoneBefore-trans a b (q ∷ qs) h (k, n) =
    (order_ltb_trans a b q.order h k, NoneBefore-trans a b qs h n)

order_of_queued : (a b : Queued) → queued_ltb b a ≡ false → order_ltb b.order a.order ≡ false
unfolding queued_ltb
order_of_queued a b h = ground arith

order_of_queued_lt : (a b : Queued) → queued_ltb b a ≡ true → order_ltb a.order b.order ≡ false
unfolding queued_ltb order_ltb
order_of_queued_lt a b h = ground arith

All-enqueue :
    (P : Queued → Type 0) (a : Queued) (bs : List Queued) → P a → All P bs → All P (enqueue a bs)
unfolding enqueue
All-enqueue P a [] p h = (p, tt)
All-enqueue P a (b ∷ bs) p (k, h) =
    elim (queued_ltb b a) as (λ t. All P (if t then b ∷ enqueue a bs else a ∷ b ∷ bs)) [
      | true ↦ (k, All-enqueue P a bs p h)
      | false ↦ (p, (k, h))
    ]

All-enqueue_of :
    (P : Queued → Type 0) (a : Queued) (bs : List Queued) → All P (enqueue a bs) → P a × All P bs
unfolding enqueue
All-enqueue_of P a [] h = h
All-enqueue_of P a (b ∷ bs) h =
    (elim (queued_ltb b a)
        as (λ t. All P (if t then b ∷ enqueue a bs else a ∷ b ∷ bs) → P a × (P b × All P bs)) [
          | true ↦ λ k. let (p, r) = All-enqueue_of P a bs k.1 in (p, (k.0, r))
          | false ↦ λ k. k
        ])
      h

enqueue-Ordered : (a : Queued) (bs : List Queued) → Ordered bs → Ordered (enqueue a bs)
unfolding enqueue
enqueue-Ordered a [] o = (tt, tt)
enqueue-Ordered a (b ∷ bs) (n, o) = elim (Bool-cases (queued_ltb b a)) [
  | inl e ↦ rw e (
    All-enqueue (λ q. order_ltb q.order b.order ≡ false) a bs (order_of_queued_lt a b e) n,
    enqueue-Ordered a bs o,
  )
  | inr e ↦ rw e (
    (order_of_queued a b e, NoneBefore-trans a.order b.order bs (order_of_queued a b e) n),
    (n, o),
  )
]

module _ (ticket_re : String → Option Order) where
  abbrev Named : Queued → Type 0
  Named q = ticket_re q.ticket.name ≡ some q.order

  -- What `list_tickets` returns is in order, and each of its entries carries the order of its name.
  abbrev Listed : List Ticket → List Queued → Type 1
  Listed ts qs =
      Ordered qs
      × All Named qs
      × ((P : Queued → Type 0)
          → All P qs
          → All
              (λ t. (o : Order) → ticket_re t.name ≡ some o → P (record { order = o; ticket = t }))
              ts)

  ticket_order_ok :
      (name : String) (o : Order) → ticket_order ticket_re name ≡ ok o → ticket_re name ≡ some o
  unfolding ticket_order
  ticket_order_ok name o h = ground arith

  list_tickets_lem :
      (ts : List Ticket) (qs : List Queued) → list_tickets ticket_re ts ≡ ok qs → Listed ts qs
  unfolding list_tickets
  list_tickets_lem [] qs h = subst (Listed []) (ok-injective h) (tt, tt, λ P a. tt)
  list_tickets_lem (t ∷ ts) qs h =
      let (o, named, h') = >>=-eq-ok (ticket_order ticket_re t.name) _ h in
      let (rest, listed, h'') = >>=-eq-ok (list_tickets ticket_re ts) _ h' in
      let (sorted, names, all) = list_tickets_lem ts rest listed in
      let here : ticket_re t.name ≡ some o = ticket_order_ok t.name o named in
      let q : Queued = record { order = o; ticket = t } in
      subst (Listed (t ∷ ts)) (ok-injective h'') (
        enqueue-Ordered q rest sorted,
        All-enqueue Named q rest here names,
        λ P a.
            let (p, r) = All-enqueue_of P q rest a in
            (
              λ o' e. subst (λ x. P (record { order = x; ticket = t })) (some_inj (sym here ∙ e)) p,
              all P r,
            ),
      )

  -- A live entry that is not `own` does not come before `o`.
  abbrev Follows : String → Order → Queued → Type 0
  Follows own o q = (q.ticket.name == own || q.ticket.alive) ≡ true → order_ltb q.order o ≡ false

  order_ltb_irrefl : (o : Order) → order_ltb o o ≡ false
  unfolding order_ltb
  order_ltb_irrefl o = ground arith

  All-Follows :
      (own : String) (o : Order) (qs : List Queued) → NoneBefore o qs → All (Follows own o) qs
  All-Follows own o [] n = tt
  All-Follows own o (q ∷ qs) (k, n) = (λ _. k, All-Follows own o qs n)

  abbrev live_names : String → List Queued → List String
  live_names own qs =
      map (λ q. q.ticket.name) (keep (λ q. q.ticket.name == own || q.ticket.alive) qs)

  head-Follows :
      (own : String) (o : Order) (qs : List Queued)
      → Ordered qs
      → All Named qs
      → ticket_re own ≡ some o
      → is_first own (live_names own qs) ≡ true
      → All (Follows own o) qs
  unfolding is_first
  head-Follows own o [] s n e f = tt
  head-Follows own o (q ∷ qs) (before, s) (named, n) e f =
      go (q.ticket.name == own || q.ticket.alive) refl (head-Follows own o qs s n e)
    where
      go :
          (b : Bool)
          → (q.ticket.name == own || q.ticket.alive) ≡ b
          → (is_first own (live_names own qs) ≡ true → All (Follows own o) qs)
          → All (Follows own o) (q ∷ qs)
      go true live ih =
          let first : (q.ticket.name == own) ≡ true = rw live at f in
          let same : q.order ≡ o =
            some_inj (sym named ∙ ap ticket_re ((eq_iff q.ticket.name own).0 first) ∙ e) in
          (
            λ _. rw same (order_ltb_irrefl o),
            All-Follows own o qs (subst (λ x. NoneBefore x qs) same before),
          )
      go false dead ih = (λ l. cc, ih (rw dead at f))

  abbrev pub FollowsOwn : String → Order → Ticket → Type 0
  FollowsOwn own o t =
      (o' : Order)
      → ticket_re t.name ≡ some o'
      → (t.name == own || t.alive) ≡ true
      → order_ltb o' o ≡ false

  scanned_follows :
      (own : String) (o : Order) (tickets : List Ticket) (live : List String) (left : List Ticket)
      → ticket_re own ≡ some o
      → scan_queue ticket_re own tickets ≡ ok (live, left)
      → is_first own live ≡ true
      → All (FollowsOwn own o) tickets
  unfolding scan_queue
  scanned_follows own o tickets live left e h f =
      let (qs, listed, h') = >>=-eq-ok (list_tickets ticket_re tickets) _ h in
      let (sorted, named, all) = list_tickets_lem tickets qs listed in
      all (Follows own o) (
        head-Follows own o qs sorted named e
          (subst (λ l. is_first own l ≡ true) (ap (λ r. r.0) (sym (ok-injective h'))) f))

  after_scan_first :
      (own : String) (run weight : ℕ) (m : Machine)
      (r : Result PoolError (List String × List Ticket)) (fds : List ℕ)
      → (after_scan ticket_re own run weight m r).0 ≡ ok (admitted fds)
      → (live : List String) × (left : List Ticket) × (r ≡ ok (live, left))
        × (is_first own live ≡ true)
  unfolding after_scan
  after_scan_first own run weight m (err x) fds h = cc
  after_scan_first own run weight m (ok (live, left)) fds h = (live, left, refl, ground arith)

  -- Where `admit_if_head` admits a run whose ticket has an order, each ticket of the queue that is live or
  -- the run's own and has an order is not before it.
  pub admit_if_head_first :
      (got : Bool) (own : String) (run weight : ℕ) (m : Machine) (o : Order) (fds : List ℕ)
      → ticket_re own ≡ some o
      → (admit_if_head ticket_re got own run weight m).0 ≡ ok (admitted fds)
      → All (FollowsOwn own o) m.tickets
  unfolding admit_if_head
  admit_if_head_first false own run weight m o fds e h = cc
  admit_if_head_first true own run weight m o fds e h =
      let (live, left, scanned, first) =
        after_scan_first own run weight m (scan_queue ticket_re own m.tickets) fds h in
      scanned_follows own o m.tickets live left e scanned first
