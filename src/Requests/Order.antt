-- ===== src/Requests/Order.antt =====
-- Replies to global requests go out in the order of the requests, and no request waits without a task.
use asyncssh.Base.{
  ℕ, ◌≡◌, refl, ◌∙◌, ap, sym, Option, none, some, List, [], ◌∷◌, ◌++◌, is_empty, if◌then◌else◌,
  Result, ok, err, Error, arith, subst,
}
use mathlib.Core.List.{append-nil, append_assoc}
use asyncssh.Requests.{
  Answer, Served, Service, Entry, Requests, Done, reply, service_next_global_request,
  report_global_response, enqueue, after, read_request, process_global_request, Event, step, run,
  arrived,
}

module _ (v : Service) where
  -- The replies to answered requests.
  abbrev pub replies : List (Entry v × Answer) → List (ℕ × List (List ℕ))
  replies [] = []
  replies ((e, a) ∷ done) = reply v e.want_reply a ++ replies done

  abbrev pub entries : List (Entry v × Answer) → List (Entry v)
  entries [] = []
  entries ((e, a) ∷ done) = e ∷ entries done

  -- The first of the waiting requests has a handler that did not report at once.
  abbrev pub Busy : List (Entry v) → Type 0
  Busy [] = Unit {0}
  Busy (e ∷ rest) =
      (h : v.Handler) × (e.handler ≡ some h)
      × ((a : Answer) → v.serve h e.packet ≡ Served.at_once a → ⊥)

  -- Some requests, the first ones, were answered in order, and the others wait.
  pub record InOrder (es : List (Entry v)) (s : Requests v) : Type 0 where
    pub done : List (Entry v × Answer)
    pub kept : es ≡ entries done ++ s.queue
    pub sent : s.calls ≡ replies done
    pub busy : Busy s.queue

  replies-append : (xs ys : List (Entry v × Answer)) → replies (xs ++ ys) ≡ replies xs ++ replies ys
  replies-append [] ys = refl
  replies-append ((e, a) ∷ xs) ys =
      ap (λ t. reply v e.want_reply a ++ t) (replies-append xs ys)
      ∙ sym (append_assoc (reply v e.want_reply a) (replies xs) (replies ys))

  entries-append : (xs ys : List (Entry v × Answer)) → entries (xs ++ ys) ≡ entries xs ++ entries ys
  entries-append [] ys = refl
  entries-append ((e, a) ∷ xs) ys = ap (λ t. e ∷ t) (entries-append xs ys)

  answered :
      (es : List (Entry v)) (e : Entry v) (rest : List (Entry v)) (a : Answer)
      (calls : List (ℕ × List (List ℕ))) (done : List (Entry v × Answer))
      → es ≡ entries done ++ e ∷ rest
      → calls ≡ replies done
      → (es ≡ entries (done ++ (e, a) ∷ []) ++ rest)
        × (calls ++ reply v e.want_reply a ≡ replies (done ++ (e, a) ∷ []))
  answered es e rest a calls done k s = (
    k ∙ rw (entries-append done ((e, a) ∷ [])) (sym (append_assoc (entries done) (e ∷ []) rest)),
    rw (s, replies-append done ((e, a) ∷ []))
        (ap (λ t. replies done ++ t) (sym (append-nil (reply v e.want_reply a)))),
  )

  choose_handler :
      (P : Done v → Type 0) {A : Type 0} (o : Option A) (x : Done v) (f : A → Done v)
      → P x
      → ((h : A) → o ≡ some h → P (f h))
      → P (elim o as (λ _. Done v) [ none ↦ x | some h ↦ f h ])
  choose_handler P none x f k l = k
  choose_handler P (some h) x f k l = l h refl

  choose_served :
      (P : Done v → Type 0) (r : Served) (f : Answer → Done v) (x : Done v) (g : Error → Done v)
      → ((a : Answer) → P (f a))
      → (((a : Answer) → r ≡ Served.at_once a → ⊥) → P x)
      → ((y : Error) → ((a : Answer) → r ≡ Served.at_once a → ⊥) → P (g y))
      → P (elim r as (λ _. Done v) [
        | Served.at_once a ↦ f a
        | Served.later ↦ x
        | Served.raised y ↦ g y
      ])
  choose_served P (Served.at_once a) f x g k l m = k a
  choose_served P Served.later f x g k l m = l (λ a e. ground arith)
  choose_served P (Served.raised y) f x g k l m = m y (λ a e. ground arith)

  choose_rest :
      (P : Done v → Type 0) (rest : List (Entry v)) (x y : Done v)
      → (rest ≡ [] → P x)
      → P y
      → P (if is_empty rest then x else y)
  choose_rest P [] x y k l = k refl
  choose_rest P (e ∷ rest) x y k l = l

  service-InOrder :
      (es queue : List (Entry v)) (calls : List (ℕ × List (List ℕ)))
      (done : List (Entry v × Answer))
      → es ≡ entries done ++ queue
      → calls ≡ replies done
      → InOrder es (service_next_global_request v queue calls).1
  unfolding service_next_global_request
  service-InOrder es [] calls done k s = record { done = done; kept = k; sent = s; busy = tt }
  service-InOrder es (e ∷ rest) calls done k s =
      let next : (a : Answer)
          → InOrder es
              (if is_empty rest
                then (ok tt, record { queue = []; calls = calls ++ reply v e.want_reply a })
                else service_next_global_request v rest (calls ++ reply v e.want_reply a)).1 =
        λ a.
          let (k', s') = answered es e rest a calls done k s in
          choose_rest (λ d. InOrder es d.1) rest _ _
            (λ n. record {
              done = done ++ (e, a) ∷ [];
              kept = k' ∙ ap (λ t. entries (done ++ (e, a) ∷ []) ++ t) n;
              sent = s';
              busy = tt;
            })
            (service-InOrder es rest (calls ++ reply v e.want_reply a) (done ++ (e, a) ∷ []) k'
              s') in
      choose_handler (λ d. InOrder es d.1) e.handler _ _ (next Answer.refused)
        (λ h o.
          choose_served (λ d. InOrder es d.1) (v.serve h e.packet) _ _ _ next
            (λ n. record { done = done; kept = k; sent = s; busy = (h, o, n) })
            (λ x n. record { done = done; kept = k; sent = s; busy = (h, o, n) }))

  choose_queue :
      (P : Done v → Type 0) (q : List (Entry v)) (x : Done v)
      (f : Entry v → List (Entry v) → Done v)
      → P x
      → ((e : Entry v) (rest : List (Entry v)) → q ≡ e ∷ rest → P (f e rest))
      → P (elim q as (λ _. Done v) [ [] ↦ x | e ∷ rest ↦ f e rest ])
  choose_queue P [] x f k l = k
  choose_queue P (e ∷ rest) x f k l = l e rest refl

  report-InOrder :
      (es : List (Entry v)) (a : Answer) (s : Requests v)
      → InOrder es s
      → InOrder es (report_global_response v a s).1
  unfolding report_global_response
  report-InOrder es a s g =
      choose_queue (λ d. InOrder es d.1) s.queue _ _ g
        (λ e rest q.
          let (k, c) =
            answered es e rest a s.calls g.done (g.kept ∙ ap (λ t. entries g.done ++ t) q) g.sent in
          choose_rest (λ d. InOrder es d.1) rest _ _
            (λ n. record {
              done = g.done ++ (e, a) ∷ [];
              kept = k ∙ ap (λ t. entries (g.done ++ (e, a) ∷ []) ++ t) n;
              sent = c;
              busy = tt;
            })
            (service-InOrder es rest (s.calls ++ reply v e.want_reply a) (g.done ++ (e, a) ∷ []) k
              c))

  choose_full :
      (P : Done v → Type 0) (e : Entry v) (q : List (Entry v)) (x y : Done v)
      → P x
      → ((Busy q → Busy (q ++ e ∷ [])) → P y)
      → P (if is_empty q then x else y)
  choose_full P e [] x y k l = k
  choose_full P e (f ∷ q) x y k l = l (λ b. b)

  enqueue-InOrder :
      (es later : List (Entry v)) (r : Result (Entry v)) (s : Requests v)
      → InOrder es s
      → (fs : List (Entry v)) × (es ++ after v r later ≡ fs ++ later) × InOrder fs (enqueue v r s).1
  unfolding enqueue
  enqueue-InOrder es later (err x) s g = (es, refl, g)
  enqueue-InOrder es later (ok e) s g =
      let kept : es ++ e ∷ [] ≡ entries g.done ++ (s.queue ++ e ∷ []) =
        ap (λ t. t ++ e ∷ []) g.kept ∙ append_assoc (entries g.done) s.queue (e ∷ []) in
      (
        es ++ e ∷ [],
        sym (append_assoc es (e ∷ []) later),
        choose_full (λ d. InOrder (es ++ e ∷ []) d.1) e s.queue _ _
            (service-InOrder (es ++ e ∷ []) (s.queue ++ e ∷ []) s.calls g.done kept g.sent)
            (λ b. record { done = g.done; kept = kept; sent = g.sent; busy = b g.busy }),
      )

  step-InOrder :
      (es : List (Entry v)) (xs : List (Event v)) (x : Event v) (s : Requests v)
      → InOrder es s
      → (fs : List (Entry v)) × (es ++ arrived v (x ∷ xs) ≡ fs ++ arrived v xs)
        × InOrder fs (step v x s)
  unfolding step arrived process_global_request
  step-InOrder es xs (Event.report a) s g = (es, refl, report-InOrder es a s g)
  step-InOrder es xs (Event.request p) s g =
      enqueue-InOrder es (arrived v xs) (read_request v p) s g

  run_from-InOrder :
      (es : List (Entry v)) (xs : List (Event v)) (s : Requests v)
      → InOrder es s
      → InOrder (es ++ arrived v xs) (run v xs s)
  unfolding run arrived
  run_from-InOrder es [] s g = subst (λ t. InOrder t s) (sym (append-nil es)) g
  run_from-InOrder es (x ∷ xs) s g =
      let (fs, e, h) = step-InOrder es xs x s g in
      subst (λ t. InOrder t (run v (x ∷ xs) s)) (sym e) (run_from-InOrder fs xs (step v x s) h)

  -- Whatever requests arrive and whatever the handlers' tasks report, in any order, the requests are answered in
  -- the order in which they arrived, each reply that was wanted is sent and no other, and the first request that
  -- waits has a handler that did not report at once.
  pub run-InOrder :
      (xs : List (Event v)) → InOrder (arrived v xs) (run v xs (record { queue = []; calls = [] }))
  run-InOrder xs =
      run_from-InOrder [] xs (record { queue = []; calls = [] })
        (record { done = []; kept = refl; sent = refl; busy = tt })
