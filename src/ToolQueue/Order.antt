-- ===== src/ToolQueue/Order.antt =====
-- The calls leave the queue in the order in which they came, each once (internal/mcp/queue.go).
use m365_copilot2api_docker.Base.{
  ℕ, zero, suc, ◌≡◌, refl, String, none, List, [], ◌∷◌, ◌++◌, arith, map, append_assoc, append-nil,
  ap, subst, sym, ◌∙◌,
}
use m365_copilot2api_docker.ToolQueue.{
  Call, Queue, Outcome, enqueue, dequeue, resolve_call, update_call, resolve, empty_queue, Event,
  enqueues, dequeues, resolves, as_list, run, answered, refused,
}

-- The numbers from 1 on.
abbrev pub numbers : ℕ → List ℕ
numbers zero = []
numbers (suc n) = numbers n ++ suc n ∷ []

module _ {R E : Type 0} where
  abbrev pub number_of : Call R E → ℕ
  number_of c = c.number

  numbers_of-append :
      (cs ds : List (Call R E)) → map number_of (cs ++ ds) ≡ map number_of cs ++ map number_of ds
  numbers_of-append [] ds = refl
  numbers_of-append (c ∷ cs) ds = ap (◌∷◌ c.number) (numbers_of-append cs ds)

  numbers_of-update_call :
      (n : ℕ) (out : Outcome R E) (cs : List (Call R E))
      → map number_of (update_call n (resolve_call out) cs) ≡ map number_of cs
  unfolding update_call resolve_call
  numbers_of-update_call n out [] = refl
  numbers_of-update_call n (answered r) (c ∷ cs) =
      ground (arith, numbers_of-update_call n (answered r) cs)
  numbers_of-update_call n (refused e) (c ∷ cs) =
      ground (arith, numbers_of-update_call n (refused e) cs)

  -- What was taken, then what waits, are all the calls that were made.
  abbrev pub InOrder : List ℕ → Queue R E → Type 0
  InOrder taken q =
      (taken ++ q.pending ≡ numbers q.next_id) × (map number_of q.calls ≡ numbers q.next_id)

  enqueue-InOrder :
      (taken : List ℕ) (q : Queue R E) (name : String)
      → InOrder taken q
      → InOrder taken (enqueue q name).0
  unfolding enqueue
  enqueue-InOrder taken q name h =
      let n = suc q.next_id in
      let call : Call R E = record { number = n; name = name; result = none; error = none } in
      (
        sym (append_assoc taken q.pending (n ∷ [])) ∙ ap (λ l. l ++ n ∷ []) h.0,
        numbers_of-append q.calls (call ∷ []) ∙ ap (λ l. l ++ n ∷ []) h.1,
      )

  dequeued :
      (q : Queue R E)
      → (as_list (dequeue q).1 ++ (dequeue q).0.pending ≡ q.pending)
        × ((dequeue q).0.next_id ≡ q.next_id)
        × ((dequeue q).0.calls ≡ q.calls)
  unfolding dequeue
  dequeued q = ground arith

  dequeue-InOrder :
      (taken : List ℕ) (q : Queue R E)
      → InOrder taken q
      → InOrder (taken ++ as_list (dequeue q).1) (dequeue q).0
  dequeue-InOrder taken q h =
      let (pending, next, calls) = dequeued q in
      (
        append_assoc taken (as_list (dequeue q).1) (dequeue q).0.pending
            ∙ ap (λ l. taken ++ l) pending
            ∙ h.0
            ∙ ap numbers (sym next),
        ap (map number_of) calls ∙ h.1 ∙ ap numbers (sym next),
      )

  resolve-InOrder :
      (taken : List ℕ) (q : Queue R E) (n : ℕ) (out : Outcome R E)
      → InOrder taken q
      → InOrder taken (resolve q n out)
  unfolding resolve
  resolve-InOrder taken q n out h = (h.0, numbers_of-update_call n out q.calls ∙ h.1)

  run-InOrder_from :
      (taken : List ℕ) (q : Queue R E) (es : List (Event R E))
      → InOrder taken q
      → InOrder (taken ++ (run q es).1) (run q es).0
  unfolding run
  run-InOrder_from taken q [] h = (rw append-nil h.0, h.1)
  run-InOrder_from taken q (enqueues name ∷ es) h =
      run-InOrder_from taken (enqueue q name).0 es (enqueue-InOrder taken q name h)
  run-InOrder_from taken q (dequeues ∷ es) h =
      subst (λ l. InOrder l (run (dequeue q).0 es).0)
        (append_assoc taken (as_list (dequeue q).1) (run (dequeue q).0 es).1)
        (run-InOrder_from (taken ++ as_list (dequeue q).1) (dequeue q).0 es
          (dequeue-InOrder taken q h))
  run-InOrder_from taken q (resolves n out ∷ es) h =
      run-InOrder_from taken (resolve q n out) es (resolve-InOrder taken q n out h)

  -- From a new queue on, the calls that were taken and then those that wait are all calls in the
  -- order of their creation, each once, and the calls are numbered from 1 on.
  pub run-InOrder :
      (es : List (Event R E)) → InOrder (run (empty_queue R E) es).1 (run (empty_queue R E) es).0
  run-InOrder es = run-InOrder_from [] (empty_queue R E) es (refl, refl)
