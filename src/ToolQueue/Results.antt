-- ===== src/ToolQueue/Results.antt =====
-- The first result of a call is the one that counts (Resolve, internal/mcp/queue.go).
use m365_copilot2api_docker.Base.{
  ℕ, ◌≡◌, ◌≢◌, refl, Option, none, some, List, [], ◌∷◌, ◌==◌, if◌then◌else◌, arith, ap,
}
use m365_copilot2api_docker.ToolQueue.{
  Call, Queue, resolve_call, update_call, resolve, answered, refused, send,
}

send_twice : {A : Type 0} (held : Option A) (a b : A) → send (send held a) b ≡ send held a
send_twice none a b = refl
send_twice (some h) a b = refl

module _ {R E : Type 0} where
  -- The call of a number.
  pub call_of : ℕ → List (Call R E) → Option (Call R E)
  call_of n [] = none
  call_of n (c ∷ cs) = let later = call_of n cs in if c.number == n then some c else later

  update_call_twice :
      (n : ℕ) (f g : Call R E → Call R E) (cs : List (Call R E))
      → ((c : Call R E) → (f c).number ≡ c.number)
      → ((c : Call R E) → g (f c) ≡ f c)
      → update_call n g (update_call n f cs) ≡ update_call n f cs
  unfolding update_call
  update_call_twice n f g [] h k = refl
  update_call_twice n f g (c ∷ cs) h k = ground (arith, update_call_twice n f g cs h k, h c, k c)

  call_of-update_call :
      (n m : ℕ) (f : Call R E → Call R E) (cs : List (Call R E))
      → n ≢ m
      → ((c : Call R E) → (f c).number ≡ c.number)
      → call_of m (update_call n f cs) ≡ call_of m cs
  unfolding call_of update_call
  call_of-update_call n m f [] d h = refl
  call_of-update_call n m f (c ∷ cs) d h = ground (arith, call_of-update_call n m f cs d h, h c, d)

  -- A second answer to a call, or a second error, is dropped, and no other call is touched.
  pub first_result_kept :
      (q : Queue R E) (n m : ℕ) (r s : R) (e f : E)
      → n ≢ m
      → (resolve (resolve q n (answered r)) n (answered s) ≡ resolve q n (answered r))
        × (resolve (resolve q n (refused e)) n (refused f) ≡ resolve q n (refused e))
        × (call_of m (resolve q n (answered r)).calls ≡ call_of m q.calls)
        × (call_of m (resolve q n (refused e)).calls ≡ call_of m q.calls)
  unfolding resolve resolve_call
  first_result_kept q n m r s e f d = (
    ap (λ l. record q { calls = l })
        (update_call_twice n _ _ q.calls (λ c. refl)
          (λ c. ap (λ x. record c { result = x }) (send_twice c.result r s))),
    ap (λ l. record q { calls = l })
        (update_call_twice n _ _ q.calls (λ c. refl)
          (λ c. ap (λ x. record c { error = x }) (send_twice c.error e f))),
    call_of-update_call n m _ q.calls d (λ c. refl),
    call_of-update_call n m _ q.calls d (λ c. refl),
  )
