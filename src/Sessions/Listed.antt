-- ===== src/Sessions/Listed.antt =====
-- The list of a tenant's sessions (ListSessionsForTenant, internal/web/session_resolver.go).
use m365_copilot2api_docker.Base.{
  ℕ, suc, ◌≤◌, ◌≡◌, ◌≢◌, refl, String, Bool, false, List, [], ◌∷◌, arith, str_eq, eq_iff,
  if◌then◌else◌, All, ◌&&◌,
}
use m365_copilot2api_docker.Dict.{Dict}
use m365_copilot2api_docker.Sessions.{Binding, Resolver, count_where}
use m365_copilot2api_docker.Sessions.Listing.{insert_recent, recent_first, list_sessions_for_tenant}

-- The latest use first.
abbrev pub Descending : List Binding → Type 0
Descending [] = Unit
Descending (s ∷ ss) = All (λ t. t.last_used_at ≤ s.last_used_at) ss × Descending ss

insert_recent-below :
    (bound : ℕ) (s : Binding) (ss : List Binding)
    → s.last_used_at ≤ bound
    → All (λ t. t.last_used_at ≤ bound) ss
    → All (λ t. t.last_used_at ≤ bound) (insert_recent s ss)
unfolding insert_recent
insert_recent-below bound s [] h a = (h, tt)
insert_recent-below bound s (t ∷ ts) h a = ground (arith, insert_recent-below bound s ts h a.1, a)

raise_bound :
    (a b : ℕ) (ss : List Binding)
    → a ≤ b
    → All (λ t. t.last_used_at ≤ a) ss
    → All (λ t. t.last_used_at ≤ b) ss
raise_bound a b [] le h = tt
raise_bound a b (s ∷ ss) le h = (omega arith, raise_bound a b ss le h.1)

insert_recent-Descending :
    (s : Binding) (ss : List Binding) → Descending ss → Descending (insert_recent s ss)
unfolding insert_recent
insert_recent-Descending s [] d = (tt, tt)
insert_recent-Descending s (t ∷ ts) d = ground (
  arith,
  insert_recent-Descending s ts d.1,
  insert_recent-below t.last_used_at s ts,
  raise_bound t.last_used_at s.last_used_at ts,
  d,
)

recent_first-Descending : (p : Binding → Bool) (d : Dict Binding) → Descending (recent_first p d)
unfolding recent_first
recent_first-Descending p [] = tt
recent_first-Descending p ((k, s) ∷ d) =
    ground (arith, recent_first-Descending p d, insert_recent-Descending s (recent_first p d))

-- How many of a list pass a test.
unfoldable pub count : (Binding → Bool) → List Binding → ℕ
count q [] = 0
count q (s ∷ ss) = let n = count q ss in if q s then suc n else n

count-insert_recent :
    (q : Binding → Bool) (s : Binding) (ss : List Binding)
    → count q (insert_recent s ss) ≡ count q (s ∷ ss)
unfolding count insert_recent
count-insert_recent q s [] = refl
count-insert_recent q s (t ∷ ts) = ground (arith, count-insert_recent q s ts)

count-recent_first :
    (p q : Binding → Bool) (d : Dict Binding)
    → count q (recent_first p d) ≡ count_where (λ s. p s && q s) d
unfolding count recent_first count_where
count-recent_first p q [] = refl
count-recent_first p q ((k, s) ∷ d) =
    ground (arith, count-recent_first p q d, count-insert_recent q s (recent_first p d))

-- For a tenant that is not empty, ListSessionsForTenant answers the tenant's sessions and no
-- others, each as often as it stands in the map (so many pass any test), the latest use first.
pub list_for_tenant_lem :
    (tenant : String) (r : Resolver) (q : Binding → Bool)
    → tenant ≢ ""
    → Descending (list_sessions_for_tenant tenant r)
      × (count q (list_sessions_for_tenant tenant r)
          ≡ count_where (λ s. str_eq s.tenant tenant && q s) r.sessions)
unfolding list_sessions_for_tenant
list_for_tenant_lem tenant r q keyed =
    let own : Binding → Bool = λ s. str_eq s.tenant tenant in
    let other : str_eq tenant "" ≡ false = ground (arith, keyed, eq_iff tenant "") in
    rw other (recent_first-Descending own r.sessions, count-recent_first own q r.sessions)
