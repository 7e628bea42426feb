-- ===== src/Proxies/Mark.antt =====
-- What a success or a failure does to a proxy (mark, isProxyError and proxyBaseDuration of
-- internal/outbound/pool.go; setHealth and Check of internal/outbound/health.go).
use m365_copilot2api_docker.Base.{
  ℕ, ◌+◌, ◌-◌, ◌*◌, ◌^◌, String, Bool, true, false, Option, none, some, List, [], ◌∷◌, ltb, leb,
  str_eq, if◌then◌else◌, contains, ◌&&◌, ◌||◌, not, second, minute,
}
use m365_copilot2api_docker.Proxies.{Entry, Pool, has_raw}

-- An error's text, and its lower case by `strings.ToLower`.
pub record Error : Type 0 where
  pub text : String
  pub lowered : String

abbrev any_of : String → List String → Bool
any_of s [] = false
any_of s (w ∷ ws) = contains s w || any_of s ws

-- isProxyError
unfoldable pub is_proxy_error : Error → Bool
is_proxy_error err =
    let s = err.lowered in
    if any_of s (
      "quota_429" ∷ "overload_503" ∷ "auth_expired_401" ∷ "forbidden_403" ∷ "upstream 429"
      ∷ "upstream 401" ∷ "upstream 403" ∷ "upstream 503" ∷ [])
    then false
    else if contains s "429" && contains s "upstream"
    then false
    else if contains s "socks"
        || contains s "no such host"
        || (contains s "dns" && not (contains s "limited"))
        || any_of s (
            "tls" ∷ "certificate" ∷ "x509" ∷ "handshake" ∷ "timeout" ∷ "deadline exceeded"
            ∷ "connection refused" ∷ "connection reset" ∷ "network is unreachable"
            ∷ "ws_read_timeout" ∷ "ws_handshake" ∷ [])
    then true
    else any_of s ("proxy connect" ∷ "socks5" ∷ [])

-- proxyBaseDuration
unfoldable pub proxy_base_duration : Error → ℕ
proxy_base_duration err =
    let s = err.lowered in
    if contains s "socks"
    then 30 * second
    else if any_of s ("no such host" ∷ "dns" ∷ [])
    then 30 * second
    else if any_of s ("tls" ∷ "certificate" ∷ "x509" ∷ [])
    then 30 * second
    else if contains s "handshake"
    then 15 * second
    else if any_of s ("timeout" ∷ "deadline" ∷ [])
    then 30 * second
    else if any_of s ("connection refused" ∷ "connection reset" ∷ "broken pipe" ∷ [])
    then 15 * second
    else 15 * second

-- The duration that a failed proxy cools down. The product is at most 30 * 2^6 seconds, so it does
-- not wrap.
unfoldable pub backoff : ℕ → ℕ → ℕ
backoff base failures =
    let shift = if ltb 6 (failures - 1) then 6 else failures - 1 in
    let d = base * 2 ^ shift in
    let e = if ltb (5 * minute) d || leb d 0 then 5 * minute else d in
    if ltb e (5 * second) then 5 * second else e

-- The body of the loop of mark, for the entry that it finds.
unfoldable pub mark_entry : ℕ → Option Error → Entry → Entry
mark_entry now none e = record e {
  failures = 0;
  cooldown = 0;
  last_error = "";
  health = "reachable";
}
mark_entry now (some err) e =
    if is_proxy_error err
    then record e {
      failures = e.failures + 1;
      cooldown = now + backoff (proxy_base_duration err) (e.failures + 1);
      last_error = err.text;
      health = "cooldown";
    }
    else record e { last_error = err.text }

-- The first entry of a name is changed.
unfoldable pub update_first : (Entry → Entry) → String → List Entry → List Entry
update_first f raw [] = []
update_first f raw (e ∷ es) =
    let rest = update_first f raw es in if str_eq e.raw raw then f e ∷ es else e ∷ rest

-- mark, and MarkProxyFailure
unfoldable pub mark : Pool → ℕ → String → Option Error → Pool
mark p now raw err = record p { entries = update_first (mark_entry now err) raw p.entries }

unfoldable pub set_health : Pool → String → String → Pool
set_health p raw status = record p {
  entries = update_first (λ e. record e { health = status }) raw p.entries;
}

-- What the request of Check comes to: an error, or the status of the answer.
pub data Probe : Type 0 where
  unreached : Error → Probe
  answered : ℕ → Probe

-- Check, once its request is made: the pool, and whether it reports no error.
unfoldable pub check : Pool → ℕ → String → Probe → Pool × Bool
check p now raw (unreached err) =
    if has_raw raw p.entries
    then (set_health (mark p now raw (some err)) raw "unreachable", false)
    else (p, false)
check p now raw (answered code) =
    let reached = mark p now raw none in
    if has_raw raw p.entries
    then if leb 500 code
      then (set_health reached raw "upstream_error", false)
      else (set_health reached raw "reachable", ltb code 400)
    else (p, false)
