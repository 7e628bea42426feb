-- ===== src/Upstream/Classify.antt =====
-- The part of ClassifyError that reads only the error (internal/web/account_health.go): the
-- sentinels, the two error types, and the text.
use m365_copilot2api_docker.Base.{
  String, Bool, Option, none, some, ◌&&◌, ◌||◌, not, ◌==◌, str_eq, if◌then◌else◌, contains,
}
use m365_copilot2api_docker.Upstream.{
  canceled, rate_limit_notice, metering_throttled, empty_completion, offensive_content, image_limit,
  HttpError, DialError, Failure, Category, quota_429, user_banned, user_throttled,
  insufficient_tokens, designer_disabled, socks5, dns, tcp, tls, ws_handshake, ws_read_timeout,
  upstream_structured, client_canceled, unknown, kind_category, of_kind, status_category,
}

infixr 20 ◌<|>◌
-- The next rule decides where this one returns nothing.
abbrev pub ◌<|>◌ : Option Category → Option Category → Option Category
none <|> later = later
some c <|> later = some c

abbrev pub when : Bool → Category → Option Category
when b c = if b then some c else none

-- The switch on `httpErr.ErrorCode`; no case names the empty code.
unfoldable pub code_category : String → Option Category
code_category code =
    when (str_eq code "ErrorUserBanned") user_banned
    <|> when (str_eq code "ErrorUserThrottled") user_throttled
    <|> when (str_eq code "InsufficientTokens") insufficient_tokens
    <|> when (str_eq code "ErrorDisallowedAADUser") designer_disabled

unfoldable pub http_category : HttpError → Option Category
unfolding code_category
http_category e =
    code_category e.error_code
    <|> status_category e.status
    <|> when (contains e.body "limited") quota_429

-- The text of a failed dial that has neither kind nor status.
unfoldable pub dial_text_category : String → Category
dial_text_category msg =
    if contains msg "socks"
    then socks5
    else if contains msg "no such host" || contains msg "dns"
    then dns
    else if contains msg "tls" || contains msg "certificate" || contains msg "x509"
    then tls
    else if contains msg "handshake"
    then ws_handshake
    else if contains msg "timeout" || contains msg "deadline"
    then ws_read_timeout
    else tcp

unfoldable pub dial_category : DialError → Option Category
unfolding dial_text_category
dial_category e =
    kind_category e.kind
    <|> status_category e.status
    <|> when (not (str_eq e.kind "")) (of_kind e.kind)
    <|> when (e.status == 0) (dial_text_category e.text)

abbrev pub optional {ℓ} : {A : Type ℓ} → Option A → (A → Option Category) → Option Category
optional none f = none
optional (some a) f = f a

-- What ClassifyError returns before it asks the circuit, if it returns there.
unfoldable pub typed_category : Failure → Option Category
unfolding http_category dial_category
typed_category e =
    when (e.is canceled) client_canceled
    <|> when (e.is rate_limit_notice || e.is metering_throttled) quota_429
    <|> when (e.is empty_completion || e.is offensive_content || e.is image_limit)
        upstream_structured
    <|> optional e.as_http http_category
    <|> optional e.as_dial dial_category

-- The final switch on the text.
unfoldable pub text_category : String → Category
text_category msg =
    if contains msg "socks"
    then socks5
    else if contains msg "no such host"
        || contains msg "name resolution"
        || (contains msg "dns" && not (contains msg "limited"))
    then dns
    else if contains msg "tls" || contains msg "certificate" || contains msg "x509"
    then tls
    else if contains msg "handshake"
    then ws_handshake
    else if contains msg "ws read"
        || (contains msg "timeout" && contains msg "read")
        || contains msg "deadline exceeded"
    then ws_read_timeout
    else if contains msg "connection refused"
        || contains msg "connection reset"
        || contains msg "broken pipe"
        || contains msg "network is unreachable"
    then tcp
    else if contains msg "client canceled" || contains msg "context canceled"
    then client_canceled
    else if contains msg "empty completion"
        || contains msg "offensive"
        || contains msg "image limit"
    then upstream_structured
    else unknown
