-- ===== src/Health/Queries.antt =====
-- The queries of accountHealth, which may first forget a cooldown that has passed, and its smaller
-- updates (internal/web/account_health.go).
use m365_copilot2api_docker.Base.{
  ℕ, ◌+◌, ◌*◌, ◌/◌, String, Bool, true, false, Option, none, some, [], ◌∷◌, ◌&&◌, ◌||◌, ltb, ◌==◌,
  not, str_eq, if◌then◌else◌, or_zero, ℤ, minute, day,
}
use m365_copilot2api_docker.Dict.{Dict, get, put, remove}
use m365_copilot2api_docker.Circuit.{Circuit, is_open}
use m365_copilot2api_docker.Health.{Health, holds, cleanup}

-- CallCount
pub call_count : String → ℕ → Health → ℕ × Health
call_count id now h = let h' = cleanup id now h in (or_zero 0 (get h'.calls id), h')

-- RateLimited
pub rate_limited : String → ℕ → Health → Bool × Health
rate_limited id now h = let h' = cleanup id now h in (holds h'.limited id, h')

forget_image_limit : String → ℕ → Health → Health
forget_image_limit id now h = elim (get h.image_limit_until id) [
  | none ↦ h
  | some until ↦
      if ltb until now
      then record h {
        image_limited = remove h.image_limited id;
        image_limit_until = remove h.image_limit_until id;
      }
      else h
]

-- ImageLimited
unfoldable pub image_limited : String → ℕ → Health → Bool × Health
unfolding forget_image_limit
image_limited id now h =
    let h1 = if holds h.image_limited id then forget_image_limit id now h else h in
    let h2 = cleanup id now h1 in (holds h2.image_limited id, h2)

-- MarkImageGenTokensThrottled: until the next midnight, UTC. The zero time is a midnight.
pub mark_image_gen_tokens_throttled : String → ℕ → Health → Health
mark_image_gen_tokens_throttled id now h = if str_eq id "" then h else record h {
  image_gen_cooldown_until = put h.image_gen_cooldown_until id ((now / day + 1) * day);
}

-- MarkImageGenSystemThrottled
pub mark_image_gen_system_throttled : String → ℕ → Health → Health
mark_image_gen_system_throttled id now h = if str_eq id "" then h else record h {
  image_gen_system_cooldown = put h.image_gen_system_cooldown id (now + 30 * minute);
}

ahead : ℕ → Option ℕ → Bool
ahead now none = false
ahead now (some t) = ltb now t

-- ImageGenAvailable
pub image_gen_available : String → ℕ → Health → Bool
unfolding ahead
image_gen_available id now h =
    not (ahead now (get h.image_gen_cooldown_until id))
    && not (ahead now (get h.image_gen_system_cooldown id))

-- UpdateMetering; a map without entries is not kept.
pub update_metering : String → String → Bool → Dict ℤ → Health → Health
update_metering id meter_error has_access remaining h =
    if str_eq id ""
    then h
    else let h1 = record h {
      last_meter_error = put h.last_meter_error id meter_error;
      last_meter_access = put h.last_meter_access id has_access;
    } in
      elim remaining [
        | [] ↦ record h1 { remaining_allowance = remove h.remaining_allowance id }
        | e ∷ rest ↦ record h1 { remaining_allowance = put h.remaining_allowance id (e ∷ rest) }
      ]

-- GetMetering: access is presumed until it is known.
pub get_metering : String → Health → String × Bool × Dict ℤ
get_metering id h = (
  or_zero "" (get h.last_meter_error id),
  or_zero true (get h.last_meter_access id),
  or_zero [] (get h.remaining_allowance id),
)

-- CooldownUntil
pub cooldown_until : String → ℕ → Health → Option ℕ × Health
cooldown_until id now h = let h' = cleanup id now h in (get h'.cooldown id, h')

-- Available, with the state that its cleanups leave.
unfoldable pub available : String → ℕ → Health × Circuit → Bool × (Health × Circuit)
unfolding ahead
available id now (h, c) =
    let h' = cleanup id now h in
    let (open_now, c') = is_open now c in
    (
      if open_now
          then false
          else if holds h'.auth_fail id
          then false
          else not (ahead now (get h'.cooldown id)),
      (h', c'),
    )

earliest : Dict ℕ → Option ℕ
earliest [] = none
earliest ((id, until) ∷ rest) = elim (earliest rest) [
  | none ↦ some until
  | some t ↦ some (if ltb until t then until else t)
]

-- EarliestRecovery; 0 is the zero time. An open circuit that closes sooner is sooner.
pub earliest_recovery : ℕ → Health × Circuit → ℕ × Circuit
unfolding earliest
earliest_recovery now (h, c) = elim (earliest h.cooldown) [
  | none ↦ (0, c)
  | some t ↦
      let (open_now, c') = is_open now c in
      (
        if open_now && not (c'.open_until == 0) && (t == 0 || ltb c'.open_until t)
            then c'.open_until
            else t,
        c',
      )
]
