-- ===== src/UserSessions/Tests.antt =====
-- Runs of the user sessions, and an instance of their theorem.
use m365_copilot2api_docker.Base.{◌≡◌, some, [], arith, str_eq, if◌then◌else◌, ◌&&◌, false}
use m365_copilot2api_docker.UserSessions.{UserStore, get_user, put_user}
use m365_copilot2api_docker.UserSessions.Separation.{IsPlain, found, put_get_user}

abbrev fresh : UserStore
fresh = record { data_of = []; ttl = 60; dirty = false }

IsPlain-a : IsPlain "a"
IsPlain-a = (λ e. absurd (omega (arith, e)), tt)

IsPlain-b : IsPlain "b"
IsPlain-b = (λ e. absurd (omega (arith, e)), tt)

put_get_user_example : (get_user 20 "b" "me" (put_user 10 "a" "me" "c" "s" "x" fresh)).1 ≡ (
    if str_eq "a" "b" && str_eq "me" "me"
    then found 60 20 (
        some
          (record { conversation_id = "c"; session_id = "s"; account_id = "x"; last_used_at = 10 }))
    else (get_user 20 "b" "me" fresh).1)
put_get_user_example = put_get_user 10 20 "a" "b" "me" "me" "c" "s" "x" fresh IsPlain-a IsPlain-b
