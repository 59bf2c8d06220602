-- ===== src/Security/Tests.antt =====
-- Runs of server/src/security/ at concrete data.
use mistake_agent.Prelude.{
  ℕ, ◌+◌, ◌≤◌, ◌≡◌, refl, true, false, List, [], ◌∷◌, arith, Option, some, none, ◌++◌, any, leb,
  if◌then◌else◌,
}
use mistake_agent.Prelude.Results.{err}
use mistake_agent.Relay.Text.{Text, codes}
use mistake_agent.Security.ClientIp.{client_ip}
use mistake_agent.Security.ClientIp.Forged.{client_ip-forged}
use mistake_agent.Security.Lockout.{FailureGuard, new_guard, check, record_failure}
use mistake_agent.Security.Lockout.Blocking.{nothing, fails, checks, record_failure-check}
use mistake_agent.Security.Lockout.Counting.{failures, failures-threshold}

abbrev strict : FailureGuard
strict = record { states = []; threshold = 1; window = 10; block = 100; keys_cap = 50 }

abbrev lenient : FailureGuard
lenient = record { states = []; threshold = 3; window = 10; block = 100; keys_cap = 50 }

made_new : new_guard 0 10 100 ≡ record strict { keys_cap = 50000 }
unfolding new_guard
made_new = refl

abbrev blocked : FailureGuard
blocked = (record_failure strict "ip" 5).1

fires_now : (record_failure strict "ip" 5).0 ≡ true
unfolding record_failure
fires_now = refl

record_failure-check_example :
    (wait : ℕ) × ((check (check (record_failure blocked "other" 6).1 "ip" 7).1 "ip" 8).0 ≡ err wait)
    × (5 + 100 ≤ 8 + wait)
record_failure-check_example =
    record_failure-check strict "ip" 5 8 fires_now
      (checks "ip" 7 (fails "other" 6 nothing (omega arith) (omega arith)) (omega arith))
      (omega arith)

failures-threshold_example :
    ((record_failure lenient "ip" 5).0 ≡ false)
    × ((record_failure (failures lenient "ip" (5 ∷ 6 ∷ [])) "ip" 7).0 ≡ true)
failures-threshold_example =
    failures-threshold lenient "ip" 5 7 (6 ∷ []) refl (omega arith) ((omega arith, omega arith), tt)
      (omega arith, omega arith) (omega arith)

-- A value with a byte that is not ASCII is refused.
abbrev ascii : List ℕ → Option Text
ascii bytes = if any (λ b. leb 128 b) bytes then none else some bytes

client_ip-forged_example :
    (client_ip ascii
        (some (codes "6.6.6.6,,evil" ++ (44 ∷ codes " 1.2.3.4 ")))
        none
        (some (codes "9.9.9.9"))
        true
      ≡ codes "1.2.3.4")
    × (client_ip ascii
          (some (200 ∷ codes ", 1.2.3.4"))
          (some (codes " 6.6.6.6"))
          (some (codes "9.9.9.9"))
          true
        ≡ codes "6.6.6.6")
    × (client_ip ascii (some (codes "6.6.6.6")) none (some (codes "9.9.9.9")) false
        ≡ codes "9.9.9.9")
client_ip-forged_example =
    client_ip-forged ascii (codes "6.6.6.6,,evil" ++ (44 ∷ codes " 1.2.3.4 "))
      (200 ∷ codes ", 1.2.3.4") (codes " 6.6.6.6") (codes "6.6.6.6,,evil") (codes " 1.2.3.4 ")
      (codes " 6.6.6.6") (some (codes "6.6.6.6")) none (some (codes "9.9.9.9")) refl
      (refl, (refl, (refl, (refl, (refl, (refl, (refl, (refl, (refl, tt))))))))) refl refl refl refl
