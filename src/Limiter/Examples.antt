-- ===== src/Limiter/Examples.antt =====
-- The theorems on src/limiter.rs at concrete limiters, with stand-ins for the parser of addresses
-- and for the keyed hash.
use cbcl_pairing.Common.{◌≡◌, ◌<◌, [], ◌∷◌, none, some, arith, ok, refl, lookup, has, octets_cmp}
use cbcl_pairing.Limiter.{Entry, Operation, LimiterConfig, LimitDecision, Limiter, index}
use cbcl_pairing.Limiter.Admit.{attempt, count_attempt, prune_attempts, prune, start_cooldown}
use cbcl_pairing.Limiter.Peers.{v6, PeerEnv, peer_key}
use cbcl_pairing.Limiter.Check.{
  new, fresh_limiter, check, check_dimension, check_known, retry, take_recency, keep_swept,
  observe_time, effective,
}
use cbcl_pairing.Limiter.Bounded.{IsBounded}
use cbcl_pairing.Limiter.Config.{new_config}
use cbcl_pairing.Limiter.History.{started, checked, Reachable-IsBounded}
use cbcl_pairing.Limiter.Window.{attempt-expected}
use cbcl_pairing.Limiter.Repeats.{check-repeats_cooldown}

-- Every address is the text of an IPv6 address with these octets; the hash is the message.
abbrev as_v6 : PeerEnv
as_v6 = record {
  parse_address = λ a. some (v6 a);
  to_ipv4_mapped = λ o. none;
  hmac_sha256 = λ key message. message;
}

-- Two attempts in ten seconds, two dimensions, a sweep every hundred seconds.
abbrev two_in_ten : LimiterConfig
two_in_ten = new_config (record { limit = 2; window_seconds = 10 }) 2 100

abbrev start : Limiter
start = fresh_limiter [] two_in_ten

start-new : new [] two_in_ten ≡ ok start
unfolding new
start-new = ground arith

abbrev once : Limiter
once = (check as_v6 start Operation.put (1 ∷ []) 5).0

abbrev twice : Limiter
twice = (check as_v6 once Operation.put (1 ∷ []) 6).0

Reachable-IsBounded_example : IsBounded twice
Reachable-IsBounded_example =
    Reachable-IsBounded
      (checked Operation.put (1 ∷ []) 6
        (checked Operation.put (1 ∷ []) 5 (started [] two_in_ten start-new)))
      (omega arith)

-- Two attempts, of which the first is out of the window at 14.
abbrev busy : Entry
busy = record { attempts = 3 ∷ 9 ∷ []; cooldown_until = none; recency = 0 }

attempt-expected_example :
    attempt (record { limit = 2; window_seconds = 10 }) 14 busy
    ≡ (record busy { attempts = 9 ∷ 14 ∷ [] }, ok (LimitDecision.allowed 0))
attempt-expected_example =
    attempt-expected (record { limit = 2; window_seconds = 10 }) 14 busy
      ((omega arith, tt), (tt, tt)) (omega arith) (omega arith)

-- One hash for all, and one dimension at its limit that was swept at 1.
abbrev blank : PeerEnv
blank = record {
  parse_address = λ a. none;
  to_ipv4_mapped = λ o. none;
  hmac_sha256 = λ key message. [];
}

abbrev spent : Limiter
spent = record {
  operator_key = [];
  config = two_in_ten;
  entries =
      ((Operation.put, []), record { attempts = 5 ∷ 6 ∷ []; cooldown_until = none; recency = 1 })
      ∷ [];
  recency = (1, (Operation.put, [])) ∷ [];
  next_recency = 2;
  last_now = some 6;
  last_sweep = some 1;
  clock_reversals = 0;
  capacity_evictions = 0;
}

spent-IsBounded : IsBounded spent
unfolding lookup has octets_cmp
spent-IsBounded = record {
  usable = record { some_room = omega arith; some_attempt = λ o. omega arith };
  indexed = λ r k. ground arith;
  distinct = (refl, tt);
  within = λ d e h. ground arith;
  capped = omega arith;
}

spent-cooldown : (check blank spent Operation.put (1 ∷ []) 7).1 ≡ ok (LimitDecision.cooldown 307)
unfolding check check_dimension check_known retry take_recency attempt count_attempt start_cooldown
    prune_attempts prune keep_swept observe_time lookup octets_cmp index peer_key
spent-cooldown = refl

spent-later : effective (check blank spent Operation.put (1 ∷ []) 7).0.last_now 200 < 307
unfolding check check_dimension check_known retry take_recency attempt count_attempt start_cooldown
    prune_attempts prune keep_swept observe_time lookup octets_cmp index peer_key
spent-later = omega arith

check-repeats_cooldown_example :
    (check blank (check blank spent Operation.put (1 ∷ []) 7).0 Operation.put (1 ∷ []) 200).1
    ≡ ok (LimitDecision.cooldown 307)
check-repeats_cooldown_example =
    check-repeats_cooldown blank spent Operation.put (1 ∷ []) 7 200 307 spent-IsBounded
      (omega arith) spent-cooldown spent-later
