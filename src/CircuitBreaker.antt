-- ===== src/CircuitBreaker.antt =====
-- galay-utils/tool/circuit_breaker.hpp: `BasicCircuitBreaker`, one call at a time.
-- Each atomic member is a field. A method that reads `Clock::now()` takes the time that the clock
-- answers, in nanoseconds; it returns the new breaker beside its result.
mod Phase
mod Invariant
mod Refine
mod Counting
mod Waiting
mod Execute
mod Tests
use galay_utils.Prelude.{
  add_size, ℕ, ◌+◌, ◌-◌, ◌%◌, ◌^◌, Bool, true, false, ◌&&◌, List, [], ◌∷◌, Option, none, some, ltb,
  leb, ◌==◌, if◌then◌else◌,
}
use galay_utils.Prelude.Int.{ℤ, pos, ◌*ℤ◌, ◌-ℤ◌, ltb_ℤ, leb_ℤ}

pub data CircuitState : Type 0 where
  closed opened half_open : CircuitState

-- `reset_timeout` counts seconds.
pub record CircuitBreakerConfig : Type 0 where
  pub failure_threshold : ℕ
  pub success_threshold : ℕ
  pub half_open_max_requests : ℕ
  pub reset_timeout : ℤ

pub record CircuitBreaker : Type 0 where
  pub config : CircuitBreakerConfig
  pub reset_timeout_ns : ℤ
  pub state : CircuitState
  pub failure_count : ℕ
  pub success_count : ℕ
  pub half_open_in_flight : ℕ
  pub last_failure_time_ns : ℤ

abbrev at_least_one : ℕ → ℕ
at_least_one n = if n == 0 then 1 else n

pub normalize_config : CircuitBreakerConfig → CircuitBreakerConfig
normalize_config c = record {
  failure_threshold = at_least_one c.failure_threshold;
  success_threshold = at_least_one c.success_threshold;
  half_open_max_requests = at_least_one c.half_open_max_requests;
  reset_timeout = if ltb_ℤ c.reset_timeout (pos 0) then pos 0 else c.reset_timeout;
}

-- The product of an `int64_t` may overflow in the source; here it does not wrap.
pub timeout_to_ns : ℤ → ℤ
unfolding ◌*ℤ◌
timeout_to_ns t = t *ℤ pos 1_000_000_000

pub init : CircuitBreakerConfig → CircuitBreaker
unfolding normalize_config timeout_to_ns
init config = record {
  config = normalize_config config;
  reset_timeout_ns = timeout_to_ns (normalize_config config).reset_timeout;
  state = closed;
  failure_count = 0;
  success_count = 0;
  half_open_in_flight = 0;
  last_failure_time_ns = pos 0;
}

abbrev same_state : CircuitState → CircuitState → Bool
same_state closed closed = true
same_state opened opened = true
same_state half_open half_open = true
same_state _ _ = false

-- `m_state.compare_exchange_strong(expected, desired)`, with the stores of its `if` in `stores`.
compare_exchange :
    CircuitState
    → CircuitState
    → (CircuitBreaker → CircuitBreaker)
    → CircuitBreaker
    → CircuitBreaker
compare_exchange expected desired stores b =
    if same_state b.state expected then stores (record b { state = desired }) else b

abbrev clear_counts : CircuitBreaker → CircuitBreaker
clear_counts b = record b { failure_count = 0; success_count = 0; half_open_in_flight = 0 }

-- With no other thread the loop of a weak compare-exchange ends by storing, or by its test.
try_acquire_half_open_probe : CircuitBreaker → CircuitBreaker × Bool
try_acquire_half_open_probe b =
    if ltb b.half_open_in_flight b.config.half_open_max_requests
    then (record b { half_open_in_flight = b.half_open_in_flight + 1 }, true)
    else (b, false)

release_half_open_probe : CircuitBreaker → CircuitBreaker
release_half_open_probe b =
    if ltb 0 b.half_open_in_flight
    then record b { half_open_in_flight = b.half_open_in_flight - 1 }
    else b

-- What follows the compare-exchange: the state is read again.
after_timeout : CircuitBreaker → CircuitBreaker × Bool
unfolding try_acquire_half_open_probe
after_timeout b = elim b.state [
  | half_open ↦ try_acquire_half_open_probe b
  | closed ↦ (b, true)
  | opened ↦ (b, false)
]

pub allow_request : ℤ → CircuitBreaker → CircuitBreaker × Bool
unfolding compare_exchange after_timeout ◌-ℤ◌
allow_request now b = elim b.state [
  | closed ↦ (b, true)
  | opened ↦
      if leb_ℤ b.last_failure_time_ns now
        && leb_ℤ b.reset_timeout_ns (now -ℤ b.last_failure_time_ns)
      then after_timeout (compare_exchange opened half_open clear_counts b)
      else (b, false)
  | half_open ↦ try_acquire_half_open_probe b
]

-- The `HalfOpen` case of `onSuccess`, once the probe is given back.
count_success : CircuitBreaker → CircuitBreaker
unfolding compare_exchange
count_success b =
    let count = add_size b.success_count 1 in
    let counted = record b { success_count = count } in
    if leb b.config.success_threshold count
    then compare_exchange half_open closed clear_counts counted
    else counted

pub on_success : CircuitBreaker → CircuitBreaker
unfolding release_half_open_probe count_success
on_success b = elim b.state [
  | closed ↦ if b.failure_count == 0 then b else record b { failure_count = 0 }
  | half_open ↦ count_success (release_half_open_probe b)
  | opened ↦ b
]

count_failure : CircuitBreaker → CircuitBreaker
unfolding compare_exchange
count_failure b =
    let count = add_size b.failure_count 1 in
    let counted = record b { failure_count = count } in
    if leb b.config.failure_threshold count
    then compare_exchange closed opened (λ c. c) counted
    else counted

-- The switch of `onFailure`, after the time is stored.
fail_by_state : CircuitBreaker → CircuitBreaker
unfolding count_failure release_half_open_probe
fail_by_state b = elim b.state [
  | closed ↦ count_failure b
  | half_open ↦ compare_exchange half_open opened clear_counts (release_half_open_probe b)
  | opened ↦ b
]

pub on_failure : ℤ → CircuitBreaker → CircuitBreaker
unfolding fail_by_state
on_failure now b = fail_by_state (record b { last_failure_time_ns = now })

pub reset : CircuitBreaker → CircuitBreaker
reset b = record (clear_counts b) { state = closed; last_failure_time_ns = pos 0 }

pub force_open : ℤ → CircuitBreaker → CircuitBreaker
force_open now b = record (clear_counts b) { state = opened; last_failure_time_ns = now }

-- An expected-like result, `std::expected<V, E>`.
pub data Expected (V E : Type 0) : Type 0 where
  value : V → Expected V E
  unexpected : E → Expected V E

-- `f` runs in a world of type `W`; `open_error` is `Error{CircuitBreakerError::Open}`. `asked` and
-- `answered` are the times that `allowRequest` and `onFailure` read.
abbrev record_result : {V E : Type 0} → ℤ → CircuitBreaker → Expected V E → CircuitBreaker
record_result answered b (value _) = on_success b
record_result answered b (unexpected _) = on_failure answered b

module _ {W V E : Type 0} (open_error : E) (f : W → Expected V E × W) where
  pub execute : ℤ → ℤ → CircuitBreaker → W → Expected V E × CircuitBreaker × W
  execute asked answered b w =
      let (b', allowed) = allow_request asked b in
      let (result, w') = f w in
      if allowed
      then (result, record_result answered b' result, w')
      else (unexpected open_error, b', w)

module _ {W V E : Type 0} (f fallback : W → Expected V E × W) where
  abbrev or_fallback : ℤ → CircuitBreaker → Expected V E → W → Expected V E × CircuitBreaker × W
  or_fallback answered b (value v) w = (value v, on_success b, w)
  or_fallback answered b (unexpected _) w =
      let (result, w') = fallback w in (result, on_failure answered b, w')

  pub execute_with_fallback : ℤ → ℤ → CircuitBreaker → W → Expected V E × CircuitBreaker × W
  execute_with_fallback asked answered b w =
      let (b', allowed) = allow_request asked b in
      let (result, w') = f w in
      let (second, w'') = fallback w in
      if allowed then or_fallback answered b' result w' else (second, b', w'')

-- A client's calls in order, with what each `allowRequest` answered.
pub data Call : Type 0 where
  allow : ℤ → Call
  success : Call
  failure : ℤ → Call
  clear : Call
  force : ℤ → Call

pub run : CircuitBreaker → List Call → List Bool
run b [] = []
run b (allow now ∷ calls) = let (b', allowed) = allow_request now b in allowed ∷ run b' calls
run b (success ∷ calls) = run (on_success b) calls
run b (failure now ∷ calls) = run (on_failure now b) calls
run b (clear ∷ calls) = run (reset b) calls
run b (force now ∷ calls) = run (force_open now b) calls

-- The breaker that the calls leave.
pub after : CircuitBreaker → List Call → CircuitBreaker
after b [] = b
after b (allow now ∷ calls) = after (allow_request now b).0 calls
after b (success ∷ calls) = after (on_success b) calls
after b (failure now ∷ calls) = after (on_failure now b) calls
after b (clear ∷ calls) = after (reset b) calls
after b (force now ∷ calls) = after (force_open now b) calls
