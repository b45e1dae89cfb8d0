-- ===== src/RateLimiter.antt =====
-- galay-utils/tool/rate_limiter.hpp: `CountingSemaphore` and `SlidingWindowLimiter`, one call at a
-- time, so that no exchange on an atomic variable fails. A time is the `int64_t` that the clock
-- answers, kept as its value plus 2 ^ 63; a method that changes the limiter returns it first.
mod Log
mod Window
mod Semaphore
mod Buckets
mod Tests
use galay_utils.Prelude.{
  ℕ, zero, suc, ◌+◌, ◌-◌, ◌%◌, ◌^◌, Bool, true, false, List, get_or, set, replicate, ltb, leb, ◌==◌,
  if◌then◌else◌, add_size, sub_size,
}

pub record CountingSemaphore : Type 0 where
  pub count : ℕ

pub acquire_semaphore : ℕ → CountingSemaphore → CountingSemaphore × Bool
acquire_semaphore count s =
    if leb count s.count then (record { count = sub_size s.count count }, true) else (s, false)

pub release_semaphore : ℕ → CountingSemaphore → CountingSemaphore
release_semaphore count s = record { count = add_size s.count count }

pub record SlidingWindowLimiter : Type 0 where
  pub max_requests : ℕ
  pub window_ticks : ℕ
  pub requests : List ℕ
  pub probe_cursor : ℕ

-- Every slot holds the least `int64_t`.
pub init_window : ℕ → ℕ → SlidingWindowLimiter
init_window max_requests window_ticks = record {
  max_requests = max_requests;
  window_ticks = window_ticks;
  requests = replicate max_requests 0;
  probe_cursor = 0;
}

-- The loop of `tryAcquire`, for `rounds` more offsets from `offset` on; the slot that takes the
-- request, if there is one.
pub probe : ℕ → ℕ → ℕ → ℕ → ℕ → ℕ → List ℕ → List ℕ × Bool
probe zero offset max_requests start now cutoff requests = (requests, false)
probe (suc rounds) offset max_requests start now cutoff requests =
    let index = add_size start offset % max_requests in
    let rest = probe rounds (offset + 1) max_requests start now cutoff requests in
    if ltb (get_or requests index 0) cutoff then (set requests index now, true) else rest

pub try_acquire : ℕ → SlidingWindowLimiter → SlidingWindowLimiter × Bool
unfolding probe
try_acquire now l =
    let cutoff = sub_size now l.window_ticks in
    let (requests, granted) =
      probe l.max_requests 0 l.max_requests l.probe_cursor now cutoff l.requests in
    if l.max_requests == 0
    then (l, false)
    else (record l { requests = requests; probe_cursor = add_size l.probe_cursor 1 }, granted)
