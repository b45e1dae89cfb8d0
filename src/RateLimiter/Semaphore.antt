-- ===== src/RateLimiter/Semaphore.antt =====
-- The semaphore's permits.
use galay_utils.Prelude.{
  ℕ, ◌+◌, ◌^◌, ◌<◌, ◌≡◌, arith, List, [], ◌∷◌, leb, Bool-cases, inl, inr, sub_size, ◌-◌,
  if◌then◌else◌,
}
use galay_utils.RateLimiter.{CountingSemaphore, acquire_semaphore, release_semaphore}

pub data Op : Type 0 where
  acquire : ℕ → Op
  release : ℕ → Op

-- The semaphore after the calls, with the permits that were granted to them.
pub run : List Op → CountingSemaphore → CountingSemaphore × ℕ
run [] s = (s, 0)
run (acquire n ∷ ops) s =
    let (s', ok) = acquire_semaphore n s in
    let (end, granted) = run ops s' in (end, (if ok then n else 0) + granted)
run (release n ∷ ops) s = run ops (release_semaphore n s)

abbrev pub released : List Op → ℕ
released [] = 0
released (acquire n ∷ ops) = released ops
released (release n ∷ ops) = n + released ops

-- No sequence of calls makes or loses a permit: what is available at the end and what was granted
-- is together what was there at first and what was released, as long as that fits in 64 bits.
pub semaphore_conserves :
    (ops : List Op) (s : CountingSemaphore)
    → s.count + released ops < 2 ^ 64
    → let (end, granted) = run ops s in end.count + granted ≡ s.count + released ops
unfolding run acquire_semaphore release_semaphore
semaphore_conserves [] s h = ground arith
semaphore_conserves (release n ∷ ops) s h =
    ground (arith, semaphore_conserves ops (release_semaphore n s) (omega arith))
semaphore_conserves (acquire n ∷ ops) s h = elim (Bool-cases (leb n s.count)) [
  | inl e ↦
      let left : CountingSemaphore = record { count = s.count - n } in
      let fewer : sub_size s.count n ≡ s.count - n = ground arith in
      rw (e, fewer) (ground (arith, semaphore_conserves ops left (ground arith)))
  | inr e ↦ rw e (ground (arith, semaphore_conserves ops s h))
]
