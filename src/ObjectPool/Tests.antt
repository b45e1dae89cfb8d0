-- ===== src/ObjectPool/Tests.antt =====
-- A pool of at most two objects at concrete inputs.
use galay_utils.Prelude.{◌≡◌, refl, arith, [], ◌∷◌, none, ◌<◌}
use galay_utils.ObjectPool.{
  ObjectPool, create, push_object, fill, init_pool, try_acquire_object, acquire, release, clear,
  shrink_loop, shrink,
}
use galay_utils.ObjectPool.Steps.{State, Step, Steps, IsValid, occurrences, without, pool_lem}

program : Unit {0}
unfolding create push_object fill init_pool try_acquire_object acquire release clear shrink_loop
    shrink occurrences without
program = tt

abbrev one : ObjectPool
one = init_pool 1 2

made : (acquire (acquire one).0).1 ≡ 1
unfolding program
made = refl

returned : (release 0 (acquire one).0).pool ≡ 0 ∷ []
unfolding program
returned = refl

over_full : (release 2 (init_pool 2 2)).destroyed ≡ 2 ∷ []
unfolding program
over_full = refl

shortened : (shrink 1 (init_pool 2 2)).destroyed ≡ 0 ∷ []
unfolding program
shortened = refl

nothing_there : (try_acquire_object (clear one)).1 ≡ none
unfolding program
nothing_there = refl

abbrev start : State
start = record { objects = one; lent = [] }

abbrev taken : State
taken = record { objects = (acquire one).0; lent = (acquire one).1 ∷ [] }

abbrev taken_twice : State
taken_twice = record {
  objects = (acquire taken.objects).0;
  lent = (acquire taken.objects).1 ∷ taken.lent;
}

abbrev given_back : State
given_back = record { objects = release 0 taken_twice.objects; lent = without 0 taken_twice.lent }

holds_first : 0 < occurrences 0 taken_twice.lent
unfolding program
holds_first = omega arith

history : Steps start given_back
history = Steps.and_then start taken given_back (Step.acquired one []) (
    Steps.and_then taken taken_twice given_back (Step.acquired taken.objects taken.lent) (
      Steps.and_then taken_twice given_back given_back
        (Step.released 0 taken_twice.objects taken_twice.lent holds_first) (Steps.stop given_back)))

pool_lem_example : IsValid given_back
pool_lem_example = pool_lem 1 2 (λ h. omega arith) history
