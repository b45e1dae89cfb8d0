-- ===== src/LruCache/Tests.antt =====
-- A cache of two entries at concrete inputs.
use galay_utils.Prelude.{
  ◌≡◌, ℕ, refl, List, [], ◌∷◌, true, false, none, some, length, ◌+◌, ◌^◌, ◌-◌,
}
use galay_utils.LruCache.{
  LruCache, ExpirationPolicy, EvictReason, init_cache, expiration_from_ttl, find_index, erase_index,
  push, is_current, count_eviction, entry_at, erase_at, update_at, last_entry, record_hit,
  record_miss, record_insert, record_update, notify_evict, erase_entry, due_entry, purge_loop,
  purge_expired, enforce_loop, enforce_capacity, remove_key, next_version_of, update_expiration,
  refresh_after_access, splice, touch, set_value, add_front, update_entry, insert_entry,
  put_with_expiration, put, put_for, put_until, get, peek, contains, remove, clear_loop, clear,
  size, set_capacity, set_default_ttl, reset_stats,
}
use galay_utils.LruCache.Valid.{IsValid}
use galay_utils.LruCache.Purge.{keep, purge_lem}
use galay_utils.LruCache.Spec.{Call, Answer, abstract, step, answers, model_answers}
use galay_utils.LruCache.Run.{init_cache-IsValid, step-IsValid, cache_refines}

program : Unit {0}
unfolding init_cache expiration_from_ttl find_index erase_index push is_current count_eviction
    entry_at erase_at update_at last_entry record_hit record_miss record_insert record_update
    notify_evict erase_entry due_entry purge_loop purge_expired enforce_loop enforce_capacity
    remove_key next_version_of update_expiration refresh_after_access splice touch set_value
    add_front update_entry insert_entry put_with_expiration put put_for put_until get peek contains
    remove clear_loop clear size set_capacity set_default_ttl reset_stats step answers
program = tt

abbrev empty : LruCache ℕ
empty = init_cache 2 none true ExpirationPolicy.expire_after_access

abbrev calls : List (Call ℕ)
calls =
    Call.call_put 0 0 0 7 70
    ∷ Call.call_put_for 1 1 1 8 80 5
    ∷ Call.call_get 2 2 7
    ∷ Call.call_put 3 3 3 9 90
    ∷ Call.call_contains 4 8
    ∷ Call.call_get 4 4 7
    ∷ Call.call_set_capacity 5 1
    ∷ Call.call_size 5
    ∷ Call.call_peek 5 7
    ∷ Call.call_clear
    ∷ Call.call_size 6
    ∷ []

least_recent_leaves :
    answers calls empty
    ≡ Answer.flag true
      ∷ Answer.flag true
      ∷ Answer.value_of (some 70)
      ∷ Answer.flag true
      ∷ Answer.flag false
      ∷ Answer.value_of (some 70)
      ∷ Answer.done
      ∷ Answer.number 1
      ∷ Answer.value_of (some 70)
      ∷ Answer.done
      ∷ Answer.number 0
      ∷ []
unfolding program
least_recent_leaves = refl

-- One entry that expires at 6, and one that does not.
abbrev two : LruCache ℕ
two = (step (Call.call_put_for 1 1 1 8 80 5) (step (Call.call_put 0 0 0 7 70) empty).0).0

expires : (purge_expired 6 two).1 ≡ 1
unfolding program
expires = refl

notified : (purge_expired 6 two).0.evictions ≡ (8, 80, EvictReason.expired) ∷ []
unfolding program
notified = refl

stays : (purge_expired 5 two).1 ≡ 0
unfolding program
stays = refl

-- A time to live of -1 from the time 5 has expired at once, and so has the greatest one, whose sum
-- with the time wraps.
negative_ttl : (put_for (2 ^ 63 + 5) (2 ^ 63 + 5) (2 ^ 63 + 5) 9 90 (2 ^ 64 - 1) two).1 ≡ false
unfolding program
negative_ttl = refl

greatest_ttl : (put_for (2 ^ 63 + 5) (2 ^ 63 + 5) (2 ^ 63 + 5) 9 90 (2 ^ 63 - 1) two).1 ≡ false
unfolding program
greatest_ttl = refl

positive_ttl : (put_for (2 ^ 63 + 5) (2 ^ 63 + 5) (2 ^ 63 + 5) 9 90 1 two).1 ≡ true
unfolding program
positive_ttl = refl

two-IsValid : IsValid two
two-IsValid = step-IsValid (Call.call_put_for 1 1 1 8 80 5) (
    step-IsValid (Call.call_put 0 0 0 7 70)
      (init_cache-IsValid 2 none true ExpirationPolicy.expire_after_access))

cache_refines_example : answers calls two ≡ model_answers calls (abstract two)
cache_refines_example = cache_refines calls two-IsValid

purge_lem_example :
    let (c', n) = purge_expired 6 two in
    (c'.items ≡ keep 6 two.items) × (n + length c'.items ≡ length two.items) × IsValid c'
purge_lem_example = purge_lem 6 two-IsValid

step-IsValid_example : IsValid (step (Call.call_get 2 2 7) two).0
step-IsValid_example = step-IsValid (Call.call_get 2 2 7) two-IsValid
