-- ===== src/Mvcc/Tests.antt =====
-- The container of versions at concrete inputs.
use galay_utils.Prelude.{
  ℕ, ◌≡◌, ◌==◌, refl, arith, List, [], ◌∷◌, none, some, true, false, min, if◌then◌else◌, map, drop,
  ◌-◌,
}
use galay_utils.Mvcc.{
  Mvcc, new_mvcc, begin, tx_read, tx_write, commit, store, get_value, get_value_with_version,
  get_current_value, put_value, update_value, delete_value, compare_and_swap, remove_value, gc,
  gc_older_than, get_all_versions, is_valid, version_count, clear, assign, entry_before,
  snapshot_read, last, find, erase,
}
use galay_utils.Mvcc.Valid.{IsValid}
use galay_utils.Mvcc.Snapshots.{Write, write, writes, put, swap, delete, snapshot_stable}
use galay_utils.Mvcc.Commits.{snapshot_isolation, first_committer_wins, clear_reuses_versions}
use galay_utils.Mvcc.Collect.{gc_lem, gc_older_than_lem}

abbrev empty : Mvcc ℕ
empty = record { current_version = 0; versions = [] }

abbrev two : Mvcc ℕ
two = record {
  current_version = 2;
  versions =
      (1, record { version = 1; value = some 10; deleted = false })
      ∷ (2, record { version = 2; value = some 20; deleted = false })
      ∷ [];
}

two-IsValid : IsValid two
two-IsValid = record { fits = omega arith; sorted = (omega arith, (omega arith, omega arith)) }

abbrev others : List (Write ℕ)
others = put (some 30) ∷ swap 9 (some 1) ∷ delete ∷ []

new_mvcc-empty : new_mvcc ≡ empty
unfolding new_mvcc
new_mvcc-empty = refl

put_twice : (put_value (some 20) (put_value (some 10) empty).0).0 ≡ two
unfolding put_value store assign
put_twice = refl

after_others : get_all_versions (writes others two) ≡ 1 ∷ 2 ∷ 3 ∷ 4 ∷ []
unfolding put_value store assign writes write compare_and_swap delete_value get_all_versions
after_others = refl

update_missing : (update_value (λ _. some 5) empty).1 ≡ 1
unfolding update_value last store assign
update_missing = refl

deleted_read : get_value_with_version 7 (delete_value two).0 ≡ (none, 3)
unfolding delete_value store assign get_value_with_version entry_before
deleted_read = refl

removed : (remove_value 1 two).1 ≡ true
unfolding remove_value find erase
removed = refl

snapshot_stable_example :
    IsValid (writes others two) × (snapshot_read 1 (writes others two) ≡ snapshot_read 1 two)
snapshot_stable_example = snapshot_stable others 1 two-IsValid (omega arith) (omega arith)

snapshot_isolation_example :
    let before = writes others two in
    let (after, t, done) = commit (tx_write (some 8) (begin two)) before in
    (done ≡ (before.current_version == 2))
    × (t.committed ≡ done)
    × (t.pending_value ≡ none)
    × (after ≡ (if done then store (some 8) false before else before))
    × (get_current_value after ≡ (if done then some 8 else get_current_value before))
    × (tx_read t after ≡ get_value 2 two)
    × IsValid after
snapshot_isolation_example = snapshot_isolation 8 others two-IsValid (omega arith)

first_committer_wins_example :
    let (m₁, t, first) = commit (tx_write (some 8) (begin two)) two in
    let (m₂, u, second) = commit (tx_write (some 9) (begin two)) m₁ in
    let (m₃, u', retry) = commit u m₂ in
    (first ≡ true)
    × (second ≡ false)
    × (retry ≡ false)
    × (m₃ ≡ m₁)
    × (get_current_value m₁ ≡ some 8)
first_committer_wins_example = first_committer_wins 8 9 two-IsValid (omega arith)

clear_reuses_versions_example :
    let refilled = writes (map (λ y. Write.put (some y)) (5 ∷ 6 ∷ [])) (clear two) in
    let (after, t, done) = commit (tx_write (some 8) (begin two)) refilled in
    (done ≡ true) × (get_current_value after ≡ some 8)
clear_reuses_versions_example = clear_reuses_versions 8 (5 ∷ 6 ∷ []) two-IsValid (omega arith) refl

gc_lem_example :
    ((gc 1 two).versions ≡ drop (version_count two - 1) two.versions)
    × (version_count (gc 1 two) ≡ min 1 (version_count two))
    × (get_current_value (gc 1 two) ≡ get_current_value two)
    × IsValid (gc 1 two)
gc_lem_example = gc_lem 1 two-IsValid (omega arith)

two-is_valid : is_valid 2 two ≡ true
unfolding is_valid find
two-is_valid = refl

gc_older_than_lem_example :
    (get_value 2 (gc_older_than 2 two) ≡ get_value 2 two)
    × (is_valid 2 (gc_older_than 2 two) ≡ true)
    × IsValid (gc_older_than 2 two)
gc_older_than_lem_example = gc_older_than_lem 2 2 two-IsValid two-is_valid (omega arith)
