-- ===== src/Mvcc.antt =====
-- galay-utils/algorithm/mvcc.hpp: `Mvcc`, `Snapshot` and `Transaction`.
-- One call is one function: every method holds the lock from its first access to its last, but for
-- `getCurrentValue`, which reads the version counter before `getValue` takes the lock; a write between
-- the two is not modelled. A `std::map` is the list of its entries by ascending key; a `unique_ptr` that may
-- be null is an option. A method that changes the container returns it first.
mod Valid
mod Snapshots
mod Commits
mod Collect
mod Tests
use galay_utils.Prelude.{
  ℕ, zero, suc, ◌+◌, ◌%◌, ◌<◌, Bool, true, false, not, ◌&&◌, ◌||◌, List, [], ◌∷◌, Option, none,
  some, ltb, leb, ◌==◌, if◌then◌else◌, length, add_size, map,
}

pub record VersionedValue (T : Type 0) : Type 0 where
  pub version : ℕ
  pub value : Option T
  pub deleted : Bool

pub record Mvcc (T : Type 0) : Type 0 where
  pub current_version : ℕ
  pub versions : List (ℕ × VersionedValue T)

abbrev pub Entries : Type 0 → Type 0
Entries T = List (ℕ × VersionedValue T)

module _ {T : Type 0} where
  pub new_mvcc : Mvcc T
  new_mvcc = record { current_version = 0; versions = [] }

  -- `m_versions[key] = value`
  pub assign : ℕ → VersionedValue T → Entries T → Entries T
  assign key v [] = (key, v) ∷ []
  assign key v ((k, w) ∷ m) =
      let rest = assign key v m in
      if ltb key k then (key, v) ∷ (k, w) ∷ m else if key == k then (key, v) ∷ m else (k, w) ∷ rest

  -- The entry before `upper_bound(version)`, if that is not the first.
  pub entry_before : ℕ → Entries T → Option (ℕ × VersionedValue T)
  entry_before version [] = none
  entry_before version ((k, w) ∷ m) =
      let later = entry_before version m in
      if ltb version k then none else elim later [ none ↦ some (k, w) | some e ↦ some e ]

  -- `find(version) != end()`
  pub find : ℕ → Entries T → Bool
  find version [] = false
  find version ((k, w) ∷ m) = k == version || find version m

  -- `erase` of the entry that `find` found
  pub erase : ℕ → Entries T → Entries T
  erase version [] = []
  erase version ((k, w) ∷ m) =
      let rest = erase version m in if k == version then m else (k, w) ∷ rest

  pub last : Entries T → Option (ℕ × VersionedValue T)
  last [] = none
  last (e ∷ []) = some e
  last (_ ∷ e ∷ m) = last (e ∷ m)

  abbrev live : VersionedValue T → Option T
  live w = if w.deleted then none else w.value

  pub get_value_with_version : ℕ → Mvcc T → Option T × ℕ
  get_value_with_version version m = elim (entry_before version m.versions) [
    | none ↦ (none, 0)
    | some (k, w) ↦ (live w, k)
  ]

  pub get_value : ℕ → Mvcc T → Option T
  get_value version m = elim (entry_before version m.versions) [
    | none ↦ none
    | some (k, w) ↦ live w
  ]

  pub get_current_value : Mvcc T → Option T
  get_current_value m = get_value m.current_version m

  -- `++m_currentVersion`, and the new entry under that number.
  abbrev pub next_version : Mvcc T → ℕ
  next_version m = add_size m.current_version 1

  pub store : Option T → Bool → Mvcc T → Mvcc T
  unfolding assign
  store value deleted m = record {
    current_version = next_version m;
    versions =
        assign (next_version m)
          (record { version = next_version m; value = value; deleted = deleted }) m.versions;
  }

  pub put_value : Option T → Mvcc T → Mvcc T × ℕ
  put_value value m = (store value false m, next_version m)

  pub update_value : (Option T → Option T) → Mvcc T → Mvcc T × ℕ
  update_value update_fn m =
      let current : Option T = elim (last m.versions) [ none ↦ none | some (_, w) ↦ live w ] in
      (store (update_fn current) false m, next_version m)

  pub compare_and_swap : ℕ → Option T → Mvcc T → Mvcc T × ℕ
  compare_and_swap expected value m =
      if m.current_version == expected then (store value false m, next_version m) else (m, 0)

  pub remove_value : ℕ → Mvcc T → Mvcc T × Bool
  unfolding find erase
  remove_value version m =
      if find version m.versions
      then (record m { versions = erase version m.versions }, true)
      else (m, false)

  pub delete_value : Mvcc T → Mvcc T × ℕ
  delete_value m = (store none true m, next_version m)

  pub is_valid : ℕ → Mvcc T → Bool
  unfolding find
  is_valid version m = find version m.versions

  abbrev pub version_count : Mvcc T → ℕ
  version_count m = length m.versions

  -- `while (size() > keepVersions) erase(begin());`
  pub drop_to : ℕ → Entries T → Entries T
  drop_to keep [] = []
  drop_to keep (e ∷ m) =
      let rest = drop_to keep m in if ltb keep (length (e ∷ m)) then rest else e ∷ m

  pub gc : ℕ → Mvcc T → Mvcc T
  unfolding drop_to
  gc keep m = record m { versions = drop_to keep m.versions }

  pub drop_older : ℕ → Entries T → Entries T
  drop_older older_than [] = []
  drop_older older_than ((k, w) ∷ m) =
      let rest = drop_older older_than m in if ltb k older_than then rest else (k, w) ∷ m

  pub gc_older_than : ℕ → Mvcc T → Mvcc T
  unfolding drop_older
  gc_older_than older_than m = record m { versions = drop_older older_than m.versions }

  pub get_all_versions : Mvcc T → List ℕ
  get_all_versions m = map (λ e. e.0) m.versions

  pub clear : Mvcc T → Mvcc T
  clear m = record { current_version = 0; versions = [] }

  -- `Snapshot(version).read(mvcc)`
  pub snapshot_read : ℕ → Mvcc T → Option T
  snapshot_read version m = get_value version m

pub record Transaction (T : Type 0) : Type 0 where
  pub start_version : ℕ
  pub pending_value : Option T
  pub committed : Bool

module _ {T : Type 0} where
  pub begin : Mvcc T → Transaction T
  begin m = record { start_version = m.current_version; pending_value = none; committed = false }

  pub tx_read : Transaction T → Mvcc T → Option T
  tx_read t m = get_value t.start_version m

  pub tx_write : Option T → Transaction T → Transaction T
  tx_write value t = record t { pending_value = value }

  -- The pending value is moved out whether or not the swap succeeds.
  try_commit : Transaction T → Option T → Mvcc T → Mvcc T × Transaction T × Bool
  try_commit t none m = (m, t, false)
  try_commit t (some x) m =
      let (m', new_version) = compare_and_swap t.start_version (some x) m in
      let done = not (new_version == 0) in
      (m', record t { pending_value = none; committed = done }, done)

  pub commit : Transaction T → Mvcc T → Mvcc T × Transaction T × Bool
  commit t m = if t.committed then (m, t, false) else try_commit t t.pending_value m
