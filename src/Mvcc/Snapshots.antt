-- ===== src/Mvcc/Snapshots.antt =====
-- What a snapshot sees while others write.
use galay_utils.Prelude.{
  ℕ, ◌+◌, ◌^◌, ◌≤◌, ◌<◌, ◌≡◌, refl, ◌∙◌, sym, arith, List, [], ◌∷◌, ◌++◌, Option, Bool, none, some,
  true, false, length, map, leb, if◌then◌else◌, Bool-cases, inl, inr, ◌==◌,
}
use galay_utils.Mvcc.{
  VersionedValue, Mvcc, Entries, entry_before, get_value, get_current_value, put_value,
  update_value, compare_and_swap, delete_value, store, snapshot_read, next_version,
}
use galay_utils.Mvcc.Valid.{IsValid, Between, Between-le, store_eq, store-IsValid, current-store}

module _ {T : Type 0} where
  pub entry_before-append :
      (version lo hi key : ℕ) (w : VersionedValue T) (m : Entries T)
      → Between lo hi m
      → hi < key
      → entry_before version (m ++ ((key, w) ∷ []))
        ≡ (if leb key version then some (key, w) else entry_before version m)
  unfolding entry_before
  entry_before-append version lo hi key w [] h p = ground arith
  entry_before-append version lo hi key w ((k, u) ∷ m) (q, h) p =
      ground (arith, Between-le m h, entry_before-append version k hi key w m h p)

  -- A read of any version after one more entry was stored.
  pub get_value-store :
      (version : ℕ) (value : Option T) (deleted : Bool) {m : Mvcc T}
      → IsValid m
      → m.current_version + 1 < 2 ^ 64
      → get_value version (store value deleted m) ≡ (
          if leb (m.current_version + 1) version
          then (if deleted then none else value)
          else get_value version m)
  unfolding get_value
  get_value-store version value deleted {m} v h =
      rw
        (
          store_eq value deleted v h,
          get_value,
          entry_before-append version 0 m.current_version (m.current_version + 1) _ m.versions
              v.sorted (omega arith),
        )
        (elim (Bool-cases (leb (m.current_version + 1) version)) [ inl e ↦ rw e | inr e ↦ rw e ])

  -- A put is what the next reader of the current value sees, under the next version number; after
  -- a delete that reader sees none.
  pub read_latest :
      (value : Option T) {m : Mvcc T}
      → IsValid m
      → m.current_version + 1 < 2 ^ 64
      → let (put, version) = put_value value m in
        let (gone, at) = delete_value m in
        (version ≡ m.current_version + 1)
        × (put.current_version ≡ version)
        × (get_current_value put ≡ value)
        × (at ≡ version)
        × (get_current_value gone ≡ none)
  unfolding put_value delete_value get_current_value get_value
  read_latest value {m} v h =
      let next : next_version m ≡ m.current_version + 1 = omega arith in
      let stored = current-store value false v h in
      let removed = current-store none true v h in
      (
        next,
        stored ∙ sym next,
        rw stored (rw (get_value-store (m.current_version + 1) value false v h) (ground arith)),
        refl,
        rw removed (rw (get_value-store (m.current_version + 1) none true v h) (ground arith)),
      )

pub data Write (T : Type 0) : Type 0 where
  put : Option T → Write T
  update : (Option T → Option T) → Write T
  swap : ℕ → Option T → Write T
  delete : Write T

module _ {T : Type 0} where
  unfoldable pub write : Write T → Mvcc T → Mvcc T
  write (put value) m = (put_value value m).0
  write (update f) m = (update_value f m).0
  write (swap expected value) m = (compare_and_swap expected value m).0
  write delete m = (delete_value m).0

  unfoldable pub writes : List (Write T) → Mvcc T → Mvcc T
  writes [] m = m
  writes (w ∷ ws) m = writes ws (write w m)

  -- `n` writes later: what a reader at an older version, and a writer, rely on.
  pub record Kept (n : ℕ) (m m' : Mvcc T) : Type 0 where
    pub valid : IsValid m'
    pub at_most : m'.current_version ≤ m.current_version + n
    pub at_least : m.current_version ≤ m'.current_version
    pub reads :
        (version : ℕ) → version ≤ m.current_version → get_value version m' ≡ get_value version m

  store-Kept :
      (value : Option T) (deleted : Bool) {m : Mvcc T}
      → IsValid m
      → m.current_version + 1 < 2 ^ 64
      → Kept 1 m (store value deleted m)
  store-Kept value deleted {m} v h = record {
    valid = store-IsValid value deleted v h;
    at_most = omega (arith, current-store value deleted v h);
    at_least = omega (arith, current-store value deleted v h);
    reads = λ version p. get_value-store version value deleted v h ∙ ground arith;
  }

  write-Kept :
      (w : Write T) {m : Mvcc T} → IsValid m → m.current_version + 1 < 2 ^ 64 → Kept 1 m (write w m)
  unfolding write put_value update_value compare_and_swap delete_value
  write-Kept (put value) v h = store-Kept value false v h
  write-Kept (update f) v h = store-Kept _ false v h
  write-Kept (swap expected value) {m} v h = elim (Bool-cases (m.current_version == expected)) [
    | inl e ↦ rw (e, write, compare_and_swap) (store-Kept value false v h)
    | inr e ↦
        rw (e, write, compare_and_swap)
          (record { valid = v; at_most = omega arith; at_least = omega arith; reads = λ _ _. refl })
  ]
  write-Kept delete v h = store-Kept none true v h

  -- What `writes` keeps of the container.
  pub writes-Kept :
      (ws : List (Write T)) {m : Mvcc T}
      → IsValid m
      → m.current_version + length ws < 2 ^ 64
      → Kept (length ws) m (writes ws m)
  unfolding writes
  writes-Kept [] {m} v h = record {
    valid = v;
    at_most = omega arith;
    at_least = omega arith;
    reads = λ _ _. refl;
  }
  writes-Kept (w ∷ ws) {m} v h =
      let k = write-Kept w v (omega arith) in
      let rest = writes-Kept ws k.valid (omega (arith, k.at_most)) in
      record {
        valid = rest.valid;
        at_most = omega (arith, k.at_most, rest.at_most);
        at_least = omega (arith, k.at_least, rest.at_least);
        reads = λ version p. rest.reads version (omega (arith, k.at_least)) ∙ k.reads version p;
      }

  pub puts-current :
      (xs : List T) (m : Mvcc T)
      → m.current_version + length xs < 2 ^ 64
      → (writes (map (λ x. Write.put (some x)) xs) m).current_version
        ≡ m.current_version + length xs
  unfolding writes write put_value store
  puts-current [] m h = ground arith
  puts-current (x ∷ xs) m h =
      let n : next_version m ≡ m.current_version + 1 = omega arith in
      puts-current xs (store (some x) false m) (omega arith) ∙ omega arith

  -- Whatever is written, a snapshot of a version that existed goes on reading the same value, and
  -- the versions stay in order, as long as the version numbers do not wrap.
  pub snapshot_stable :
      (ws : List (Write T)) (version : ℕ) {m : Mvcc T}
      → IsValid m
      → m.current_version + length ws < 2 ^ 64
      → version ≤ m.current_version
      → IsValid (writes ws m) × (snapshot_read version (writes ws m) ≡ snapshot_read version m)
  unfolding snapshot_read
  snapshot_stable ws version v h p = let k = writes-Kept ws v h in (k.valid, k.reads version p)
