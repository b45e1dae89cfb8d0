-- ===== src/Mvcc/Valid.antt =====
-- The versions stand in ascending order, from 1 up to the current version.
use galay_utils.Prelude.{
  ap, length, ltb, ◌==◌, Bool-cases, inl, inr, ℕ, ◌+◌, ◌^◌, ◌≤◌, ◌<◌, ◌≡◌, refl, arith, [], ◌∷◌,
  ◌++◌, Option, Bool,
}
use galay_utils.Mvcc.{
  VersionedValue, Mvcc, Entries, assign, erase, store, remove_value, gc, drop_to, gc_older_than,
  drop_older, next_version, find,
}

module _ {T : Type 0} where
  -- The keys ascend strictly, above `lo` and up to `hi`.
  abbrev pub Between : ℕ → ℕ → Entries T → Type 0
  Between lo hi [] = lo ≤ hi
  Between lo hi ((k, w) ∷ m) = (lo < k) × Between k hi m

  pub record IsValid (m : Mvcc T) : Type 0 where
    pub fits : m.current_version < 2 ^ 64
    pub sorted : Between 0 m.current_version m.versions

  pub Between-le : {lo hi : ℕ} (m : Entries T) → Between lo hi m → lo ≤ hi
  Between-le [] h = h
  Between-le ((k, w) ∷ m) (p, h) = omega (arith, Between-le m h)

  pub Between-lower :
      (lo lo' hi : ℕ) (m : Entries T) → lo' ≤ lo → Between lo hi m → Between lo' hi m
  Between-lower lo lo' hi [] p h = omega arith
  Between-lower lo lo' hi ((k, w) ∷ m) p (q, h) = (omega arith, h)

  -- A key above all others is stored at the end.
  pub assign_last :
      (lo hi key : ℕ) (v : VersionedValue T) (m : Entries T)
      → Between lo hi m
      → hi < key
      → assign key v m ≡ m ++ ((key, v) ∷ [])
  unfolding assign
  assign_last lo hi key v [] h p = refl
  assign_last lo hi key v ((k, w) ∷ m) (q, h) p =
      ground (arith, Between-le m h, assign_last k hi key v m h p)

  Between-append :
      (lo hi key : ℕ) (v : VersionedValue T) (m : Entries T)
      → Between lo hi m
      → hi < key
      → Between lo key (m ++ ((key, v) ∷ []))
  Between-append lo hi key v [] h p = omega arith
  Between-append lo hi key v ((k, w) ∷ m) (q, h) p = (q, Between-append k hi key v m h p)

  -- `store` adds one entry behind all others, under the next number.
  pub store_eq :
      (value : Option T) (deleted : Bool) {m : Mvcc T}
      → IsValid m
      → m.current_version + 1 < 2 ^ 64
      → let k = m.current_version + 1 in
        let w : VersionedValue T = record { version = k; value = value; deleted = deleted } in
        store value deleted m
        ≡ record { current_version = k; versions = m.versions ++ ((k, w) ∷ []) }
  unfolding store
  store_eq value deleted {m} v h =
      let e : next_version m ≡ m.current_version + 1 = omega arith in
      rw (
        e,
        assign_last 0 m.current_version (m.current_version + 1) _ m.versions v.sorted (omega arith),
      )

  pub current-store :
      (value : Option T) (deleted : Bool) {m : Mvcc T}
      → IsValid m
      → m.current_version + 1 < 2 ^ 64
      → (store value deleted m).current_version ≡ m.current_version + 1
  current-store value deleted v h = ap (λ n. n.current_version) (store_eq value deleted v h)

  pub store-IsValid :
      (value : Option T) (deleted : Bool) {m : Mvcc T}
      → IsValid m
      → m.current_version + 1 < 2 ^ 64
      → IsValid (store value deleted m)
  store-IsValid value deleted {m} v h = rw (store_eq value deleted v h) (record {
    fits = h;
    sorted = Between-append 0 m.current_version _ _ m.versions v.sorted (omega arith);
  })

  erase-Between :
      (lo hi version : ℕ) (m : Entries T) → Between lo hi m → Between lo hi (erase version m)
  unfolding erase
  erase-Between lo hi version [] h = h
  erase-Between lo hi version ((k, w) ∷ m) (q, h) = elim (Bool-cases (k == version)) [
    | inl e ↦ rw e (Between-lower k lo hi m (omega arith) h)
    | inr e ↦ rw e (q, erase-Between k hi version m h)
  ]

  drop_to-Between :
      (lo hi keep : ℕ) (m : Entries T) → Between lo hi m → Between lo hi (drop_to keep m)
  unfolding drop_to
  drop_to-Between lo hi keep [] h = h
  drop_to-Between lo hi keep ((k, w) ∷ m) (q, h) =
      elim (Bool-cases (ltb keep (length ((k, w) ∷ m)))) [
        | inl e ↦
            rw e
              (Between-lower k lo hi (drop_to keep m) (omega arith) (drop_to-Between k hi keep m h))
        | inr e ↦ rw e (q, h)
      ]

  drop_older-Between :
      (lo hi older_than : ℕ) (m : Entries T)
      → Between lo hi m
      → Between lo hi (drop_older older_than m)
  unfolding drop_older
  drop_older-Between lo hi older_than [] h = h
  drop_older-Between lo hi older_than ((k, w) ∷ m) (q, h) = elim (Bool-cases (ltb k older_than)) [
    | inl e ↦ rw e (
        Between-lower k lo hi (drop_older older_than m) (omega arith)
          (drop_older-Between k hi older_than m h))
    | inr e ↦ rw e (q, h)
  ]

  module _ {m : Mvcc T} (v : IsValid m) where
    pub remove_value-IsValid : (version : ℕ) → IsValid (remove_value version m).0
    unfolding remove_value
    remove_value-IsValid version = elim (Bool-cases (find version m.versions)) [
      | inl e ↦
          rw e (record { fits = v.fits; sorted = erase-Between 0 _ version m.versions v.sorted })
      | inr e ↦ rw e v
    ]

    pub gc-IsValid : (keep : ℕ) → IsValid (gc keep m)
    unfolding gc
    gc-IsValid keep = record {
      fits = v.fits;
      sorted = drop_to-Between 0 _ keep m.versions v.sorted;
    }

    pub gc_older_than-IsValid : (older_than : ℕ) → IsValid (gc_older_than older_than m)
    unfolding gc_older_than
    gc_older_than-IsValid older_than = record {
      fits = v.fits;
      sorted = drop_older-Between 0 _ older_than m.versions v.sorted;
    }
