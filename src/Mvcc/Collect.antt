-- ===== src/Mvcc/Collect.antt =====
-- Garbage collection.
use galay_utils.Prelude.{
  ℕ, ◌≤◌, ◌<◌, ◌≡◌, ◌≢◌, refl, ◌∙◌, sym, arith, [], ◌∷◌, none, true, length, ltb, Bool-cases, inl,
  inr, min, drop, dec_lt, ◌-◌, suc,
}
use galay_utils.Mvcc.{
  Mvcc, VersionedValue, Entries, entry_before, find, last, drop_to, drop_older, gc, gc_older_than,
  get_value, get_current_value, is_valid, version_count,
}
use galay_utils.Mvcc.Valid.{IsValid, Between, Between-le, gc-IsValid, gc_older_than-IsValid}

module _ {T : Type 0} where
  last_some : (e : ℕ × VersionedValue T) (m : Entries T) → last (e ∷ m) ≢ none
  unfolding last
  last_some e [] = ground arith
  last_some e (f ∷ m) = last_some f m

  entry_before_eq_last :
      (version lo hi : ℕ) (m : Entries T)
      → Between lo hi m
      → hi ≤ version
      → entry_before version m ≡ last m
  unfolding entry_before last
  entry_before_eq_last version lo hi [] h p = refl
  entry_before_eq_last version lo hi ((k, w) ∷ []) h p = ground arith
  entry_before_eq_last version lo hi ((k, w) ∷ (l, u) ∷ m) (q, h) p = ground (
    arith,
    Between-le _ h.1,
    entry_before_eq_last version k hi ((l, u) ∷ m) h p,
    last_some (l, u) m,
  )

  last-drop_to : (keep : ℕ) (m : Entries T) → 1 ≤ keep → last (drop_to keep m) ≡ last m
  unfolding drop_to last
  last-drop_to keep [] p = refl
  last-drop_to keep (e ∷ []) p = ground arith
  last-drop_to keep (e ∷ f ∷ m) p = ground (arith, last-drop_to keep (f ∷ m) p)

  length-drop_to : (keep : ℕ) (m : Entries T) → length (drop_to keep m) ≡ min keep (length m)
  unfolding drop_to
  length-drop_to keep [] = ground arith
  length-drop_to keep (e ∷ m) = ground (arith, length-drop_to keep m)

  drop_to-eq-drop : (keep : ℕ) (m : Entries T) → drop_to keep m ≡ drop (length m - keep) m
  unfolding drop_to
  drop_to-eq-drop keep [] = ground arith
  drop_to-eq-drop keep (e ∷ m) = elim (dec_lt keep (suc (length m))) [
    | yes q ↦
        let step : suc (length m) - keep ≡ suc (length m - keep) = omega arith in
        rw step (ground (arith, drop_to-eq-drop keep m))
    | no q ↦ let step : suc (length m) - keep ≡ 0 = omega arith in rw step (ground arith)
  ]

  -- Collecting a valid container down to at least one version takes away the oldest ones, as many as there are more
  -- than `keep`, so that the newest ones are left: their number is the smaller of `keep` and the
  -- number there was, and the current value reads as before.
  pub gc_lem :
      (keep : ℕ) {m : Mvcc T}
      → IsValid m
      → 1 ≤ keep
      → ((gc keep m).versions ≡ drop (version_count m - keep) m.versions)
        × (version_count (gc keep m) ≡ min keep (version_count m))
        × (get_current_value (gc keep m) ≡ get_current_value m)
        × IsValid (gc keep m)
  unfolding gc get_current_value get_value
  gc_lem keep {m} v p =
      let c = m.current_version in
      let kept = gc-IsValid v keep in
      let newest = entry_before_eq_last c 0 c (drop_to keep m.versions) kept.sorted (omega arith) in
      let same = entry_before_eq_last c 0 c m.versions v.sorted (omega arith) in
      let all = newest ∙ last-drop_to keep m.versions p ∙ sym same in
      (
        drop_to-eq-drop keep m.versions,
        length-drop_to keep m.versions,
        rw (get_current_value, get_value, all) refl,
        kept,
      )

  find-Between : (key lo hi : ℕ) (m : Entries T) → Between lo hi m → find key m ≡ true → lo < key
  unfolding find
  find-Between key lo hi [] h f = ground arith
  find-Between key lo hi ((k, w) ∷ m) (q, h) f = elim (Bool-cases (find key m)) [
    | inl e ↦ omega (arith, find-Between key k hi m h e)
    | inr e ↦ ground arith
  ]

  found :
      (version key lo hi : ℕ) (m : Entries T)
      → Between lo hi m
      → find key m ≡ true
      → key ≤ version
      → entry_before version m ≢ none
  unfolding entry_before find
  found version key lo hi [] h f p = ground arith
  found version key lo hi ((k, w) ∷ m) (q, h) f p = elim (Bool-cases (find key m)) [
    | inl e ↦
        ground (arith, Between-le m h, found version key k hi m h e p, find-Between key k hi m h e)
    | inr e ↦ ground arith
  ]

  drop_older-same :
      (version key lo hi : ℕ) (m : Entries T)
      → Between lo hi m
      → find key m ≡ true
      → key ≤ version
      → (entry_before version (drop_older key m) ≡ entry_before version m)
        × (find key (drop_older key m) ≡ true)
  unfolding entry_before find drop_older
  drop_older-same version key lo hi [] h f p = ground arith
  drop_older-same version key lo hi ((k, w) ∷ m) (q, h) f p = elim (Bool-cases (ltb k key)) [
    | inl e ↦
        let g : find key m ≡ true = ground arith in
        let ih = drop_older-same version key k hi m h g p in
        let some_later = found version key k hi m h g p in ground (arith, ih)
    | inr e ↦ rw e (refl, f)
  ]

  -- Collecting what is older than a stored version changes no read at that version or later.
  pub gc_older_than_lem :
      (key version : ℕ) {m : Mvcc T}
      → IsValid m
      → is_valid key m ≡ true
      → key ≤ version
      → (get_value version (gc_older_than key m) ≡ get_value version m)
        × (is_valid key (gc_older_than key m) ≡ true)
        × IsValid (gc_older_than key m)
  unfolding gc_older_than get_value is_valid
  gc_older_than_lem key version {m} v f p =
      let (same, kept) = drop_older-same version key 0 m.current_version m.versions v.sorted f p in
      (rw (get_value, same) refl, kept, gc_older_than-IsValid v key)
