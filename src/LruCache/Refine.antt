-- ===== src/LruCache/Refine.antt =====
-- Every call of the cache answers as the model does.
use galay_utils.Prelude.{
  ℕ, ◌≤◌, ◌≡◌, refl, ap, ap₂, sym, ◌∙◌, arith, Bool, true, false, List, ◌∷◌, none, some, length,
  length-map, length-take, take, take_whole, map, ◌==◌, Bool-cases, Option-cases, inl, inr,
}
use galay_utils.LruCache.{
  Entry, Expiration, LruCache, is_expired, expired, capacity, removed, expiration_from_ttl,
  purge_expired, put_with_expiration, put, put_for, put_until, get, peek, contains, remove,
  refresh_after_access, touch, size, record_hit, record_miss, erase_entry,
}
use galay_utils.LruCache.Nodes.{lookup, erase_key, entry_at-lookup, length-erase_key}
use galay_utils.LruCache.Valid.{IsValid, Becomes, found, missing, erase_entry-Becomes}
use galay_utils.LruCache.Purge.{keep, length-keep-le, purge_expired-Becomes}
use galay_utils.LruCache.Spec.{
  Line, Call, Answer, line, abstract, find_line, drop_line, keep_lines, put_line, refreshed,
  model_step, step,
}
use galay_utils.LruCache.Lines.{
  lines-keep, lines-erase_key, lines-take, find_line-lookup, erase_key-none, stats-Becomes,
  Becomes-trans, Becomes-self, remove_key-Becomes,
}
use galay_utils.LruCache.Methods.{update_entry-Becomes, insert_entry-Becomes, access-Becomes}

module _ {V : Type 0} where
  -- A valid cache whose lines are these, with the old settings.
  pub Shows : List (Line V) → LruCache V → LruCache V → Type 0
  Shows lines c c' = IsValid c' × (abstract c' ≡ record (abstract c) { lines = lines })

  shows :
      {items : List (Entry V)} {lines : List (Line V)} {c c' : LruCache V}
      → Becomes items c c'
      → map line items ≡ lines
      → length items ≤ c.limit
      → Shows lines c c'
  unfolding Shows
  shows b e h = (
    record { live = b.live; bounded = omega (arith, ap length b.same, b.settings.limit, h) },
    rw (b.same, e, b.settings.limit, b.settings.default_ttl, b.settings.policy) refl,
  )

  module _ (purged : ℕ) {c : LruCache V} (v : IsValid c) where
    abbrev p : LruCache V
    p = (purge_expired purged c).0

    abbrev kept : List (Line V)
    kept = keep_lines purged (map line c.items)

    b : Becomes (keep purged c.items) c p
    b = purge_expired-Becomes purged v.live

    lines_p : map line p.items ≡ kept
    lines_p = ap (map line) b.same ∙ lines-keep purged c.items

    length_p : length p.items ≤ c.limit
    length_p = omega (arith, ap length b.same, length-keep-le purged c.items, v.bounded)

    length-erased : (key : ℕ) → length (erase_key key p.items) ≤ c.limit
    length-erased key = elim (Option-cases (lookup key p.items)) [
      | inl h ↦ omega (arith, length_p, ap length (erase_key-none key p.items h))
      | inr (e, h) ↦ omega (arith, length_p, length-erase_key key p.items e h)
    ]

    lines-erased : (key : ℕ) → map line (erase_key key p.items) ≡ drop_line key kept
    lines-erased key = lines-erase_key key p.items ∙ ap (drop_line key) lines_p

    removed-Shows :
        (key : ℕ) {c' : LruCache V}
        → Becomes (erase_key key p.items) p c'
        → Shows (drop_line key kept) c c'
    removed-Shows key r = shows (Becomes-trans b r) (lines-erased key) (length-erased key)

    drop_line-none : (key : ℕ) → lookup key p.items ≡ none → drop_line key kept ≡ kept
    drop_line-none key h =
        sym (lines-erased key) ∙ ap (map line) (erase_key-none key p.items h) ∙ lines_p

    find_kept :
        (key : ℕ)
        → find_line key kept ≡ elim (lookup key p.items) [ none ↦ none | some e ↦ some (line e) ]
    find_kept key = ap (find_line key) (sym lines_p) ∙ find_line-lookup key p.items

    with_flag :
        {lines : List (Line V)} {c' : LruCache V} {ok : Bool}
        → Shows lines c c'
        → IsValid c'
          × (abstract c' ≡ record (abstract c) { lines = lines })
          × (◌≡◌ {A = Answer V} (Answer.flag ok) (Answer.flag ok))
    unfolding Shows
    with_flag (valid, same) = (valid, same, refl)

    put-Shows :
        (checked key : ℕ) (value : V) (x : Expiration)
        → let (c', ok) = put_with_expiration purged checked key value x c in
          let (m, a) = put_line purged checked key value x (abstract c) in
          IsValid c' × (abstract c' ≡ m) × (Answer.flag ok ≡ a)
    unfolding put_with_expiration
    put-Shows checked key value x = elim (Bool-cases (is_expired checked x.expires_at)) [
      | inl q ↦ rw q (with_flag (removed-Shows key (remove_key-Becomes key expired b.live)))
      | inr q ↦ elim (Bool-cases (c.limit == 0)) [
        | inl r ↦
            rw (q, b.settings.limit, r)
              (with_flag (removed-Shows key (remove_key-Becomes key capacity b.live)))
        | inr r ↦ elim (Option-cases (lookup key p.items)) [
          | inl h ↦
              let (e, l, i) = insert_entry-Becomes key value x b.live h in
              let new : Line V = record {
                key = key;
                value = value;
                expires_at = x.expires_at;
                ttl = x.ttl;
              } in
              let lines : map line (take p.limit (e ∷ p.items))
                  ≡ take c.limit (new ∷ drop_line key kept) =
                lines-take p.limit (e ∷ p.items)
                ∙ ap₂ take b.settings.limit (ap₂ ◌∷◌ l (lines_p ∙ sym (drop_line-none key h))) in
              rw (q, b.settings.limit, r, missing key b.live.indexed h)
                (with_flag (
                  shows (Becomes-trans b i) lines
                    (omega (arith, length-take p.limit (e ∷ p.items), b.settings.limit))))
          | inr (e, h) ↦
              let (f, l, u) = update_entry-Becomes key value x e b.live h in
              let lines = ap₂ ◌∷◌ l (lines-erased key) in
              let fits : length (f ∷ erase_key key p.items) ≤ c.limit =
                omega (arith, length_p, length-erase_key key p.items e h) in
              let whole = take_whole c.limit _ (
                omega
                  (arith, fits, length-map (f ∷ erase_key key p.items) line, ap length lines)) in
              rw (q, b.settings.limit, r, found key b.live.indexed h)
                (with_flag (shows (Becomes-trans b u) (lines ∙ sym whole) fits))
        ]
      ]
    ]

    -- A call leaves a valid cache, with the state and the answer of the model.
    unfoldable pub Answers : Call V → Type 0
    Answers x =
        let (c', a) = step x c in
        let (m, a') = model_step x (abstract c) in IsValid c' × (abstract c' ≡ m) × (a ≡ a')

    answered :
        (x : Call V) (lines : List (Line V)) (c' : LruCache V) (a : Answer V)
        → step x c ≡ (c', a)
        → model_step x (abstract c) ≡ (record (abstract c) { lines = lines }, a)
        → Shows lines c c'
        → Answers x
    unfolding Answers Shows
    answered x lines c' a s m (valid, same) = rw (s, m) (valid, same, refl)

    miss : {c' : LruCache V} → Becomes p.items p c' → Shows kept c c'
    miss r = shows (Becomes-trans b r) lines_p length_p

    missed : Shows kept c (record_miss p)
    unfolding record_miss
    missed = miss (stats-Becomes (record_miss p).stats (Becomes-self b.live))

    hit : Shows kept c (record_hit p)
    unfolding record_hit
    hit = miss (stats-Becomes (record_hit p).stats (Becomes-self b.live))

    pub get-Answers : (now key : ℕ) → Answers (Call.call_get purged now key)
    unfolding get step model_step
    get-Answers now key =
        let x = Call.call_get purged now key in
        elim (Option-cases (lookup key p.items)) [
          | inl h ↦
              answered x kept (record_miss p) (Answer.value_of none)
                (rw (step, get, missing key b.live.indexed h) refl)
                (rw (model_step, find_kept key, h) refl) missed
          | inr (e, h) ↦
              let (f, l, w, at, r) = access-Becomes key now e b.live h in
              let fits : length (f ∷ erase_key key p.items) ≤ c.limit =
                omega (arith, length_p, length-erase_key key p.items e h) in
              answered x (refreshed now c.policy (line e) ∷ drop_line key kept)
                (refresh_after_access now e.address (touch e.address (record_hit p)))
                (Answer.value_of (some e.value))
                (rw (step, get, found key b.live.indexed h, at, w) refl)
                (rw (model_step, find_kept key, h) refl)
                (shows (Becomes-trans b r)
                  (ap₂ ◌∷◌ (l ∙ ap (λ p. refreshed now p (line e)) b.settings.policy)
                    (lines-erased key))
                  fits)
        ]

    pub peek-Answers : (key : ℕ) → Answers (Call.call_peek purged key)
    unfolding peek step model_step
    peek-Answers key =
        let x = Call.call_peek purged key in
        elim (Option-cases (lookup key p.items)) [
          | inl h ↦
              answered x kept (record_miss p) (Answer.value_of none)
                (rw (step, peek, missing key b.live.indexed h) refl) (rw (find_kept key, h) refl)
                missed
          | inr (e, h) ↦
              let at = entry_at-lookup key p.items e b.live.indexed.distinct h in
              answered x kept (record_hit p) (Answer.value_of (some e.value))
                (rw (step, peek, found key b.live.indexed h, at) refl) (rw (find_kept key, h) refl)
                hit
        ]

    pub contains-Answers : (key : ℕ) → Answers (Call.call_contains purged key)
    unfolding contains step model_step
    contains-Answers key =
        let x = Call.call_contains purged key in
        elim (Option-cases (lookup key p.items)) [
          | inl h ↦
              answered x kept (record_miss p) (Answer.flag false)
                (rw (step, contains, missing key b.live.indexed h) refl)
                (rw (find_kept key, h) refl) missed
          | inr (e, h) ↦
              answered x kept (record_hit p) (Answer.flag true)
                (rw (step, contains, found key b.live.indexed h) refl) (rw (find_kept key, h) refl)
                hit
        ]

    pub remove-Answers : (key : ℕ) → Answers (Call.call_remove purged key)
    unfolding remove step model_step
    remove-Answers key =
        let x = Call.call_remove purged key in
        elim (Option-cases (lookup key p.items)) [
          | inl h ↦
              answered x kept p (Answer.flag false)
                (rw (step, remove, missing key b.live.indexed h) refl)
                (rw (find_kept key, h, drop_line-none key h) refl) (miss (Becomes-self b.live))
          | inr (e, h) ↦
              answered x (drop_line key kept) (erase_entry key e.address removed p)
                (Answer.flag true) (rw (step, remove, found key b.live.indexed h) refl)
                (rw (find_kept key, h) refl)
                (removed-Shows key (erase_entry-Becomes key removed e b.live h))
        ]

    pub size-Answers : Answers (Call.call_size purged)
    unfolding Answers Shows size step model_step
    size-Answers =
        let (valid, same) = miss (Becomes-self b.live) in
        (valid, same, ap Answer.number (sym (length-map p.items line) ∙ ap length lines_p))

    put_all-Answers :
        (x : Call V) (checked key : ℕ) (value : V) (e : Expiration)
        → step x c ≡ (
          (put_with_expiration purged checked key value e c).0,
          Answer.flag (put_with_expiration purged checked key value e c).1,
        )
        → model_step x (abstract c) ≡ put_line purged checked key value e (abstract c)
        → Answers x
    unfolding Answers Shows
    put_all-Answers x checked key value e s m = rw (s, m) (put-Shows checked key value e)

    pub put-Answers :
        (now checked key : ℕ) (value : V) → Answers (Call.call_put now purged checked key value)
    unfolding put step model_step
    put-Answers now checked key value =
        put_all-Answers _ checked key value (expiration_from_ttl now c.default_ttl) refl refl

    pub put_for-Answers :
        (now checked key : ℕ) (value : V) (ttl : ℕ)
        → Answers (Call.call_put_for now purged checked key value ttl)
    unfolding put_for step model_step
    put_for-Answers now checked key value ttl =
        put_all-Answers _ checked key value (expiration_from_ttl now (some ttl)) refl refl

    pub put_until-Answers :
        (checked key : ℕ) (value : V) (t : ℕ)
        → Answers (Call.call_put_until purged checked key value t)
    unfolding put_until step model_step
    put_until-Answers checked key value t =
        put_all-Answers _ checked key value (record { expires_at = some t; ttl = none }) refl refl
