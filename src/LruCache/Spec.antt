-- ===== src/LruCache/Spec.antt =====
-- What the cache promises: the entries by recency, with no index, queue, addresses or versions.
use galay_utils.Prelude.{
  ℕ, Bool, true, false, List, [], ◌∷◌, Option, none, some, length, take, map, ◌==◌, add_size,
  if◌then◌else◌,
}
use galay_utils.LruCache.{
  Entry, Expiration, ExpirationPolicy, expire_after_write, expire_after_access, LruCache,
  is_expired, expiration_from_ttl, put, put_for, put_until, get, peek, contains, remove, clear,
  size, set_capacity, set_default_ttl,
}

pub record Line (V : Type 0) : Type 0 where
  pub key : ℕ
  pub value : V
  pub expires_at : Option ℕ
  pub ttl : Option ℕ

pub record Model (V : Type 0) : Type 0 where
  pub lines : List (Line V)
  pub limit : ℕ
  pub default_ttl : Option ℕ
  pub policy : ExpirationPolicy

-- The calls that a client can make, with what the clock answers.
pub data Call (V : Type 0) : Type 0 where
  call_put : ℕ → ℕ → ℕ → ℕ → V → Call V
  call_put_for : ℕ → ℕ → ℕ → ℕ → V → ℕ → Call V
  call_put_until : ℕ → ℕ → ℕ → V → ℕ → Call V
  call_get : ℕ → ℕ → ℕ → Call V
  call_peek call_contains call_remove : ℕ → ℕ → Call V
  call_clear : Call V
  call_size : ℕ → Call V
  call_set_capacity : ℕ → ℕ → Call V
  call_set_default_ttl : Option ℕ → Call V

pub data Answer (V : Type 0) : Type 0 where
  done : Answer V
  flag : Bool → Answer V
  value_of : Option V → Answer V
  number : ℕ → Answer V

module _ {V : Type 0} where
  abbrev pub line : Entry V → Line V
  line e = record { key = e.key; value = e.value; expires_at = e.expires_at; ttl = e.ttl }

  abbrev pub abstract : LruCache V → Model V
  abstract c = record {
    lines = map line c.items;
    limit = c.limit;
    default_ttl = c.default_ttl;
    policy = c.policy;
  }

  unfoldable pub find_line : ℕ → List (Line V) → Option (Line V)
  find_line key [] = none
  find_line key (l ∷ lines) =
      let rest = find_line key lines in if l.key == key then some l else rest

  unfoldable pub drop_line : ℕ → List (Line V) → List (Line V)
  drop_line key [] = []
  drop_line key (l ∷ lines) =
      let rest = drop_line key lines in if l.key == key then lines else l ∷ rest

  -- The lines that are not expired.
  unfoldable pub keep_lines : ℕ → List (Line V) → List (Line V)
  keep_lines now [] = []
  keep_lines now (l ∷ lines) =
      let rest = keep_lines now lines in if is_expired now l.expires_at then rest else l ∷ rest

  abbrev pub put_line : ℕ → ℕ → ℕ → V → Expiration → Model V → Model V × Answer V
  put_line purged checked key value x m =
      let kept = keep_lines purged m.lines in
      let new : Line V = record {
        key = key;
        value = value;
        expires_at = x.expires_at;
        ttl = x.ttl;
      } in
      if is_expired checked x.expires_at
      then (record m { lines = drop_line key kept }, flag false)
      else if m.limit == 0
      then (record m { lines = drop_line key kept }, flag false)
      else (record m { lines = take m.limit (new ∷ drop_line key kept) }, flag true)

  -- A line that was just read.
  abbrev pub refreshed : ℕ → ExpirationPolicy → Line V → Line V
  refreshed now expire_after_write l = l
  refreshed now expire_after_access l = elim l.ttl [
    | none ↦ l
    | some ttl ↦ record l { expires_at = some (add_size now ttl) }
  ]

  unfoldable pub model_step : Call V → Model V → Model V × Answer V
  model_step (call_put now purged checked key value) m =
      put_line purged checked key value (expiration_from_ttl now m.default_ttl) m
  model_step (call_put_for now purged checked key value ttl) m =
      put_line purged checked key value (expiration_from_ttl now (some ttl)) m
  model_step (call_put_until purged checked key value t) m =
      put_line purged checked key value (record { expires_at = some t; ttl = none }) m
  model_step (call_get purged now key) m =
      let kept = keep_lines purged m.lines in
      elim (find_line key kept) [
        | none ↦ (record m { lines = kept }, value_of none)
        | some l ↦ (
          record m { lines = refreshed now m.policy l ∷ drop_line key kept },
          value_of (some l.value),
        )
      ]
  model_step (call_peek purged key) m =
      let kept = keep_lines purged m.lines in
      (
        record m { lines = kept },
        value_of (elim (find_line key kept) [ none ↦ none | some l ↦ some l.value ]),
      )
  model_step (call_contains purged key) m =
      let kept = keep_lines purged m.lines in
      (record m { lines = kept }, flag (elim (find_line key kept) [ none ↦ false | some _ ↦ true ]))
  model_step (call_remove purged key) m =
      let kept = keep_lines purged m.lines in
      (
        record m { lines = drop_line key kept },
        flag (elim (find_line key kept) [ none ↦ false | some _ ↦ true ]),
      )
  model_step call_clear m = (record m { lines = [] }, done)
  model_step (call_size purged) m =
      let kept = keep_lines purged m.lines in (record m { lines = kept }, number (length kept))
  model_step (call_set_capacity purged limit) m =
      (record m { lines = take limit (keep_lines purged m.lines); limit = limit }, done)
  model_step (call_set_default_ttl ttl) m = (record m { default_ttl = ttl }, done)

  -- The same calls of the cache
  unfoldable pub step : Call V → LruCache V → LruCache V × Answer V
  step (call_put now purged checked key value) c =
      let r = put now purged checked key value c in (r.0, flag r.1)
  step (call_put_for now purged checked key value ttl) c =
      let r = put_for now purged checked key value ttl c in (r.0, flag r.1)
  step (call_put_until purged checked key value t) c =
      let r = put_until purged checked key value t c in (r.0, flag r.1)
  step (call_get purged now key) c = let r = get purged now key c in (r.0, value_of r.1)
  step (call_peek purged key) c = let r = peek purged key c in (r.0, value_of r.1)
  step (call_contains purged key) c = let r = contains purged key c in (r.0, flag r.1)
  step (call_remove purged key) c = let r = remove purged key c in (r.0, flag r.1)
  step call_clear c = (clear c, done)
  step (call_size purged) c = let r = size purged c in (r.0, number r.1)
  step (call_set_capacity purged limit) c = (set_capacity purged limit c, done)
  step (call_set_default_ttl ttl) c = (set_default_ttl ttl c, done)

  -- The answers to a sequence of calls
  unfoldable pub answers : List (Call V) → LruCache V → List (Answer V)
  answers [] c = []
  answers (x ∷ calls) c = let (c', a) = step x c in a ∷ answers calls c'

  unfoldable pub model_answers : List (Call V) → Model V → List (Answer V)
  model_answers [] m = []
  model_answers (x ∷ calls) m = let (m', a) = model_step x m in a ∷ model_answers calls m'
