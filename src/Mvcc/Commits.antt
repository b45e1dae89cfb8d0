-- ===== src/Mvcc/Commits.antt =====
-- Compare-and-swap and transactions.
use galay_utils.Prelude.{
  ◌+◌, ◌^◌, ◌<◌, ◌≡◌, refl, ◌∙◌, arith, List, none, some, true, false, length, if◌then◌else◌,
  Bool-cases, inl, inr, ◌==◌, map, length-map,
}
use galay_utils.Mvcc.{
  Mvcc, Transaction, get_value, get_current_value, compare_and_swap, store, begin, tx_read,
  tx_write, commit, next_version, clear, try_commit, put_value,
}
use galay_utils.Mvcc.Valid.{IsValid, store-IsValid, current-store}
use galay_utils.Mvcc.Snapshots.{
  Write, writes, get_value-store, read_latest, puts-current, writes-Kept,
}

module _ {T : Type 0} where
  commit_same :
      (x : T) (t : Transaction T) {m : Mvcc T}
      → IsValid m
      → m.current_version + 1 < 2 ^ 64
      → t.committed ≡ false
      → (m.current_version == t.start_version) ≡ true
      → commit (tx_write (some x) t) m
        ≡ (store (some x) false m, record t { pending_value = none; committed = true }, true)
  unfolding commit tx_write try_commit compare_and_swap
  commit_same x t {m} v h c e =
      let n : (next_version m == 0) ≡ false = ground arith in rw (c, e, n) refl

  commit_other :
      (x : T) (t : Transaction T) (m : Mvcc T)
      → t.committed ≡ false
      → (m.current_version == t.start_version) ≡ false
      → commit (tx_write (some x) t) m
        ≡ (m, record t { pending_value = none; committed = false }, false)
  unfolding commit tx_write try_commit compare_and_swap
  commit_other x t m c e = rw (c, e) refl

  commit_nothing :
      (t : Transaction T) (m : Mvcc T)
      → t.committed ≡ false
      → t.pending_value ≡ none
      → commit t m ≡ (m, t, false)
  unfolding commit try_commit
  commit_nothing t m c e = rw (c, e) refl

  -- A transaction that begins, sees the writes of others and then commits a value: the commit
  -- succeeds exactly if none of these writes made a new version; then its value is current, and
  -- otherwise the container is as the others left it. In both cases the transaction has given up
  -- its pending value, its own reads are those of its beginning, and the versions stay in order.
  -- The version numbers must not wrap.
  pub snapshot_isolation :
      (x : T) (ws : List (Write T)) {m : Mvcc T}
      → IsValid m
      → m.current_version + length ws + 1 < 2 ^ 64
      → let before = writes ws m in
        let (after, t, done) = commit (tx_write (some x) (begin m)) before in
        (done ≡ (before.current_version == m.current_version))
        × (t.committed ≡ done)
        × (t.pending_value ≡ none)
        × (after ≡ (if done then store (some x) false before else before))
        × (get_current_value after ≡ (if done then some x else get_current_value before))
        × (tx_read t after ≡ get_value m.current_version m)
        × IsValid after
  unfolding tx_read begin get_current_value put_value
  snapshot_isolation x ws {m} v h =
      let k = writes-Kept ws v (omega arith) in
      let before = writes ws m in
      let room : before.current_version + 1 < 2 ^ 64 = omega (arith, k.at_most) in
      elim (Bool-cases (before.current_version == m.current_version)) [
        | inl e ↦
            let eq = commit_same x (begin m) k.valid room refl e in
            rw (eq, e)
              (
                refl,
                refl,
                refl,
                refl,
                (read_latest (some x) k.valid room).2,
                get_value-store m.current_version (some x) false k.valid room
                    ∙ (ground (arith, k.at_least, k.reads m.current_version)),
                store-IsValid (some x) false k.valid room,
              )
        | inr e ↦
            let eq = commit_other x (begin m) before refl e in
            rw (eq, e)
              (refl, refl, refl, refl, refl, k.reads m.current_version (omega arith), k.valid)
      ]

  -- Of two transactions that began at the same version, the first to commit wins: the second
  -- commit returns false and changes nothing, and its retry too, since the pending value is gone.
  pub first_committer_wins :
      (x y : T) {m : Mvcc T}
      → IsValid m
      → m.current_version + 1 < 2 ^ 64
      → let (m₁, t, first) = commit (tx_write (some x) (begin m)) m in
        let (m₂, u, second) = commit (tx_write (some y) (begin m)) m₁ in
        let (m₃, u', retry) = commit u m₂ in
        (first ≡ true)
        × (second ≡ false)
        × (retry ≡ false)
        × (m₃ ≡ m₁)
        × (get_current_value m₁ ≡ some x)
  unfolding begin put_value
  first_committer_wins x y {m} v h =
      let eq = commit_same x (begin m) v h refl (ground arith) in
      let one = store (some x) false m in
      let other =
        commit_other y (begin m) one refl (ground (arith, current-store (some x) false v h)) in
      let u : Transaction T = record (begin m) { pending_value = none; committed = false } in
      let retry = commit_nothing u one refl refl in
      rw (eq, other, retry) (refl, refl, refl, refl, (read_latest (some x) v h).2)

  -- `clear` gives the version numbers out again: after it, and as many puts as the version number
  -- at which a transaction began, that transaction commits what it wrote over values it never saw, in
  -- a valid container whose version numbers do not wrap.
  pub clear_reuses_versions :
      (x : T) (ys : List T) {m : Mvcc T}
      → IsValid m
      → m.current_version + 1 < 2 ^ 64
      → length ys ≡ m.current_version
      → let refilled = writes (map (λ y. Write.put (some y)) ys) (clear m) in
        let (after, t, done) = commit (tx_write (some x) (begin m)) refilled in
        (done ≡ true) × (get_current_value after ≡ some x)
  unfolding begin clear put_value
  clear_reuses_versions x ys {m} v h l =
      let empty : IsValid (clear m) = record { fits = omega arith; sorted = omega arith } in
      let same = puts-current ys (clear m) (omega arith) in
      let n = length-map ys (λ y. Write.put (some y)) in
      let k = writes-Kept (map (λ y. Write.put (some y)) ys) empty (omega (arith, n)) in
      let room : (writes (map (λ y. Write.put (some y)) ys) (clear m)).current_version + 1
          < 2 ^ 64 =
        omega (arith, same) in
      rw (commit_same x (begin m) k.valid room refl (ground (arith, same)))
        (refl, (read_latest (some x) k.valid room).2)
