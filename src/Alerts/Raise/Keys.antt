-- ===== src/Alerts/Raise/Keys.antt =====
-- A raised signal leaves one row per dedup key.
use mathlib.Core.Path.{subst, ap}
use ictt_sentinel.Base.{
  ℕ, ◌≡◌, refl, sym, ◌∙◌, inl, inr, Bool, true, false, not, ◌&&◌, List, [], ◌∷◌, ◌++◌, Option, none,
  some, arith, Bool-cases, any-append, is_empty, filter, is_empty-filter, if◌then◌else◌,
}
use ictt_sentinel.Base.Int.{ℤ}
use ictt_sentinel.Base.Text.{Text, text_eq, text_eq_iff, text_eq_refl}
use ictt_sentinel.Base.Keyed.{has_key, IsDistinct}
use ictt_sentinel.Alerts.{AlertRecord}
use ictt_sentinel.Alerts.Outbox.{
  AlertOutboxRow, AlertKeys, FoldDecision, existing_row, incident_rows, update_where,
  close_incident, write_row, apply_decision, is_open_in, is_keyed, closed_row, overwrite, first_of,
  or_else, read_by_dedup_key,
}
use ictt_sentinel.Alerts.Raise.{
  AlertSignal, AlertContext, RaiseResult, raise_alert, decide_from, keys_of, is_silent,
}
use ictt_sentinel.Alerts.Raise.Decided.{
  some_inj, decide_from-IsDecided, raise_alert-decided, decide_from-silent,
}

module _ {P : Type 0} where
  -- One row per dedup key.
  abbrev pub HasOneRowPerKey : List (AlertOutboxRow P) → Type 0
  HasOneRowPerKey table = IsDistinct (λ r. r.dedup_key) table

  -- An update that leaves the keys alone leaves every key where it was.
  has_key-update_where :
      (p : AlertOutboxRow P → Bool) (f : AlertOutboxRow P → AlertOutboxRow P)
      → ((r : AlertOutboxRow P) → (f r).dedup_key ≡ r.dedup_key)
      → (k : Text) (rs : List (AlertOutboxRow P))
      → has_key (λ r. r.dedup_key) k (update_where p f rs) ≡ has_key (λ r. r.dedup_key) k rs
  unfolding update_where
  has_key-update_where p f e k [] = refl
  has_key-update_where p f e k (r ∷ rs) = elim (Bool-cases (p r)) [
    | inl t ↦ ground (arith, e r, has_key-update_where p f e k rs)
    | inr t ↦ ground (arith, has_key-update_where p f e k rs)
  ]

  update_where-HasOneRowPerKey :
      (p : AlertOutboxRow P → Bool) (f : AlertOutboxRow P → AlertOutboxRow P)
      → ((r : AlertOutboxRow P) → (f r).dedup_key ≡ r.dedup_key)
      → (rs : List (AlertOutboxRow P)) → HasOneRowPerKey rs
      → HasOneRowPerKey (update_where p f rs)
  unfolding update_where
  update_where-HasOneRowPerKey p f e [] h = tt
  update_where-HasOneRowPerKey p f e (r ∷ rs) h = (
    elim (Bool-cases (p r)) [
      | inl t ↦ rw (t, e r, has_key-update_where p f e r.dedup_key rs) h.0
      | inr t ↦ rw (t, has_key-update_where p f e r.dedup_key rs) h.0
    ],
    update_where-HasOneRowPerKey p f e rs h.1,
  )

  append-HasOneRowPerKey :
      (rs : List (AlertOutboxRow P)) (next : AlertOutboxRow P)
      → has_key (λ r. r.dedup_key) next.dedup_key rs ≡ false
      → HasOneRowPerKey rs
      → HasOneRowPerKey (rs ++ next ∷ [])
  append-HasOneRowPerKey [] next e h = (refl, tt)
  append-HasOneRowPerKey (r ∷ rs) next e h = (
    ground (
      arith,
      any-append (λ x. text_eq x.dedup_key r.dedup_key) rs (next ∷ []),
      (text_eq_iff next.dedup_key r.dedup_key).0,
      text_eq_refl next.dedup_key,
      e,
      h.0,
    ),
    append-HasOneRowPerKey rs next (ground arith) h.1,
  )

  -- No row under the key, where none was read.
  no_row :
      (keys : AlertKeys) (rs : List (AlertOutboxRow P))
      → existing_row keys rs ≡ none
      → has_key (λ r. r.dedup_key) keys.dedup_key rs ≡ false
  unfolding existing_row
  no_row keys rs h = ground (
    arith,
    is_empty-filter (is_keyed keys.dedup_key) rs,
    no_first (filter (is_keyed keys.dedup_key) rs) (
        no_else (first_of (filter (is_keyed keys.dedup_key) (incident_rows keys.incident_key rs)))
          (read_by_dedup_key keys.dedup_key rs) h),
  )
    where
      no_else : (a b : Option (AlertOutboxRow P)) → or_else a b ≡ none → b ≡ none
      no_else none b k = k
      no_else (some a) b k = cc

      no_first : (xs : List (AlertOutboxRow P)) → first_of xs ≡ none → is_empty xs ≡ true
      no_first [] k = refl
      no_first (x ∷ xs) k = cc

  write_row-HasOneRowPerKey :
      (existing next : Option (AlertOutboxRow P)) (closed : ℕ) (rs : List (AlertOutboxRow P))
      → ((r : AlertOutboxRow P)
          → existing ≡ none
          → next ≡ some r
          → has_key (λ x. x.dedup_key) r.dedup_key rs ≡ false)
      → HasOneRowPerKey rs
      → HasOneRowPerKey (write_row existing next closed rs).table
  unfolding write_row
  write_row-HasOneRowPerKey existing none closed rs n h = h
  write_row-HasOneRowPerKey none (some r) closed rs n h =
      append-HasOneRowPerKey rs r (n r refl refl) h
  write_row-HasOneRowPerKey (some q) (some r) closed rs n h =
      update_where-HasOneRowPerKey (is_keyed r.dedup_key) (overwrite r) (λ x. refl) rs h

  -- The table as the closing of the incident leaves it.
  abbrev pub after_close :
      ℤ → AlertKeys → List (AlertOutboxRow P) → FoldDecision P → List (AlertOutboxRow P)
  after_close db_now keys rs d =
      if d.close_incident && not (is_empty (incident_rows keys.incident_key rs))
      then close_incident db_now keys.incident_key rs
      else rs

  after_close-keys :
      (db_now : ℤ) (keys : AlertKeys) (rs : List (AlertOutboxRow P)) (d : FoldDecision P) (k : Text)
      → has_key (λ x. x.dedup_key) k (after_close db_now keys rs d)
        ≡ has_key (λ x. x.dedup_key) k rs
  unfolding close_incident
  after_close-keys db_now keys rs d k = ground (
    arith,
    has_key-update_where (is_open_in keys.incident_key) (closed_row db_now) (λ x. refl) k rs,
  )

  after_close-HasOneRowPerKey :
      (db_now : ℤ) (keys : AlertKeys) (rs : List (AlertOutboxRow P)) (d : FoldDecision P)
      → HasOneRowPerKey rs
      → HasOneRowPerKey (after_close db_now keys rs d)
  unfolding close_incident
  after_close-HasOneRowPerKey db_now keys rs d h =
      elim (Bool-cases (d.close_incident && not (is_empty (incident_rows keys.incident_key rs)))) [
        | inl e ↦ rw e (
            update_where-HasOneRowPerKey (is_open_in keys.incident_key) (closed_row db_now)
              (λ x. refl) rs h)
        | inr e ↦ rw e h
      ]

  apply_decision-HasOneRowPerKey :
      (db_now : ℤ) (keys : AlertKeys) (rs : List (AlertOutboxRow P)) (d : FoldDecision P)
      → ((r : AlertOutboxRow P) → d.row ≡ some r → r.dedup_key ≡ keys.dedup_key)
      → HasOneRowPerKey rs
      → HasOneRowPerKey (apply_decision db_now keys rs d).table
  unfolding apply_decision
  apply_decision-HasOneRowPerKey db_now keys rs d k h =
      write_row-HasOneRowPerKey (existing_row keys rs) d.row _ (after_close db_now keys rs d)
        (λ r e f.
          after_close-keys db_now keys rs d r.dedup_key
          ∙ subst (λ x. has_key (λ y. y.dedup_key) x rs ≡ false) (sym (k r f)) (no_row keys rs e))
        (after_close-HasOneRowPerKey db_now keys rs d h)

  -- Every row that a raised signal writes stands under the signal's dedup key.
  decided_key :
      (sha256 outbox_id_for : Text → Text) (sanitize : AlertContext → Option P)
      (signal : AlertSignal) (now : ℤ) (existing : Option (AlertOutboxRow P))
      (before : Option AlertRecord) (d : FoldDecision P)
      → decide_from sha256 outbox_id_for sanitize signal now existing before ≡ some d
      → (r : AlertOutboxRow P) → d.row ≡ some r
      → r.dedup_key ≡ (keys_of sha256 signal).dedup_key
  decided_key sha256 outbox_id_for sanitize signal now existing before d h r k =
      elim (Bool-cases (is_silent signal before)) [
        | inl e ↦ absurd (
            none_not_some (
              sym (
                ap (λ x. x.row)
                  (decide_from-silent sha256 outbox_id_for sanitize signal now existing before d e
                    h))
              ∙ k))
        | inr e ↦
            let (q, f, g, _) =
              (decide_from-IsDecided sha256 outbox_id_for sanitize signal now existing before d e
                h).writes in
            ap (λ x. x.dedup_key) (some_inj (sym k ∙ f)) ∙ g
      ]
    where
      none_not_some : ¬ (Option.none ≡ some r)
      none_not_some x = cc

  -- Raising a signal keeps one row per dedup key: the same evidence raised again is folded into its row
  -- and opens no second alert, whatever the signal and whether or not the incident is closed by it.
  pub raise_alert-HasOneRowPerKey :
      (sha256 outbox_id_for : Text → Text) (sanitize : AlertContext → Option P) (db_now : ℤ)
      (signal : AlertSignal) (now : ℤ) (rs ts : List (AlertOutboxRow P)) (res : RaiseResult)
      → raise_alert sha256 outbox_id_for sanitize db_now signal now rs ≡ some (ts, res)
      → HasOneRowPerKey rs
      → HasOneRowPerKey ts
  raise_alert-HasOneRowPerKey sha256 outbox_id_for sanitize db_now signal now rs ts res h u =
      let (d, e, f, _) =
        raise_alert-decided sha256 outbox_id_for sanitize db_now signal now rs ts res h in
      subst HasOneRowPerKey (sym f) (
        apply_decision-HasOneRowPerKey db_now (keys_of sha256 signal) rs d
          (decided_key sha256 outbox_id_for sanitize signal now _ _ d e) u)
