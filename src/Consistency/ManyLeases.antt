-- ===== src/Consistency/ManyLeases.antt =====
-- Several leases given up at once: the runs with chosen ids, and the live attempts under their
-- tokens (RECOVER of src/store/reap.rs and CANCEL of src/queue.rs).
use pg_task_scheduler.Prelude.{
  ℕ, ◌<◌, ◌≡◌, ap, ◌∙◌, ◌==◌, ==_iff, any, count, select, Bool, true, not, ◌&&◌, count-split,
  count_mono, count-witness, count-and-const, count-select, any-of_pos, arith, Bool-cases, inl, inr,
}
use pg_task_scheduler.Models.Runs.{is_running}
use pg_task_scheduler.Db.{Db, Run, Attempt, is_value}
use pg_task_scheduler.Store.Finalize.{is_live}
use pg_task_scheduler.Consistency.{is_holder, is_live_of, IsConsistent}
use pg_task_scheduler.Consistency.Facts.{live-of_holder}

-- The run is running under the token, and its id is among the chosen.
abbrev pub is_leased : (ℕ → Bool) → ℕ → Run → Bool
is_leased chosen token r = chosen r.id && is_running r.state && is_value r.lease_token token

-- Two runs never run under one token.
pub holder_unique :
    (db : Db) (i j token : ℕ)
    → IsConsistent db
    → 0 < count (is_holder i token) db.runs
    → 0 < count (is_holder j token) db.runs
    → (i == j) ≡ true
unfolding is_live_of
holder_unique db i j token c hi hj = elim (Bool-cases (i == j)) [
  | inl e ↦ e
  | inr ne ↦ absurd (
      omega (
        arith,
        c.linked i token,
        c.linked j token,
        live-of_holder db i token c hi,
        count-split (is_live token) (λ (a : Attempt). a.run_id == i) db.attempts,
        count_mono (is_live_of i token) (λ (a : Attempt). is_live token a && a.run_id == i)
            db.attempts (λ a h. ground arith),
        count_mono (is_live_of j token) (λ (a : Attempt). is_live token a && not (a.run_id == i))
            db.attempts (λ a h. ground arith),
      ))
]

module _ (db : Db) (c : IsConsistent db) (chosen lost : ℕ → Bool)
    (lost_held : (token : ℕ) → lost token ≡ true → 0 < count (is_leased chosen token) db.runs)
    (held_lost : (token : ℕ) → 0 < count (is_leased chosen token) db.runs → lost token ≡ true)
    (p : Run → Bool)
    (stops : (r : Run)
      → is_running r.state ≡ true
      → p r ≡ (
          chosen r.id
          && any
              (λ a. a.run_id == r.id)
              (select (λ a. is_live a.lease_token a && lost a.lease_token) db.attempts))) where
  abbrev closes : Attempt → Bool
  closes a = is_live a.lease_token a && lost a.lease_token

  abbrev recorded : ℕ → Bool
  recorded i = any (λ a. a.run_id == i) (select closes db.attempts)

  chosen_lost : (i t : ℕ) → 0 < count (is_holder i t) db.runs → chosen i ≡ true → lost t ≡ true
  unfolding is_holder
  chosen_lost i t h k = held_lost t (
      omega (
        arith,
        h,
        count_mono (is_holder i t) (is_leased chosen t) db.runs
            (λ r e. ground (arith, ==_iff r.id i)),
      ))

  pub lost_chosen : (i t : ℕ) → 0 < count (is_holder i t) db.runs → lost t ≡ true → chosen i ≡ true
  unfolding is_holder
  lost_chosen i t h l =
      let (x, leased, counted) = count-witness (is_leased chosen t) db.runs (lost_held t l) in
      let same = holder_unique db i x.id t c h (counted (is_holder x.id t) (ground arith)) in
      ground arith

  pub lost_recorded :
      (i t : ℕ) → 0 < count (is_holder i t) db.runs → lost t ≡ true → recorded i ≡ true
  unfolding is_live_of is_live
  lost_recorded i t h l =
      any-of_pos (λ a. a.run_id == i) (select closes db.attempts)
        (omega (
          arith,
          h,
          c.linked i t,
          count-select (λ (a : Attempt). a.run_id == i) closes db.attempts,
          count_mono (is_live_of i t) (λ (a : Attempt). a.run_id == i && closes a) db.attempts
              (λ a e. ground arith),
        ))

  -- A lease is lost exactly when its run is chosen and its attempt is recorded.
  agree : (i t : ℕ) → 0 < count (is_holder i t) db.runs → (chosen i && recorded i) ≡ lost t
  agree i t h = elim (Bool-cases (lost t)) [
    | inl l ↦ rw (l, lost_chosen i t h l, lost_recorded i t h l)
    | inr kept ↦ ground (arith, chosen_lost i t h)
  ]

  held_stops : (i t : ℕ) (r : Run) → is_holder i t r ≡ true → p r ≡ (chosen i && recorded i)
  unfolding is_holder
  held_stops i t r e =
      let same : r.id ≡ i = ground arith in
      stops r (ground arith) ∙ ap (λ (n : ℕ). chosen n && recorded n) same

  live_closes : (i t : ℕ) (a : Attempt) → is_live_of i t a ≡ true → closes a ≡ lost t
  unfolding is_live_of is_live
  live_closes i t a e = ground arith

  pub same_leases :
      (i t : ℕ)
      → count (λ r. is_holder i t r && p r) db.runs
        ≡ count
            (λ a. is_live_of i t a && (is_live a.lease_token a && lost a.lease_token))
            db.attempts
  same_leases i t = ground (
    arith,
    count-and-const (chosen i && recorded i) (is_holder i t) p db.runs (held_stops i t),
    count-and-const (lost t) (is_live_of i t) closes db.attempts (live_closes i t),
    c.linked i t,
    agree i t,
  )
