-- ===== src/Ids/Policy.antt =====
-- What src/ids.rs accepts, and how that meets the CHECKs of the migration.
use pg_task_scheduler.Prelude.{
  ℕ, suc, ◌≤◌, ◌<◌, ◌≡◌, refl, ap, sym, Text, leb, ◌==◌, text_eq→≡, text_eq_refl, length, Bool,
  true, false, not, ◌&&◌, ◌||◌, [], ◌∷◌, ok, arith, Bool-cases, inl, inr, ◌↔◌,
}
use pg_task_scheduler.Ids.{
  max_identifier_len, is_whitespace, trim_start, trim_end, trim, validate_identifier, JobName,
  job_name_try_from, WorkerId, worker_id_try_from,
}

-- The first character passes the test.
unfoldable pub starts : (ℕ → Bool) → Text → Bool
starts p [] = false
starts p (x ∷ xs) = p x

-- The last character passes the test.
unfoldable pub ends : (ℕ → Bool) → Text → Bool
ends p [] = false
ends p (x ∷ []) = p x
ends p (x ∷ y ∷ s) = ends p (y ∷ s)

-- POSIX `[[:space:]]` over ASCII, as the doc comment of `validate_identifier` reads it.
unfoldable pub is_posix_space : ℕ → Bool
is_posix_space c = (leb 0x9 c && leb c 0xd) || c == 0x20

-- The CHECK on `scheduler_jobs.name`, `scheduler_runs.job_name` and the `worker_id` columns.
unfoldable pub name_check : Text → Bool
name_check s =
    leb 1 (length s) && leb (length s) 255 && not (starts is_posix_space s || ends is_posix_space s)

posix_space-is_whitespace : (c : ℕ) → is_posix_space c ≡ true → is_whitespace c ≡ true
unfolding is_posix_space is_whitespace
posix_space-is_whitespace c h = ground arith

trim_start_fix : (s : Text) → starts is_whitespace s ≡ false → trim_start s ≡ s
unfolding trim_start starts
trim_start_fix [] h = refl
trim_start_fix (x ∷ s) h = ground arith

length-trim_start : (s : Text) → length (trim_start s) ≤ length s
unfolding trim_start
length-trim_start [] = omega arith
length-trim_start (x ∷ s) = ground (arith, length-trim_start s)

trim_start_short : (s : Text) → starts is_whitespace s ≡ true → length (trim_start s) < length s
unfolding trim_start starts
trim_start_short [] h = ground arith
trim_start_short (x ∷ s) h = ground (arith, length-trim_start s)

length-trim_end : (s : Text) → length (trim_end s) ≤ length s
unfolding trim_end
length-trim_end [] = omega arith
length-trim_end (x ∷ s) = ground (arith, length-trim_end s)

trim_end_fix : (s : Text) → ends is_whitespace s ≡ false → trim_end s ≡ s
unfolding trim_end ends
trim_end_fix [] h = refl
trim_end_fix (x ∷ []) h = ground arith
trim_end_fix (x ∷ y ∷ s) h = rw (trim_end_fix (y ∷ s) h)

length-trim_end_cons : (x : ℕ) (s : Text) → length (trim_end (x ∷ s)) ≤ suc (length (trim_end s))
unfolding trim_end
length-trim_end_cons x s = ground arith

trim_end_short : (s : Text) → ends is_whitespace s ≡ true → length (trim_end s) < length s
unfolding trim_end ends
trim_end_short [] h = ground arith
trim_end_short (x ∷ []) h = ground arith
trim_end_short (x ∷ y ∷ s) h =
    omega (arith, trim_end_short (y ∷ s) h, length-trim_end_cons x (y ∷ s))

trim_fix : (s : Text) → starts is_whitespace s ≡ false → ends is_whitespace s ≡ false → trim s ≡ s
unfolding trim
trim_fix s hs he = rw (trim_start_fix s hs) (trim_end_fix s he)

trim_fix_starts : (s : Text) → trim s ≡ s → starts is_whitespace s ≡ false
unfolding trim
trim_fix_starts s h = elim (Bool-cases (starts is_whitespace s)) [
  | inl e ↦
      absurd (omega (arith, trim_start_short s e, length-trim_end (trim_start s), ap length h))
  | inr e ↦ e
]

trim_fix_ends : (s : Text) → trim s ≡ s → ends is_whitespace s ≡ false
unfolding trim
trim_fix_ends s h = elim (Bool-cases (ends is_whitespace s)) [
  | inl e ↦ absurd (
      omega (
        arith,
        trim_end_short s e,
        ap length (sym (ap trim_end (trim_start_fix s (trim_fix_starts s h)))),
        ap length h,
      ))
  | inr e ↦ e
]

-- The texts that are identifiers: not empty, at most 255 characters, no whitespace at either end.
abbrev pub IsIdentifier : Text → Type 0
IsIdentifier s =
    (1 ≤ length s)
    × (length s ≤ max_identifier_len)
    × (starts is_whitespace s ≡ false)
    × (ends is_whitespace s ≡ false)

pub validate_identifier-IsIdentifier : (s : Text) → validate_identifier s ≡ ok tt → IsIdentifier s
unfolding validate_identifier
validate_identifier-IsIdentifier [] h = ground arith
validate_identifier-IsIdentifier (x ∷ s) h =
    ground (arith, text_eq→≡ (trim (x ∷ s)) (x ∷ s), trim_fix_starts (x ∷ s), trim_fix_ends (x ∷ s))

pub IsIdentifier-validate_identifier : (s : Text) → IsIdentifier s → validate_identifier s ≡ ok tt
unfolding validate_identifier
IsIdentifier-validate_identifier [] h = ground arith
IsIdentifier-validate_identifier (x ∷ s) h =
    rw (trim_fix (x ∷ s) h.2 h.3, text_eq_refl (x ∷ s)) (ground arith)

-- `validate_identifier` accepts exactly the texts of 1 to 255 characters with no Unicode whitespace
-- at either end.
pub validate_identifier_iff : (s : Text) → (validate_identifier s ≡ ok tt) ↔ IsIdentifier s
validate_identifier_iff s = (validate_identifier-IsIdentifier s, IsIdentifier-validate_identifier s)

starts_mono : (s : Text) → starts is_whitespace s ≡ false → starts is_posix_space s ≡ false
unfolding starts
starts_mono [] h = refl
starts_mono (x ∷ s) h = ground (arith, posix_space-is_whitespace x)

ends_mono : (s : Text) → ends is_whitespace s ≡ false → ends is_posix_space s ≡ false
unfolding ends
ends_mono [] h = refl
ends_mono (x ∷ []) h = ground (arith, posix_space-is_whitespace x)
ends_mono (x ∷ y ∷ s) h = ends_mono (y ∷ s) h

-- Whatever `validate_identifier` accepts passes the database's CHECK on names.
pub validate_identifier-name_check :
    (s : Text) → validate_identifier s ≡ ok tt → name_check s ≡ true
unfolding name_check
validate_identifier-name_check s h =
    let (least, most, front, back) = validate_identifier-IsIdentifier s h in
    rw (starts_mono s front, ends_mono s back) (ground arith)

pub job_name_try_from-name_check :
    (s : Text) (name : JobName) → job_name_try_from s ≡ ok name → name_check name.as_str ≡ true
unfolding job_name_try_from
job_name_try_from-name_check s name h = ground (arith, validate_identifier-name_check s)

-- A worker id that is accepted is the caller's text, and passes the database's CHECK.
pub worker_id_try_from-name_check :
    (s : Text) (w : WorkerId)
    → worker_id_try_from s ≡ ok w
    → (w.as_str ≡ s) × (name_check w.as_str ≡ true)
unfolding worker_id_try_from
worker_id_try_from-name_check s w h =
    (ground arith, ground (arith, validate_identifier-name_check s))
