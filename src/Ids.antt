-- ===== src/Ids.antt =====
-- src/ids.rs: the identifier policy, and the names and keys that it guards.
-- A text is the list of its characters; `str::trim` and `char::is_whitespace` are the standard
-- library's, with Unicode's White_Space set written out.
pub mod Policy
use pg_task_scheduler.Prelude.{
  ℕ, Text, ltb, leb, ◌==◌, text_eq, length, if◌then◌else◌, Bool, true, false, not, ◌&&◌, ◌||◌, List,
  [], ◌∷◌, Result, ok, err, ◌>>=◌, ◌>>◌,
}

abbrev pub max_identifier_len : ℕ
max_identifier_len = 255

pub data IdentifierError : Type 0 where
  empty surrounding_whitespace too_long : IdentifierError

-- `char::is_whitespace`.
unfoldable pub is_whitespace : ℕ → Bool
is_whitespace c =
    (leb 0x9 c && leb c 0xd)
    || c == 0x20
    || c == 0x85
    || c == 0xa0
    || c == 0x1680
    || (leb 0x2000 c && leb c 0x200a)
    || c == 0x2028
    || c == 0x2029
    || c == 0x202f
    || c == 0x205f
    || c == 0x3000

abbrev pub is_empty : Text → Bool
is_empty [] = true
is_empty (x ∷ xs) = false

unfoldable pub trim_start : Text → Text
trim_start [] = []
trim_start (x ∷ xs) = let rest = trim_start xs in if is_whitespace x then rest else x ∷ xs

unfoldable pub trim_end : Text → Text
trim_end [] = []
trim_end (x ∷ xs) =
    let rest = trim_end xs in if is_empty rest && is_whitespace x then [] else x ∷ rest

-- `str::trim`.
unfoldable pub trim : Text → Text
trim s = trim_end (trim_start s)

unfoldable pub validate_identifier : Text → Result IdentifierError (Unit {0})
validate_identifier s =
    if is_empty s
    then err empty
    else if not (text_eq (trim s) s)
    then err surrounding_whitespace
    else if ltb max_identifier_len (length s)
    then err too_long
    else ok tt

pub record JobName : Type 0 where
  pub as_str : Text

pub record WorkerId : Type 0 where
  pub as_str : Text

pub record DeduplicationKey : Type 0 where
  pub as_str : Text

-- `TryFrom<&str>`; `TryFrom<String>` and `FromStr` are the same function.
unfoldable pub job_name_try_from : Text → Result IdentifierError JobName
job_name_try_from s = do validate_identifier s; ok (record { as_str = s })

unfoldable pub worker_id_try_from : Text → Result IdentifierError WorkerId
worker_id_try_from s = do validate_identifier s; ok (record { as_str = s })

unfoldable pub deduplication_key_try_from : Text → Result IdentifierError DeduplicationKey
deduplication_key_try_from value = do validate_identifier value; ok (record { as_str = value })
