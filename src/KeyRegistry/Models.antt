-- ===== src/KeyRegistry/Models.antt =====
-- key_registry/models.py: the record of a registered key, and its validation.
use agent_of_record.Common.{
  ℕ, String, Bool, true, not, ◌&&◌, Option, none, some, [], leb, if◌then◌else◌, ◌==◌, nat_eq,
  string_eq, list_eq, option_eq, validation_error, Result, ok, err, ◌>>=◌,
}
use agent_of_record.Calendar.{Moment, aware, naive}
use agent_of_record.CryptoCore.{Bytes}

pub record AgentKeyRecord : Type 0 where
  pub agent_id : String
  pub agent_type : Option String
  pub pubkey_id : String
  pub public_key_bytes : Bytes
  pub algorithm : String
  pub valid_from : ℕ
  pub valid_until : Option ℕ
  pub revoked : Bool
  pub created_at : ℕ

-- `_as_utc`; pydantic turns its `ValueError` into a `ValidationError`
unfoldable pub as_utc : Moment → Result ℕ
as_utc (aware instant) = ok instant
as_utc naive = err (validation_error "timestamps must include a timezone")

-- `timestamps_must_be_aware`, on a field that may be absent
unfoldable pub optional_as_utc : Option Moment → Result (Option ℕ)
unfolding as_utc
optional_as_utc none = ok none
optional_as_utc (some moment) = do instant ← as_utc moment; ok (some instant)

-- The minimal lengths of the fields.
unfoldable pub has_min_lengths : AgentKeyRecord → Bool
has_min_lengths r =
    not (r.agent_id == "")
    && not (r.agent_type == some "")
    && not (r.pubkey_id == "")
    && not (r.public_key_bytes == [])
    && not (r.algorithm == "")

unfoldable pub validity_window_is_ordered : AgentKeyRecord → Bool
validity_window_is_ordered r = elim r.valid_until [ none ↦ true | some u ↦ leb r.valid_from u ]

-- Pydantic's checks; every failure is one `ValidationError`, which is a `ValueError`.
unfoldable pub validate_record : AgentKeyRecord → Result AgentKeyRecord
unfolding has_min_lengths validity_window_is_ordered
validate_record r =
    if has_min_lengths r && validity_window_is_ordered r
    then ok r
    else err (validation_error "AgentKeyRecord")
