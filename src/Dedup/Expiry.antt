-- ===== src/Dedup/Expiry.antt =====
-- The expiry of a processing record's key in app/services/message_deduplication_service.py: each `SET`
-- of a script is given `EX` with the seconds for which the key lives, and Redis has dropped the key
-- when that time is over.
use global_detergent_sales_a.Prelude.{
  ℕ, ◌+◌, ◌*◌, Bool, false, Option, none, some, ltb, ◌==◌, if◌then◌else◌,
}
use global_detergent_sales_a.Exec.{Result}
use global_detergent_sales_a.Dedup.{ProcessingStage, MessageProcessingRecord, is_stage}
use global_detergent_sales_a.Dedup.Scripts.{Cell}
use global_detergent_sales_a.Dedup.Methods.{DedupSettings}

-- What is stored under the key, until when it is kept, and how often a record there has expired
pub record Key : Type 0 where
  pub cell : Cell
  pub expires_at_ms : ℕ
  pub expirations : ℕ

-- For how long a script has a record kept: `completed_ttl_seconds` once processing is complete
abbrev pub ttl_ms : DedupSettings → MessageProcessingRecord → ℕ
ttl_ms settings r =
    1000
    * (if is_stage r.stage ProcessingStage.complete
        then settings.completed_ttl_seconds
        else settings.incomplete_ttl_seconds)

-- The record that a script has stored between two cells: the first one, or one of a new revision,
-- since each `SET` of an existing record raises the revision.
abbrev pub stored_between : Cell → Cell → Option MessageProcessingRecord
stored_between cell none = none
stored_between none (some r) = some r
stored_between (some q) (some r) = if q.revision == r.revision then none else some r

-- Until when the key is kept after a script: a `SET` starts its life anew, and a script that stores
-- nothing leaves it alone.
unfoldable pub kept_until : DedupSettings → ℕ → Cell → Cell → ℕ → ℕ
kept_until settings now_ms cell cell' expires_at_ms = elim (stored_between cell cell') [
  | none ↦ expires_at_ms
  | some r ↦ now_ms + ttl_ms settings r
]

abbrev pub has_expired : ℕ → Key → Bool
has_expired now_ms key = elim key.cell [ none ↦ false | some r ↦ ltb key.expires_at_ms now_ms ]

-- What a command finds: a key whose time is over is gone.
unfoldable pub found : ℕ → Key → Key
found now_ms key =
    if has_expired now_ms key
    then record key { cell = none; expirations = key.expirations + 1 }
    else key

-- A method of the service on the key
unfoldable pub on_key {ℓ} :
    {A : Type ℓ} → DedupSettings → (ℕ → Cell → Result A × Cell) → ℕ → Key → Result A × Key
unfolding found kept_until
on_key settings method now_ms key =
    let before = found now_ms key in
    let (r, cell') = method now_ms before.cell in
    (
      r,
      record before {
        cell = cell';
        expires_at_ms = kept_until settings now_ms before.cell cell' before.expires_at_ms;
      },
    )
