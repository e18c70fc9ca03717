-- ===== src/Revocation/Trust.antt =====
-- `check_key_trust` in revocation.py.
use specora_verify.Base.{String, str_eq, Bool, true, false, Option, none, some, if◌then◌else◌}
use specora_verify.Json.{Value}
use specora_verify.Revocation.List.{KeyEntry, RevocationList, lookup, status_of}

pub data TrustWarning : Type 0 where
  no_list key_is_retired key_not_listed : TrustWarning

pub data TrustError : Type 0 where
  retired_refused not_listed_refused : TrustError
  key_revoked : Option Value → TrustError

pub record TrustCheckResult : Type 0 where
  pub key_status : String
  pub revocation_list_provided : Bool
  pub require_trusted_key : Bool
  pub trusted : Bool
  pub warning : Option TrustWarning
  pub error : Option TrustError
  pub entry : Option KeyEntry

-- `entry.status_reason if entry else "unknown"`, `none` being the text "unknown".
abbrev pub reason_of : Option KeyEntry → Option Value
reason_of none = none
reason_of (some e) = some e.status_reason

-- The decision by the entry that was found.
unfoldable pub decide : Bool → Option KeyEntry → TrustCheckResult
decide require_trusted entry =
    if str_eq (status_of entry) "active"
    then record {
      key_status = "active";
      revocation_list_provided = true;
      require_trusted_key = require_trusted;
      trusted = true;
      warning = none;
      error = none;
      entry = entry;
    }
    else if str_eq (status_of entry) "retired"
    then (if require_trusted
        then record {
          key_status = "retired";
          revocation_list_provided = true;
          require_trusted_key = require_trusted;
          trusted = false;
          warning = none;
          error = some retired_refused;
          entry = entry;
        }
        else record {
          key_status = "retired";
          revocation_list_provided = true;
          require_trusted_key = require_trusted;
          trusted = true;
          warning = some key_is_retired;
          error = none;
          entry = entry;
        })
    else if str_eq (status_of entry) "revoked"
    then record {
      key_status = "revoked";
      revocation_list_provided = true;
      require_trusted_key = require_trusted;
      trusted = false;
      warning = none;
      error = some (key_revoked (reason_of entry));
      entry = entry;
    }
    else if require_trusted
    then record {
      key_status = "unknown";
      revocation_list_provided = true;
      require_trusted_key = require_trusted;
      trusted = false;
      warning = none;
      error = some not_listed_refused;
      entry = none;
    }
    else record {
      key_status = "unknown";
      revocation_list_provided = true;
      require_trusted_key = require_trusted;
      trusted = true;
      warning = some key_not_listed;
      error = none;
      entry = none;
    }

unfoldable pub check_key_trust :
    Option RevocationList → Option String → Option String → Bool → TrustCheckResult
check_key_trust none key_id fingerprint require_trusted = record {
  key_status = "unknown";
  revocation_list_provided = false;
  require_trusted_key = require_trusted;
  trusted = true;
  warning = some no_list;
  error = none;
  entry = none;
}
check_key_trust (some l) key_id fingerprint require_trusted =
    decide require_trusted (lookup l key_id fingerprint)
