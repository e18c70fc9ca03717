-- ===== src/Witness/Agreement.antt =====
-- What a quorum in validators/witness.py guarantees.
use specora_verify.Base.{◌≡◌, ltb, pos, leb_ℤ, String, true, false, Option, some, All}
use specora_verify.Platform.{Platform}
use specora_verify.Json.{str}
use specora_verify.Witness.Entry.{pass, optional_value}
use specora_verify.Witness.Structure.{StatementResult}
use specora_verify.Witness.Quorum.{Results, Groups, QuorumResult, vote}

-- A valid result counts for the hash that it attests.
abbrev pub Counts : StatementResult → Type 0
Counts s = s.valid ≡ true → (h : String) × (s.anchor_hash ≡ str h) × (vote s ≡ some h)

AllCount : Results → Type 0
AllCount = All (λ kr. Counts kr.1)

-- All valid results attest one hash.
abbrev pub Agree : Option String → Results → Type 0
Agree consensus = All (λ kr. kr.1.valid ≡ true → kr.1.anchor_hash ≡ optional_value consensus)

-- The quorum is met by valid statements that all attest the consensus hash.
pub record IsQuorum (r : QuorumResult) : Type 0 where
  pub met : leb_ℤ r.quorum_required (pos r.quorum_achieved) ≡ true
  pub counted : r.quorum_achieved ≡ r.witnesses_valid
  pub agree : Agree r.consensus_anchor_hash r.statement_results
  pub complete : r.status ≡ pass → ltb r.witnesses_valid r.witnesses_checked ≡ false
