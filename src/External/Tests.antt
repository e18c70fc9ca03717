-- ===== src/External/Tests.antt =====
-- A chain of two anchors.
use mathlib.Core.List.{Permᴰ}
use specora_verify.Base.{◌≡◌, refl, ℕ, pos, utf8, String, Bool, true, some, List, [], ◌∷◌}
use specora_verify.Errors.{Result, ok, err, type_error}
use specora_verify.Json.{Value, str, int, Fields, end, field}
use specora_verify.Toy.{toy}
use specora_verify.Hash.{compute_manifest_hash}
use specora_verify.External.Anchor.{
  AnchorError, genesis_hash, validate_external_anchor_schema, hash_errors, check_content,
  check_signature, verify_external_anchor,
}
use specora_verify.External.Chain.{
  verify_external_anchor_chain, sort_anchors, empty_result, link_errors, walk, insert_anchor,
  AnchorChainResult,
}
use specora_verify.Stp.Simulate.{value_eq}
use specora_verify.Canonical.{canonical_json_bytes, all_finite, emit, sort_keys}
use specora_verify.External.Linked.{IsLinked, InOrder}
use specora_verify.External.Accepted.{verify_external_anchor_chain-IsLinked}

abbrev anchor_with : ℕ → String → String → String → Fields
anchor_with index timestamp previous hash = field "schema_version" (int (pos 1)) (
    field "timestamp" (str timestamp) (
      field "chain_head_index" (int (pos index)) (
        field "chain_head_hash" (str genesis_hash) (
          field "chain_head_signature" (str genesis_hash) (
            field "chain_head_key_id" (str "k") (
              field "previous_external_anchor_hash" (str previous) (
                field "anchor_hash" (str hash) (
                  field "anchor_signature" (str genesis_hash)
                    (field "anchor_key_id" (str "k") end)))))))))

abbrev even_hash : String
even_hash = "aaaaaaaaaaaaaaaaaaaaaaaaaaaaaaaaaaaaaaaaaaaaaaaaaaaaaaaaaaaaaaaa"

abbrev odd_hash : String
odd_hash = "bbbbbbbbbbbbbbbbbbbbbbbbbbbbbbbbbbbbbbbbbbbbbbbbbbbbbbbbbbbbbbbb"

abbrev first_anchor : Fields
first_anchor = anchor_with 3 "t" genesis_hash odd_hash

abbrev second_anchor : Fields
second_anchor = anchor_with 7 "tt" odd_hash even_hash

-- No order between values that are not integers.
abbrev less_index : Value → Value → Result AnchorError Bool
less_index v w = err type_error

abbrev public_key : List ℕ
public_key = utf8 "0123456789abcdef0123456789abcdef"

abbrev chain_in : Result AnchorError AnchorChainResult → AnchorChainResult
chain_in (ok c) = c
chain_in (err e) = empty_result

abbrev verdict : AnchorChainResult
verdict = chain_in (
    verify_external_anchor_chain toy less_index (some public_key) true
      (second_anchor ∷ first_anchor ∷ []))

two_anchors_valid :
    (verify_external_anchor_chain toy less_index
        (some public_key)
        true
        (second_anchor ∷ first_anchor ∷ [])
      ≡ ok verdict)
    × (verdict.valid ≡ true)
unfolding verify_external_anchor_chain sort_anchors insert_anchor walk link_errors
    verify_external_anchor validate_external_anchor_schema hash_errors check_content check_signature
    value_eq compute_manifest_hash canonical_json_bytes all_finite emit sort_keys utf8
two_anchors_valid = (refl, refl)

verify_external_anchor_chain-IsLinked_example :
    (sorted : List Fields) × Permᴰ sorted (second_anchor ∷ first_anchor ∷ [])
    × InOrder less_index sorted
    × IsLinked toy (some public_key) true genesis_hash sorted
verify_external_anchor_chain-IsLinked_example =
    verify_external_anchor_chain-IsLinked toy less_index (some public_key) true second_anchor
      (first_anchor ∷ []) verdict two_anchors_valid.0 two_anchors_valid.1
