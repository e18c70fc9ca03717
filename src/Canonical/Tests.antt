-- ===== src/Canonical/Tests.antt =====
-- Canonical JSON at concrete documents.
use specora_verify.Base.{◌≡◌, ◌≢◌, refl, negsuc, String, codes, some, arith, eq_iff}
use specora_verify.Json.{Value, null, int, float, str, arr, obj, nil, cons, end, field}
use specora_verify.Canonical.{emit, sort_keys, all_finite, canonical_json_bytes}
use specora_verify.Canonical.Document.{canonical_json_bytes-injective}
use specora_verify.Canonical.Order.{swap, canonical_json_bytes-Reordered}

abbrev sample : Value
sample = obj (
    field "b" (arr (cons (int (negsuc 41)) (cons null nil)))
      (field "a" (str "xé\"\n") (field "c" (float "1.5") end)))

sample_bytes :
    canonical_json_bytes sample
    ≡ some (codes "{\"a\":\"x\\u00e9\\\"\\n\",\"b\":[-42,null],\"c\":1.5}")
unfolding canonical_json_bytes emit sort_keys all_finite
sample_bytes = refl

-- The keys are sorted, so the same bytes come from a document written in another order.
abbrev first_doc : Value
first_doc = obj (field "b" (int (negsuc 1)) (field "a" (float "0.5") end))

abbrev second_doc : Value
second_doc = obj (field "a" (float "0.5") (field "b" (int (negsuc 1)) end))

canonical_json_bytes-injective_example : sort_keys first_doc ≡ sort_keys second_doc
unfolding canonical_json_bytes emit sort_keys all_finite
canonical_json_bytes-injective_example =
    canonical_json_bytes-injective first_doc second_doc (codes "{\"a\":0.5,\"b\":-2}")
      (tt, ((λ _. (refl, refl)), tt)) ((λ _. (refl, refl)), (tt, tt)) refl refl

b_not_a : ◌≢◌ {A = String} "b" "a"
b_not_a = ground (arith, eq_iff "b" "a")

canonical_json_bytes-Reordered_example :
    canonical_json_bytes first_doc ≡ canonical_json_bytes second_doc
canonical_json_bytes-Reordered_example =
    canonical_json_bytes-Reordered (swap "b" "a" (int (negsuc 1)) (float "0.5") end b_not_a)
