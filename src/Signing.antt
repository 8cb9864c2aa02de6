-- ===== src/Signing.antt =====
-- src/common/signing.py: HMAC signatures of webhook bodies.
use retail_order_sync_hub.Base.{String, ◌==◌, string_eq, is_ascii, Bool, true, false, if◌then◌else◌}
use retail_order_sync_hub.Services.{Runtime, Bytes}
use retail_order_sync_hub.Exec.{type_error, Result, ok, err}

abbrev pub signature_header : String
signature_header = "X-Paris-Signature"

module _ (rt : Runtime) where
  unfoldable pub sign_payload : String → Bytes → String
  sign_payload secret body = rt.hmac_sha256 secret body

  -- `hmac.compare_digest` of two texts compares them, and raises where one of them is not in ASCII; the
  -- digest is hexadecimal, so that the signature is in ASCII if it is the digest.
  unfoldable pub verify_signature : String → Bytes → String → Result Bool
  unfolding sign_payload
  verify_signature secret body signature =
      if sign_payload secret body == signature
      then ok true
      else (if is_ascii signature
          then ok false
          else err (type_error "comparing strings with non-ASCII characters is not supported"))
