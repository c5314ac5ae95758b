-- ===== src/Server/Preauth/Shape.antt =====
-- The generator of SDK keys, `generate_sdk_key` of routes/sdk_key.rs,
-- and the shape that is asked of a key before any lookup.
use Prim.Native.String.{◌++◌}
use flaps.Prelude.{ℕ, ◌≡◌, refl, String, true, List, ok, some, length, arith}
use flaps.Prelude.Text.{as_bytes, chars, has_prefix, utf8}
use flaps.Server.Preauth.Hex.{encode_hex, all_hex-encode_hex, spelled, length-encode_hex}
use flaps.Domain.SdkKey.{SdkKeyKind, server, client}
use flaps.Server.Preauth.{reject_impossible_sdk_key, reject_body, strip_accepted, all_hex}

abbrev pub prefix_of : SdkKeyKind → String
prefix_of server = "sv"
prefix_of client = "cl"

-- With the bytes that `OsRng` draws.
unfoldable pub generate_sdk_key : SdkKeyKind → List ℕ → String
unfolding encode_hex
generate_sdk_key kind bytes = prefix_of kind ++ ("_" ++ encode_hex bytes)

accepted :
    (raw body : String)
    → length (as_bytes raw) ≡ 51
    → strip_accepted raw ≡ some body
    → length (as_bytes body) ≡ 48
    → all_hex (chars body) ≡ true
    → reject_impossible_sdk_key raw ≡ ok tt
unfolding reject_impossible_sdk_key reject_body
accepted raw body total stripped rest hex = rw (total, stripped, rest, hex) refl

-- A generated key, of 24 drawn bytes, is never refused for its shape.
pub generate-reject_impossible_sdk_key :
    (kind : SdkKeyKind) (bytes : List ℕ)
    → length bytes ≡ 24
    → reject_impossible_sdk_key (generate_sdk_key kind bytes) ≡ ok tt
unfolding generate_sdk_key strip_accepted as_bytes has_prefix utf8
generate-reject_impossible_sdk_key server bytes h = rw (spelled "s" "v" "_" (encode_hex bytes)) (
    accepted (String.◌∷◌ "s" (String.◌∷◌ "v" (String.◌∷◌ "_" (encode_hex bytes))))
      (encode_hex bytes) (omega (arith, length-encode_hex bytes, h)) refl
      (omega (arith, length-encode_hex bytes, h)) (all_hex-encode_hex bytes))
generate-reject_impossible_sdk_key client bytes h = rw (spelled "c" "l" "_" (encode_hex bytes)) (
    accepted (String.◌∷◌ "c" (String.◌∷◌ "l" (String.◌∷◌ "_" (encode_hex bytes))))
      (encode_hex bytes) (omega (arith, length-encode_hex bytes, h)) refl
      (omega (arith, length-encode_hex bytes, h)) (all_hex-encode_hex bytes))
