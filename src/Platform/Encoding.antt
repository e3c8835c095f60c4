-- ===== src/Platform/Encoding.antt =====
-- `TextEncoder` and `TextDecoder`, `window.btoa` and `window.atob` on bytes, `JSON.stringify` on keys.
use shadowchat.Common.{◌≡◌, String}
use shadowchat.Common.Results.{Result, ok}
use shadowchat.Platform.Crypto.{Bytes, Jwk}

pub record Codec : Type 0 where
  pub encode : String → Bytes
  pub decode : Bytes → String
  pub btoa : Bytes → String
  pub atob : String → Result Bytes
  pub stringify_jwk : Jwk → String

-- The decoder undoes the encoder, and `atob` undoes `btoa`.
pub record RoundTrips (c : Codec) : Type 0 where
  pub decode-encode : (s : String) → c.decode (c.encode s) ≡ s
  pub atob-btoa : (b : Bytes) → c.atob (c.btoa b) ≡ ok b
