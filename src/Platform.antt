-- ===== src/Platform.antt =====
-- What the program takes from the browser and from packages: Web Crypto, `TextEncoder` and
-- `TextDecoder`, `atob` and `btoa`, hash-wasm and Dexie. Each is an interface, and the laws that the
-- code relies on are records of their own.
pub mod Crypto
pub mod Encoding
pub mod Tables
pub mod Sample
pub mod Memory
use shadowchat.Common.{◌≡◌, List, String, concat}
use shadowchat.Common.Results.{Result}
use Crypto.{WebCrypto, Bytes}
use Encoding.{Codec}
use Tables.{Dexie}

-- hash-wasm: the digest of a hasher that was given these blocks by `update`, in this order. Creating
-- the hasher and using it may throw.
pub record Hasher : Type 0 where
  pub digest : List Bytes → Result String

-- The digest depends on the bytes alone, not on how they were cut into blocks.
abbrev pub HashesBytes : Hasher → Type 0
HashesBytes h = (xs ys : List Bytes) → concat xs ≡ concat ys → h.digest xs ≡ h.digest ys

pub record Platform (Key DB : Type 0) : Type 0 where
  pub crypto : WebCrypto Key
  pub open crypto use *
  pub codec : Codec
  pub open codec use *
  pub hasher : Hasher
  pub open hasher use *
  pub dexie : Dexie DB
  pub open dexie use *
