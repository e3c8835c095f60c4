-- ===== src/Crypto/Exchange.antt =====
-- The signed X25519 exchange of `prepareKeyExchange` and `completeKeyExchange`.
use shadowchat.Common.{◌≡◌, refl, ◌∙◌, Bool, true, false, [], ◌∷◌, String}
use shadowchat.Common.Results.{Result, ok, >>=-eq-ok, ok-injective}
use shadowchat.Platform.Crypto.{
  WebCrypto, Bytes, KeyPair, IsSigningPair, IsExchangePair, Agree, x25519, ed25519, use_verify,
}
use shadowchat.Platform.Encoding.{Codec, RoundTrips}
use shadowchat.Crypto.{
  KeyExchangePacket, prepare_key_exchange, complete_key_exchange, derive_shared_key,
  check_signature, ◌>>◌,
}

check_signature-eq-ok {ℓ} :
    {B : Type ℓ} (valid : Bool) (next : Result B) {b : B}
    → (check_signature valid >> next) ≡ ok b
    → (valid ≡ true) × (next ≡ ok b)
check_signature-eq-ok true next h = (refl, h)
check_signature-eq-ok false next h = cc

module _ {Key : Type 0} (c : WebCrypto Key) (e : Codec) where
  -- The checks that a packet passes before any secret is derived: both keys import, and the
  -- signature over the text of the X25519 key verifies under the packet's own Ed25519 key.
  pub record Passes (packet : KeyExchangePacket) (remote : Key) : Type 0 where
    pub signer : Key
    pub signature_bytes : Bytes
    pub imports : c.import_jwk packet.x25519_jwk x25519 true [] ≡ ok remote
    pub names_signer : c.import_jwk packet.ed25519_jwk ed25519 true (use_verify ∷ []) ≡ ok signer
    pub decodes : e.atob packet.signature ≡ ok signature_bytes
    pub verifies :
        c.verify ed25519 signer signature_bytes (e.encode (e.stringify_jwk packet.x25519_jwk))
        ≡ ok true

  complete_of_Passes :
      (private_key : Key) (packet : KeyExchangePacket) (remote : Key) (room : String)
      → Passes packet remote
      → complete_key_exchange c e private_key packet room
        ≡ derive_shared_key c e private_key remote room
  unfolding complete_key_exchange
  complete_of_Passes private_key packet remote room p =
      rw (p.imports, p.names_signer, p.decodes, p.verifies) refl

  -- A key comes out only if both keys of the packet import and the signature verifies under the
  -- packet's own Ed25519 key, and it is derived from the X25519 key that was signed.
  pub complete-eq-ok :
      (private_key : Key) (packet : KeyExchangePacket) (room : String) (k : Key)
      → complete_key_exchange c e private_key packet room ≡ ok k
      → (remote : Key) × Passes packet remote
        × (derive_shared_key c e private_key remote room ≡ ok k)
  unfolding complete_key_exchange
  complete-eq-ok private_key packet room k h =
      let (remote, i, h1) = >>=-eq-ok (c.import_jwk packet.x25519_jwk x25519 true []) _ h in
      let (signer, n, h2) =
        >>=-eq-ok (c.import_jwk packet.ed25519_jwk ed25519 true (use_verify ∷ [])) _ h1 in
      let (bytes, d, h3) = >>=-eq-ok (e.atob packet.signature) _ h2 in
      let (valid, v, h4) =
        >>=-eq-ok (c.verify ed25519 signer bytes (e.encode (e.stringify_jwk packet.x25519_jwk))) _
          h3 in
      let (good, derived) = check_signature-eq-ok valid _ h4 in
      (
        remote,
        record {
          signer = signer;
          signature_bytes = bytes;
          imports = i;
          names_signer = n;
          decodes = d;
          verifies = rw good at v;
        },
        derived,
      )

  module _ (r : RoundTrips e) where
    prepared-Passes :
        (x s : KeyPair Key) (packet : KeyExchangePacket)
        → IsExchangePair c x
        → IsSigningPair c s
        → prepare_key_exchange c e x s ≡ ok packet
        → Passes packet x.public_key
    unfolding prepare_key_exchange
    prepared-Passes x s packet hx hs h =
        let (x_jwk, ex, h1) = >>=-eq-ok (c.export_jwk x.public_key) _ h in
        let (s_jwk, es, h2) = >>=-eq-ok (c.export_jwk s.public_key) _ h1 in
        let (bytes, g, h3) =
          >>=-eq-ok (c.sign ed25519 s.private_key (e.encode (e.stringify_jwk x_jwk))) _ h2 in
        rw (← ok-injective h3) (record {
          signer = s.public_key;
          signature_bytes = bytes;
          imports = hx.survives x_jwk ex;
          names_signer = hs.survives s_jwk es;
          decodes = r.atob-btoa bytes;
          verifies = hs.signs (e.encode (e.stringify_jwk x_jwk)) bytes g;
        })

    -- Where the codecs round-trip, a packet that any owner of two key pairs that work prepared is
    -- accepted, and gives the key that is derived with that owner's X25519 public key.
    pub complete-prepare :
        (private_key : Key) (x s : KeyPair Key) (packet : KeyExchangePacket) (room : String)
        → IsExchangePair c x
        → IsSigningPair c s
        → prepare_key_exchange c e x s ≡ ok packet
        → complete_key_exchange c e private_key packet room
          ≡ derive_shared_key c e private_key x.public_key room
    complete-prepare private_key x s packet room hx hs h =
        complete_of_Passes private_key packet x.public_key room (prepared-Passes x s packet hx hs h)

    -- Two peers whose key pairs work, agree on a shared secret and survive export and import, and
    -- who exchange their packets in one room, both end with what the derivation gives for the private
    -- key of the one and the public key of the other: the same room key, or the same error of the
    -- derivation.
    pub complete-Agree :
        (xa sa xb sb : KeyPair Key) (a b : KeyExchangePacket) (room : String)
        → IsExchangePair c xa
        → IsSigningPair c sa
        → IsExchangePair c xb
        → IsSigningPair c sb
        → Agree c xa xb
        → prepare_key_exchange c e xa sa ≡ ok a
        → prepare_key_exchange c e xb sb ≡ ok b
        → (complete_key_exchange c e xa.private_key b room
            ≡ derive_shared_key c e xa.private_key xb.public_key room)
          × (complete_key_exchange c e xb.private_key a room
              ≡ derive_shared_key c e xa.private_key xb.public_key room)
    unfolding derive_shared_key
    complete-Agree xa sa xb sb a b room hxa hsa hxb hsb agree pa pb = (
      complete-prepare xa.private_key xb sb b room hxb hsb pb,
      complete-prepare xb.private_key xa sa a room hxa hsa pa ∙ rw (agree 256) refl,
    )
