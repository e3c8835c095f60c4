-- ===== src/Transfer/Chunk/RoundTrip.antt =====
-- The wire format of chunks: what `serializeChunk` lays out, and that `deserializeChunk` undoes it.
use shadowchat.Common.{
  ℕ, zero, suc, ◌+◌, ◌^◌, ◌<◌, ◌≡◌, refl, sym, ap, ◌∙◌, [], ◌∷◌, ◌++◌, some, String, arith, length,
  drop, length-append, take-append, drop-append, drop-drop, append_assoc, append-nil, ltb, leb,
  le→leb, true, false,
}
use shadowchat.Common.Results.{ok}
use shadowchat.Platform.Crypto.{Bytes}
use shadowchat.Platform.Encoding.{Codec}
use shadowchat.Transfer.Chunk.{
  zeros, set_bytes, uint32_bytes, read_uint32, serialize_chunk, deserialize_chunk,
}

length-zeros : (n : ℕ) → length (zeros n) ≡ n
length-zeros zero = refl
length-zeros (suc n) = ap suc (length-zeros n)

-- Writing over a part of a buffer that is as long as what is written.
set_bytes_lem :
    (front old back bytes : Bytes) (n : ℕ)
    → length front ≡ n
    → length old ≡ length bytes
    → set_bytes (front ++ (old ++ back)) n bytes ≡ ok (front ++ (bytes ++ back))
unfolding set_bytes
set_bytes_lem front old back bytes n hn ho =
    rw (fits, take-append front (old ++ back) n hn, rest) refl
  where
    whole : length (front ++ (old ++ back)) ≡ n + length bytes + length back
    whole = omega (arith, length-append front (old ++ back), length-append old back)

    fits : leb (n + length bytes) (length (front ++ (old ++ back))) ≡ true
    fits = le→leb _ _ (omega (arith, whole))

    rest : drop (n + length bytes) (front ++ (old ++ back)) ≡ back
    rest =
        rw (← append_assoc front old back)
          (drop-append (front ++ old) back _ (omega (arith, length-append front old)))

-- The layout of a packet whose id takes 36 bytes and whose IV takes 12.
abbrev pub layout : Bytes → ℕ → Bytes → Bytes → Bytes
layout id_bytes index iv ciphertext = 1 ∷ (id_bytes ++ (uint32_bytes index ++ (iv ++ ciphertext)))

module _ (e : Codec) where
  pub serialize-layout :
      (id : String) (index : ℕ) (iv ciphertext : Bytes)
      → length (e.encode id) ≡ 36
      → length iv ≡ 12
      → serialize_chunk e id index iv ciphertext ≡ ok (layout (e.encode id) index iv ciphertext)
  unfolding serialize_chunk
  serialize-layout id index iv ciphertext hid hiv =
      rw
        (
          set_bytes_lem [] (0 ∷ []) (zeros 52) (1 ∷ []) 0 refl refl,
          set_bytes_lem (1 ∷ []) (zeros 36) (zeros 16) id_bytes 1 refl (sym hid),
          set_bytes_lem (1 ∷ id_bytes) (zeros 4) (zeros 12) (uint32_bytes index) 37 (ap suc hid)
              refl,
          numbered,
        )
        (ap ok end)
    where
      id_bytes : Bytes
      id_bytes = e.encode id

      numbered :
          set_bytes (1 ∷ (id_bytes ++ (uint32_bytes index ++ zeros 12))) 41 iv
          ≡ ok (1 ∷ ((id_bytes ++ uint32_bytes index) ++ (iv ++ [])))
      numbered = rw (← append_assoc id_bytes (uint32_bytes index) (zeros 12)) (
          set_bytes_lem (1 ∷ (id_bytes ++ uint32_bytes index)) (zeros 12) [] iv 41
            (omega (arith, length-append id_bytes (uint32_bytes index))) (sym hiv))

      end :
          (1 ∷ ((id_bytes ++ uint32_bytes index) ++ (iv ++ []))) ++ ciphertext
          ≡ layout id_bytes index iv ciphertext
      end = simp (append_assoc, append-nil)

  read_uint32-bytes : (n : ℕ) (rest : Bytes) → n < 2 ^ 32 → read_uint32 (uint32_bytes n ++ rest) ≡ n
  read_uint32-bytes n rest h = omega arith

  deserialize-layout :
      (id_bytes : Bytes) (index : ℕ) (iv ciphertext : Bytes)
      → length id_bytes ≡ 36
      → index < 2 ^ 32
      → length iv ≡ 12
      → deserialize_chunk e (layout id_bytes index iv ciphertext)
        ≡ some (record {
          transfer_id = e.decode id_bytes;
          chunk_index = index;
          iv = iv;
          ciphertext = ciphertext;
        })
  unfolding deserialize_chunk
  deserialize-layout id_bytes index iv ciphertext hid hindex hiv =
      rw (long, take-append id_bytes _ 36 hid, drop-append id_bytes _ 36 hid, after_index, after_iv)
        (rw (read_uint32-bytes index (iv ++ ciphertext) hindex, take-append iv ciphertext 12 hiv)
          refl)
    where
      long : ltb (length (layout id_bytes index iv ciphertext)) 53 ≡ false
      long =
          let h : length (layout id_bytes index iv ciphertext) ≡ 53 + length ciphertext = omega (
            arith,
            length-append id_bytes (uint32_bytes index ++ (iv ++ ciphertext)),
            length-append iv ciphertext,
          ) in
          ground (arith, h)

      after_index :
          drop 40 (id_bytes ++ (uint32_bytes index ++ (iv ++ ciphertext))) ≡ iv ++ ciphertext
      after_index = rw (← append_assoc id_bytes (uint32_bytes index) (iv ++ ciphertext)) (
          drop-append (id_bytes ++ uint32_bytes index) _ 40
            (omega (arith, length-append id_bytes (uint32_bytes index))))

      after_iv : drop 52 (id_bytes ++ (uint32_bytes index ++ (iv ++ ciphertext))) ≡ ciphertext
      after_iv =
          sym (drop-drop 40 12 52 (id_bytes ++ (uint32_bytes index ++ (iv ++ ciphertext))) refl)
          ∙ ap (drop 12) after_index
          ∙ drop-append iv ciphertext 12 hiv

  -- For a transfer id of 36 bytes that decodes to itself, an index below 2 ^ 32, an IV of 12 bytes
  -- and any ciphertext, `serializeChunk` makes a packet, and `deserializeChunk` reads the same four
  -- back.
  pub deserialize-serialize :
      (id : String) (index : ℕ) (iv ciphertext : Bytes)
      → length (e.encode id) ≡ 36
      → e.decode (e.encode id) ≡ id
      → index < 2 ^ 32
      → length iv ≡ 12
      → (packet : Bytes) × (serialize_chunk e id index iv ciphertext ≡ ok packet)
        × (deserialize_chunk e packet
            ≡ some (record {
              transfer_id = id;
              chunk_index = index;
              iv = iv;
              ciphertext = ciphertext;
            }))
  deserialize-serialize id index iv ciphertext hid hdec hindex hiv = (
    layout (e.encode id) index iv ciphertext,
    serialize-layout id index iv ciphertext hid hiv,
    rw (deserialize-layout (e.encode id) index iv ciphertext hid hindex hiv, hdec) refl,
  )
