-- ===== src/Group/Sealing.antt =====
-- `ecies_encrypt` of src/group.rs, over the crates x25519-dalek, hkdf and aes-gcm, which are
-- parameters with the laws that make the scheme one: both sides of a Diffie-Hellman exchange get the
-- same secret, public keys have 32 bytes, and AES-GCM decrypts what it encrypted.
use naleystogramm_server.Base.{ℕ, ◌≡◌, ◌⊎◌, inl, inr, List, ◌++◌, Option, some, Text, codes, length}

pub record Crypto : Type 0 where
  -- the public key of a secret, and the shared secret of a secret and a public key
  pub public_of : List ℕ → List ℕ
  pub diffie_hellman : List ℕ → List ℕ → List ℕ
  -- HKDF-SHA256 without salt: the key material, `info` and the length asked for
  pub hkdf_expand : List ℕ → Text → ℕ → Text ⊎ List ℕ
  -- AES-256-GCM: the key, the nonce and the text
  pub encrypt : List ℕ → List ℕ → List ℕ → Text ⊎ List ℕ
  pub decrypt : List ℕ → List ℕ → List ℕ → Option (List ℕ)
  pub public_of-length : (a : List ℕ) → length a ≡ 32 → length (public_of a) ≡ 32
  pub diffie_hellman-comm :
      (a b : List ℕ) → diffie_hellman a (public_of b) ≡ diffie_hellman b (public_of a)
  pub decrypt-encrypt :
      (key nonce plain cipher : List ℕ)
      → encrypt key nonce plain ≡ inr cipher
      → decrypt key nonce cipher ≡ some plain

abbrev pub info : Text
info = codes "naleys-group-key-v1"

module _ (k : Crypto) where
  open k use {public_of, diffie_hellman, hkdf_expand, encrypt}

  -- `ephemeral` and `nonce` are what the random generator gives, 32 and 12 bytes. An AES key of 32
  -- bytes is never refused.
  unfoldable pub ecies_encrypt : List ℕ → List ℕ → List ℕ → List ℕ → Text ⊎ List ℕ
  ecies_encrypt ephemeral nonce recipient_pub plaintext =
      elim (hkdf_expand (diffie_hellman ephemeral recipient_pub) info 32) [
        | inl e ↦ inl (codes "hkdf expand: " ++ e)
        | inr key ↦ elim (encrypt key nonce plaintext) [
          | inl e ↦ inl (codes "aes encrypt: " ++ e)
          | inr ciphertext ↦ inr (public_of ephemeral ++ (nonce ++ ciphertext))
        ]
      ]
