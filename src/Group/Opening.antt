-- ===== src/Group/Opening.antt =====
-- What a member does with the sealed key that `ecies_encrypt` of src/group.rs made for it.
use naleystogramm_server.Base.{
  ℕ, ◌≡◌, sym, ◌∙◌, ap, subst, inl, inr, List, ◌++◌, Option, none, some, Sum-cases, length, take,
  drop, take-append, drop-append,
}
use naleystogramm_server.Group.Sealing.{Crypto, info, ecies_encrypt}
use mathlib.Core.Sum.{inr-injective}

abbrev pub open_with : Crypto → List ℕ → List ℕ → List ℕ → List ℕ → Option (List ℕ)
open_with k secret ephemeral_pub nonce cipher =
    elim (k.hkdf_expand (k.diffie_hellman secret ephemeral_pub) info 32) [
      | inl e ↦ none
      | inr key ↦ k.decrypt key nonce cipher
    ]

-- The other half of the scheme: the ephemeral public key in the first 32 bytes, the nonce in the
-- next 12, and then the ciphertext.
unfoldable pub ecies_open : Crypto → List ℕ → List ℕ → Option (List ℕ)
ecies_open k secret sealed =
    open_with k secret (take 32 sealed) (take 12 (drop 32 sealed)) (drop 12 (drop 32 sealed))

module _ (k : Crypto) where
  take_key :
      (ephemeral rest : List ℕ)
      → length ephemeral ≡ 32
      → take 32 (k.public_of ephemeral ++ rest) ≡ k.public_of ephemeral
  take_key ephemeral rest h =
      subst (λ n. take n (k.public_of ephemeral ++ rest) ≡ k.public_of ephemeral)
        (k.public_of-length ephemeral h) (take-append (k.public_of ephemeral) rest)

  drop_key :
      (ephemeral rest : List ℕ)
      → length ephemeral ≡ 32
      → drop 32 (k.public_of ephemeral ++ rest) ≡ rest
  drop_key ephemeral rest h =
      subst (λ n. drop n (k.public_of ephemeral ++ rest) ≡ rest) (k.public_of-length ephemeral h)
        (drop-append (k.public_of ephemeral) rest)

  opens :
      (ephemeral nonce secret plaintext key cipher : List ℕ)
      → length ephemeral ≡ 32
      → length nonce ≡ 12
      → k.hkdf_expand (k.diffie_hellman ephemeral (k.public_of secret)) info 32 ≡ inr key
      → k.encrypt key nonce plaintext ≡ inr cipher
      → ecies_open k secret (k.public_of ephemeral ++ (nonce ++ cipher)) ≡ some plaintext
  unfolding ecies_open
  opens ephemeral nonce secret plaintext key cipher h32 h12 derived encrypted =
      let rest = nonce ++ cipher in
      let sealed = k.public_of ephemeral ++ rest in
      ap (λ e. open_with k secret e (take 12 (drop 32 sealed)) (drop 12 (drop 32 sealed)))
        (take_key ephemeral rest h32)
      ∙ ap (λ r. open_with k secret (k.public_of ephemeral) (take 12 r) (drop 12 r))
          (drop_key ephemeral rest h32)
      ∙ ap (λ n. open_with k secret (k.public_of ephemeral) (take n rest) (drop n rest)) (sym h12)
      ∙ ap (λ n. open_with k secret (k.public_of ephemeral) n (drop (length nonce) rest))
          (take-append nonce cipher)
      ∙ ap (λ c. open_with k secret (k.public_of ephemeral) nonce c) (drop-append nonce cipher)
      ∙ rw (open_with, k.diffie_hellman-comm secret ephemeral, derived)
          (k.decrypt-encrypt key nonce plaintext cipher encrypted)

  -- What the recipient with that secret opens is what was encrypted for it.
  pub ecies_open-ecies_encrypt :
      (ephemeral nonce secret plaintext sealed : List ℕ)
      → length ephemeral ≡ 32
      → length nonce ≡ 12
      → ecies_encrypt k ephemeral nonce (k.public_of secret) plaintext ≡ inr sealed
      → ecies_open k secret sealed ≡ some plaintext
  unfolding ecies_encrypt
  ecies_open-ecies_encrypt ephemeral nonce secret plaintext sealed h32 h12 =
      elim (Sum-cases (k.hkdf_expand (k.diffie_hellman ephemeral (k.public_of secret)) info 32)) [
        | inl (e, failed) ↦ rw (failed, ecies_encrypt) (λ h. cc h)
        | inr (key, derived) ↦
            rw (derived, ecies_encrypt)
              (elim (Sum-cases (k.encrypt key nonce plaintext)) [
                | inl (e, failed) ↦ rw (failed, ecies_encrypt) (λ h. cc h)
                | inr (cipher, encrypted) ↦
                    rw (encrypted, ecies_encrypt)
                      (λ h.
                        subst (λ r. ecies_open k secret r ≡ some plaintext) (inr-injective _ _ h)
                          (opens ephemeral nonce secret plaintext key cipher h32 h12 derived
                            encrypted))
              ])
      ]
