-- ===== src/Proxy/Keys.antt =====
-- internal/auth/keys.go: the draw of a virtual key. The random bytes, base32 without padding in lower
-- case, and bcrypt are parameters.
use tkngate.Base.{ℕ, ◌≡◌, refl, true, Option, none, some, ◌++◌}
use tkngate.Base.Bytes.{Bytes, bytes}
use tkngate.Proxy.Admission.{Verifier, verify_key, virtual_key}
use tkngate.Proxy.Streaming.{strip_prefix}

abbrev pub key_prefix : Bytes
key_prefix = bytes "tkngate-sk-"

abbrev pub key_byte_length : ℕ
key_byte_length = 32

pub record VirtualKey : Type 0 where
  pub plaintext : Bytes
  pub hash : Bytes

pub record KeySource : Type 0 where
  -- rand.Read of so many bytes
  pub read : ℕ → Option Bytes
  -- base32 without padding, then strings.ToLower
  pub encode : Bytes → Bytes
  -- bcrypt.GenerateFromPassword with a cost
  pub generate_hash : Bytes → ℕ → Option Bytes

module _ (S : KeySource) where
  hashed : Bytes → Option Bytes → Option VirtualKey
  hashed plaintext none = none
  hashed plaintext (some hash) = some record { plaintext = plaintext; hash = hash }

  encoded : Option Bytes → Option VirtualKey
  unfolding hashed
  encoded none = none
  encoded (some random) =
      let plaintext = key_prefix ++ S.encode random in
      hashed plaintext (S.generate_hash plaintext 10)

  unfoldable pub generate_virtual_key : Option VirtualKey
  unfolding encoded
  generate_virtual_key = encoded (S.read key_byte_length)

  -- A key that was drawn is read from the header that carries it, and matches its own hash, if bcrypt's
  -- comparison accepts the hashes that bcrypt makes.
  pub generate_virtual_key-verifies :
      (V : Verifier)
      → ((p h : Bytes) → S.generate_hash p 10 ≡ some h → V.compare_hash h p ≡ true)
      → (random h : Bytes) → S.read key_byte_length ≡ some random
      → S.generate_hash (key_prefix ++ S.encode random) 10 ≡ some h
      → (k : VirtualKey) × (generate_virtual_key ≡ some k)
        × (virtual_key (bytes "Bearer " ++ k.plaintext) ≡ some k.plaintext)
        × (verify_key V k.plaintext k.hash ≡ true)
  unfolding generate_virtual_key encoded hashed virtual_key strip_prefix verify_key
  generate_virtual_key-verifies V bcrypt random h drawn made = (
    record { plaintext = key_prefix ++ S.encode random; hash = h },
    rw (drawn, made) refl,
    refl,
    bcrypt (key_prefix ++ S.encode random) h made,
  )
