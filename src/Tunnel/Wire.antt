-- ===== src/Tunnel/Wire.antt =====
-- The protocol on the wire: which bytes carry which payload under a cipher.
use reliz_protocol.Base.{
  ℕ, ◌<◌, ◌≡◌, sym, ap, ◌/◌, ◌%◌, List, [], ◌∷◌, ◌++◌, append_assoc, length, ok,
}
use mathlib.Core.Path.{subst₂}
use reliz_protocol.Base.Bytes.{be16}
use reliz_protocol.Common.Types.{GhostFrame}
use reliz_protocol.Common.Frame
use reliz_protocol.Crypto.{Aead, GhostCipher, decrypt}

-- A message is the length of an encrypted frame and the frame; its payload joins what follows.
pub data Carries (aead : Aead) (cipher : GhostCipher) : List ℕ → List ℕ → Type 0 where
  nothing : Carries aead cipher [] []
  message :
      {wire payload : List ℕ} (encrypted plaintext : List ℕ) (frame : GhostFrame)
      → length encrypted < 65536
      → decrypt aead cipher encrypted ≡ ok plaintext
      → Frame.decode plaintext ≡ ok frame
      → Carries aead cipher wire payload
      → Carries aead cipher
          (be16 (length encrypted) ++ (encrypted ++ wire))
          (frame.payload ++ payload)

module _ {aead : Aead} {cipher : GhostCipher} where
  -- What one stretch carries and what the next carries, they carry together.
  pub Carries-append :
      {w v p q : List ℕ}
      → Carries aead cipher w p
      → Carries aead cipher v q
      → Carries aead cipher (w ++ v) (p ++ q)
  Carries-append nothing c = c
  Carries-append {v = v} {q = q}
        (message {wire = wire} {payload = payload} enc plain f small opens decodes rest) c =
      subst₂ (Carries aead cipher)
        (ap (λ t. (length enc / 256) ∷ (length enc % 256) ∷ t) (sym (append_assoc enc wire v)))
        (sym (append_assoc f.payload payload q))
        (message enc plain f small opens decodes (Carries-append rest c))
