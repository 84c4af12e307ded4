-- ===== src/Channel/Sealing.antt =====
-- src/channel.rs: what one call of `seal` or `open` does to the sending half of the channel.
use cbcl_pairing.Common.{
  ℕ, ◌≡◌, refl, Octets, some, length, is_empty, ltb, ◌||◌, Bool-cases, Option-cases, inl, inr,
  if◌then◌else◌, ok, err, panic, Outcome, Bool, ◌>>=◌, ok_or, checked_add, subst, sym, arith,
}
use cbcl_pairing.Wire.{ChannelFrame}
use cbcl_pairing.Channel.{ChannelError, SecureChannel, max_sealed_plaintext}
use cbcl_pairing.Channel.Nonce.{derive_nonce, send_direction}
use cbcl_pairing.Channel.Schedule.{Crypto, sealed_aad}
use cbcl_pairing.Channel.Seal.{
  seal, seal_under, sent, open_frame, open_sealed, open_under, decrypted, fail,
}

-- What `encrypt` was called with for a frame: the key, the nonce, some body and additional data,
-- and it gave the ciphertext of the frame.
abbrev pub Encrypted : Crypto → Octets → Octets → Octets → Type 0
Encrypted c key nonce ct =
    (body : Octets) × (aad : Octets) × (c.encrypt key nonce body aad ≡ some ct)

-- A frame comes out only under the next counter, which moves on.
abbrev pub Sealed : Crypto → SecureChannel → SecureChannel → ChannelFrame → Type 0
Sealed c s t f =
    (counter : ℕ) × (ciphertext : Octets) × (s.next_send_counter ≡ some counter)
    × (f ≡ ChannelFrame.sealed (send_direction s.local_side) counter ciphertext)
    × (t ≡ record s { next_send_counter = checked_add counter 1 })
    × Encrypted c s.send_key (derive_nonce s.send_iv counter) ciphertext

encrypt-Encrypted :
    (c : Crypto) (key nonce plaintext : Octets) (keyed : Bool) (r : Outcome ChannelError Octets)
    (ct : Octets)
    → (r >>= λ aad.
        if keyed
        then ok_or (c.encrypt key nonce plaintext aad) ChannelError.encryption
        else err ChannelError.encryption)
      ≡ ok ct
    → Encrypted c key nonce ct
encrypt-Encrypted c key nonce plaintext keyed (ok aad) ct h = (plaintext, aad, ground arith)
encrypt-Encrypted c key nonce plaintext keyed (err e) ct h = ground arith
encrypt-Encrypted c key nonce plaintext keyed panic ct h = ground arith

seal_under-Encrypted :
    (c : Crypto) (s : SecureChannel) (plaintext : Octets) (counter : ℕ) (ct : Octets)
    → seal_under c s plaintext counter ≡ ok ct
    → Encrypted c s.send_key (derive_nonce s.send_iv counter) ct
unfolding seal_under
seal_under-Encrypted c s plaintext counter ct h =
    encrypt-Encrypted c s.send_key (derive_nonce s.send_iv counter) plaintext
      (c.takes_key s.send_key)
      (sealed_aad c (send_direction s.local_side) counter s.transcript_hash) ct h

sent-Sealed :
    (c : Crypto) (s : SecureChannel) (counter : ℕ) (r : Outcome ChannelError Octets)
    (f : ChannelFrame)
    → s.next_send_counter ≡ some counter
    → ((ct : Octets) → r ≡ ok ct → Encrypted c s.send_key (derive_nonce s.send_iv counter) ct)
    → (sent s counter r).1 ≡ ok f
    → Sealed c s (sent s counter r).0 f
unfolding sent
sent-Sealed c s counter (ok ct) f n k h = (counter, ct, n, ground arith, refl, k ct refl)
sent-Sealed c s counter (err e) f n k h = ground arith
sent-Sealed c s counter panic f n k h = ground arith

pub seal-Sealed :
    (c : Crypto) (s : SecureChannel) (plaintext : Octets) (f : ChannelFrame)
    → (seal c s plaintext).1 ≡ ok f
    → Sealed c s (seal c s plaintext).0 f
unfolding seal
seal-Sealed c s plaintext f h = elim (Bool-cases s.is_terminal) [
  | inl over ↦ ground arith
  | inr live ↦
      elim (Bool-cases (is_empty plaintext || ltb max_sealed_plaintext (length plaintext))) [
        | inl size ↦ ground arith
        | inr size ↦ elim (Option-cases s.next_send_counter) [
          | inl used ↦ ground arith
          | inr (counter, next) ↦
              let whole : seal c s plaintext ≡ sent s counter (seal_under c s plaintext counter) =
                ground arith in
              subst (λ r. r.1 ≡ ok f → Sealed c s r.0 f) (sym whole)
                (sent-Sealed c s counter (seal_under c s plaintext counter) f next
                  (λ ct e. seal_under-Encrypted c s plaintext counter ct e))
                h
        ]
      ]
]

pub seal-refused :
    (c : Crypto) (s : SecureChannel) (plaintext : Octets) (e : ChannelError)
    → (seal c s plaintext).1 ≡ err e
    → (seal c s plaintext).0 ≡ s
unfolding seal sent
seal-refused c s plaintext e h = ground arith

-- What the sending half of a channel consists of.
abbrev pub SameSender : SecureChannel → SecureChannel → Type 0
SameSender s t =
    (t.local_side ≡ s.local_side)
    × (t.send_key ≡ s.send_key)
    × (t.send_iv ≡ s.send_iv)
    × (t.next_send_counter ≡ s.next_send_counter)

pub open_frame-SameSender :
    (c : Crypto) (s : SecureChannel) (frame : ChannelFrame) → SameSender s (open_frame c s frame).0
unfolding open_frame open_sealed open_under decrypted fail
open_frame-SameSender c s frame = ground arith
