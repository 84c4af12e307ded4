-- ===== src/Channel/Results.antt =====
-- src/channel.rs: `seal` and `open` return in every case, without a panic.
use cbcl_pairing.Common.{
  ℕ, ◌+◌, ◌≢◌, Octets, Bool, true, false, Option, none, some, not, ◌||◌, ◌&&◌, if◌then◌else◌,
  nat_beq, ltb, leb, is_empty, length, Outcome, ok, err, panic, arith,
}
use cbcl_pairing.Wire.{ChannelFrame, Direction}
use cbcl_pairing.Channel.{ChannelError, SecureChannel, max_sealed_plaintext}
use cbcl_pairing.Channel.Nonce.{receive_direction}
use cbcl_pairing.Channel.Schedule.{Crypto, sealed_aad}
use cbcl_pairing.Channel.Seal.{
  decrypted, fail, open_frame, open_sealed, open_under, same_direction, seal, seal_under, sent,
}

abbrev Answered : {A : Type 0} → SecureChannel × Outcome ChannelError A → Type 0
Answered (c, ok a) = Unit
Answered (c, err e) = Unit
Answered (c, panic) = ⊥

pub record IsResult {A : Type 0} (r : SecureChannel × Outcome ChannelError A) : Type 0 where
  pub answered : Answered r

module _ {A : Type 0} where
  IsResult-if :
      (b : Bool) {x y : SecureChannel × Outcome ChannelError A}
      → IsResult x
      → IsResult y
      → IsResult (if b then x else y)
  IsResult-if true h g = h
  IsResult-if false h g = g

  IsResult-match :
      {X : Type 0} (o : Option X) {x : SecureChannel × Outcome ChannelError A}
      {k : X → SecureChannel × Outcome ChannelError A}
      → IsResult x
      → ((v : X) → IsResult (k v))
      → IsResult {A = A} (elim o [ none ↦ x | some v ↦ k v ])
  IsResult-match none h g = h
  IsResult-match (some v) h g = g v

sent-IsResult :
    (s : SecureChannel) (n : ℕ) (r : Outcome ChannelError Octets)
    → r ≢ panic
    → IsResult (sent s n r)
unfolding sent
sent-IsResult s n (ok a) h = record { answered = tt }
sent-IsResult s n (err e) h = record { answered = tt }
sent-IsResult s n panic h = absurd (ground (arith, h))

seal_under-answers :
    (c : Crypto) (s : SecureChannel) (plaintext : Octets) (n : ℕ)
    → seal_under c s plaintext n ≢ panic
unfolding seal_under sealed_aad
seal_under-answers c s plaintext n = ground arith

pub seal-IsResult :
    (c : Crypto) (s : SecureChannel) (plaintext : Octets) → IsResult (seal c s plaintext)
unfolding seal
seal-IsResult c s plaintext =
    IsResult-if s.is_terminal (record { answered = tt })
      (IsResult-if (is_empty plaintext || ltb max_sealed_plaintext (length plaintext))
        (record { answered = tt })
        (IsResult-match s.next_send_counter (record { answered = tt })
          λ n. sent-IsResult s n _ (seal_under-answers c s plaintext n)))

decrypted-IsResult : (s : SecureChannel) (n : ℕ) (o : Option Octets) → IsResult (decrypted s n o)
unfolding decrypted fail
decrypted-IsResult s n none = record { answered = tt }
decrypted-IsResult s n (some a) = record { answered = tt }

open_under-IsResult :
    (c : Crypto) (s : SecureChannel) (n : ℕ) (ciphertext : Octets) (r : Outcome ChannelError Octets)
    → r ≢ panic
    → IsResult (open_under c s n ciphertext r)
unfolding open_under
open_under-IsResult c s n ciphertext (ok aad) h =
    IsResult-if (c.takes_key s.receive_key) (decrypted-IsResult s n _) (record { answered = tt })
open_under-IsResult c s n ciphertext (err e) h = record { answered = tt }
open_under-IsResult c s n ciphertext panic h = absurd (ground (arith, h))

sealed_aad-answers :
    (c : Crypto) (d : Direction) (n : ℕ) (hash : Octets) → sealed_aad c d n hash ≢ panic
unfolding sealed_aad
sealed_aad-answers c d n hash = ground arith

open_sealed-IsResult :
    (c : Crypto) (s : SecureChannel) (d : Direction) (n : ℕ) (ciphertext : Octets)
    → IsResult (open_sealed c s d n ciphertext)
unfolding open_sealed fail
open_sealed-IsResult c s d n ciphertext =
    IsResult-if (not (same_direction d (receive_direction s.local_side))) (record { answered = tt })
      (IsResult-match s.next_receive_counter (record { answered = tt })
        λ expected.
          IsResult-if (not (nat_beq n expected)) (record { answered = tt })
            (IsResult-if
              (not
                (leb 17 (length ciphertext) && leb (length ciphertext) (max_sealed_plaintext + 16)))
              (record { answered = tt })
              (open_under-IsResult c s n ciphertext _
                (sealed_aad-answers c d n s.transcript_hash))))

pub open_frame-IsResult :
    (c : Crypto) (s : SecureChannel) (frame : ChannelFrame) → IsResult (open_frame c s frame)
unfolding open_frame fail
open_frame-IsResult c s (ChannelFrame.cpace side a b) =
    IsResult-if s.is_terminal (record { answered = tt }) (record { answered = tt })
open_frame-IsResult c s (ChannelFrame.finished side a b) =
    IsResult-if s.is_terminal (record { answered = tt }) (record { answered = tt })
open_frame-IsResult c s (ChannelFrame.sealed d n ciphertext) =
    IsResult-if s.is_terminal (record { answered = tt }) (open_sealed-IsResult c s d n ciphertext)
