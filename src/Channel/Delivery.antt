-- ===== src/Channel/Delivery.antt =====
-- src/channel.rs: what one endpoint seals, the other endpoint opens.
use cbcl_pairing.Common.{
  ℕ, ◌+◌, ◌≡◌, refl, List, [], ◌∷◌, Octets, some, true, false, length, is_empty, ltb, ◌||◌, Outcome,
  ok, err, panic, ◌>>=◌, subst, sym, arith, Bool-cases, Option-cases, inl, inr, checked_add,
}
use cbcl_pairing.Wire.{ChannelFrame}
use cbcl_pairing.Channel.{ChannelError, SecureChannel, max_sealed_plaintext}
use cbcl_pairing.Channel.Nonce.{derive_nonce, send_direction, receive_direction}
use cbcl_pairing.Channel.Schedule.{Crypto, sealed_aad}
use cbcl_pairing.Channel.Seal.{
  seal, seal_under, sent, open_frame, open_sealed, open_under, decrypted, fail,
}

-- What the channel relies on of AES-256-GCM: decryption undoes encryption, and the ciphertext is
-- the plaintext with a tag of sixteen octets.
pub record IsAead (c : Crypto) : Type 0 where
  pub undoes :
      (key nonce plaintext aad ciphertext : Octets)
      → c.encrypt key nonce plaintext aad ≡ some ciphertext
      → c.decrypt key nonce ciphertext aad ≡ some plaintext
  pub tag :
      (key nonce plaintext aad ciphertext : Octets)
      → c.encrypt key nonce plaintext aad ≡ some ciphertext
      → length ciphertext ≡ length plaintext + 16

-- The receiver is ready for what the sender sends next.
pub record IsMirror (sender receiver : SecureChannel) : Type 0 where
  pub way : receive_direction receiver.local_side ≡ send_direction sender.local_side
  pub transcript : receiver.transcript_hash ≡ sender.transcript_hash
  pub key : receiver.receive_key ≡ sender.send_key
  pub iv : receiver.receive_iv ≡ sender.send_iv
  pub next : receiver.next_receive_counter ≡ sender.next_send_counter
  pub live : receiver.is_terminal ≡ false

-- A frame that `seal` returned, with all that led to it.
pub record IsFrameOf (c : Crypto) (s : SecureChannel) (plaintext : Octets) (t : SecureChannel)
    (f : ChannelFrame) : Type 0 where
  pub counter : ℕ
  pub aad : Octets
  pub ciphertext : Octets
  pub sized : (is_empty plaintext || ltb max_sealed_plaintext (length plaintext)) ≡ false
  pub next : s.next_send_counter ≡ some counter
  pub bound : sealed_aad c (send_direction s.local_side) counter s.transcript_hash ≡ ok aad
  pub keyed : c.takes_key s.send_key ≡ true
  pub encrypted :
      c.encrypt s.send_key (derive_nonce s.send_iv counter) plaintext aad ≡ some ciphertext
  pub frame : f ≡ ChannelFrame.sealed (send_direction s.local_side) counter ciphertext
  pub moved : t ≡ record s { next_send_counter = checked_add counter 1 }

seal_under-parts :
    (c : Crypto) (s : SecureChannel) (plaintext : Octets) (counter : ℕ) (ciphertext : Octets)
    → seal_under c s plaintext counter ≡ ok ciphertext
    → (aad : Octets) × (sealed_aad c (send_direction s.local_side) counter s.transcript_hash
        ≡ ok aad)
      × (c.takes_key s.send_key ≡ true)
      × (c.encrypt s.send_key (derive_nonce s.send_iv counter) plaintext aad ≡ some ciphertext)
unfolding seal_under
seal_under-parts c s plaintext counter ciphertext h = ground arith

sent-IsFrameOf :
    (c : Crypto) (s : SecureChannel) (plaintext : Octets) (counter : ℕ) (f : ChannelFrame)
    (r : Outcome ChannelError Octets)
    → (is_empty plaintext || ltb max_sealed_plaintext (length plaintext)) ≡ false
    → s.next_send_counter ≡ some counter
    → seal_under c s plaintext counter ≡ r
    → (sent s counter r).1 ≡ ok f
    → IsFrameOf c s plaintext (sent s counter r).0 f
unfolding sent
sent-IsFrameOf c s plaintext counter f (ok ct) size next e h =
    let (aad, bound, keyed, encrypted) = seal_under-parts c s plaintext counter ct e in
    record {
      counter = counter;
      aad = aad;
      ciphertext = ct;
      sized = size;
      next = next;
      bound = bound;
      keyed = keyed;
      encrypted = encrypted;
      frame = ground arith;
      moved = refl;
    }
sent-IsFrameOf c s plaintext counter f (err x) size next e h = ground arith
sent-IsFrameOf c s plaintext counter f panic size next e h = ground arith

pub seal-IsFrameOf :
    (c : Crypto) (s : SecureChannel) (plaintext : Octets) (f : ChannelFrame)
    → (seal c s plaintext).1 ≡ ok f
    → IsFrameOf c s plaintext (seal c s plaintext).0 f
unfolding seal
seal-IsFrameOf c s plaintext f h = elim (Bool-cases s.is_terminal) [
  | inl over ↦ ground arith
  | inr live ↦
      elim (Bool-cases (is_empty plaintext || ltb max_sealed_plaintext (length plaintext))) [
        | inl size ↦ ground arith
        | inr size ↦ elim (Option-cases s.next_send_counter) [
          | inl used ↦ ground arith
          | inr (counter, next) ↦
              let whole : seal c s plaintext ≡ sent s counter (seal_under c s plaintext counter) =
                ground arith in
              subst (λ r. r.1 ≡ ok f → IsFrameOf c s plaintext r.0 f) (sym whole)
                (sent-IsFrameOf c s plaintext counter f (seal_under c s plaintext counter) size next
                  refl)
                h
        ]
      ]
]

-- The receiver's side of it.
open-IsFrameOf :
    (c : Crypto) (s r t : SecureChannel) (plaintext : Octets) (f : ChannelFrame)
    → IsAead c
    → IsMirror s r
    → IsFrameOf c s plaintext t f
    → ((open_frame c r f).1 ≡ ok plaintext) × IsMirror t (open_frame c r f).0
unfolding open_frame open_sealed open_under decrypted fail
open-IsFrameOf c s r t plaintext f law m k =
    let bound : sealed_aad c (send_direction s.local_side) k.counter r.transcript_hash ≡ ok k.aad =
      subst (λ h. sealed_aad c (send_direction s.local_side) k.counter h ≡ ok k.aad)
        (sym m.transcript) k.bound in
    let size =
      law.tag s.send_key (derive_nonce s.send_iv k.counter) plaintext k.aad k.ciphertext
        k.encrypted in
    let opened =
      law.undoes s.send_key (derive_nonce s.send_iv k.counter) plaintext k.aad k.ciphertext
        k.encrypted in
    ground arith

-- If the receiver is ready for the sender, the cipher is as documented, and `seal` returns a
-- frame, then `open` returns the plaintext, and the receiver is ready for the next frame.
pub open-seal :
    (c : Crypto) (s r : SecureChannel) (plaintext : Octets) (f : ChannelFrame)
    → IsAead c
    → IsMirror s r
    → (seal c s plaintext).1 ≡ ok f
    → ((open_frame c r f).1 ≡ ok plaintext) × IsMirror (seal c s plaintext).0 (open_frame c r f).0
open-seal c s r plaintext f law m h =
    open-IsFrameOf c s r (seal c s plaintext).0 plaintext f law m (seal-IsFrameOf c s plaintext f h)

-- A conversation in one direction: the messages that are sealed, in order, and the frames.
pub data Sends (c : Crypto)
    : SecureChannel → List Octets → List ChannelFrame → SecureChannel → Type 0 where
  silent : {s : SecureChannel} → Sends c s [] [] s
  sends :
      {s u : SecureChannel} {ps : List Octets} {fs : List ChannelFrame} (p : Octets)
      (f : ChannelFrame)
      → (seal c s p).1 ≡ ok f
      → Sends c (seal c s p).0 ps fs u
      → Sends c s (p ∷ ps) (f ∷ fs) u

-- Opening the frames in turn, up to the first that is refused.
pub receive_all :
    Crypto → SecureChannel → List ChannelFrame → SecureChannel × Outcome ChannelError (List Octets)
receive_all c r [] = (r, ok [])
receive_all c r (f ∷ fs) =
    let (next, answer) = open_frame c r f in
    let (last, rest) = receive_all c next fs in
    elim answer [
      | ok p ↦ (last, do ps ← rest; ok (p ∷ ps))
      | err e ↦ (next, err e)
      | panic ↦ (next, panic)
    ]

-- If the receiver is ready for the sender and the cipher is as documented, the frames of any
-- conversation open to exactly its messages, in order, and the two stay in step.
pub receive_all-Sends :
    {c : Crypto} {s u : SecureChannel} {ps : List Octets} {fs : List ChannelFrame}
    (r : SecureChannel)
    → IsAead c
    → IsMirror s r
    → Sends c s ps fs u
    → ((receive_all c r fs).1 ≡ ok ps) × IsMirror u (receive_all c r fs).0
unfolding receive_all
receive_all-Sends r law m silent = (refl, m)
receive_all-Sends {c} r law m (sends {s} {u} {ps} {fs} p f h rest) =
    let (opened, ready) = open-seal c s r p f law m h in
    let (later, last) = receive_all-Sends (open_frame c r f).0 law ready rest in
    let follows : (receive_all c r (f ∷ fs)).0 ≡ (receive_all c (open_frame c r f).0 fs).0 =
      ground arith in
    (ground arith, subst (IsMirror u) (sym follows) last)
