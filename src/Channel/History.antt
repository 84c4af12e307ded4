-- ===== src/Channel/History.antt =====
-- src/channel.rs: the frames that one confirmed channel seals over its life, oldest first, and the
-- nonces under which they are encrypted.
use cbcl_pairing.Common.{
  ℕ, suc, ◌+◌, ◌≤◌, ◌<◌, ◌≡◌, ◌≢◌, List, [], ◌∷◌, ◌++◌, Octets, Option, none, some, length,
  length-append, ltb, if◌then◌else◌, u64_mod, ok, err, subst, sym, ap, ◌∙◌, arith,
}
use cbcl_pairing.Wire.{Direction, ChannelFrame}
use cbcl_pairing.Channel.{ChannelError, SecureChannel}
use cbcl_pairing.Channel.Nonce.{derive_nonce, send_direction}
use cbcl_pairing.Channel.Schedule.{Crypto}
use cbcl_pairing.Channel.Seal.{seal, open_frame}
use cbcl_pairing.Channel.Sealing.{
  Encrypted, Sealed, seal-Sealed, seal-refused, open_frame-SameSender,
}
use cbcl_pairing.Channel.Distinct.{derive_nonce_apart}

-- The life of a channel, whatever the peer sends and whatever is to be sealed.
pub data Life (c : Crypto) (start : SecureChannel)
    : SecureChannel → List ChannelFrame → Type 0 where
  confirmed : Life c start start []
  seals :
      {s : SecureChannel} {fs : List ChannelFrame} (plaintext : Octets) (f : ChannelFrame)
      → Life c start s fs
      → (seal c s plaintext).1 ≡ ok f
      → Life c start (seal c s plaintext).0 (fs ++ (f ∷ []))
  refuses :
      {s : SecureChannel} {fs : List ChannelFrame} (plaintext : Octets) (e : ChannelError)
      → Life c start s fs
      → (seal c s plaintext).1 ≡ err e
      → Life c start (seal c s plaintext).0 fs
  opens :
      {s : SecureChannel} {fs : List ChannelFrame} (frame : ChannelFrame)
      → Life c start s fs
      → Life c start (open_frame c s frame).0 fs

-- The counters of sealed frames in that direction count up from `i`, and fit a `u64`.
abbrev pub Counts : Direction → ℕ → ChannelFrame → Type 0
Counts d i (ChannelFrame.sealed e n ct) = (e ≡ d) × (n ≡ i) × (n < u64_mod)
Counts d i _ = ⊥

abbrev pub Numbered : Direction → ℕ → List ChannelFrame → Type 0
Numbered d i [] = Unit
Numbered d i (f ∷ fs) = Counts d i f × Numbered d (suc i) fs

Numbered-snoc :
    (d : Direction) (i : ℕ) (fs : List ChannelFrame) (f : ChannelFrame)
    → Numbered d i fs
    → Counts d (i + length fs) f
    → Numbered d i (fs ++ (f ∷ []))
Numbered-snoc d i [] f h k = (subst (λ n. Counts d n f) (omega arith) k, tt)
Numbered-snoc d i (g ∷ fs) f (here, h) k =
    (here, Numbered-snoc d (suc i) fs f h (subst (λ n. Counts d n f) (omega arith) k))

-- What `seal` leaves behind: the next counter is the number of frames so far, if it fits.
abbrev pub next_of : ℕ → Option ℕ
next_of n = if ltb n u64_mod then some n else none

-- The frames of a list were encrypted under that key and these nonces, one after the other.
abbrev pub EncryptedWith : Crypto → Octets → List ChannelFrame → List Octets → Type 0
EncryptedWith c key [] [] = Unit
EncryptedWith c key (ChannelFrame.sealed d n ct ∷ fs) (nonce ∷ nonces) =
    Encrypted c key nonce ct × EncryptedWith c key fs nonces
EncryptedWith c key _ _ = ⊥

-- The nonces of the frames of a channel, by their counters.
abbrev pub nonces : Octets → List ChannelFrame → List Octets
nonces iv [] = []
nonces iv (ChannelFrame.sealed d n ct ∷ fs) = derive_nonce iv n ∷ nonces iv fs
nonces iv (ChannelFrame.cpace side a b ∷ fs) = nonces iv fs
nonces iv (ChannelFrame.finished side a b ∷ fs) = nonces iv fs

EncryptedWith-snoc :
    (c : Crypto) (key iv : Octets) (fs : List ChannelFrame) (d : Direction) (n : ℕ) (ct : Octets)
    → EncryptedWith c key fs (nonces iv fs)
    → Encrypted c key (derive_nonce iv n) ct
    → let gs = fs ++ (ChannelFrame.sealed d n ct ∷ []) in EncryptedWith c key gs (nonces iv gs)
EncryptedWith-snoc c key iv [] d n ct h k = (k, tt)
EncryptedWith-snoc c key iv (ChannelFrame.sealed e m x ∷ fs) d n ct (here, h) k =
    (here, EncryptedWith-snoc c key iv fs d n ct h k)
EncryptedWith-snoc c key iv (ChannelFrame.cpace side a b ∷ fs) d n ct h k = h
EncryptedWith-snoc c key iv (ChannelFrame.finished side a b ∷ fs) d n ct h k = h

pub record Keeps (c : Crypto) (start s : SecureChannel) (fs : List ChannelFrame) : Type 0 where
  pub side : s.local_side ≡ start.local_side
  pub key : s.send_key ≡ start.send_key
  pub iv : s.send_iv ≡ start.send_iv
  pub next : s.next_send_counter ≡ next_of (length fs)
  pub few : length fs ≤ u64_mod
  pub numbered : Numbered (send_direction start.local_side) 0 fs
  pub encrypted : EncryptedWith c start.send_key fs (nonces start.send_iv fs)

next_of-some : (n counter : ℕ) → next_of n ≡ some counter → (counter ≡ n) × (counter < u64_mod)
next_of-some n counter h = ground arith

Keeps-seal :
    (c : Crypto) (start s t : SecureChannel) (fs : List ChannelFrame) (f : ChannelFrame)
    → Keeps c start s fs
    → Sealed c s t f
    → Keeps c start t (fs ++ (f ∷ []))
Keeps-seal c start s t fs f k (counter, ct, n, is, left, under) =
    let (here, fits) = next_of-some (length fs) counter (sym k.next ∙ n) in
    let longer = length-append fs (f ∷ []) in
    record {
      side = ap (λ x. x.local_side) left ∙ k.side;
      key = ap (λ x. x.send_key) left ∙ k.key;
      iv = ap (λ x. x.send_iv) left ∙ k.iv;
      next =
          ap (λ x. x.next_send_counter) left
          ∙ ap next_of {x = counter + 1} {y = length (fs ++ (f ∷ []))} (omega arith);
      few = omega arith;
      numbered = Numbered-snoc (send_direction start.local_side) 0 fs f k.numbered (
          subst (Counts (send_direction start.local_side) (0 + length fs)) (sym is)
            (ap send_direction k.side, omega arith, fits));
      encrypted =
          subst
            (λ g.
              EncryptedWith c start.send_key (fs ++ (g ∷ []))
                (nonces start.send_iv (fs ++ (g ∷ []))))
            (sym is)
            (EncryptedWith-snoc c start.send_key start.send_iv fs (send_direction s.local_side)
              counter ct k.encrypted (rw (← k.key, ← k.iv) under));
    }

pub Life-Keeps :
    {c : Crypto} {start s : SecureChannel} {fs : List ChannelFrame}
    → start.next_send_counter ≡ some 0
    → Life c start s fs
    → Keeps c start s fs
Life-Keeps z confirmed = ground arith
Life-Keeps {c} {start} z (seals {s} {fs} p f l h) =
    Keeps-seal c start s (seal c s p).0 fs f (Life-Keeps z l) (seal-Sealed c s p f h)
Life-Keeps {c} {start} z (refuses {s} {fs} p e l h) =
    subst (λ t. Keeps c start t fs) (sym (seal-refused c s p e h)) (Life-Keeps z l)
Life-Keeps {c} {start} z (opens {s} {fs} frame l) =
    let k = Life-Keeps z l in
    let (side, key, iv, next) = open_frame-SameSender c s frame in
    record {
      side = side ∙ k.side;
      key = key ∙ k.key;
      iv = iv ∙ k.iv;
      next = next ∙ k.next;
      few = k.few;
      numbered = k.numbered;
      encrypted = k.encrypted;
    }

-- No octet string stands twice in the list.
abbrev pub Absent : Octets → List Octets → Type 0
Absent x [] = Unit
Absent x (y ∷ ys) = (x ≢ y) × Absent x ys

abbrev pub Unrepeated : List Octets → Type 0
Unrepeated [] = Unit
Unrepeated (x ∷ xs) = Absent x xs × Unrepeated xs

module _ (iv : Octets) (twelve : length iv ≡ 12) (d : Direction) where
  earlier-Absent :
      (n i : ℕ) (fs : List ChannelFrame)
      → n < u64_mod
      → n < i
      → Numbered d i fs
      → Absent (derive_nonce iv n) (nonces iv fs)
  earlier-Absent n i [] p q h = tt
  earlier-Absent n i (ChannelFrame.sealed e m ct ∷ fs) p q ((way, here, fits), h) = (
    λ same. omega (arith, derive_nonce_apart iv n m twelve p fits same),
    earlier-Absent n (suc i) fs p (omega arith) h,
  )
  earlier-Absent n i (ChannelFrame.cpace side a b ∷ fs) p q (h, k) = elim h [ ]
  earlier-Absent n i (ChannelFrame.finished side a b ∷ fs) p q (h, k) = elim h [ ]

  Numbered-Unrepeated :
      (i : ℕ) (fs : List ChannelFrame) → Numbered d i fs → Unrepeated (nonces iv fs)
  Numbered-Unrepeated i [] h = tt
  Numbered-Unrepeated i (ChannelFrame.sealed e m ct ∷ fs) ((way, here, fits), h) =
      (earlier-Absent m (suc i) fs fits (omega arith) h, Numbered-Unrepeated (suc i) fs h)
  Numbered-Unrepeated i (ChannelFrame.cpace side a b ∷ fs) (h, k) = elim h [ ]
  Numbered-Unrepeated i (ChannelFrame.finished side a b ∷ fs) (h, k) = elim h [ ]

-- Over the life of a channel whose send counter starts at 0, with an IV of twelve octets and
-- whatever is sealed and received in between: the frames it seals travel in its own direction and
-- are numbered 0, 1, 2 and so on, the key and the IV stay, the ciphertext of each frame is what
-- the cipher gave under that key and the nonce of the frame's number, and no two frames share a
-- nonce.
pub Life-Unrepeated :
    {c : Crypto} {start s : SecureChannel} {fs : List ChannelFrame}
    → start.next_send_counter ≡ some 0
    → length start.send_iv ≡ 12
    → Life c start s fs
    → Numbered (send_direction start.local_side) 0 fs
      × (s.send_key ≡ start.send_key)
      × (s.send_iv ≡ start.send_iv)
      × EncryptedWith c start.send_key fs (nonces start.send_iv fs)
      × Unrepeated (nonces start.send_iv fs)
Life-Unrepeated {c} {start} {s} {fs} zero_first twelve l =
    let k = Life-Keeps zero_first l in
    (
      k.numbered,
      k.key,
      k.iv,
      k.encrypted,
      Numbered-Unrepeated start.send_iv twelve (send_direction start.local_side) 0 fs k.numbered,
    )
