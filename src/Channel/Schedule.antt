-- ===== src/Channel/Schedule.antt =====
-- src/channel.rs: `PendingChannel`, from the intermediate session key to the confirmed channel. The
-- hashes, the cipher and the CBOR encoder are third-party code, the fields of `Crypto`. The public
-- context (src/context.rs) is an argument.
use cbcl_pairing.Common.{
  ℕ, [], ◌∷◌, ◌++◌, Octets, octets_ordered, ◌==◌, Bool, false, Option, some, not, ◌||◌,
  if◌then◌else◌, nat_beq, length, ascii, Outcome, ok, err, ◌>>=◌, ok_or,
}
use cbcl_pairing.Cbor.{Value, values, entry, end}
use cbcl_pairing.Wire.{Side, Direction}
use cbcl_pairing.Channel.{ChannelError, PendingChannel, SecureChannel}
use cbcl_pairing.Channel.Nonce.{direction_number}

-- `cbor2::to_canonical_vec`; `sha2::Sha512`; `Hkdf::<Sha512>::new` with an empty salt on the key, then
-- `expand` of the info to a length; `Hmac::<Sha512>` of a message under a key; whether
-- `Aes256Gcm::new_from_slice` takes the key; and `encrypt` and `decrypt` of a message with
-- additional data, under a key and a nonce.
pub record Crypto : Type 0 where
  pub to_canonical_vec : Value → Option Octets
  pub sha512 : Octets → Octets
  pub hkdf_expand : Octets → Octets → ℕ → Option Octets
  pub hmac_sha512 : Octets → Octets → Option Octets
  pub takes_key : Octets → Bool
  pub encrypt : Octets → Octets → Octets → Octets → Option Octets
  pub decrypt : Octets → Octets → Octets → Octets → Option Octets

unfoldable pub sealed_aad : Crypto → Direction → ℕ → Octets → Outcome ChannelError Octets
sealed_aad c direction counter transcript_hash =
    ok_or
      (c.to_canonical_vec (
        Value.mapping (
          entry (Value.text (ascii "v")) (Value.integer 1) (
            entry (Value.text (ascii "direction")) (Value.integer (direction_number direction)) (
              entry (Value.text (ascii "counter")) (Value.integer counter)
                (entry (Value.text (ascii "th")) (Value.bytes transcript_hash) end))))))
      ChannelError.encoding

unfoldable pub calculate_transcript_hash :
    Crypto → Octets → Octets → Octets → Outcome ChannelError Octets
calculate_transcript_hash c public_context allocator_cpace_frame claimant_cpace_frame = do
  transcript ←
      ok_or
        (c.to_canonical_vec (
          Value.array (
            values (
              Value.bytes public_context
              ∷ Value.bytes allocator_cpace_frame
              ∷ Value.bytes claimant_cpace_frame
              ∷ []))))
        ChannelError.encoding
  ok (c.sha512 transcript)

unfoldable pub expand : Crypto → Octets → Octets → Octets → ℕ → Outcome ChannelError Octets
expand c isk label transcript_hash size =
    ok_or (c.hkdf_expand isk (label ++ transcript_hash) size) ChannelError.key_schedule

unfoldable pub finished : Crypto → Octets → Octets → Octets → Outcome ChannelError Octets
finished c key label transcript_hash =
    ok_or (c.hmac_sha512 key (label ++ transcript_hash)) ChannelError.key_schedule

-- The Finished value of this side, and that of the other.
abbrev pub own_finished : Side → Octets → Octets → Octets
own_finished Side.allocator a b = a
own_finished Side.claimant a b = b

unfoldable pub new_channel :
    Crypto → Side → Octets → Octets → Octets → Octets → Outcome ChannelError PendingChannel
new_channel c local_side isk public_context allocator_cpace_frame claimant_cpace_frame = do
  th ← calculate_transcript_hash c public_context allocator_cpace_frame claimant_cpace_frame
  kc_allocator ← expand c isk (ascii "pairing-v1 kc A") th 32
  kc_claimant ← expand c isk (ascii "pairing-v1 kc B") th 32
  allocator_finished ← finished c kc_allocator (ascii "pairing-v1 finished A") th
  claimant_finished ← finished c kc_claimant (ascii "pairing-v1 finished B") th
  key_a_c ← expand c isk (ascii "pairing-v1 key A-B") th 32
  key_c_a ← expand c isk (ascii "pairing-v1 key B-A") th 32
  iv_a_c ← expand c isk (ascii "pairing-v1 iv A-B") th 12
  iv_c_a ← expand c isk (ascii "pairing-v1 iv B-A") th 12
  exporter ← expand c isk (ascii "pairing-v1 exporter") th 32
  ok (record {
    local_side = local_side;
    transcript_hash = th;
    local_finished = own_finished local_side allocator_finished claimant_finished;
    peer_finished = own_finished local_side claimant_finished allocator_finished;
    secrets = record {
      key_allocator_to_claimant = key_a_c;
      key_claimant_to_allocator = key_c_a;
      iv_allocator_to_claimant = iv_a_c;
      iv_claimant_to_allocator = iv_c_a;
      exporter = exporter;
    };
  })

-- The channel that `confirm` activates.
unfoldable pub activate : PendingChannel → Side → SecureChannel
activate p Side.allocator = record {
  local_side = Side.allocator;
  transcript_hash = p.transcript_hash;
  send_key = p.secrets.key_allocator_to_claimant;
  receive_key = p.secrets.key_claimant_to_allocator;
  send_iv = p.secrets.iv_allocator_to_claimant;
  receive_iv = p.secrets.iv_claimant_to_allocator;
  exporter = p.secrets.exporter;
  next_send_counter = some 0;
  next_receive_counter = some 0;
  is_terminal = false;
}
activate p Side.claimant = record {
  local_side = Side.claimant;
  transcript_hash = p.transcript_hash;
  send_key = p.secrets.key_claimant_to_allocator;
  receive_key = p.secrets.key_allocator_to_claimant;
  send_iv = p.secrets.iv_claimant_to_allocator;
  receive_iv = p.secrets.iv_allocator_to_claimant;
  exporter = p.secrets.exporter;
  next_send_counter = some 0;
  next_receive_counter = some 0;
  is_terminal = false;
}

unfoldable pub confirm : PendingChannel → Octets → Outcome ChannelError SecureChannel
confirm p peer_finished =
    if not (nat_beq (length peer_finished) 64) || not (p.peer_finished == peer_finished)
    then err ChannelError.finished_mismatch
    else ok (activate p p.local_side)
