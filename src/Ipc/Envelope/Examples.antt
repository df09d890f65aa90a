-- ===== src/Ipc/Envelope/Examples.antt =====
-- src/ipc/wire/envelope.cpp on a reply with three bytes of payload.
use glasswyrm.Prelude.{ℕ, ◌≡◌, ◌≤◌, refl, List, [], ◌∷◌, ◌++◌, length, arith}
use glasswyrm.Ipc.Bytes.Laws.{AreBytes}
use glasswyrm.Ipc.Envelope.{
  CodecStatus, ok, limit_exceeded, Envelope, encode_envelope, decode_envelope,
}
use glasswyrm.Ipc.Envelope.Format.{InRange}
use glasswyrm.Ipc.Envelope.RoundTrip.{IsCoherent, decode-encode_envelope, decode_envelope_sound}

abbrev reply : Envelope
reply = record {
  major = 1;
  minor = 0;
  message_type = 5;
  flags = 1;
  payload_size = 3;
  fd_count = 2;
  sequence = 17;
  reply_to = 300;
}

abbrev blank : Envelope
blank = record {
  major = 1;
  minor = 0;
  message_type = 0;
  flags = 0;
  payload_size = 0;
  fd_count = 0;
  sequence = 0;
  reply_to = 0;
}

abbrev payload : List ℕ
payload = 1 ∷ 2 ∷ 3 ∷ []

reply-InRange : InRange reply
reply-InRange = ground arith

reply-IsCoherent : IsCoherent reply
reply-IsCoherent = record { numbered = refl; known = refl; linked = refl; error_replies = refl }

decode-encode_envelope_example :
    decode_envelope (encode_envelope reply ++ payload) 2 4096 blank ≡ (ok, reply)
decode-encode_envelope_example =
    decode-encode_envelope reply payload 4096 blank reply-InRange reply-IsCoherent refl
      (ground arith)

abbrev bytes : List ℕ
bytes =
    71 ∷ 87 ∷ 73 ∷ 80 ∷ 40 ∷ 0 ∷ 1 ∷ 0 ∷ 0 ∷ 0 ∷ 5 ∷ 0 ∷ 1 ∷ 0 ∷ 0 ∷ 0 ∷ 3 ∷ 0 ∷ 0 ∷ 0 ∷ 2 ∷ 0 ∷ 0
    ∷ 0 ∷ 17 ∷ 0 ∷ 0 ∷ 0 ∷ 0 ∷ 0 ∷ 0 ∷ 0 ∷ 44 ∷ 1 ∷ 0 ∷ 0 ∷ 0 ∷ 0 ∷ 0 ∷ 0 ∷ 1 ∷ 2 ∷ 3 ∷ []

bytes-AreBytes : AreBytes bytes
bytes-AreBytes = ground arith

decodes : decode_envelope bytes 2 4096 blank ≡ (ok, reply)
unfolding decode_envelope glasswyrm.Ipc.Envelope.read_header glasswyrm.Ipc.Bytes.read_bytes
    glasswyrm.Ipc.Bytes.read_u16 glasswyrm.Ipc.Bytes.read_u32 glasswyrm.Ipc.Bytes.read_u64
    glasswyrm.Ipc.Envelope.check_header
decodes = refl

decode_envelope_sound_example :
    (payload : List ℕ) × (bytes ≡ encode_envelope reply ++ payload)
    × (length payload ≡ reply.payload_size)
    × (reply.payload_size ≤ 4096)
    × (reply.fd_count ≡ 2)
    × InRange reply
    × IsCoherent reply
decode_envelope_sound_example =
    decode_envelope_sound bytes 2 4096 blank reply bytes-AreBytes decodes
