-- ===== src/Ipc/Envelope/Format.antt =====
-- src/ipc/wire/envelope.cpp: the layout of the header.
use glasswyrm.Prelude.{
  ℕ, ◌^◌, ◌<◌, List, ◌++◌, Option, none, some, subst, ◌≡◌, refl, arith, append_assoc, length,
}
use glasswyrm.Ipc.Bytes.{Reader, write_bytes, read_bytes}
use glasswyrm.Ipc.Bytes.Laws.{
  AreBytes, le_16, le_32, le_64, write_u16_lem, write_u32_lem, write_u64_lem, read-le_16,
  read-le_32, read-le_64, after_bytes, after_u16, after_u32, after_u64,
}
use glasswyrm.Ipc.Envelope.{Envelope, Header, envelope_size, magic, encode_envelope, read_header}

-- The fields of the header in the order of the wire.
abbrev pub layout : Envelope → List ℕ → List ℕ
layout e rest =
    magic
    ++ (le_16 envelope_size
        ++ (le_16 e.major
            ++ (le_16 e.minor
                ++ (le_16 e.message_type
                    ++ (le_32 e.flags
                        ++ (le_32 e.payload_size
                            ++ (le_16 e.fd_count
                                ++ (le_16 0
                                    ++ (le_64 e.sequence ++ (le_64 e.reply_to ++ rest))))))))))

pub encode_envelope-layout :
    (e : Envelope) (rest : List ℕ) → encode_envelope e ++ rest ≡ layout e rest
unfolding encode_envelope write_bytes
encode_envelope-layout e rest = simp (write_u16_lem, write_u32_lem, write_u64_lem, append_assoc)

pub length-encode_envelope : (e : Envelope) → length (encode_envelope e) ≡ envelope_size
unfolding encode_envelope write_bytes le_16 le_32 le_64
length-encode_envelope e = simp (write_u16_lem, write_u32_lem, write_u64_lem)

-- Each field fits the type that it has in the struct.
pub record InRange (e : Envelope) : Type 0 where
  pub major_fits : e.major < 2 ^ 16
  pub minor_fits : e.minor < 2 ^ 16
  pub type_fits : e.message_type < 2 ^ 16
  pub flags_fit : e.flags < 2 ^ 32
  pub payload_size_fits : e.payload_size < 2 ^ 32
  pub fd_count_fits : e.fd_count < 2 ^ 16
  pub sequence_fits : e.sequence < 2 ^ 64
  pub reply_to_fits : e.reply_to < 2 ^ 64

abbrev pub header_of : Envelope → Header
header_of e = record { found_magic = magic; header_size = envelope_size; reserved = 0; decoded = e }

read_magic : (r : Reader) → read_bytes 4 (magic ++ r) ≡ some (magic, r)
unfolding read_bytes
read_magic r = ground arith

pub read_header-layout :
    (e : Envelope) (rest : List ℕ)
    → InRange e
    → read_header (layout e rest) ≡ some (header_of e, rest)
unfolding read_header
read_header-layout e rest h =
    rw
      (
        read_magic,
        read-le_16 envelope_size _ (omega arith),
        read-le_16 e.major _ h.major_fits,
        read-le_16 e.minor _ h.minor_fits,
        read-le_16 e.message_type _ h.type_fits,
        read-le_32 e.flags _ h.flags_fit,
        read-le_32 e.payload_size _ h.payload_size_fits,
        read-le_16 e.fd_count _ h.fd_count_fits,
        read-le_16 0 _ (omega arith),
        read-le_64 e.sequence _ h.sequence_fits,
        read-le_64 e.reply_to _ h.reply_to_fits,
      )
      refl

-- The bytes that `read_header` took, for any header that it returns.
abbrev pub header_bytes : Header → List ℕ → List ℕ
header_bytes h rest =
    let e = h.decoded in
    h.found_magic
    ++ (le_16 h.header_size
        ++ (le_16 e.major
            ++ (le_16 e.minor
                ++ (le_16 e.message_type
                    ++ (le_32 e.flags
                        ++ (le_32 e.payload_size
                            ++ (le_16 e.fd_count
                                ++ (le_16 h.reserved
                                    ++ (le_64 e.sequence ++ (le_64 e.reply_to ++ rest))))))))))

abbrev Holds : List ℕ → Option (Header × Reader) → Type 0
Holds bs none = Unit {0}
Holds bs (some (h, r)) = (bs ≡ header_bytes h r) × (length h.found_magic ≡ 4) × InRange h.decoded

-- The parts of a header, put together.
assemble :
    {bs : Reader} (e : Envelope) (m : List ℕ) (size reserved : ℕ)
    (r1 r2 r3 r4 r5 r6 r7 r8 r9 r10 r : Reader) {h : Header} {r' : Reader}
    → bs ≡ m ++ r1
    → r1 ≡ le_16 size ++ r2
    → r2 ≡ le_16 e.major ++ r3
    → r3 ≡ le_16 e.minor ++ r4
    → r4 ≡ le_16 e.message_type ++ r5
    → r5 ≡ le_32 e.flags ++ r6
    → r6 ≡ le_32 e.payload_size ++ r7
    → r7 ≡ le_16 e.fd_count ++ r8
    → r8 ≡ le_16 reserved ++ r9
    → r9 ≡ le_64 e.sequence ++ r10
    → r10 ≡ le_64 e.reply_to ++ r
    → length m ≡ 4
    → InRange e
    → ◌≡◌ {A = Option (Header × Reader)}
        (some (record { found_magic = m; header_size = size; reserved = reserved; decoded = e }, r))
        (some (h, r'))
    → (bs ≡ header_bytes h r') × (length h.found_magic ≡ 4) × InRange h.decoded
assemble {bs} e m size reserved r1 r2 r3 r4 r5 r6 r7 r8 r9 r10 r s1 s2 s3 s4 s5 s6 s7 s8 s9 s10 s11
      four fits found =
    subst (Holds bs) found (rw (s1, s2, s3, s4, s5, s6, s7, s8, s9, s10, s11) refl, four, fits)

pub read_header_inv :
    (bs : Reader) (h : Header) (r : Reader)
    → AreBytes bs
    → read_header bs ≡ some (h, r)
    → (bs ≡ header_bytes h r) × (length h.found_magic ≡ 4) × InRange h.decoded
unfolding read_header
read_header_inv bs h r b0 e0 = after_bytes _ 4 bs b0 e0 λ m r1 s1 n1 b1 e1.
    after_u16 _ r1 b1 e1 λ size r2 s2 n2 b2 e2. after_u16 _ r2 b2 e2 λ major r3 s3 n3 b3 e3.
      after_u16 _ r3 b3 e3 λ minor r4 s4 n4 b4 e4. after_u16 _ r4 b4 e4 λ code r5 s5 n5 b5 e5.
        after_u32 _ r5 b5 e5 λ flags r6 s6 n6 b6 e6. after_u32 _ r6 b6 e6 λ payload r7 s7 n7 b7 e7.
          after_u16 _ r7 b7 e7 λ fds r8 s8 n8 b8 e8. after_u16 _ r8 b8 e8 λ reserved r9 s9 n9 b9 e9.
            after_u64 _ r9 b9 e9 λ sequence r10 s10 n10 b10 e10.
              after_u64 _ r10 b10 e10 λ reply r11 s11 n11 b11 e11.
                assemble
                  (record {
                    major = major;
                    minor = minor;
                    message_type = code;
                    flags = flags;
                    payload_size = payload;
                    fd_count = fds;
                    sequence = sequence;
                    reply_to = reply;
                  })
                  m size reserved r1 r2 r3 r4 r5 r6 r7 r8 r9 r10 r11 s1 s2 s3 s4 s5 s6 s7 s8 s9 s10
                  s11 n1
                  (record {
                    major_fits = n3;
                    minor_fits = n4;
                    type_fits = n5;
                    flags_fit = n6;
                    payload_size_fits = n7;
                    fd_count_fits = n8;
                    sequence_fits = n10;
                    reply_to_fits = n11;
                  })
                  e11
