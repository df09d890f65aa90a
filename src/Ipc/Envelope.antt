-- ===== src/Ipc/Envelope.antt =====
-- src/ipc/wire/envelope.cpp: the 40-byte header of a record. A message type is its uint16_t code,
-- since the decoder casts whatever code it reads.
pub mod Format
pub mod RoundTrip
mod Examples
use glasswyrm.Prelude.{
  ℕ, ◌+◌, ◌-◌, ◌/◌, ◌%◌, ◌^◌, List, [], ◌∷◌, Option, none, some, Bool, true, false, not, ◌&&◌, ◌||◌,
  ltb, ◌==◌, ◌!=◌, length, if◌then◌else◌,
}
use glasswyrm.Ipc.Bytes.{
  Writer, Reader, write_bytes, write_u16, write_u32, write_u64, read_bytes, read_u16, read_u32,
  read_u64, take, ◌>>=◌,
}

pub data CodecStatus : Type 0 where
  ok truncated trailing_data invalid_value limit_exceeded size_mismatch : CodecStatus

pub record Envelope : Type 0 where
  pub major : ℕ
  pub minor : ℕ
  pub message_type : ℕ
  pub flags : ℕ
  pub payload_size : ℕ
  pub fd_count : ℕ
  pub sequence : ℕ
  pub reply_to : ℕ

abbrev pub envelope_size : ℕ
envelope_size = 40

abbrev pub magic : List ℕ
magic = b'G' ∷ b'W' ∷ b'I' ∷ b'P' ∷ []

-- `(flags & (1 << bit)) != 0`
abbrev pub has_flag : ℕ → ℕ → Bool
has_flag flags bit = flags / 2 ^ bit % 2 != 0

abbrev pub reply_bit : ℕ
reply_bit = 0

abbrev pub error_bit : ℕ
error_bit = 1

-- `(flags & ~kKnownMessageFlags) != 0` for the mask 0x1f.
abbrev pub has_unknown_flags : ℕ → Bool
has_unknown_flags flags = flags / 2 ^ 5 != 0

pub encode_envelope : Envelope → List ℕ
encode_envelope e =
    let w1 = write_u16 e.major (write_u16 envelope_size (write_bytes magic [])) in
    let w2 = write_u16 e.message_type (write_u16 e.minor w1) in
    let w3 = write_u16 e.fd_count (write_u32 e.payload_size (write_u32 e.flags w2)) in
    write_u64 e.reply_to (write_u64 e.sequence (write_u16 0 w3))

-- What the reads of `decode_envelope` produce, in their order.
pub record Header : Type 0 where
  pub found_magic : List ℕ
  pub header_size : ℕ
  pub reserved : ℕ
  pub decoded : Envelope

pub read_header : Reader → Option (Header × Reader)
read_header r = do
  (found_magic, r1) ← read_bytes 4 r
  (header_size, r2) ← read_u16 r1
  (major, r3) ← read_u16 r2
  (minor, r4) ← read_u16 r3
  (message_type, r5) ← read_u16 r4
  (flags, r6) ← read_u32 r5
  (payload_size, r7) ← read_u32 r6
  (fd_count, r8) ← read_u16 r7
  (reserved, r9) ← read_u16 r8
  (sequence, r10) ← read_u64 r9
  (reply_to, r11) ← read_u64 r10
  some (
    record {
      found_magic = found_magic;
      header_size = header_size;
      reserved = reserved;
      decoded = record {
        major = major;
        minor = minor;
        message_type = message_type;
        flags = flags;
        payload_size = payload_size;
        fd_count = fd_count;
        sequence = sequence;
        reply_to = reply_to;
      };
    },
    r11,
  )

-- std::equal over the four bytes of the magic.
equal_bytes : List ℕ → List ℕ → Bool
equal_bytes [] [] = true
equal_bytes [] (y ∷ ys) = false
equal_bytes (x ∷ xs) [] = false
equal_bytes (x ∷ xs) (y ∷ ys) = x == y && equal_bytes xs ys

-- The checks that follow the reads, in their order.
pub check_header : Header → ℕ → ℕ → ℕ → CodecStatus
unfolding equal_bytes
check_header h record_size actual_fd_count maximum_payload =
    let d = h.decoded in
    let reply = has_flag d.flags reply_bit in
    let error = has_flag d.flags error_bit in
    if not (equal_bytes h.found_magic magic)
      || h.header_size != envelope_size
      || h.reserved != 0
      || d.sequence == 0
      || has_unknown_flags d.flags
    then invalid_value
    else (if ltb maximum_payload d.payload_size || ltb (2 ^ 16 - 1) actual_fd_count
        then limit_exceeded
        else (if d.fd_count != actual_fd_count || record_size - envelope_size != d.payload_size
            then size_mismatch
            else (if (reply && d.reply_to == 0)
                  || (not reply && d.reply_to != 0)
                  || (error && not reply)
                then invalid_value
                else ok)))

-- The status and the caller's envelope afterwards, which only `ok` overwrites.
finish_decode : CodecStatus → Envelope → Envelope → CodecStatus × Envelope
finish_decode ok decoded envelope = (ok, decoded)
finish_decode truncated decoded envelope = (truncated, envelope)
finish_decode trailing_data decoded envelope = (trailing_data, envelope)
finish_decode invalid_value decoded envelope = (invalid_value, envelope)
finish_decode limit_exceeded decoded envelope = (limit_exceeded, envelope)
finish_decode size_mismatch decoded envelope = (size_mismatch, envelope)

decode_read : Option (Header × Reader) → ℕ → ℕ → ℕ → Envelope → CodecStatus × Envelope
unfolding finish_decode
decode_read none record_size actual_fd_count maximum_payload envelope = (truncated, envelope)
decode_read (some (h, r)) record_size actual_fd_count maximum_payload envelope =
    finish_decode (check_header h record_size actual_fd_count maximum_payload) h.decoded envelope

pub decode_envelope : List ℕ → ℕ → ℕ → Envelope → CodecStatus × Envelope
unfolding decode_read
decode_envelope bytes actual_fd_count maximum_payload envelope =
    if ltb (length bytes) envelope_size
    then (truncated, envelope)
    else decode_read (read_header (take envelope_size bytes)) (length bytes) actual_fd_count
        maximum_payload envelope
