-- ===== src/Ipc/Envelope/RoundTrip.antt =====
-- src/ipc/wire/envelope.cpp: encoding and decoding are inverse to each other.
use glasswyrm.Prelude.{
  ◌≢◌, ℕ, ◌+◌, ◌-◌, ◌≤◌, List, [], ◌∷◌, ◌++◌, some, true, false, not, ◌&&◌, ◌!=◌, ◌==◌, ◌≡◌, refl,
  sym, subst, ◌∙◌, ap, arith, length, length-append, append-nil, Option-cases, inl, inr,
}
use glasswyrm.Ipc.Bytes.{Reader, take, drop}
use glasswyrm.Ipc.Bytes.Laws.{
  AreBytes, take-append_length, take-append-drop, take-AreBytes, length-take, le_16, le_32, le_64,
}
use glasswyrm.Ipc.Envelope.{
  ok, Envelope, Header, envelope_size, magic, has_flag, reply_bit, error_bit, has_unknown_flags,
  encode_envelope, read_header, equal_bytes, check_header, decode_envelope,
}
use glasswyrm.Ipc.Envelope.Format.{
  InRange, header_of, header_bytes, layout, encode_envelope-layout, length-encode_envelope,
  read_header-layout, read_header_inv,
}

-- What the protocol asks of the fields together: a sequence number, only known flags, a request
-- number exactly on replies, and errors only as replies.
pub record IsCoherent (e : Envelope) : Type 0 where
  pub numbered : (e.sequence == 0) ≡ false
  pub known : has_unknown_flags e.flags ≡ false
  pub linked : has_flag e.flags reply_bit ≡ (e.reply_to != 0)
  pub error_replies : (has_flag e.flags error_bit && not (has_flag e.flags reply_bit)) ≡ false

check-header_of :
    (e : Envelope) (size maximum : ℕ)
    → InRange e
    → IsCoherent e
    → size ≡ envelope_size + e.payload_size
    → e.payload_size ≤ maximum
    → check_header (header_of e) size e.fd_count maximum ≡ ok
unfolding check_header
check-header_of e size maximum r c s m = ground arith

read-encode_envelope :
    (e : Envelope) (payload : List ℕ)
    → InRange e
    → read_header (take envelope_size (encode_envelope e ++ payload)) ≡ some (header_of e, [])
read-encode_envelope e payload r = rw (first) (rw (read_header-layout e [] r) refl)
  where
    first : take envelope_size (encode_envelope e ++ payload) ≡ layout e []
    first =
        subst (λ n. take n (encode_envelope e ++ payload) ≡ layout e []) (length-encode_envelope e)
          (take-append_length (encode_envelope e) payload
            ∙ sym (append-nil (encode_envelope e))
            ∙ encode_envelope-layout e [])

-- A coherent envelope with fields within their widths, encoded and followed by a payload of the
-- size that it names, decodes to itself, if the size is within the receiver's limit and as many
-- descriptors came as it names.
pub decode-encode_envelope :
    (e : Envelope) (payload : List ℕ) (maximum : ℕ) (out : Envelope)
    → InRange e
    → IsCoherent e
    → length payload ≡ e.payload_size
    → e.payload_size ≤ maximum
    → decode_envelope (encode_envelope e ++ payload) e.fd_count maximum out ≡ (ok, e)
unfolding decode_envelope
decode-encode_envelope e payload maximum out r c s m =
    let size : length (encode_envelope e ++ payload) ≡ envelope_size + e.payload_size =
      omega (arith, length-append (encode_envelope e) payload, length-encode_envelope e) in
    rw (read-encode_envelope e payload r) (
      ground
        (arith, size, check-header_of e (length (encode_envelope e ++ payload)) maximum r c size m))

equal_bytes_sound : (xs ys : List ℕ) → equal_bytes xs ys ≡ true → xs ≡ ys
unfolding equal_bytes
equal_bytes_sound [] [] e = refl
equal_bytes_sound [] (y ∷ ys) e = cc
equal_bytes_sound (x ∷ xs) [] e = cc
equal_bytes_sound (x ∷ xs) (y ∷ ys) e = ground (arith, equal_bytes_sound xs ys)

check_header_sound :
    (h : Header) (size fds maximum : ℕ)
    → check_header h size fds maximum ≡ ok
    → (h.found_magic ≡ magic)
      × (h.header_size ≡ envelope_size)
      × (h.reserved ≡ 0)
      × IsCoherent h.decoded
      × (h.decoded.fd_count ≡ fds)
      × (h.decoded.payload_size ≤ maximum)
      × (size - envelope_size ≡ h.decoded.payload_size)
unfolding check_header
check_header_sound h size fds maximum e = ground (arith, equal_bytes_sound h.found_magic magic)

decode_steps :
    (bytes : List ℕ) (fds maximum : ℕ) (out e : Envelope)
    → decode_envelope bytes fds maximum out ≡ (ok, e)
    → (envelope_size ≤ length bytes)
      × ((h : Header) × (r : Reader) × (read_header (take envelope_size bytes) ≡ some (h, r))
          × (check_header h (length bytes) fds maximum ≡ ok)
          × (h.decoded ≡ e))
unfolding decode_envelope
decode_steps bytes fds maximum out e d =
    elim (Option-cases (read_header (take envelope_size bytes))) [
      | inl p ↦ absurd (ground (arith, p))
      | inr ((h, r), p) ↦ (ground (arith, p), (h, r, p, ground (arith, p), ground (arith, p)))
    ]

no_rest :
    (h : Header) (r : Reader)
    → length (header_bytes h r) ≡ envelope_size
    → length h.found_magic ≡ 4
    → r ≡ []
unfolding le_16 le_32 le_64
no_rest h [] s m = refl
no_rest h (x ∷ r) s m = absurd (omega (arith, length-append h.found_magic))

sound_from :
    (bytes : List ℕ) (fds maximum : ℕ) (e : Envelope) (h : Header) (r : Reader)
    → envelope_size ≤ length bytes
    → take envelope_size bytes ≡ header_bytes h r
    → length h.found_magic ≡ 4
    → InRange h.decoded
    → check_header h (length bytes) fds maximum ≡ ok
    → h.decoded ≡ e
    → (payload : List ℕ) × (bytes ≡ encode_envelope e ++ payload)
      × (length payload ≡ e.payload_size)
      × (e.payload_size ≤ maximum)
      × (e.fd_count ≡ fds)
      × InRange e
      × IsCoherent e
sound_from bytes fds maximum e h r long bytes_eq four fits checked same =
    let (magic_eq, size_eq, zero_eq, coherent, fds_eq, within, size) =
      check_header_sound h (length bytes) fds maximum checked in
    let empty : r ≡ [] =
      no_rest h r (ap length (sym bytes_eq) ∙ length-take envelope_size bytes long) four in
    let front : take envelope_size bytes ≡ encode_envelope e =
      bytes_eq
      ∙ rw (magic_eq, size_eq, zero_eq, empty, same) (sym (encode_envelope-layout e []))
      ∙ append-nil (encode_envelope e) in
    let whole : bytes ≡ encode_envelope e ++ drop envelope_size bytes =
      sym (take-append-drop envelope_size bytes)
      ∙ ap (λ (f : List ℕ). f ++ drop envelope_size bytes) front in
    (
      drop envelope_size bytes,
      whole,
      omega (
        arith,
        ap length whole,
        length-append (encode_envelope e) (drop envelope_size bytes),
        length-encode_envelope e,
        ap (λ (x : Envelope). x.payload_size) same,
      ),
      rw same at within,
      rw same at fds_eq,
      rw same at fits,
      rw same at coherent,
    )

-- Whatever bytes decode are an encoding: they are those of the envelope that is returned, which
-- is coherent and has fields within their widths, followed by a payload of the size that it
-- names, within the limit; and as many descriptors came as it names.
pub decode_envelope_sound :
    (bytes : List ℕ) (fds maximum : ℕ) (out e : Envelope)
    → AreBytes bytes
    → decode_envelope bytes fds maximum out ≡ (ok, e)
    → (payload : List ℕ) × (bytes ≡ encode_envelope e ++ payload)
      × (length payload ≡ e.payload_size)
      × (e.payload_size ≤ maximum)
      × (e.fd_count ≡ fds)
      × InRange e
      × IsCoherent e
decode_envelope_sound bytes fds maximum out e b d =
    let (long, (h, r, p, checked, same)) = decode_steps bytes fds maximum out e d in
    let (bytes_eq, four, fits) = read_header_inv _ h r (take-AreBytes envelope_size bytes b) p in
    sound_from bytes fds maximum e h r long bytes_eq four fits checked same

-- A record that is refused leaves the caller's envelope as it was, whatever the reason.
pub decode_envelope_refused :
    (bytes : List ℕ) (fds maximum : ℕ) (out : Envelope)
    → (decode_envelope bytes fds maximum out).0 ≢ ok
    → (decode_envelope bytes fds maximum out).1 ≡ out
unfolding decode_envelope
decode_envelope_refused bytes fds maximum out refused = ground arith
