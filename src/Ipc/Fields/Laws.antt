-- ===== src/Ipc/Fields/Laws.antt =====
-- Fields are read as they were written, and only what was written is read.
use glasswyrm.Prelude.{
  ℕ, List, [], ◌∷◌, ◌++◌, Option, some, false, ◌≡◌, ◌↔◌, ◌≤◌, length, refl, sym, ap, subst, ◌∙◌,
  arith, append-nil, ltb, Option-cases, inl, inr, Bool-cases,
}
use glasswyrm.Ipc.Bytes.{Reader, write_bytes, read_bytes}
use glasswyrm.Ipc.Bytes.Laws.{AreBytes, read_bytes_inv}
use glasswyrm.Ipc.Fields.{
  Field, Values, write_fields, read_fields, decoded, finish, decode_fixed, decode_text,
  decode_with_text,
}
use glasswyrm.Ipc.Fields.Layout.{
  AllFit, read_bytes-append, layout, write-layout, read-layout, read_fields_inv,
}

module _ {ℓ} {A : Type ℓ} (fs : List Field) (check : Values fs → Option A) where
  -- Fields within their widths that pass the check are decoded from what was written of them.
  pub decode_fixed-write :
      (vs : Values fs) (a : A)
      → AllFit fs vs
      → check vs ≡ some a
      → decode_fixed fs check (write_fields fs vs []) ≡ decoded a
  unfolding decode_fixed finish
  decode_fixed-write vs a h c =
      let read =
        subst (λ (bs : Reader). read_fields fs bs ≡ some (vs, [])) (append-nil (layout fs vs))
          (read-layout fs vs [] h) in
      rw (write-layout fs vs, read, decode_fixed) (rw c refl)

  -- What is decoded was written of fields that pass the check.
  pub decode_fixed_inv :
      (bs : Reader) (a : A)
      → AreBytes bs
      → decode_fixed fs check bs ≡ decoded a
      → (vs : Values fs) × (check vs ≡ some a) × AllFit fs vs × (bs ≡ write_fields fs vs [])
  unfolding decode_fixed finish
  decode_fixed_inv bs a b e = elim (Option-cases (read_fields fs bs)) [
    | inl k ↦ absurd (ground (arith, e, k))
    | inr ((vs, []), k) ↦
        let inv = read_fields_inv fs bs vs [] b k in
        elim (Option-cases (check vs)) [
          | inl c ↦ absurd (ground (arith, e, k, c))
          | inr (a', c) ↦ (
            vs,
            ground (arith, e, k, c),
            inv.1,
            inv.0 ∙ (append-nil (layout fs vs) ∙ sym (write-layout fs vs)),
          )
        ]
    | inr ((vs, x ∷ r), k) ↦ absurd (ground (arith, e, k))
  ]

module _ {ℓ} {A : Type ℓ} (fs : List Field) (size : Values fs → ℕ) (maximum : ℕ)
    (check : Values fs → List ℕ → Option A) where
  decode_with_text-write :
      (vs : Values fs) (text : List ℕ) (a : A)
      → AllFit fs vs
      → length text ≡ size vs
      → size vs ≤ maximum
      → check vs text ≡ some a
      → decode_with_text fs size maximum check (write_bytes text (write_fields fs vs []))
        ≡ decoded a
  unfolding decode_with_text decode_text finish write_bytes
  decode_with_text-write vs text a h n m c =
      let read = read-layout fs vs text h in
      let within : ltb maximum (size vs) ≡ false = ground arith in
      let whole =
        subst (λ (r : Reader). read_bytes (length text) r ≡ some (text, [])) (append-nil text)
          (read_bytes-append text []) in
      let tail = subst (λ (k : ℕ). read_bytes k text ≡ some (text, [])) n whole in
      rw (write-layout fs vs, read, decode_with_text) (rw (within, tail, decode_text) (rw c refl))

  decode_with_text_inv :
      (bs : Reader) (a : A)
      → AreBytes bs
      → decode_with_text fs size maximum check bs ≡ decoded a
      → (vs : Values fs) × (text : List ℕ) × (check vs text ≡ some a)
        × AllFit fs vs
        × (length text ≡ size vs)
        × AreBytes text
        × (size vs ≤ maximum)
        × (bs ≡ write_bytes text (write_fields fs vs []))
  unfolding decode_with_text decode_text finish write_bytes
  decode_with_text_inv bs a b e = elim (Option-cases (read_fields fs bs)) [
    | inl k ↦ absurd (ground (arith, e, k))
    | inr ((vs, r), k) ↦
        let inv = read_fields_inv fs bs vs r b k in
        elim (Bool-cases (ltb maximum (size vs))) [
          | inl l ↦ absurd (ground (arith, e, k, l))
          | inr l ↦ elim (Option-cases (read_bytes (size vs) r)) [
            | inl q ↦ absurd (ground (arith, e, k, l, q))
            | inr ((text, x ∷ r1), q) ↦ absurd (ground (arith, e, k, l, q))
            | inr ((text, []), q) ↦
                let tail = read_bytes_inv (size vs) r text [] inv.2 q in
                let is_text : r ≡ text = tail.0 ∙ append-nil text in
                elim (Option-cases (check vs text)) [
                  | inl c ↦ absurd (ground (arith, e, k, l, q, c))
                  | inr (a', c) ↦ (
                    vs,
                    text,
                    ground (arith, e, k, l, q, c),
                    inv.1,
                    tail.1,
                    subst AreBytes is_text inv.2,
                    ground (arith, l),
                    inv.0
                        ∙ (ap (λ (t : List ℕ). layout fs vs ++ t) is_text
                            ∙ sym (ap (λ (t : List ℕ). t ++ text) (write-layout fs vs))),
                  )
                ]
          ]
        ]
  ]

-- A payload of fields alone is decoded exactly from its encoding, where the check takes over what the
-- encoder would write.
module _ {ℓ} {A : Type ℓ} (fs : List Field) (write : A → Values fs) (check : Values fs → Option A)
    (taken : (vs : Values fs) (a : A) → check vs ≡ some a → write a ≡ vs) where
  abbrev pub Encodes : A → Reader → Type ℓ
  Encodes a bs =
      (bs ≡ write_fields fs (write a) []) × AllFit fs (write a) × (check (write a) ≡ some a)

  pub decode_fixed_iff :
      (bs : Reader) (a : A) → AreBytes bs → (decode_fixed fs check bs ≡ decoded a) ↔ Encodes a bs
  decode_fixed_iff bs a b = (
    (λ e.
        let (vs, c, fit, w) = decode_fixed_inv fs check bs a b e in
        subst
          (λ (xs : Values fs). (bs ≡ write_fields fs xs []) × AllFit fs xs × (check xs ≡ some a))
          (sym (taken vs a c)) (w, fit, c)),
    λ h. rw h.0 (decode_fixed-write fs check (write a) a h.1 h.2),
  )
