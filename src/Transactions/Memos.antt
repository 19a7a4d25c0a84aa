-- ===== src/Transactions/Memos.antt =====
-- Which memos the validator accepts.
use astroid_api.Common.{
  ℕ, ◌≤◌, ◌≡◌, refl, sym, ap, ◌∙◌, ◌↔◌, inl, inr, Bool, true, false, not, some, [], ◌∷◌, arith, leb,
  leb→le, le→leb, Bool-cases, length, All, false≢true,
}
use astroid_api.Common.Results.{ok}
use astroid_api.Transactions.Validator.{
  Invalid, Checked, Text, all_of, is_space, is_printable, byte_length, utf8_width, validate_memo,
  require,
}

abbrev pub IsPrintable : ℕ → Type 0
IsPrintable c = (0x20 ≤ c) × (c ≤ 0x7E)

-- At most 28 printable ASCII characters, not all of them spaces.
abbrev pub IsMemo : Text → Type 0
IsMemo text = (length text ≤ 28) × All IsPrintable text × ¬ All (λ c. c ≡ 0x20) text

width-one : (c : ℕ) → IsPrintable c → utf8_width c ≡ 1
width-one c (low, high) = ground arith

byte_length-printable : (text : Text) → All IsPrintable text → byte_length text ≡ length text
byte_length-printable [] h = refl
byte_length-printable (c ∷ cs) (h, hs) = omega (arith, width-one c h, byte_length-printable cs hs)

printables : (text : Text) → (all_of is_printable text ≡ true) ↔ All IsPrintable text
printables [] = (λ h. tt, λ h. refl)
printables (c ∷ cs) =
    let (into, back) = printables cs in
    (
      λ h. elim (Bool-cases (is_printable c)) [
        | inl e ↦ ((ground (arith, e), ground (arith, e)), into (sym (rw e refl) ∙ h))
        | inr e ↦ absurd (false≢true (sym (rw e refl) ∙ h))
      ],
      λ (h, hs). let e : is_printable c ≡ true = ground (arith, h.0, h.1) in rw e (back hs),
    )

-- The only white space among them is the space.
spaces :
    (text : Text) → All IsPrintable text → (all_of is_space text ≡ true) ↔ All (λ c. c ≡ 0x20) text
spaces [] hp = (λ h. tt, λ h. refl)
spaces (c ∷ cs) (p, ps) =
    let (into, back) = spaces cs ps in
    (
      λ h. elim (Bool-cases (is_space c)) [
        | inl e ↦ (ground (arith, e, p.0, p.1), into (sym (rw e refl) ∙ h))
        | inr e ↦ absurd (false≢true (sym (rw e refl) ∙ h))
      ],
      λ (h, hs). let e : is_space c ≡ true = rw h refl in rw e (back hs),
    )

require-ok :
    (b : Bool) (problem : Invalid) (next : Checked)
    → (require b problem next ≡ ok true) ↔ ((b ≡ true) × (next ≡ ok true))
require-ok true problem next = (λ h. (refl, h), λ h. h.1)
require-ok false problem next = (λ h. absurd (ground (arith, h)), λ h. absurd (false≢true h.0))

-- A memo that is not empty is accepted exactly when it has at most 28 characters, all of them printable
-- ASCII, and one of them is not a space.
pub validate_memo_iff :
    (c : ℕ) (cs : Text) → (validate_memo (some (c ∷ cs)) ≡ ok true) ↔ IsMemo (c ∷ cs)
unfolding validate_memo
validate_memo_iff c cs =
    let text : Text = c ∷ cs in
    (
      λ h.
          let (short, rest) = (require-ok (leb (byte_length text) 28) _ _).0 h in
          let (ink, last) = (require-ok (not (all_of is_space text)) _ _).0 rest in
          let ascii = (printables text).0 ((require-ok (all_of is_printable text) _ _).0 last).0 in
          let width = byte_length-printable text ascii in
          (
            omega (arith, width, leb→le (byte_length text) 28 short),
            ascii,
            λ blank. let e = (spaces text ascii).1 blank in false≢true (sym (ap not e) ∙ ink),
          ),
      λ (few, ascii, ink).
          let width = byte_length-printable text ascii in
          (require-ok (leb (byte_length text) 28) _ _).1 (
            le→leb (byte_length text) 28 (omega (arith, width, few)),
            (require-ok (not (all_of is_space text)) _ _).1 (
              elim (Bool-cases (all_of is_space text)) [
                | inl e ↦ absurd (ink ((spaces text ascii).0 e))
                | inr e ↦ ap not e
              ],
              (require-ok (all_of is_printable text) _ _).1 ((printables text).1 ascii, refl),
            ),
          ),
    )
