-- ===== src/Encoding/Injective.antt =====
-- Distinct sequences of fields have distinct encodings.
use mathlib.Core.List.{append_assoc}
use auth_sdk_go.Base.{
  ℕ, zero, suc, ◌+◌, ◌-◌, ◌*◌, ◌/◌, ◌%◌, ◌≤◌, ◌<◌, ◌≡◌, refl, sym, ap, ◌∙◌, List, [], ◌∷◌, ◌++◌,
  arith, ltb, length, All, All-append, Bool-cases, inl, inr, ltb-false→le, ltb→lt,
}
use auth_sdk_go.Base.Text.{Bytes}
use auth_sdk_go.Encoding.{itoa_fuel, itoa, write_field, write_fields}

abbrev IsDigit : ℕ → Type 0
IsDigit c = (b'0' ≤ c) × (c ≤ b'9')

itoa_fuel-IsDigit : (f n : ℕ) → All IsDigit (itoa_fuel f n)
unfolding itoa_fuel
itoa_fuel-IsDigit zero n = tt
itoa_fuel-IsDigit (suc f) n = elim (Bool-cases (ltb n 10)) [
  | inl e ↦ rw e (let h = ltb→lt n 10 e in omega arith)
  | inr e ↦
      rw e
        (All-append IsDigit (itoa_fuel f (n / 10)) _ (itoa_fuel-IsDigit f (n / 10)) (omega arith))
]

-- The number that a text of digits stands for.
value : ℕ → Bytes → ℕ
value acc [] = acc
value acc (c ∷ s) = value (10 * acc + (c - b'0')) s

value-append :
    (acc : ℕ) (xs : Bytes) (c : ℕ) → value acc (xs ++ c ∷ []) ≡ 10 * value acc xs + (c - b'0')
unfolding value
value-append acc [] c = refl
value-append acc (x ∷ xs) c = value-append (10 * acc + (x - b'0')) xs c

value-itoa_fuel : (f n : ℕ) → n < f → value 0 (itoa_fuel f n) ≡ n
unfolding itoa_fuel value
value-itoa_fuel zero n h = absurd (omega arith)
value-itoa_fuel (suc f) n h = elim (Bool-cases (ltb n 10)) [
  | inl e ↦ rw e (omega arith)
  | inr e ↦ rw e (
      let k = ltb-false→le n 10 e in
      omega (
        arith,
        value-append 0 (itoa_fuel f (n / 10)) (b'0' + n % 10),
        value-itoa_fuel f (n / 10) (omega arith),
      ))
]

itoa-IsDigit : (n : ℕ) → All IsDigit (itoa n)
unfolding itoa
itoa-IsDigit n = itoa_fuel-IsDigit (suc n) n

value-itoa : (n : ℕ) → value 0 (itoa n) ≡ n
unfolding itoa
value-itoa n = value-itoa_fuel (suc n) n (omega arith)

pub itoa-injective : (m n : ℕ) → itoa m ≡ itoa n → m ≡ n
itoa-injective m n e = sym (value-itoa m) ∙ ap (value 0) e ∙ value-itoa n

abbrev pub head_or : ℕ → Bytes → ℕ
head_or d [] = d
head_or d (x ∷ xs) = x

abbrev pub tail_of : Bytes → Bytes
tail_of [] = []
tail_of (x ∷ xs) = xs

-- The first colon ends the digits.
split_digits :
    (xs ys s t : Bytes)
    → All IsDigit xs
    → All IsDigit ys
    → xs ++ b':' ∷ s ≡ ys ++ b':' ∷ t
    → (xs ≡ ys) × (s ≡ t)
split_digits [] [] s t h k e = (refl, ap tail_of e)
split_digits [] (y ∷ ys) s t h k e = absurd (omega (arith, ap (head_or 0) e))
split_digits (x ∷ xs) [] s t h k e = absurd (omega (arith, ap (head_or 0) e))
split_digits (x ∷ xs) (y ∷ ys) s t h k e =
    let (p, q) = split_digits xs ys s t h.1 k.1 (ap tail_of e) in (cc, q)

split_length : (xs ys s t : Bytes) → length xs ≡ length ys → xs ++ s ≡ ys ++ t → (xs ≡ ys) × (s ≡ t)
split_length [] [] s t n e = (refl, e)
split_length [] (y ∷ ys) s t n e = absurd (omega arith)
split_length (x ∷ xs) [] s t n e = absurd (omega arith)
split_length (x ∷ xs) (y ∷ ys) s t n e =
    let (p, q) = split_length xs ys s t (omega arith) (ap tail_of e) in (cc, q)

write_field-append : (s r : Bytes) → write_field s ++ r ≡ itoa (length s) ++ b':' ∷ (s ++ 0x1e ∷ r)
unfolding write_field
write_field-append s r = simp append_assoc

-- A field is read back from the front of any text, and what follows it too.
pub write_field-injective :
    (s t q r : Bytes) → write_field s ++ q ≡ write_field t ++ r → (s ≡ t) × (q ≡ r)
write_field-injective s t q r e =
    let e' = sym (write_field-append s q) ∙ e ∙ write_field-append t r in
    let (n, rest) =
      split_digits (itoa (length s)) (itoa (length t)) (s ++ 0x1e ∷ q) (t ++ 0x1e ∷ r)
        (itoa-IsDigit (length s)) (itoa-IsDigit (length t)) e' in
    let (same, tails) = split_length s t (0x1e ∷ q) (0x1e ∷ r) (itoa-injective _ _ n) rest in
    (same, ap tail_of tails)

-- So are as many fields as there are.
pub write_fields-injective :
    (ss ts : List Bytes) (q r : Bytes)
    → length ss ≡ length ts
    → write_fields ss ++ q ≡ write_fields ts ++ r
    → (ss ≡ ts) × (q ≡ r)
unfolding write_fields
write_fields-injective [] [] q r n e = (refl, e)
write_fields-injective [] (t ∷ ts) q r n e = absurd (omega arith)
write_fields-injective (s ∷ ss) [] q r n e = absurd (omega arith)
write_fields-injective (s ∷ ss) (t ∷ ts) q r n e =
    let e' =
      sym (append_assoc (write_field s) (write_fields ss) q)
      ∙ e
      ∙ append_assoc (write_field t) (write_fields ts) r in
    let (h, rest) = write_field-injective s t _ _ e' in
    let (hs, tails) = write_fields-injective ss ts q r (omega arith) rest in
    (ap (λ x. x ∷ ss) h ∙ ap (λ xs. t ∷ xs) hs, tails)
