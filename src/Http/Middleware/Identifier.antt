-- ===== src/Http/Middleware/Identifier.antt =====
-- The identifier of a request.
use Prim.Native.Nat.{◌/◌, ◌%◌, ◌^◌, ◌*◌, ◌<◌}
use Prim.Native.Char.{Char, code, len_utf8, len_utf8_def}
use Prim.Native.String.{[] as nil, ◌∷◌ as ◌:-◌, len}
use Prim.Native.String.len as Len
use package.text.Mathlib.TextPositions.{len-append}
use test_api.Prelude.{
  ℕ, zero, suc, ◌+◌, ◌≤◌, ℤ, pos, negsuc, String, ◌≡◌, refl, ap, ◌∙◌, true, false, Bool-cases, inl,
  inr, ◌⊎◌, none, some, List, [], ◌∷◌, ◌++◌, length, take, ltb, length-take, arith, trim_space,
  format_int, format_digits, digit, digit-code, format_int-pos, format_int-negsuc, IsNumeral,
  format-IsNumeral, IsInt64, ◌==◌, string_eq,
}
use test_api.Http.Message.{Bytes, bytes, encode_code, HttpRequest, header_value}
use test_api.Http.Middleware.{Surroundings, hex, new_request_id, incoming_request_id}

length-append : {A : Type 0} (xs ys : List A) → length (xs ++ ys) ≡ length xs + length ys
length-append [] ys = omega arith
length-append (x ∷ xs) ys = omega (arith, length-append xs ys)

length-encode_code : (c : Char) → length (encode_code (code c)) ≡ len_utf8 c
length-encode_code c = ground (arith, len_utf8_def c)

length-bytes : (s : String) → length (bytes s) ≡ len s
unfolding bytes
length-bytes nil = refl
length-bytes (c :- s) =
    length-append (encode_code (code c)) (bytes s)
    ∙ omega (arith, length-encode_code c, length-bytes s, Len.cons c s)

length-hex : (b : Bytes) → length (hex b) ≡ 2 * length b
unfolding hex
length-hex [] = refl
length-hex (x ∷ b) = omega (arith, length-hex b)

len-digit : (d : ℕ) → d < 10 → len (digit d) ≡ 1
len-digit d h =
    let (c, same, place) = digit-code d h in
    ap len same ∙ Len.cons c nil ∙ ground (arith, len_utf8_def c, Len.nil)

len-format_digits : (fuel n k : ℕ) → n < 10 ^ suc k → len (format_digits fuel n) ≤ suc k
unfolding format_digits
len-format_digits zero n k h = omega arith
len-format_digits (suc fuel) n zero h =
    let low : ltb n 10 ≡ true = ground arith in rw low (omega (arith, len-digit n (ground arith)))
len-format_digits (suc fuel) n (suc k) h = elim (Bool-cases (ltb n 10)) [
  | inl low ↦ rw low (omega (arith, len-digit n (ground arith)))
  | inr high ↦ rw high (
      omega (
        arith,
        len-append (format_digits fuel (n / 10)) (digit (n % 10)),
        len-digit (n % 10) (omega arith),
        len-format_digits fuel (n / 10) k (omega arith),
      ))
]

len-format_int : (n : ℤ) → IsInt64 n → len (format_int n) ≤ 20
len-format_int (pos n) h =
    rw (format_int-pos n) (let k = len-format_digits (suc n) n 18 (omega arith) in omega (arith, k))
len-format_int (negsuc n) h = rw (format_int-negsuc n) (
    let k = len-format_digits (suc (suc n)) (suc n) 18 (omega arith) in
    omega (arith, k, len-append "-" (format_digits (suc (suc n)) (suc n))))

len-pos : (c : Char) (s : String) → 1 ≤ len (c :- s)
len-pos c s = ground (arith, Len.cons c s, len_utf8_def c)

not_empty-len : (s : String) → (s == "") ≡ false → 1 ≤ len s
not_empty-len nil h = cc
not_empty-len (c :- s) h = len-pos c s

numeral-len : (s : String) → IsNumeral s → 1 ≤ len s
numeral-len s h = rw (h.same) (len-pos h.first h.rest)

format_int-len_pos : (n : ℤ) → 1 ≤ len (format_int n)
format_int-len_pos (pos n) = rw (format_int-pos n) (numeral-len _ (format-IsNumeral n))
format_int-len_pos (negsuc n) =
    rw (format_int-negsuc n) (omega (arith, len-append "-" (format_digits (suc (suc n)) (suc n))))

take-pos : {A : Type 0} (n m : ℕ) (xs : List A) → n ≡ suc m → 1 ≤ length xs → 1 ≤ length (take n xs)
unfolding take
take-pos zero m xs e h = absurd (omega (arith, e))
take-pos (suc n) m [] e h = absurd (omega arith)
take-pos (suc n) m (x ∷ xs) e h = omega arith

-- Sixteen bytes from `rand.Read`, or its failure, and a time of 64 bits.
pub record IsSource (env : Surroundings) : Type 0 where
  pub random : (env.random ≡ none) ⊎ ((b : Bytes) × (env.random ≡ some b) × (length b ≡ 16))
  pub time : IsInt64 env.unix_nano

abbrev IsShort : Bytes → Type 0
IsShort b = (1 ≤ length b) × (length b ≤ 64)

new_request_id-IsShort : (env : Surroundings) → IsSource env → IsShort (new_request_id env)
unfolding new_request_id
new_request_id-IsShort env h = elim h.random [
  | inl failed ↦ rw failed (
    omega (arith, length-bytes (format_int env.unix_nano), format_int-len_pos env.unix_nano),
    omega (arith, length-bytes (format_int env.unix_nano), len-format_int env.unix_nano h.time),
  )
  | inr (b, given, sixteen) ↦
      rw given (omega (arith, length-hex b, sixteen), omega (arith, length-hex b, sixteen))
]

-- The identifier of a request has from 1 to 64 bytes, whether the client gives it or the server.
pub incoming_request_id-bounds :
    (r : HttpRequest) (env : Surroundings)
    → IsSource env
    → (1 ≤ length (incoming_request_id r env)) × (length (incoming_request_id r env) ≤ 64)
unfolding incoming_request_id
incoming_request_id-bounds r env h =
    let id = trim_space (header_value r "X-Request-Id") in
    elim (Bool-cases (id == "")) [
      | inl missing ↦ rw missing (new_request_id-IsShort env h)
      | inr given ↦ elim (Bool-cases (ltb 64 (len id))) [
        | inl long ↦
            let some_bytes : 1 ≤ length (bytes id) =
              omega (arith, length-bytes id, not_empty-len id given) in
            rw (given, long)
              (take-pos 64 63 (bytes id) (omega arith) some_bytes, length-take 64 (bytes id))
        | inr short ↦
            rw (given, short)
              (
                omega (arith, length-bytes id, not_empty-len id given),
                let k : len id ≤ 64 = ground arith in omega (arith, length-bytes id, k),
              )
      ]
    ]
