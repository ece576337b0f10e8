-- ===== src/Protocol/Numbers.antt =====
-- What contract/proto_message.go uses of strconv: `%d` and `Atoi`.
use Prim.Native.Char.{Char, code}
use Prim.Native.Nat.{gt}
use Prim.Native.String.{compare}
use Prim.Native.String.compare.{cons-nil}
use workforce.Prelude.{
  ℕ, zero, suc, ◌+◌, ◌-◌, ◌*◌, ◌/◌, ◌%◌, ◌^◌, ◌≤◌, ◌<◌, ◌≡◌, refl, ◌∙◌, String, Bool, true, false,
  ◌&&◌, Option, none, some, ltb, leb, if◌then◌else◌, ◌==◌, nat_eq, string_eq, arith, Bool-cases,
  inl, inr,
}
use workforce.Prelude.Int.{ℤ, pos, negsuc, InRange64, sub_ℕ}

abbrev digit : ℕ → Char
digit zero = "0"
digit (suc zero) = "1"
digit (suc (suc zero)) = "2"
digit (suc (suc (suc zero))) = "3"
digit (suc (suc (suc (suc zero)))) = "4"
digit (suc (suc (suc (suc (suc zero))))) = "5"
digit (suc (suc (suc (suc (suc (suc zero)))))) = "6"
digit (suc (suc (suc (suc (suc (suc (suc zero))))))) = "7"
digit (suc (suc (suc (suc (suc (suc (suc (suc zero)))))))) = "8"
digit (suc (suc (suc (suc (suc (suc (suc (suc (suc d))))))))) = "9"

abbrev is_digit : Char → Bool
is_digit c = leb 48 (code c) && leb (code c) 57

-- The digits of `n`, before a text; one digit for each unit of the fuel and one more.
digits : ℕ → ℕ → String → String
digits zero n s = String.◌∷◌ (digit (n % 10)) s
digits (suc fuel) n s =
    let rest = digits fuel (n / 10) (String.◌∷◌ (digit (n % 10)) s) in
    if ltb n 10 then String.◌∷◌ (digit n) s else rest

-- `%d`
pub itoa : ℤ → String
itoa (pos n) = digits n n String.[]
itoa (negsuc n) = String.◌∷◌ "-" (digits (suc n) (suc n) String.[])

-- The number that digits continue.
number : ℕ → String → Option ℕ
number acc String.[] = some acc
number acc (String.◌∷◌ c s) =
    let rest = number (acc * 10 + (code c - 48)) s in if is_digit c then rest else none

-- `Atoi`'s unsigned part: at least one digit.
unsigned : String → Option ℕ
unsigned String.[] = none
unsigned (String.◌∷◌ c s) = number 0 (String.◌∷◌ c s)

-- The numbers that an `int` holds, of a sign and an absolute value.
positive : Option ℕ → Option ℤ
positive none = none
positive (some n) = if ltb n (2 ^ 63) then some (pos n) else none

negative : Option ℕ → Option ℤ
negative none = none
negative (some n) = if leb n (2 ^ 63) then some (sub_ℕ 0 n) else none

-- `Atoi`
pub atoi : String → Option ℤ
atoi String.[] = none
atoi (String.◌∷◌ c s) =
    if code c == 45
    then negative (unsigned s)
    else if code c == 43
    then positive (unsigned s)
    else positive (unsigned (String.◌∷◌ c s))

code-digit : (d : ℕ) → d < 10 → code (digit d) ≡ 48 + d
code-digit zero h = refl
code-digit (suc zero) h = refl
code-digit (suc (suc zero)) h = refl
code-digit (suc (suc (suc zero))) h = refl
code-digit (suc (suc (suc (suc zero)))) h = refl
code-digit (suc (suc (suc (suc (suc zero))))) h = refl
code-digit (suc (suc (suc (suc (suc (suc zero)))))) h = refl
code-digit (suc (suc (suc (suc (suc (suc (suc zero))))))) h = refl
code-digit (suc (suc (suc (suc (suc (suc (suc (suc zero)))))))) h = refl
code-digit (suc (suc (suc (suc (suc (suc (suc (suc (suc d))))))))) h =
    let e : d ≡ 0 = omega arith in rw e refl

digit-IsDigit : (d : ℕ) → d < 10 → is_digit (digit d) ≡ true
digit-IsDigit d h = ground (arith, code-digit d h)

number-digit :
    (acc d : ℕ) (s : String)
    → d < 10
    → number acc (String.◌∷◌ (digit d) s) ≡ number (acc * 10 + d) s
unfolding number
number-digit acc d s h =
    let same : acc * 10 + (code (digit d) - 48) ≡ acc * 10 + d = ground (arith, code-digit d h) in
    rw (digit-IsDigit d h, same) refl

number-digits : (fuel n : ℕ) (s : String) → n ≤ fuel → number 0 (digits fuel n s) ≡ number n s
unfolding digits
number-digits zero n s h =
    let a : n % 10 < 10 = omega arith in
    let e : 0 * 10 + n % 10 ≡ n = omega arith in number-digit 0 (n % 10) s a ∙ rw e refl
number-digits (suc fuel) n s h = elim (Bool-cases (ltb n 10)) [
  | inl t ↦
      let a : n < 10 = ground arith in
      let e : 0 * 10 + n ≡ n = omega arith in rw t (number-digit 0 n s a ∙ rw e refl)
  | inr f ↦
      let a : n % 10 < 10 = omega arith in
      let e : n / 10 * 10 + n % 10 ≡ n = omega arith in
      let low : 10 ≤ n = ground arith in
      let small : n / 10 ≤ fuel = omega arith in
      rw f (
        number-digits fuel (n / 10) (String.◌∷◌ (digit (n % 10)) s) small
        ∙ number-digit (n / 10) (n % 10) s a
        ∙ rw e refl)
]

-- The digits start with one.
record Starts (s : String) : Type 0 where
  head : Char
  tail : String
  splits : s ≡ String.◌∷◌ head tail
  starts : is_digit head ≡ true

digits-Starts : (fuel n : ℕ) (s : String) → Starts (digits fuel n s)
unfolding digits
digits-Starts zero n s =
    let a : n % 10 < 10 = omega arith in
    record { head = digit (n % 10); tail = s; splits = refl; starts = digit-IsDigit (n % 10) a }
digits-Starts (suc fuel) n s = elim (Bool-cases (ltb n 10)) [
  | inl t ↦
      let a : n < 10 = ground arith in
      rw t (record { head = digit n; tail = s; splits = refl; starts = digit-IsDigit n a })
  | inr f ↦ rw f (digits-Starts fuel (n / 10) (String.◌∷◌ (digit (n % 10)) s))
]

unsigned-digits : (n : ℕ) → unsigned (digits n n String.[]) ≡ some n
unfolding unsigned number
unsigned-digits n =
    let st = digits-Starts n n String.[] in
    let same : unsigned (digits n n String.[]) ≡ number 0 (digits n n String.[]) =
      rw st.splits refl in
    same ∙ number-digits n n String.[] (omega arith)

atoi-unsigned : (s : String) → Starts s → atoi s ≡ positive (unsigned s)
unfolding atoi
atoi-unsigned s st =
    let a : (code st.head == 45) ≡ false = ground (arith, st.starts) in
    let b : (code st.head == 43) ≡ false = ground (arith, st.starts) in
    rw st.splits (rw (a, b) refl)

minus : (s : String) → atoi (String.◌∷◌ "-" s) ≡ negative (unsigned s)
unfolding atoi
minus s = refl

-- An `int` is read as it was written.
pub atoi-itoa : (x : ℤ) → InRange64 x → atoi (itoa x) ≡ some x
unfolding itoa positive negative
atoi-itoa (pos n) h =
    let b : ltb n (2 ^ 63) ≡ true = ground arith in
    let e : positive (some n) ≡ some (pos n) = rw b refl in
    atoi-unsigned (digits n n String.[]) (digits-Starts n n String.[]) ∙ rw (unsigned-digits n) e
atoi-itoa (negsuc n) h =
    let b : leb (suc n) (2 ^ 63) ≡ true = ground arith in
    let e : negative (some (suc n)) ≡ some (negsuc n) = rw b (ground arith) in
    let c : atoi (String.◌∷◌ "-" (digits (suc n) (suc n) String.[]))
        ≡ negative (unsigned (digits (suc n) (suc n) String.[])) =
      minus _ in
    c ∙ rw (unsigned-digits (suc n)) e

cons-ne-empty : (c : Char) (s : String) → (String.◌∷◌ c s == "") ≡ false
cons-ne-empty c s = let p : compare (String.◌∷◌ c s) "" ≡ gt = λ i. cons-nil c s i in rw p refl

-- A number is never written as the empty text.
pub itoa-ne-empty : (x : ℤ) → (itoa x == "") ≡ false
unfolding itoa
itoa-ne-empty (pos n) =
    let st = digits-Starts n n String.[] in rw st.splits (cons-ne-empty st.head st.tail)
itoa-ne-empty (negsuc n) = cons-ne-empty "-" (digits (suc n) (suc n) String.[])
