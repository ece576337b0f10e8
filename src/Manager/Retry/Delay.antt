-- ===== src/Manager/Retry/Delay.antt =====
-- manager/worker_conn_handler.go, `retryDelay`: the delay before each attempt.
use native.Mathlib.Nat.{pow-suc, zero-mul}
use workforce.Prelude.{
  ℕ, zero, suc, ◌+◌, ◌-◌, ◌*◌, ◌/◌, ◌==◌, nat_eq, ◌%◌, ◌^◌, ◌≤◌, ◌<◌, ◌≡◌, refl, ap, ◌∙◌, arith,
  ◌&&◌, ltb, if◌then◌else◌,
}
use workforce.Prelude.Int.{
  ℤ, pos, negsuc, ◌+ℤ◌, wrap64, ltb_ℤ, eqb_ℤ, add_pos64, InRange64, wrap64-InRange64,
}
use workforce.Contract.Task.{RetryPolicy}
use workforce.Manager.Retry.{double, retry_delay}

pow_pos : (n : ℕ) → 1 ≤ 2 ^ n
pow_pos zero = omega arith
pow_pos (suc n) = omega (arith, pow_pos n, pow-suc 2 n)

pow_twice : (d n : ℕ) → (d + d) * 2 ^ n ≡ d * 2 ^ suc n
pow_twice d n = omega (arith, ap (λ (t : ℕ). d * t) (pow-suc 2 n))

le-mul-pow : (d n : ℕ) → d ≤ d * 2 ^ n
le-mul-pow d n = let p = pow_pos n in grind arith

-- Doubling while it fits.
double_fits : (n d : ℕ) → d * 2 ^ n < 2 ^ 63 → double n (pos d) ≡ pos (d * 2 ^ n)
unfolding double
double_fits zero d h = ap pos (omega arith)
double_fits (suc n) d h =
    let same = pow_twice d n in
    let twice : wrap64 (pos d +ℤ pos d) ≡ pos (d + d) =
      add_pos64 d (pos d) refl (omega (arith, same, le-mul-pow (d + d) n)) in
    ap (double n) twice ∙ double_fits n (d + d) (omega (arith, same)) ∙ ap pos same

-- The bit pattern of an `int64`.
bits : ℤ → ℕ
bits (pos n) = n % 2 ^ 64
bits (negsuc n) = 2 ^ 64 - 1 - n % 2 ^ 64

bits-twice : (a : ℤ) → bits (wrap64 (a +ℤ a)) ≡ 2 * bits a % 2 ^ 64
unfolding bits ◌+ℤ◌
bits-twice (pos n) = ground arith
bits-twice (negsuc n) = ground arith

mul-mod64 : (p x : ℕ) → p * (x % 2 ^ 64) % 2 ^ 64 ≡ p * x % 2 ^ 64
mul-mod64 p x =
    let split : x ≡ 2 ^ 64 * (x / 2 ^ 64) + x % 2 ^ 64 = omega arith in
    omega (arith, ap (λ (t : ℕ). p * t) split)

bits-lt : (a : ℤ) → bits a < 2 ^ 64
unfolding bits
bits-lt (pos n) = omega arith
bits-lt (negsuc n) = omega arith

bits-double : (n : ℕ) (a : ℤ) → bits (double n a) ≡ 2 ^ n * bits a % 2 ^ 64
unfolding double
bits-double zero a = omega (arith, bits-lt a)
bits-double (suc n) a =
    bits-double n (wrap64 (a +ℤ a))
    ∙ ap (λ k. 2 ^ n * k % 2 ^ 64) (bits-twice a)
    ∙ mul-mod64 (2 ^ n) (2 * bits a)
    ∙ ap (λ k. k % 2 ^ 64) {x = 2 ^ n * (2 * bits a)}
        (omega (arith, ap (λ (t : ℕ). t * bits a) (pow-suc 2 n)))

double-InRange64 : (n : ℕ) (a : ℤ) → InRange64 a → InRange64 (double n a)
unfolding double
double-InRange64 zero a h = h
double-InRange64 (suc n) a h = double-InRange64 n (wrap64 (a +ℤ a)) (wrap64-InRange64 (a +ℤ a))

zero_of_bits : (a : ℤ) → InRange64 a → bits a ≡ 0 → a ≡ pos 0
unfolding bits
zero_of_bits (pos n) h e = ground arith
zero_of_bits (negsuc n) h e = absurd (omega arith)

double_zero : (n : ℕ) → double n (pos 0) ≡ pos 0
unfolding double ◌+ℤ◌
double_zero zero = refl
double_zero (suc n) = double_zero n

double-add : (m n k : ℕ) (a : ℤ) → m + n ≡ k → double k a ≡ double n (double m a)
unfolding double
double-add zero n k a e = ap (λ j. double j a) {x = k} {y = n} (omega arith)
double-add (suc m) n zero a e = absurd (omega arith)
double-add (suc m) n (suc k) a e = double-add m n k (wrap64 (a +ℤ a)) (omega arith)

-- 64 doublings shift every bit out.
double_all : (n : ℕ) (a : ℤ) → InRange64 a → 64 ≤ n → double n a ≡ pos 0
double_all n a h le =
    let gone : double 64 a ≡ pos 0 =
      zero_of_bits (double 64 a) (double-InRange64 64 a h) (bits-double 64 a ∙ all_zero (bits a)) in
    double-add 64 (n - 64) n a (omega arith) ∙ ap (double (n - 64)) gone ∙ double_zero (n - 64)
  where
    all_zero : (b : ℕ) → 2 ^ 64 * b % 2 ^ 64 ≡ 0
    all_zero b = omega arith

abbrev pub min_ℕ : ℕ → ℕ → ℕ
min_ℕ a b = if ltb b a then b else a

capped :
    (d x cap : ℕ)
    → (d ≡ 0 → x ≡ 0)
    → (if eqb_ℤ (pos d) (pos 0)
        then pos 0
        else if ltb_ℤ (pos 0) (pos cap) && ltb_ℤ (pos cap) (pos x)
        then pos cap
        else pos x)
      ≡ pos (if cap == 0 then x else min_ℕ x cap)
capped d x cap h = ground arith

none_left :
    (delay cap : ℤ)
    → (if eqb_ℤ delay (pos 0)
        then pos 0
        else if ltb_ℤ (pos 0) cap && ltb_ℤ cap (pos 0)
        then cap
        else pos 0)
      ≡ pos 0
none_left delay cap = ground arith

-- Before attempt n + 1, while the doubled delay fits 63 bits: the base delay times 2^n, and at most
-- the cap where there is one.
pub retry_delay-geometric :
    (p : RetryPolicy) (d cap n : ℕ)
    → p.retry_delay ≡ pos d
    → p.max_retry_delay ≡ pos cap
    → d * 2 ^ n < 2 ^ 63
    → retry_delay p (pos (suc n)) ≡ pos (if cap == 0 then d * 2 ^ n else min_ℕ (d * 2 ^ n) cap)
unfolding retry_delay
retry_delay-geometric p d cap n e f h =
    let grown = double_fits n d h in
    let rounds : double (suc n - 1) (pos d) ≡ pos (d * 2 ^ n) =
      ap (λ k. double k (pos d)) {x = suc n - 1} {y = n} (omega arith) ∙ grown in
    rw (e, f, rounds) (capped d (d * 2 ^ n) cap λ z. rw z (zero-mul (2 ^ n)))

-- From the 65th attempt on every delay is 0, whatever the policy: 64 bits hold no doubled delay,
-- and the cap does not help.
pub retry_delay-vanishes :
    (p : RetryPolicy) (attempt : ℕ)
    → InRange64 p.retry_delay
    → 65 ≤ attempt
    → retry_delay p (pos attempt) ≡ pos 0
unfolding retry_delay
retry_delay-vanishes p attempt h le =
    rw (double_all (attempt - 1) p.retry_delay h (omega arith))
      (none_left p.retry_delay p.max_retry_delay)
