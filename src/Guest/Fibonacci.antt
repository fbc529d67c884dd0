-- ===== src/Guest/Fibonacci.antt =====
-- What the guest computes (crates/methods/guest/src/main.rs).
use proof_job_zk.Base.{
  ℕ, zero, suc, ◌+◌, ◌-◌, ◌%◌, ◌^◌, ◌<◌, ◌≡◌, refl, ap, ◌∙◌, List, ◌++◌, arith, length, take-append,
  length-append, from_le_bytes, to_le_bytes, length-to_le_bytes, from_le_bytes-to_le_bytes,
  from_le_bytes-zeros,
}
use native.Mathlib.Nat.{add-zero, add-suc, suc-add}
use proof_job_zk.Guest.{wrapping_add, fibonacci_loop, fibonacci, read_number}

-- The Fibonacci numbers.
unfoldable pub fib : ℕ → ℕ
fib zero = 0
fib (suc zero) = 1
fib (suc (suc n)) = fib n + fib (suc n)

wrapping_add-fib :
    (m : ℕ) → wrapping_add (fib m % 2 ^ 64) (fib (suc m) % 2 ^ 64) ≡ fib (suc (suc m)) % 2 ^ 64
unfolding wrapping_add fib
wrapping_add-fib m = omega arith

fibonacci_loop-fib :
    (rounds m : ℕ)
    → fibonacci_loop rounds (fib m % 2 ^ 64) (fib (suc m) % 2 ^ 64) ≡ fib (suc m + rounds) % 2 ^ 64
unfolding fibonacci_loop
fibonacci_loop-fib zero m = rw add-zero
fibonacci_loop-fib (suc rounds) m =
    rw (wrapping_add-fib m, add-suc, ← suc-add) (fibonacci_loop-fib rounds (suc m))

one-add : (n : ℕ) → 1 + suc n ≡ suc (suc n)
one-add n = omega arith

fibonacci-loop : (n : ℕ) → fibonacci (suc (suc n)) ≡ fibonacci_loop (suc n) 0 1
unfolding fibonacci
fibonacci-loop n = ground arith

-- For every number the function computes the Fibonacci number, modulo 2^64.
pub fibonacci-fib : (n : ℕ) → fibonacci n ≡ fib n % 2 ^ 64
unfolding fibonacci fib
fibonacci-fib zero = refl
fibonacci-fib (suc zero) = refl
fibonacci-fib (suc (suc n)) =
    fibonacci-loop n ∙ fibonacci_loop-fib (suc n) 0 ∙ ap (λ (k : ℕ). fib k % 2 ^ 64) (one-add n)

-- A number below 2^64 in eight little-endian bytes is read back, whatever follows it.
pub read_number-to_le_bytes :
    (n : ℕ) (rest : List ℕ) → n < 2 ^ 64 → read_number (to_le_bytes 8 n ++ rest) ≡ n
unfolding read_number
read_number-to_le_bytes n rest h = ground (
  arith,
  length-append (to_le_bytes 8 n) rest,
  length-to_le_bytes 8 n,
  take-append 8 (to_le_bytes 8 n) rest (length-to_le_bytes 8 n),
  from_le_bytes-to_le_bytes 8 n h,
)

-- Shorter data is read as it is.
pub read_number_short :
    (bytes : List ℕ) → length bytes < 8 → read_number bytes ≡ from_le_bytes bytes
unfolding read_number
read_number_short bytes h = ground (arith, from_le_bytes-zeros bytes (8 - length bytes))
