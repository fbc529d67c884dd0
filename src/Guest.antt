-- ===== src/Guest.antt =====
-- crates/methods/guest/src/main.rs: the program that runs inside the zkVM. `sha256` is the crate
-- sha2; the input is what `env::read` gives, and the journal what the `commit_slice` calls wrote.
pub mod Fibonacci
pub mod Journal
use proof_job_zk.Base.{
  ℕ, zero, suc, ◌+◌, ◌-◌, ◌%◌, ◌^◌, List, ◌++◌, leb, ◌==◌, if◌then◌else◌, length, take, replicate,
  from_le_bytes, to_le_bytes,
}

-- The guest's own `JobInput`, with a bare array for the identifier.
pub record JobInput : Type 0 where
  pub job_id : List ℕ
  pub bytes : List ℕ  -- the field `data`

unfoldable pub wrapping_add : ℕ → ℕ → ℕ
wrapping_add a b = (a + b) % 2 ^ 64

-- The `for` loop, with the rounds that are left.
unfoldable pub fibonacci_loop : ℕ → ℕ → ℕ → ℕ
fibonacci_loop zero a b = b
fibonacci_loop (suc rounds) a b = fibonacci_loop rounds b (wrapping_add a b)

-- `2..=n` has `n - 1` values.
unfoldable pub fibonacci : ℕ → ℕ
unfolding fibonacci_loop
fibonacci n = if n == 0 then 0 else if n == 1 then 1 else fibonacci_loop (n - 1) 0 1

-- The first eight bytes, or all of them padded by zeros.
unfoldable pub read_number : List ℕ → ℕ
read_number bytes =
    if leb 8 (length bytes)
    then from_le_bytes (take 8 bytes)
    else from_le_bytes (bytes ++ replicate (8 - length bytes) 0)

unfoldable pub guest_result : List ℕ → List ℕ
unfolding read_number fibonacci
guest_result bytes = to_le_bytes 8 (fibonacci (read_number bytes))

-- `main`: the journal.
unfoldable pub guest_main : (List ℕ → List ℕ) → JobInput → List ℕ
guest_main sha256 input = input.job_id ++ (sha256 input.bytes ++ guest_result input.bytes)
