-- ===== src/Guest/Journal.antt =====
-- The journal that the guest commits, cut as its readers cut it: 32 bytes of the job's identifier,
-- 32 of the hash of its data, and the result.
use mathlib.Core.List.{append_assoc}
use proof_job_zk.Base.{
  ℕ, ◌+◌, ◌≡◌, ◌∙◌, ap, sym, List, ◌++◌, arith, length, take, drop, length-append, take-append,
  drop-append, length-to_le_bytes,
}
use proof_job_zk.Guest.{JobInput, guest_main, guest_result}

length-guest_result : (bytes : List ℕ) → length (guest_result bytes) ≡ 8
unfolding guest_result
length-guest_result bytes = length-to_le_bytes 8 _

-- Three parts behind one another, the first two of 32 bytes.
pub journal-parts :
    (a b c : List ℕ)
    → length a ≡ 32
    → length b ≡ 32
    → (length (a ++ (b ++ c)) ≡ 64 + length c)
      × (take 32 (a ++ (b ++ c)) ≡ a)
      × (take 32 (drop 32 (a ++ (b ++ c))) ≡ b)
      × (drop 64 (a ++ (b ++ c)) ≡ c)
journal-parts a b c la lb = (
  omega (arith, length-append a (b ++ c), length-append b c),
  take-append 32 a (b ++ c) la,
  ap (take 32) (drop-append 32 a (b ++ c) la) ∙ take-append 32 b c lb,
  ap (drop 64) (sym (append_assoc a b c))
      ∙ drop-append 64 (a ++ b) c (omega (arith, length-append a b)),
)

-- Where the job's identifier and every hash have 32 bytes, the journal has 72, and cuts at 32 and
-- 64 into the identifier, the hash of the data, and the result.
pub guest_main-parts :
    (sha256 : List ℕ → List ℕ) (input : JobInput)
    → ((bytes : List ℕ) → length (sha256 bytes) ≡ 32)
    → length input.job_id ≡ 32
    → let journal = guest_main sha256 input in
      (length journal ≡ 72)
      × (take 32 journal ≡ input.job_id)
      × (take 32 (drop 32 journal) ≡ sha256 input.bytes)
      × (drop 64 journal ≡ guest_result input.bytes)
unfolding guest_main
guest_main-parts sha256 input length-sha256 size =
    let (l, a, b, c) =
      journal-parts input.job_id (sha256 input.bytes) (guest_result input.bytes) size
        (length-sha256 input.bytes) in
    (omega (arith, l, length-guest_result input.bytes), a, b, c)
