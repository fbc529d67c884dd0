-- ===== src/Tests/Connection.antt =====
-- Both ends of a connection at concrete inputs.
use proof_job_zk.Base.{
  ℕ, ◌≤◌, ◌≡◌, refl, true, List, [], ◌∷◌, ◌++◌, Option, none, some, map, length, arith,
}
use proof_job_zk.Core.Envelope.{GossipEnvelope}
use proof_job_zk.Node.{Crates, write_frame, read_frame}
use proof_job_zk.Node.Connection.{
  Connection, open_connection, on_frame, on_outgoing, enqueue, take_outgoing, send_frame, framed,
  wrote, given, Run, here, next,
}
use proof_job_zk.Node.Connection.Delivery.{RoundTrips, delivers}
use proof_job_zk.Tests.Node.{crates, signed_claim}

abbrev decode_claim : List ℕ → Option GossipEnvelope
decode_claim [] = some signed_claim
decode_claim (b ∷ bytes) = none

abbrev coded : Crates
coded = record crates { decode_envelope = decode_claim }

abbrev sender : Connection
sender = record { id = 4; alive = true; queue = signed_claim ∷ []; written = [] ∷ []; passed = [] }

abbrev receiver : Connection
receiver = record {
  id = 9;
  alive = true;
  queue = [];
  written = [];
  passed = (signed_claim, 9) ∷ [];
}

abbrev one_frame : List (List ℕ)
one_frame = [] ∷ []

claim-RoundTrips : RoundTrips coded signed_claim
unfolding write_frame
claim-RoundTrips [] went = refl
claim-RoundTrips (b ∷ bytes) went = absurd (cc)

-- Two envelopes are given, and the first of them is sent before the second.
sends : Run coded (open_connection 4) (signed_claim ∷ signed_claim ∷ []) ([]) sender
unfolding open_connection on_outgoing enqueue take_outgoing send_frame write_frame
sends =
    next
      (next (next here (given signed_claim refl (omega arith) refl) refl refl)
        (wrote true refl refl) refl refl)
      (given signed_claim refl (omega arith) refl) refl refl

reads_one : Run coded (open_connection 9) [] one_frame receiver
unfolding open_connection on_frame read_frame
reads_one = next here (framed [] refl refl) refl refl

delivers_example :
    (es rest : List GossipEnvelope) × (signed_claim ∷ signed_claim ∷ [] ≡ es ++ rest)
    × (length es ≡ length one_frame)
    × (receiver.passed ≡ map (λ (e : GossipEnvelope). (e, 9)) es)
    × (length sender.queue ≤ 64)
delivers_example =
    delivers coded 4 9 [] (claim-RoundTrips, (claim-RoundTrips, tt)) sends reads_one refl
