-- ===== src/Tests/Neighbour.antt =====
-- A broadcast to a neighbour at concrete inputs.
use mathlib.Core.List.{Memᴰ}
use proof_job_zk.Base.{
  ℕ, ◌≡◌, refl, true, List, [], ◌∷◌, ◌++◌, Option, none, some, ok, arith, to_le_bytes,
  if◌then◌else◌, ℕ_discrete,
}
use proof_job_zk.Core.Envelope.{GossipEnvelope, sign}
use proof_job_zk.Core.Message.{claim_job}
use proof_job_zk.Node.{
  Crates, GossipNode, write_frame, read_frame, receivers, broadcast, generate_message_id,
  process_incoming, dec_ne,
}
use proof_job_zk.Node.Connection.{
  Connection, open_connection, on_frame, on_outgoing, enqueue, take_outgoing, send_frame, framed,
  wrote, given, Run, here, next,
}
use proof_job_zk.Node.Connection.Delivery.{RoundTrips}
use proof_job_zk.Node.Neighbour.{sent_over, broadcast-reaches}
use proof_job_zk.Node.Receive.{is_new}
use proof_job_zk.Tests.Node.{crates, small, toy_signing_laws, entropy}
use proof_job_zk.Tests.Runtime.{job_one, worker_a, worker_b}

-- The envelope that worker_a's node makes of a claim.
abbrev made : GossipEnvelope
made = record {
  id = record { bytes = 10 ∷ (to_le_bytes 16 1 ++ (2 ∷ [])) };
  origin = worker_a;
  ttl = 3;
  payload = claim_job job_one worker_a;
  signature = 10 ∷ [];
}

abbrev decode_made : List ℕ → Option GossipEnvelope
decode_made [] = some made
decode_made (b ∷ bytes) = none

abbrev near : Crates
near = record crates { decode_envelope = decode_made }

-- Two nodes with one connection each.
abbrev first : GossipNode near
first = record {
  our_peer_id = worker_a;
  signing_key = 10;
  config = small;
  connections = 0 ∷ [];
  next_connection_id = 1;
  seen = record { cap = 5; keys = [] };
  delivered = [];
  outgoing = [];
}

abbrev second : GossipNode near
second = record first { our_peer_id = worker_b; signing_key = 11 }

abbrev first_after : GossipNode near
first_after = record first {
  seen = record { cap = 5; keys = made.id ∷ [] };
  outgoing = (0, made) ∷ [];
}

sends_claim : broadcast near (claim_job job_one worker_a) entropy first ≡ some (ok tt, first_after)
unfolding broadcast generate_message_id sign receivers dec_ne ℕ_discrete
sends_claim = refl

abbrev written_out : Connection
written_out = record { id = 0; alive = true; queue = []; written = [] ∷ []; passed = [] }

abbrev read_in : Connection
read_in = record { id = 0; alive = true; queue = []; written = []; passed = (made, 0) ∷ [] }

writes_out : Run near (open_connection 0) (sent_over 0 first_after.outgoing) [] written_out
unfolding open_connection on_outgoing enqueue take_outgoing send_frame write_frame sent_over
    ℕ_discrete
writes_out =
    next (next here (given made refl (omega arith) refl) refl refl) (wrote true refl refl) refl refl

reads_in : Run near (open_connection 0) [] written_out.written read_in
unfolding open_connection on_frame read_frame
reads_in = next here (framed [] refl refl) refl refl

made-RoundTrips : RoundTrips near made
unfolding write_frame
made-RoundTrips [] went = refl
made-RoundTrips (b ∷ bytes) went = absurd (cc)

broadcast-reaches_example :
    (e : GossipEnvelope) × (b' : GossipNode near) × (e.payload ≡ claim_job job_one worker_a)
    × (e.origin ≡ worker_a)
    × Memᴰ (e, 0) read_in.passed
    × (process_incoming near e 0 entropy second ≡ some b')
    × (b'.delivered ≡ (if is_new near e second then e ∷ [] else []))
unfolding sent_over receivers dec_ne ℕ_discrete
broadcast-reaches_example =
    broadcast-reaches near toy_signing_laws (λ m. ([], refl)) (claim_job job_one worker_a) entropy
      entropy first first_after second 0 0 refl sends_claim (Memᴰ.head refl) (made-RoundTrips, tt)
      writes_out reads_in refl refl
