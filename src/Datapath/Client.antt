-- ===== src/Datapath/Client.antt =====
-- From an endpoint to one slot's flow and back.
use sc_code.Common.{ℕ, ◌≡◌, none, some, get_elem?, set, Outcome, ok, err, bad_access, ◌>>=◌}
use sc_code.Datapath.{SSlot, Flow, Endpoint}

abbrev pub flow_of : Endpoint → SSlot → Flow
flow_of c s = record {
  session = c.session.local_session_num;
  remote_session_num = c.session.remote_session_num;
  slot = s;
  credits = c.session.credits;
  tx = c.tx;
  ctrl = c.ctrl;
  ev_loop_tsc = c.ev_loop_tsc;
  rtt_samples = c.rtt_samples;
  session_re_tx = c.session.num_re_tx;
  num_re_tx = c.num_re_tx;
  still_in_wheel = c.still_in_wheel;
}

abbrev pub put_flow : ℕ → Flow → Endpoint → Endpoint
put_flow i f c = record c {
  session = record (c.session) {
    sslots = set c.session.sslots i f.slot;
    credits = f.credits;
    num_re_tx = f.session_re_tx;
  };
  tx = f.tx;
  ctrl = f.ctrl;
  rtt_samples = f.rtt_samples;
  num_re_tx = f.num_re_tx;
  still_in_wheel = f.still_in_wheel;
}

abbrev pub put_slot : ℕ → SSlot → Endpoint → Endpoint
put_slot i s c = record c { session = record (c.session) { sslots = set c.session.sslots i s } }

unfoldable pub slot_at : ℕ → Endpoint → Outcome SSlot
slot_at i c = elim (get_elem? c.session.sslots i) [ none ↦ err bad_access | some s ↦ ok s ]

-- A handler of one flow, run at slot `i`.
unfoldable pub on_slot : ℕ → (Flow → Outcome Flow) → Endpoint → Outcome Endpoint
on_slot i handler c = do s ← slot_at i c; f ← handler (flow_of c s); ok (put_flow i f c)

pub slot_at-some :
    (i : ℕ) (c : Endpoint) (s : SSlot) → get_elem? c.session.sslots i ≡ some s → slot_at i c ≡ ok s
unfolding slot_at
slot_at-some i c s e = rw (e, slot_at)
