-- ===== src/Datapath/Server/Answers.antt =====
-- The server's answers to the RFRs of a client (src/rpc_impl/rpc_rfr.cc).
use sc_code.Common.{ℕ, ◌+◌, ◌≡◌, false, none, some, List, [], ◌∷◌}
use sc_code.Packet.{PktHdr}
use sc_code.Datapath.{Config, Serializer, TxItem, data_pkt}
use sc_code.Datapath.Batch.{pushed, HasRoom}
use sc_code.Datapath.Server.{ServerFlow}

-- Response packets `first`, `first + 1`, …, one for each of a list.
abbrev pub resp_pkts : ℕ → ℕ → Serializer → ℕ → List PktHdr → List TxItem
resp_pkts session sslot msg first [] = []
resp_pkts session sslot msg first (h ∷ hs) =
    data_pkt session sslot msg first none ∷ resp_pkts session sslot msg (first + 1) hs

-- A server slot that has sent the first packet of its response to request `req_num`.
pub record HasResponse (cfg : Config) (msg : Serializer) (req_num : ℕ) (f : ServerFlow)
    : Type 0 where
  pub room : HasRoom cfg f.tx
  pub at_server : f.is_client ≡ false
  pub response : f.tx_msgbuf ≡ some msg
  pub current : f.cur_req_num ≡ req_num
  pub one_req : f.sav_num_req_pkts ≡ 1

module _ (cfg : Config) (msg : Serializer) (req_num : ℕ) where
  answered : ℕ → ServerFlow → ServerFlow
  answered n f = record f {
    num_rx = f.num_rx + 1;
    tx = pushed cfg (data_pkt f.session f.index msg n none) f.tx;
  }
