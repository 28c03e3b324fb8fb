-- ===== src/Datapath.antt =====
-- The data path of one Rpc endpoint: the state of src/sslot.h, src/session.h and src/rpc.h as
-- far as the packet handlers of src/rpc_impl use it.
pub mod Words
pub mod Batch
pub mod Ctrl
pub mod Kick
pub mod Credit
pub mod Resp
pub mod Client
pub mod Request
pub mod Complete
pub mod Loss
pub mod Slots
pub mod Server
pub mod Serve
pub mod Exchange
pub mod Rx
pub mod Queues
mod Tests
mod ServerTests
mod SlotTests
use sc_code.Common.{ℕ, Bool, Option, List}
use sc_code.Packet.{PktHdr}

abbrev pub session_credits : ℕ
session_credits = 32

abbrev pub session_req_window : ℕ
session_req_window = 32

-- `kInvalidBgETid`, that is `kMaxBgThreads`.
abbrev pub invalid_bg_etid : ℕ
invalid_bg_etid = 8

-- What the transport fixes at compile time, and `sizeof(pkthdr_t)`.
pub record Config : Type 0 where
  pub max_data_per_pkt : ℕ
  pub postlist : ℕ
  pub unsig_batch : ℕ
  pub hdr_size : ℕ

pub record Iovec : Type 0 where
  pub base : ℕ
  pub len : ℕ

-- A message ready to send: its iovector holds the headers that were pushed in front of the data, and
-- `front` is its `iov_begin`, the entries that are still free before them.
pub record Serializer : Type 0 where
  pub front : ℕ
  pub hdrs : List PktHdr
  pub segs : List Iovec
  pub total_pkg : ℕ

-- What the first iovec of the response buffer points at.
pub data First : Type 0 where
  nowhere : First
  rx_ring : List ℕ → First
  new_buff : ℕ → First

-- The response side of a client slot, `dyn_resp_msgbuf_`: `bytes` is what has been copied into
-- `new_buff_`, in order, and `cap` the size that it was allocated with.
pub record RespBuf : Type 0 where
  pub iov_begin : ℕ
  pub iov_end : ℕ
  pub first : First
  pub bytes : Option (List ℕ)
  pub cap : ℕ
  pub used_size : ℕ

-- A client slot. Continuations, tags and the user's buffers are only passed on, and are numbers.
pub record SSlot : Type 0 where
  pub index : ℕ
  pub tx_msgbuf : Option Serializer
  pub cur_req_num : ℕ
  pub resp : RespBuf
  pub context : ℕ
  pub resp_msgbuf : ℕ
  pub cont_func : ℕ
  pub tag : ℕ
  pub num_tx : ℕ
  pub num_rx : ℕ
  pub progress_tsc : ℕ
  pub cont_etid : ℕ
  pub wheel_count : ℕ

-- `enq_req_args_t`
pub record EnqReqArgs : Type 0 where
  pub session_num : ℕ
  pub req_type : ℕ
  pub req_msgbuf : Serializer
  pub resp_msgbuf : ℕ
  pub cont_func : ℕ
  pub tag : ℕ
  pub cont_etid : ℕ

-- A client session; the back of `sslot_free_vec` is the head of the list.
pub record Session : Type 0 where
  pub is_connected : Bool
  pub local_session_num : ℕ
  pub remote_session_num : ℕ
  pub sslots : List SSlot
  pub credits : ℕ
  pub sslot_free_vec : List ℕ
  pub enq_req_backlog : List EnqReqArgs
  pub num_re_tx : ℕ

-- `tx_burst_item_t`: a packet of a slot's message by index, or a control header. The last number
-- of `data_pkt` is the entry of `tx_ts_` to stamp, where the caller passes one.
pub data TxItem : Type 0 where
  data_pkt : ℕ → ℕ → Serializer → ℕ → Option ℕ → TxItem
  ctrl_pkt : ℕ → ℕ → PktHdr → TxItem

-- A write through `tx_ts`: session, slot, entry, time.
pub record Stamp : Type 0 where
  pub session : ℕ
  pub sslot : ℕ
  pub entry : ℕ
  pub tsc : ℕ

-- `tx_burst_arr_[0 .. tx_batch_i_)`, what the transport has been given, and the stamps written.
pub record Tx : Type 0 where
  pub batch : List TxItem
  pub sent : List TxItem
  pub stamps : List Stamp
  pub clock : ℕ

-- `ctrl_msgbufs_hdr` and `ctrl_msgbuf_head_`: the headers for credit returns and RFRs, used in turn.
pub record CtrlRing : Type 0 where
  pub hdrs : List PktHdr
  pub head : ℕ

-- What a packet handler works on: one slot, its session's credits, and the sending side.
pub record Flow : Type 0 where
  pub session : ℕ
  pub remote_session_num : ℕ
  pub slot : SSlot
  pub credits : ℕ
  pub tx : Tx
  pub ctrl : CtrlRing
  pub ev_loop_tsc : ℕ
  pub rtt_samples : List (ℕ × ℕ)
  pub session_re_tx : ℕ
  pub num_re_tx : ℕ
  pub still_in_wheel : ℕ

-- An Rpc seen from one of its client sessions. `stallq` and `active_rpcs` hold slots as session
-- and index; `conts` and `bg_resps` are the continuations invoked and handed to background
-- threads, as function and tag, latest first; `bg_requests` is the queue of requests from such.
pub record Endpoint : Type 0 where
  pub session : Session
  pub stallq : List (ℕ × ℕ)
  pub active_rpcs : List (ℕ × ℕ)
  pub tx : Tx
  pub ctrl : CtrlRing
  pub ev_loop_tsc : ℕ
  pub rtt_samples : List (ℕ × ℕ)
  pub num_re_tx : ℕ
  pub still_in_wheel : ℕ
  pub conts : List (ℕ × ℕ)
  pub bg_resps : List (ℕ × ℕ × ℕ)
  pub bg_requests : List EnqReqArgs
  pub num_bg_threads : ℕ
