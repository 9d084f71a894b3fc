-- ===== src/Tcp/State.antt =====
-- The data of a TCP session: `FsmState`, `SysCall`, `ConnError` and the attributes of `TcpSession`
-- (pytcp/protocols/tcp/session.py), and `TcpMetadata` (pytcp/protocols/tcp/metadata.py).
--
-- A Python int is a natural number, but for `_tx_buffer_seq_mod`, which the code may decrement below
-- zero. A semaphore is its counter. `timers` gives for a timer of this session the time left, where 0
-- stands for a name that the stack's timer does not hold. What the session does to other objects
-- is logged, newest first: `sent` holds the packets handed to the packet handler, and `effects` the
-- operations on sockets; `registered` tells if `stack.sockets` holds the session's socket.
use py_tcp.Prelude.{ℕ, ◌-◌, Option, List, [], Bool, true, false}
use py_tcp.Prelude.Int.{ℤ, pos}
use py_tcp.Dict.{Dict}

-- config.py
abbrev pub tap_mtu : ℕ
tap_mtu = 1500

abbrev pub packet_retransmit_timeout : ℕ
packet_retransmit_timeout = 1000

abbrev pub packet_retransmit_max_count : ℕ
packet_retransmit_max_count = 3

abbrev pub time_wait_delay : ℕ
time_wait_delay = 30000

abbrev pub delayed_ack_delay : ℕ
delayed_ack_delay = 100

pub data SysCall : Type 0 where
  listen_call connect_call close_call : SysCall

pub data FsmState : Type 0 where
  closed listen syn_sent syn_rcvd established fin_wait_1 fin_wait_2 closing close_wait last_ack
        time_wait :
      FsmState

pub data ConnError : Type 0 where
  no_error refused timed_out : ConnError

pub record IpAddress : Type 0 where
  pub version : ℕ
  pub value : ℕ

-- What the FSM sees of a received packet.
pub record Metadata : Type 0 where
  pub local_ip : IpAddress
  pub local_port : ℕ
  pub remote_ip : IpAddress
  pub remote_port : ℕ
  pub flag_syn : Bool
  pub flag_ack : Bool
  pub flag_fin : Bool
  pub flag_rst : Bool
  pub seq : ℕ
  pub ack : ℕ
  pub win : ℕ
  pub wscale : Option ℕ
  pub mss : ℕ
  pub payload : List ℕ

-- The arguments of `send_tcp_packet`.
pub record Segment : Type 0 where
  pub local_ip : IpAddress
  pub remote_ip : IpAddress
  pub local_port : ℕ
  pub remote_port : ℕ
  pub flag_syn : Bool
  pub flag_ack : Bool
  pub flag_fin : Bool
  pub flag_rst : Bool
  pub seq : ℕ
  pub ack : ℕ
  pub win : ℕ
  pub mss : Option ℕ
  pub wscale : Option ℕ
  pub payload : List ℕ

-- The timers that a session names after itself.
pub data TimerName : Type 0 where
  delayed_ack_timer time_wait_timer : TimerName
  retransmit_timer : ℕ → TimerName

pub data Effect : Type 0 where
  -- `stack.sockets.pop(str(self._socket))`
  socket_popped : Effect
  -- A new session in LISTEN state for the listening socket, at its local and remote end.
  listener_renewed : IpAddress → ℕ → IpAddress → ℕ → Effect
  -- A new socket for this session, registered with the stack; its address family is 6 or 4.
  socket_created : ℕ → Effect
  -- The socket is handed to the listening socket's accept queue.
  socket_accepted : Effect

pub record Session : Type 0 where
  pub local_ip : IpAddress
  pub local_port : ℕ
  pub remote_ip : IpAddress
  pub remote_port : ℕ
  pub rx_buffer : List ℕ
  pub tx_buffer : List ℕ
  pub rcv_ini : ℕ
  pub rcv_nxt : ℕ
  pub rcv_una : ℕ
  pub rcv_mss : ℕ
  pub rcv_wnd : ℕ
  pub rcv_wsc : ℕ
  pub snd_ini : ℕ
  pub snd_nxt : ℕ
  pub snd_max : ℕ
  pub snd_una : ℕ
  pub snd_fin : ℕ
  pub snd_mss : ℕ
  pub snd_wnd : ℕ
  pub snd_ewn : ℕ
  pub snd_wsc : ℕ
  pub tx_retransmit_request_counter : Dict ℕ
  pub tx_retransmit_timeout_counter : Dict ℕ
  pub rx_retransmit_request_counter : Dict ℕ
  pub tx_buffer_seq_mod : ℤ
  pub state : FsmState
  pub event_connect : ℕ
  pub event_rx_buffer : ℕ
  pub is_closing : Bool
  pub ooo_packet_queue : Dict Metadata
  pub connection_error : ConnError
  pub timers : TimerName → ℕ
  pub sent : List Segment
  pub effects : List Effect
  pub registered : Bool
  pub has_parent : Bool

-- `TcpSession.__init__`, for a registered socket; `ini` is the random initial sequence number.
unfoldable pub new_session : IpAddress → ℕ → IpAddress → ℕ → Bool → ℕ → Session
new_session local_ip local_port remote_ip remote_port has_parent ini = record {
  local_ip = local_ip;
  local_port = local_port;
  remote_ip = remote_ip;
  remote_port = remote_port;
  rx_buffer = [];
  tx_buffer = [];
  rcv_ini = 0;
  rcv_nxt = 0;
  rcv_una = 0;
  rcv_mss = tap_mtu - 40;
  rcv_wnd = 65535;
  rcv_wsc = 1;
  snd_ini = ini;
  snd_nxt = ini;
  snd_max = ini;
  snd_una = ini;
  snd_fin = 0;
  snd_mss = 536;
  snd_wnd = 536;
  snd_ewn = 536;
  snd_wsc = 1;
  tx_retransmit_request_counter = [];
  tx_retransmit_timeout_counter = [];
  rx_retransmit_request_counter = [];
  tx_buffer_seq_mod = pos ini;
  state = closed;
  event_connect = 0;
  event_rx_buffer = 0;
  is_closing = false;
  ooo_packet_queue = [];
  connection_error = no_error;
  timers = λ name. 0;
  sent = [];
  effects = [];
  registered = true;
  has_parent = has_parent;
}

-- An event handed to `tcp_fsm`: each call gives exactly one of its three arguments.
pub data Input : Type 0 where
  packet : Metadata → Input
  syscall : SysCall → Input
  timer : Input

-- Tests of the state, as the code's `self._state in {…}`.
abbrev pub is_established : FsmState → Bool
is_established established = true
is_established _ = false

abbrev pub is_syn_sent : FsmState → Bool
is_syn_sent syn_sent = true
is_syn_sent _ = false

abbrev pub is_syn_rcvd : FsmState → Bool
is_syn_rcvd syn_rcvd = true
is_syn_rcvd _ = false

abbrev pub may_send_data : FsmState → Bool
may_send_data established = true
may_send_data close_wait = true
may_send_data _ = false

abbrev pub may_send_fin : FsmState → Bool
may_send_fin fin_wait_1 = true
may_send_fin last_ack = true
may_send_fin _ = false

abbrev pub reports_timeout : FsmState → Bool
reports_timeout established = true
reports_timeout fin_wait_1 = true
reports_timeout fin_wait_2 = true
reports_timeout close_wait = true
reports_timeout _ = false

-- Where the peer has closed its side, or the session is over.
abbrev pub at_end_of_input : FsmState → Bool
at_end_of_input close_wait = true
at_end_of_input closed = true
at_end_of_input _ = false
