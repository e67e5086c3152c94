-- ===== src/Relay/Udp/Session.antt =====
-- `udpRelaySession` of pkg/relay/udpsession.go. Times are nanoseconds since the Unix epoch.
use ntwire.Base.{◌≡◌, ap, arith, ℕ, String, Bool, false, ◌+◌, ◌%◌, ◌^◌, ℕ_discrete, string_discrete}

-- netip.AddrPort, which is only compared.
pub record AddrPort : Type 0 where
  pub addr : String
  pub port : ℕ

same_fields : {a b : AddrPort} → Dec (a.addr ≡ b.addr) → Dec (a.port ≡ b.port) → Dec (a ≡ b)
same_fields (yes p) (yes q) = yes (ground arith)
same_fields (yes p) (no q) = no (λ e. q (ap (λ x. x.port) e))
same_fields (no p) _ = no (λ e. p (ap (λ x. x.addr) e))

unfoldable pub AddrPort-discrete : Discrete AddrPort
unfolding string_discrete ℕ_discrete same_fields
AddrPort-discrete a b = same_fields (string_discrete a.addr b.addr) (ℕ_discrete a.port b.port)

-- the zero netip.AddrPort
abbrev pub no_addr : AddrPort
no_addr = record { addr = ""; port = 0 }

-- `lastActivity`: a time, or the -1 that marks a session which is being released
pub data Activity : Type 0 where
  at : ℕ → Activity
  retired : Activity

-- packets and bytes in one direction, two atomic.Uint64
pub record Counter : Type 0 where
  pub packets : ℕ
  pub bytes : ℕ

abbrev pub zero_counter : Counter
zero_counter = record { packets = 0; bytes = 0 }

-- Add(1) and Add(uint64(n))
unfoldable pub add_packet : Counter → ℕ → Counter
add_packet c n = record { packets = (c.packets + 1) % 2 ^ 64; bytes = (c.bytes + n) % 2 ^ 64 }

pub record Session : Type 0 where
  pub token : String
  pub tenant : String
  pub server_port : ℕ
  pub server_addr : AddrPort
  pub server_bound : Bool
  pub client_addr : AddrPort
  pub client_bound : Bool
  pub last_activity : Activity
  pub client_received : Counter
  pub server_forwarded : Counter
  pub server_received : Counter
  pub client_forwarded : Counter

unfoldable pub new_session : String → String → ℕ → Session
new_session token tenant port = record {
  token = token;
  tenant = tenant;
  server_port = port;
  server_addr = no_addr;
  server_bound = false;
  client_addr = no_addr;
  client_bound = false;
  last_activity = at 0;
  client_received = zero_counter;
  server_forwarded = zero_counter;
  server_received = zero_counter;
  client_forwarded = zero_counter;
}

-- `touch` never revives a retired session
touched : ℕ → Activity → Activity
touched now retired = retired
touched now (at t) = at now

unfoldable pub touch : ℕ → Session → Session
unfolding touched
touch now s = record s { last_activity = touched now s.last_activity }

unfoldable pub receive_from_client : ℕ → Session → Session
unfolding add_packet
receive_from_client n s = record s { client_received = add_packet s.client_received n }

unfoldable pub forward_to_server : ℕ → Session → Session
unfolding add_packet
forward_to_server n s = record s { server_forwarded = add_packet s.server_forwarded n }

unfoldable pub receive_from_server : ℕ → Session → Session
unfolding add_packet
receive_from_server n s = record s { server_received = add_packet s.server_received n }

unfoldable pub forward_to_client : ℕ → Session → Session
unfolding add_packet
forward_to_client n s = record s { client_forwarded = add_packet s.client_forwarded n }
