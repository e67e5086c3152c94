-- ===== src/Relay/Udp/Table/Steps.antt =====
-- The table under any sequence of calls.
use ntwire.Base.{ℕ_discrete, IsMap, String, Option, Map, ℕ}
use ntwire.Relay.Limits.{Limits}
use ntwire.Relay.Udp.Ports.{new_port_allocator}
use ntwire.Relay.Udp.Session.{AddrPort}
use ntwire.Relay.Udp.Table.{
  Table, new_table, allocate, bind_server, bind_client, release, disable_port, sweep_once,
}
use ntwire.Relay.Udp.Table.Invariant.{
  IsConsistent, IsFresh, new_table-IsConsistent, allocate-IsConsistent, bind_server-IsConsistent,
  bind_client-IsConsistent, release-IsConsistent, disable_port-IsConsistent,
  sweep_once-IsConsistent,
}

-- One call, with the clock's reading and the token that it draws.
pub data Step (t : Table) : Table → Type 0 where
  allocates :
      (now : ℕ) (drawn : Option String) (tenant : String)
      → IsFresh drawn t
      → Step t (allocate now drawn tenant t).0
  binds_server :
      (now : ℕ) (token : String) (from : AddrPort) → Step t (bind_server now token from t).0
  binds_client :
      (now : ℕ) (token : String) (from : AddrPort) → Step t (bind_client now token from t).0
  releases : (token : String) → Step t (release token t)
  disables : (port : ℕ) → Step t (disable_port port t)
  sweeps : (now idle : ℕ) → Step t (sweep_once now idle t)

pub data Reach (s : Table) : Table → Type 0 where
  here : Reach s s
  next : {t u : Table} → Reach s t → Step t u → Reach s u

pub Step-IsConsistent : {t u : Table} → Step t u → IsConsistent t → IsConsistent u
Step-IsConsistent {t} (allocates now drawn tenant fresh) v =
    allocate-IsConsistent t v now drawn tenant fresh
Step-IsConsistent {t} (binds_server now token from) v = bind_server-IsConsistent t v now token from
Step-IsConsistent {t} (binds_client now token from) v = bind_client-IsConsistent t v now token from
Step-IsConsistent {t} (releases token) v = release-IsConsistent t v token
Step-IsConsistent {t} (disables port) v = disable_port-IsConsistent t v port
Step-IsConsistent {t} (sweeps now idle) v = sweep_once-IsConsistent now idle t v

pub Reach-IsConsistent : {s t : Table} → Reach s t → IsConsistent s → IsConsistent t
Reach-IsConsistent here v = v
Reach-IsConsistent (next r st) v = Step-IsConsistent st (Reach-IsConsistent r v)

-- From a new table over a pool with each port once, any calls in any order leave the table
-- consistent: the four indexes agree, each tenant's count is the number of its live sessions and
-- within its cap, and a pooled port is in use exactly while a session has it.
pub Reach-new-IsConsistent :
    (conns : Map ℕ String) (limits : Limits) (t : Table)
    → IsMap ℕ_discrete conns
    → Reach (new_table (new_port_allocator conns) limits) t
    → IsConsistent t
Reach-new-IsConsistent conns limits t h r =
    Reach-IsConsistent r (new_table-IsConsistent conns limits h)
