-- ===== src/Tests/NativeRelays.antt =====
-- Inputs for the native WireGuard relay, pkg/relay/nativewg.go.
use ntwire.Base.{
  list_discrete, ℕ, zero, suc, some, ◌≤◌, ◌≡◌, refl, none, [], ◌∷◌, ℕ_discrete, length, lookup,
  delete, insert, string_discrete,
}
use ntwire.Relay.Udp.Frames.{Bytes, decode_control_frame}
use ntwire.Relay.Udp.Session.{AddrPort, AddrPort-discrete}
use ntwire.Relay.NativeWireguard.{
  NativeWgRelay, new_native_wg_relay, issue, remove, handle, write_entry, native_wg_max_indices,
  without_tenant, associate, from_server, from_client, learn, is_server, valid_wg_packet, reserve,
  record_pair,
}
use ntwire.Relay.NativeWireguard.Tokens.{
  Reach, start, call, issues, handles, after_datagrams, revoked_token,
}
use ntwire.Relay.NativeWireguard.Forwarding.{IsPermitted, handle-IsPermitted}
use ntwire.Relay.NativeWireguard.Bounds.{maps_bounded}

abbrev zeros : ℕ → Bytes
zeros zero = []
zeros (suc n) = 0 ∷ zeros n

-- 32 bytes, as `issue` draws
abbrev token : Bytes
token = 1 ∷ 2 ∷ zeros 30

abbrev sender : AddrPort
sender = record { addr = "192.0.2.1"; port = 51820 }

abbrev issued : NativeWgRelay
issued = issue "acme" token new_native_wg_relay

issued-Reach : Reach issued
unfolding new_native_wg_relay lookup list_discrete ℕ_discrete
issued-Reach = call _ _ start (issues "acme" token new_native_wg_relay refl)

revoked_token_example :
    lookup string_discrete "acme"
      (after_datagrams
        ((5, 0 ∷ 78 ∷ 84 ∷ 87 ∷ 6 ∷ token, sender) ∷ [])
        (remove "acme" token issued)).servers
    ≡ none
unfolding issue new_native_wg_relay lookup insert without_tenant delete list_discrete ℕ_discrete
revoked_token_example =
    revoked_token issued "acme" token ((5, 0 ∷ 78 ∷ 84 ∷ 87 ∷ 6 ∷ token, sender) ∷ []) issued-Reach
      refl

abbrev server : AddrPort
server = record { addr = "198.51.100.7"; port = 51820 }

abbrev associated : NativeWgRelay
associated = (handle 1 (0 ∷ 78 ∷ 84 ∷ 87 ∷ 6 ∷ token) server issued).0

-- a handshake initiation of index 7, and the response to it
abbrev initiation : Bytes
initiation = 1 ∷ 0 ∷ 0 ∷ 0 ∷ 7 ∷ zeros 143

abbrev response : Bytes
response = 2 ∷ 0 ∷ 0 ∷ 0 ∷ 9 ∷ 0 ∷ 0 ∷ 0 ∷ 7 ∷ zeros 83

abbrev initiated : NativeWgRelay
initiated = (handle 2 initiation sender associated).0

initiated-Reach : Reach initiated
initiated-Reach =
    call _ _ (call _ _ issued-Reach (handles 1 (0 ∷ 78 ∷ 84 ∷ 87 ∷ 6 ∷ token) server issued))
      (handles 2 initiation sender associated)

-- The server's response goes back to the client that sent the initiation.
handle-IsPermitted_example : IsPermitted 3 response server initiated (some (response, sender))
unfolding handle decode_control_frame valid_wg_packet associate from_server from_client is_server
    learn write_entry reserve record_pair issue new_native_wg_relay lookup insert without_tenant
    delete list_discrete ℕ_discrete string_discrete AddrPort-discrete
handle-IsPermitted_example = handle-IsPermitted 3 response server initiated initiated-Reach

maps_bounded_example :
    (length issued.indices.entries ≤ native_wg_max_indices)
    × (length issued.pairs.entries ≤ native_wg_max_indices)
maps_bounded_example = maps_bounded issued issued-Reach
