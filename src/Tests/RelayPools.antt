-- ===== src/Tests/RelayPools.antt =====
-- Inputs for the relay pool, pkg/server/relaypool.go.
use ntwire.Base.{
  list_discrete, option_discrete, pair_discrete, ℕ, ◌≡◌, refl, true, false, none, some, [],
  ℕ_discrete, string_discrete,
}
use ntwire.Server.RelayPool.{
  Response, Publication, new_relay_pool, new_members, snapshot_of, native_set, healthy,
  update_first, update_second, record_member, noted, choose_preferred, best_from,
}
use ntwire.Server.RelayPool.Preferred.{IsRegistered}
use ntwire.Server.RelayPool.World.{
  World, Reach, new_world, start, call, updates, publishes, after_first, after_second,
}
use ntwire.Server.RelayPool.Publishing.{callbacks_settle}
use ntwire.Server.RelayPool.Standby.{preferred-IsRegistered}

abbrev answer : Response
answer = record {
  domain = "example.org";
  reflect_addr = "r:1";
  udp_relay_addr = "u:2";
  native_addr = "";
  native_token = "";
}

abbrev no_stats : ℕ → ℕ × ℕ
no_stats i = (0, 0)

abbrev registered_world : World
registered_world =
    after_first (update_first no_stats 1 true answer (new_world 2).pool) (new_world 2)

abbrev noted_publication : Publication
noted_publication = record {
  at_revision = 1;
  snapshot = record { agent = some 1; reflect = "r:1"; udp = "u:2"; addr = ""; token = "" };
  native = [];
}

abbrev published_world : World
published_world =
    after_second (update_second noted_publication registered_world.pool) [] registered_world

published_world-Reach : Reach 2 published_world
unfolding update_first record_member noted choose_preferred best_from new_relay_pool new_members
    list_discrete option_discrete pair_discrete ℕ_discrete string_discrete native_set
published_world-Reach =
    call _ _ (call _ _ start (updates no_stats 1 true answer (new_world 2)))
      (publishes [] noted_publication [] registered_world refl)

callbacks_settle_example :
    (published_world.heard
      ≡ snapshot_of published_world.pool.members published_world.pool.preferred)
    × (published_world.heard_set ≡ native_set published_world.pool.members)
callbacks_settle_example = callbacks_settle 2 published_world published_world-Reach refl

preferred-IsRegistered_example :
    ((i : ℕ)
      → published_world.pool.preferred ≡ some i
      → IsRegistered published_world.pool.members i)
    × (published_world.pool.preferred ≡ none → healthy published_world.pool.members ≡ false)
preferred-IsRegistered_example = preferred-IsRegistered 2 published_world published_world-Reach
