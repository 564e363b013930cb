-- ===== src/Net/Network/Cache.antt =====
-- The cached test of the connection.
use galileo_terremoti.Base.{◌≡◌, refl, Bool, true, false, not, ◌||◌, if◌then◌else◌}
use galileo_terremoti.Net.Network.{Ping, ping, Network, is_connected_to_internet}

either : (x y : Bool) → (if x then true else y) ≡ (x || y)
either true y = refl
either false y = refl

-- A call that is forced, or that is the first, is true exactly if one of two pings is answered; a
-- call after it that is not forced gives the same answer, whatever pings would say, and changes
-- nothing.
pub is_connected_to_internet_lem :
    (force : Bool) (first second later later' : Ping) (s : Network)
    → not s.connection_checked || force ≡ true
    → let (connected, s') = is_connected_to_internet force first second s in
      (connected ≡ (ping first || ping second))
      × (is_connected_to_internet false later later' s' ≡ (connected, s'))
unfolding is_connected_to_internet
is_connected_to_internet_lem force first second later later' s h =
    rw h (either (ping first) (ping second), refl)
