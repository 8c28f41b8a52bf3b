-- ===== src/Filter/Link/Tests.antt =====
-- The theorems on a port's link at a port that is linked and loses its source.
use tinypipewire.Common.{◌≤◌, refl, Bool, true, false, none, List, [], ◌∷◌}
use tinypipewire.Common.Int.{ℤ}
use tinypipewire.Types.{DataType, ok}
use tinypipewire.Filter.State.{PortDirection}
use tinypipewire.Filter.Ports.{new_port, no_video}
use tinypipewire.Filter.Link.{FilterPort, info, format, active, error, Linking, port_link, is_ok}
use tinypipewire.Filter.Link.Losses.{losses_once, PortOp, arrives, links, losses, watch_all, left}
use tinypipewire.Filter.Link.Negotiation.{Linked, port_link-Linked}

abbrev unlinked_port : FilterPort
unlinked_port = new_port PortDirection.input DataType.audio false 0 no_video

-- The link comes up at once.
abbrev comes_up : Linking
comes_up = record {
  bound = ok;
  target_node = 40;
  own_port = 7;
  properties = true;
  proxy = true;
  waits = record { woken = (info true active ∷ []) ∷ []; late = [] };
}

abbrev same_int : ℤ → ℤ → Bool
same_int a b = true

-- It is linked, and its source is lost twice.
abbrev lost_twice : List PortOp
lost_twice = links true false comes_up ∷ arrives (info true error) ∷ arrives (format none) ∷ []

losses_once_example :
    losses
      (watch_all same_int true
        (record { port = unlinked_port; running = true; effects = [] })
        lost_twice).effects
    ≤ left unlinked_port
losses_once_example =
    losses_once same_int true true unlinked_port lost_twice
      ((((refl, tt), tt), tt), (refl, (refl, tt)))

port_link-Linked_example :
    let after = port_link same_int true true true false comes_up unlinked_port in
    Linked (is_ok after.0) after.1.link
port_link-Linked_example =
    port_link-Linked same_int true true true false comes_up unlinked_port (refl, refl, refl, refl)
