-- ===== src/Net/Examples.antt =====
-- Runs of the address tests, of the list of denied hosts and of the connection tracker.
use sourcemud.Base.{
  ℕ, ◌≡◌, ◌≢◌, ◌↔◌, ◌⊎◌, refl, Bool, true, Option, none, some, List, [], ◌∷◌, arith,
}
use sourcemud.Base.Int.{ℤ, pos, negsuc, leb_ℤ}
use sourcemud.Base.Lists.{All}
use sourcemud.Base.Tests.{if◌then◌else◌}
use sourcemud.Base.Text.{Text, codes, text_eq}
use sourcemud.Net.Addr.{is_local, NetAddr, af_inet, addrcmp, apply_mask, parse_addr}
use sourcemud.Net.Conn.Adding.{Added, add-Added}
use sourcemud.Net.Conn.Counts.{conns_of, IsTracked}
use sourcemud.Net.Conn.History.{add_never_full, host_limit}
use sourcemud.Net.Conn.Removing.{Removed, remove-Removed}
use sourcemud.Net.Conn.{ConnList, Limits, no_conns, Event, connects, leaves, run}
use sourcemud.Net.Conn
use sourcemud.Net.Deny
use sourcemud.Net.Deny.Edit.{Adds, add-Adds}
use sourcemud.Net.Deny.Laws.{IsHost, IsEntry, Covered, denied-Covered}
use sourcemud.Net.Deny.Removal.{Erases, remove-Erases}
use sourcemud.Net.Deny.{IpDeny, denied}
use sourcemud.Net.Mask.{IsAddr}

abbrev ten : NetAddr
ten = record { family = af_inet; sin_addr = 10 ∷ 1 ∷ 2 ∷ 3 ∷ [] }

abbrev ten_net : NetAddr
ten_net = record { family = af_inet; sin_addr = 10 ∷ 1 ∷ 0 ∷ 0 ∷ [] }

-- A reader that knows two addresses.
abbrev two_hosts : Text → Option (List ℕ)
two_hosts host =
    if text_eq host (codes "10.1.2.3")
    then some (10 ∷ 1 ∷ 2 ∷ 3 ∷ [])
    else if text_eq host (codes "10.9.0.0")
    then some (10 ∷ 9 ∷ 0 ∷ 0 ∷ [])
    else none

ten-IsAddr : IsAddr (10 ∷ 1 ∷ 2 ∷ 3 ∷ [])
ten-IsAddr = omega arith

ten_net-IsAddr : IsAddr (10 ∷ 1 ∷ 0 ∷ 0 ∷ [])
ten_net-IsAddr = omega arith

ten-IsHost : IsHost ten
ten-IsHost = record { inet = refl; bytes = ten-IsAddr }

two_hosts-IsAddr : (host : Text) (bytes : List ℕ) → two_hosts host ≡ some bytes → IsAddr bytes
two_hosts-IsAddr host bytes e = ground arith

abbrev net_denied : List IpDeny
net_denied = record { addr = ten_net; mask = 16 } ∷ []

net_denied-IsEntry : All IsEntry net_denied
net_denied-IsEntry =
    (record { host = record { inet = refl; bytes = ten_net-IsAddr }; mask_le = omega arith }, tt)

apply_mask_16 : apply_mask 16 ten ≡ some ten_net
unfolding apply_mask
apply_mask_16 = refl

parsed : parse_addr two_hosts (codes "10.1.2.3/16") ≡ some (ten_net, 16)
unfolding parse_addr text_eq apply_mask
parsed = refl

denied-Covered_example :
    (b : Bool) × (denied net_denied ten ≡ some b) × ((b ≡ true) ↔ Covered net_denied ten)
denied-Covered_example = denied-Covered net_denied ten net_denied-IsEntry ten-IsHost

add-Adds_example :
    ((parse_addr two_hosts (codes "10.9.0.0/24") ≡ none)
      × (Deny.add two_hosts net_denied (codes "10.9.0.0/24") ≡ some (net_denied, negsuc 0)))
    ⊎ ((addr : NetAddr) × (mask : ℕ) × (r : List IpDeny × ℤ) × (parse_addr two_hosts
            (codes "10.9.0.0/24")
          ≡ some (addr, mask))
        × (Deny.add two_hosts net_denied (codes "10.9.0.0/24") ≡ some r)
        × All IsEntry r.0
        × Adds net_denied addr mask r)
add-Adds_example =
    add-Adds two_hosts two_hosts-IsAddr net_denied (codes "10.9.0.0/24") net_denied-IsEntry

-- Removing 10.9.0.0/16 erases the entry 10.1.0.0/16.
remove-Erases_example :
    ((parse_addr two_hosts (codes "10.9.0.0/16") ≡ none)
      × (Deny.remove two_hosts net_denied (codes "10.9.0.0/16") ≡ some (net_denied, negsuc 0)))
    ⊎ ((addr : NetAddr) × (mask : ℕ) × (ds' : List IpDeny) × (b : Bool) × (parse_addr two_hosts
            (codes "10.9.0.0/16")
          ≡ some (addr, mask))
        × (Deny.remove two_hosts net_denied (codes "10.9.0.0/16")
            ≡ some (ds', if b then pos 0 else pos 1))
        × Erases addr mask net_denied ds' b)
remove-Erases_example =
    remove-Erases two_hosts two_hosts-IsAddr net_denied (codes "10.9.0.0/16") net_denied-IsEntry

abbrev small_limits : Limits
small_limits = record { max_clients = pos 1; max_per_host = pos 2 }

abbrev one_conn : ConnList
one_conn = record { connections = record { addr = ten; conns = pos 1 } ∷ []; total_conns = pos 0 }

one_conn-IsTracked : IsTracked one_conn.connections
unfolding conns_of
one_conn-IsTracked = (ten-IsHost, omega arith, refl, tt)

one_conn-run : run small_limits no_conns (connects ten ∷ []) ≡ some one_conn
unfolding run Conn.add addrcmp
one_conn-run = refl

add-Added_example :
    (r : ConnList × ℤ) × (Conn.add small_limits one_conn ten ≡ some r)
    × IsTracked r.0.connections
    × Added small_limits one_conn ten r
    × (r.0.total_conns ≡ pos 0)
add-Added_example = add-Added small_limits one_conn ten ten-IsHost one_conn-IsTracked

remove-Removed_example :
    (l' : ConnList) × (Conn.remove one_conn ten ≡ some l')
    × IsTracked l'.connections
    × Removed one_conn ten l'
remove-Removed_example = remove-Removed one_conn ten ten-IsHost one_conn-IsTracked

-- One connection is counted nowhere in the total, so a limit of one client admits a second.
add_never_full_example :
    (r : ConnList × ℤ) × (Conn.add small_limits one_conn ten ≡ some r) × (r.1 ≢ negsuc 0)
add_never_full_example =
    add_never_full small_limits 0 (connects ten ∷ []) one_conn ten refl (ten-IsHost, tt)
      (omega arith) one_conn-run ten-IsHost

host_limit_example :
    (l : ConnList) × (run small_limits no_conns (connects ten ∷ connects ten ∷ leaves ten ∷ [])
      ≡ some l)
    × (leb_ℤ (conns_of l.connections ten) (pos 2) ≡ true)
host_limit_example =
    host_limit small_limits 1 (connects ten ∷ connects ten ∷ leaves ten ∷ []) ten refl
      (ten-IsHost, (ten-IsHost, (ten-IsHost, tt))) ten-IsHost (unfold is_local in ground arith)
