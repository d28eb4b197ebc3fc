-- ===== src/Net/Conn.antt =====
-- `IPConnList` of src/net/iplist.cc: the connections of each host. The limits are settings. A
-- failed assertion is `none`.
pub mod Counts
pub mod Adding
pub mod Removing
pub mod History
use sourcemud.Base.{◌+◌, Bool, not, ◌&&◌, Option, none, some, List, [], ◌∷◌, ◌++◌}
use sourcemud.Base.Int.{ℤ, pos, negsuc, suc_ℤ, pred_ℤ, pred_int, leb_ℤ, is_zero}
use sourcemud.Base.Options.{◌>>=◌}
use sourcemud.Base.Tests.{if◌then◌else◌}
use sourcemud.Net.Addr.{NetAddr, addrcmp, is_local}

-- The count of a host is an `int` too, which is taken not to overflow.
pub record IpTrack : Type 0 where
  pub addr : NetAddr
  pub conns : ℤ

-- The total is an `int` of 32 bits.
pub record ConnList : Type 0 where
  pub connections : List IpTrack
  pub total_conns : ℤ

pub record Limits : Type 0 where
  pub max_clients : ℤ
  pub max_per_host : ℤ

-- The tracker is a global object, whose total starts at zero.
abbrev pub no_conns : ConnList
no_conns = record { connections = []; total_conns = pos 0 }

-- How the scan of `add` ends: no such host, a host that is full, or the list with one more
-- connection of the host.
pub data Scan : Type 0 where
  absent full : Scan
  bumped : List IpTrack → Scan

abbrev pub scan_cons : IpTrack → Scan → Scan
scan_cons t absent = absent
scan_cons t full = full
scan_cons t (bumped ts) = bumped (t ∷ ts)

scan_here : Bool → ℤ → IpTrack → List IpTrack → Scan
scan_here local max t ts =
    if not local && leb_ℤ max t.conns
    then full
    else bumped (record t { conns = suc_ℤ t.conns } ∷ ts)

pub scan_add : ℤ → NetAddr → List IpTrack → Option Scan
unfolding scan_here
scan_add max a [] = some absent
scan_add max a (t ∷ ts) = do
  sign ← addrcmp a t.addr
  let later = scan_add max a ts >>= λ s. some (scan_cons t s)
  if is_zero sign then some (scan_here (is_local a) max t ts) else later

pub finish_add : ConnList → NetAddr → Scan → ConnList × ℤ
finish_add l a absent =
    (record l { connections = l.connections ++ (record { addr = a; conns = pos 1 } ∷ []) }, pos 0)
finish_add l a full = (l, negsuc 1)
finish_add l a (bumped ts) = (record l { connections = ts }, pos 0)

-- The list after the call, and its result.
unfoldable pub add : Limits → ConnList → NetAddr → Option (ConnList × ℤ)
unfolding scan_add finish_add is_local
add m l a =
    if not (is_local a) && leb_ℤ m.max_clients l.total_conns
    then some (l, negsuc 0)
    else scan_add m.max_per_host a l.connections >>= λ s. some (finish_add l a s)

-- At the host's entry: one connection less, and no entry at zero.
drop_here : IpTrack → List IpTrack → List IpTrack
drop_here t ts = if is_zero (pred_ℤ t.conns) then ts else record t { conns = pred_ℤ t.conns } ∷ ts

scan_remove : NetAddr → List IpTrack → Option (Option (List IpTrack))
unfolding drop_here
scan_remove a [] = some none
scan_remove a (t ∷ ts) = do
  sign ← addrcmp a t.addr
  let later = scan_remove a ts >>= λ r. some (r >>= λ us. some (t ∷ us))
  if is_zero sign then some (some (drop_here t ts)) else later

finish_remove : ConnList → Option (List IpTrack) → ConnList
finish_remove l none = l
finish_remove l (some ts) = record { connections = ts; total_conns = pred_int l.total_conns }

pub remove : ConnList → NetAddr → Option ConnList
unfolding scan_remove finish_remove
remove l a = scan_remove a l.connections >>= λ r. some (finish_remove l r)

-- What the listeners and the closing of sockets do to the tracker.
pub data Event : Type 0 where
  connects leaves : NetAddr → Event

unfoldable pub run : Limits → ConnList → List Event → Option ConnList
run m l [] = some l
run m l (connects a ∷ es) = add m l a >>= λ r. run m r.0 es
run m l (leaves a ∷ es) = remove l a >>= λ l'. run m l' es
