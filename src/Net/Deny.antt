-- ===== src/Net/Deny.antt =====
-- `IPDenyList` of src/net/iplist.cc. Reading and writing the file is left out; `load` adds each
-- line that it has cleaned up. A failed assertion is `none`.
pub mod Laws
pub mod Edit
pub mod Removal
use sourcemud.Base.{ℕ, ◌+◌, Bool, true, false, not, Option, none, some, List, [], ◌∷◌, ◌++◌}
use sourcemud.Base.Int.{ℤ, pos, negsuc, is_zero}
use sourcemud.Base.Options.{◌>>=◌}
use sourcemud.Base.Tests.{◌==◌, if◌then◌else◌}
use sourcemud.Base.Text.{Text}
use sourcemud.Net.Addr.{NetAddr, addrcmp, addrcmp_mask, parse_addr}

pub record IpDeny : Type 0 where
  pub addr : NetAddr
  pub mask : ℕ

-- `exists`.
pub denied : List IpDeny → NetAddr → Option Bool
denied [] a = some false
denied (d ∷ ds) a = do
  sign ← addrcmp_mask a d.addr d.mask
  let later = denied ds a
  if is_zero sign then some true else later

-- Whether an entry has the address.
pub listed : List IpDeny → NetAddr → Option Bool
listed [] a = some false
listed (d ∷ ds) a = do
  sign ← addrcmp a d.addr
  let later = listed ds a
  if is_zero sign then some true else later

module _ (inet_pton : Text → Option (List ℕ)) where
  add_parsed : List IpDeny → Option (NetAddr × ℕ) → Option (List IpDeny × ℤ)
  add_parsed ds none = some (ds, negsuc 0)
  add_parsed ds (some (addr, mask)) = do
    found ← listed ds addr
    if found
        then some (ds, pos 1)
        else some (ds ++ (record { addr = addr; mask = mask } ∷ []), pos 0)

  -- The list after the call, and its result.
  pub add : List IpDeny → Text → Option (List IpDeny × ℤ)
  unfolding add_parsed
  add ds line = add_parsed ds (parse_addr inet_pton line)

-- The scan of `remove`: the first entry whose mask is equal and for which `addrcmp` is not zero is
-- erased. The flag tells whether there was one.
pub erase_first : NetAddr → ℕ → List IpDeny → Option (List IpDeny × Bool)
erase_first addr mask [] = some ([], false)
erase_first addr mask (d ∷ ds) = do
  let later = erase_first addr mask ds >>= λ r. some (d ∷ r.0, r.1)
  if d.mask == mask
      then addrcmp addr d.addr >>= (λ sign. if not (is_zero sign) then some (ds, true) else later)
      else later

module _ (inet_pton : Text → Option (List ℕ)) where
  remove_parsed : List IpDeny → Option (NetAddr × ℕ) → Option (List IpDeny × ℤ)
  remove_parsed ds none = some (ds, negsuc 0)
  remove_parsed ds (some (addr, mask)) = do
    r ← erase_first addr mask ds
    some (r.0, if r.1 then pos 0 else pos 1)

  pub remove : List IpDeny → Text → Option (List IpDeny × ℤ)
  unfolding remove_parsed
  remove ds line = remove_parsed ds (parse_addr inet_pton line)
