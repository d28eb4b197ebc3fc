-- ===== src/Net/Addr.antt =====
-- src/net/netaddr.cc, src/net/util.cc: IPv4 addresses. The build without HAVE_IPV6 is modelled; the
-- port, which no operation here reads, is not. `none` is a failed assertion.
use Prim.Native.Nat.{bit_and}
use sourcemud.Base.{
  ℕ, zero, suc, ◌+◌, ◌-◌, ◌*◌, ◌/◌, ◌%◌, ◌^◌, ◌≤◌, ◌≡◌, Bool, ◌&&◌, arith, Option, none, some, List,
  [], ◌∷◌, ◌++◌,
}
use sourcemud.Base.Int.{ℤ, pos, negsuc}
use sourcemud.Base.Lists.{take, drop}
use sourcemud.Base.Options.{◌>>=◌, >>=-eq-some}
use sourcemud.Base.Tests.{ltb, leb, ◌==◌, if◌then◌else◌}
use sourcemud.Base.Text.{Text, text_eq}

pub record NetAddr : Type 0 where
  pub family : ℕ
  pub sin_addr : List ℕ

abbrev pub af_inet : ℕ
af_inet = 2

abbrev replicate : ℕ → ℕ → List ℕ
replicate zero v = []
replicate (suc n) v = v ∷ replicate n v

-- `memset` over the first `n` bytes, and a store of one byte.
abbrev memset : List ℕ → ℕ → ℕ → List ℕ
memset buf v n = replicate n v ++ drop n buf

abbrev poke : List ℕ → ℕ → ℕ → List ℕ
poke [] i v = []
poke (b ∷ bs) zero v = v ∷ bs
poke (b ∷ bs) (suc i) v = b ∷ poke bs i v

-- `maskbuf`, with `q` whole bytes and `r` bits of the next.
unfoldable pub mask_buffer : ℕ → ℕ → List ℕ
mask_buffer q r =
    let whole = if ltb 0 q then memset (replicate 4 0) 0xff q else replicate 4 0 in
    if ltb 0 r then poke whole q (0xff00 / 2 ^ r % 256) else whole

-- `addr[i] &= maskbuf[i]`
unfoldable pub and_bytes : List ℕ → List ℕ → List ℕ
and_bytes (a ∷ as') (m ∷ ms) = bit_and a m ∷ and_bytes as' ms
and_bytes bytes _ = bytes

unfoldable pub apply_mask : ℕ → NetAddr → Option NetAddr
unfolding mask_buffer and_bytes
apply_mask mask a =
    if leb mask (4 * 8)
    then some (record a { sin_addr = and_bytes a.sin_addr (mask_buffer (mask / 8) (mask % 8)) })
    else none

-- The sign of `memcmp`.
unfoldable pub memcmp : List ℕ → List ℕ → ℤ
memcmp (x ∷ xs) (y ∷ ys) = if ltb x y then negsuc 0 else if ltb y x then pos 1 else memcmp xs ys
memcmp _ _ = pos 0

unfoldable pub addrcmp : NetAddr → NetAddr → Option ℤ
unfolding memcmp
addrcmp a b =
    if a.family == b.family
    then (if a.family == af_inet then some (memcmp a.sin_addr b.sin_addr) else none)
    else if ltb a.family b.family
    then some (negsuc 0)
    else some (pos 1)

compare_masked : NetAddr → NetAddr → Option ℤ
compare_masked b masked =
    if masked.family == af_inet then some (memcmp masked.sin_addr b.sin_addr) else none

-- The mask is applied to the first address only.
unfoldable pub addrcmp_mask : NetAddr → NetAddr → ℕ → Option ℤ
unfolding memcmp apply_mask compare_masked
addrcmp_mask a b mask =
    if a.family == b.family then apply_mask mask a >>= compare_masked b else some (negsuc 0)

unfoldable pub is_local : NetAddr → Bool
unfolding text_eq
is_local a = a.family == af_inet && text_eq a.sin_addr (127 ∷ 0 ∷ 0 ∷ 1 ∷ [])

abbrev is_digit : ℕ → Bool
is_digit c = leb b'0' c && leb c b'9'

-- The digits behind the slash, as the bits of an `int`; `none` is a byte that is no digit.
scan_mask : ℕ → Text → Option ℕ
scan_mask inmask [] = some inmask
scan_mask inmask (c ∷ cs) =
    if is_digit c then scan_mask ((inmask * 10 + (c - b'0')) % 2 ^ 32) cs else none

-- What stands before the first slash, and what behind it if there is one.
split_slash : Text → Text × Option Text
split_slash [] = ([], none)
split_slash (c ∷ cs) =
    let (front, back) = split_slash cs in if c == b'/' then ([], some cs) else (c ∷ front, back)

-- No mask stands for -1, whose bits these are.
in_mask : Option Text → Option ℕ
unfolding scan_mask
in_mask none = some (2 ^ 32 - 1)
in_mask (some digits) = scan_mask 0 digits

-- `snprintf` into 128 bytes.
buffer : Text → Text
buffer item = take 127 item

-- A negative `inmask` stands for no mask; a number above 32 fails.
range_mask : ℕ → Option ℕ
range_mask inmask =
    if leb (2 ^ 31) inmask then some 32 else if ltb 32 inmask then none else some inmask

-- `inet_pton` is the system's reading of a dotted address. A result is the address, masked, and
-- the mask; `none` stands for -1.
unfoldable pub parse_addr : (Text → Option (List ℕ)) → Text → Option (NetAddr × ℕ)
unfolding split_slash in_mask buffer range_mask
parse_addr inet_pton item = do
  let parts = split_slash (buffer item)
  inmask ← in_mask parts.1
  bytes ← inet_pton parts.0
  mask ← range_mask inmask
  masked ← apply_mask mask (record { family = af_inet; sin_addr = bytes })
  some (masked, mask)

-- What a result went through.
pub parse_addr_steps :
    (inet_pton : Text → Option (List ℕ)) (item : Text) {addr : NetAddr} {mask : ℕ}
    → parse_addr inet_pton item ≡ some (addr, mask)
    → (host : Text) × (bytes : List ℕ) × (inet_pton host ≡ some bytes)
      × (mask ≤ 32)
      × (apply_mask mask (record { family = af_inet; sin_addr = bytes }) ≡ some addr)
unfolding parse_addr
parse_addr_steps inet_pton item {addr} {mask} e =
    let parts = split_slash (buffer item) in
    let (inmask, e₁, f₁) = >>=-eq-some (in_mask parts.1) _ e in
    let (bytes, e₂, f₂) = >>=-eq-some (inet_pton parts.0) _ f₁ in
    let (m, e₃, f₃) = >>=-eq-some (range_mask inmask) _ f₂ in
    let (masked, e₄, f₄) =
      >>=-eq-some (apply_mask m (record { family = af_inet; sin_addr = bytes })) _ f₃ in
    let le : m ≤ 32 = ground arith in
    let same : m ≡ mask = cc in
    let done : masked ≡ addr = cc in (parts.0, bytes, e₂, rw (← same) le, rw (← same, ← done) e₄)
