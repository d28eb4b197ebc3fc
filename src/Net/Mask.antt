-- ===== src/Net/Mask.antt =====
-- `NetAddr::applyMask` clears the bits behind the mask, and leaves the others.
use Prim.Native.Nat.{bit_and, min}
use native.Mathlib.Nat.{mul-div_cancel, div-mul-le_self, one-le-pow}
use sourcemud.Base.{
  ℕ, ◌-◌, ◌*◌, ◌/◌, ◌%◌, ◌^◌, ◌≤◌, ◌<◌, ◌≡◌, refl, ap, subst, ◌∙◌, true, Option, none, some, List,
  [], ◌∷◌, arith,
}
use sourcemud.Base.Lists.{length, All}
use sourcemud.Base.Tables.{table, table-entry}
use sourcemud.Base.Tests.{leb, ◌==◌, ==_iff, if◌then◌else◌}
use sourcemud.Base.Text.{Text, text_eq, text_eq_iff}
use sourcemud.Net.Addr.{
  NetAddr, af_inet, parse_addr, parse_addr_steps, mask_buffer, and_bytes, apply_mask,
}

-- The first `k` bits of a byte.
abbrev pub top_bits : ℕ → ℕ → ℕ
top_bits k x = x / 2 ^ (8 - k) * 2 ^ (8 - k)

-- The first `mask` bits of a sequence of bytes, the others cleared.
unfoldable pub prefix_bits : ℕ → List ℕ → List ℕ
prefix_bits mask [] = []
prefix_bits mask (b ∷ bs) = top_bits (min 8 mask) b ∷ prefix_bits (mask - 8) bs

-- The mask's bytes for `r` bits, 0 to 8, against the first bits of every byte.
abbrev mask_byte : ℕ → ℕ
mask_byte r = 0xff00 / 2 ^ r % 256

byte_table : table (λ r. table (λ x. bit_and x (mask_byte r) == top_bits r x) 256) 9 ≡ true
unfolding table
byte_table = refl

bit_and-mask_byte : (r x : ℕ) → r < 9 → x < 256 → bit_and x (mask_byte r) ≡ top_bits r x
bit_and-mask_byte r x hr hx =
    let row =
      table-entry (λ r. table (λ x. bit_and x (mask_byte r) == top_bits r x) 256) {bound = 9} r
        byte_table hr in
    (==_iff _ _).0
      (table-entry (λ x. bit_and x (mask_byte r) == top_bits r x) {bound = 256} x row hx)

abbrev mask_bytes : ℕ → List ℕ
mask_bytes mask =
    mask_byte (min 8 mask)
    ∷ mask_byte (min 8 (mask - 8))
    ∷ mask_byte (min 8 (mask - 8 - 8))
    ∷ mask_byte (min 8 (mask - 8 - 8 - 8))
    ∷ []

buffer_table :
    table (λ mask. text_eq (mask_buffer (mask / 8) (mask % 8)) (mask_bytes mask)) 33 ≡ true
unfolding table text_eq mask_buffer
buffer_table = refl

mask_buffer-mask_bytes :
    (mask : ℕ) → mask ≤ 32 → mask_buffer (mask / 8) (mask % 8) ≡ mask_bytes mask
mask_buffer-mask_bytes mask h = (text_eq_iff _ _).0 (
    table-entry (λ mask. text_eq (mask_buffer (mask / 8) (mask % 8)) (mask_bytes mask)) {bound = 33}
      mask buffer_table (omega arith))

-- Four bytes.
pub record IsAddr (bytes : List ℕ) : Type 0 where
  pub four : length bytes ≡ 4
  pub small : All (λ b. b < 256) bytes

and_bytes-prefix_bits :
    (mask : ℕ) (a b c d : ℕ)
    → a < 256
    → b < 256
    → c < 256
    → d < 256
    → and_bytes (a ∷ b ∷ c ∷ d ∷ []) (mask_bytes mask) ≡ prefix_bits mask (a ∷ b ∷ c ∷ d ∷ [])
unfolding and_bytes prefix_bits
and_bytes-prefix_bits mask a b c d ha hb hc hd = rw (
  bit_and-mask_byte (min 8 mask) a (omega arith) ha,
  bit_and-mask_byte (min 8 (mask - 8)) b (omega arith) hb,
  bit_and-mask_byte (min 8 (mask - 8 - 8)) c (omega arith) hc,
  bit_and-mask_byte (min 8 (mask - 8 - 8 - 8)) d (omega arith) hd,
)

and_buffer-prefix_bits :
    (mask : ℕ) (bytes : List ℕ)
    → mask ≤ 32
    → IsAddr bytes
    → and_bytes bytes (mask_buffer (mask / 8) (mask % 8)) ≡ prefix_bits mask bytes
and_buffer-prefix_bits mask (a ∷ b ∷ c ∷ d ∷ []) le v =
    rw (mask_buffer-mask_bytes mask le)
      (and_bytes-prefix_bits mask a b c d v.small.0 v.small.1.0 v.small.1.1.0 v.small.1.1.1.0)
and_buffer-prefix_bits mask [] le v = absurd (omega (arith, v.four))
and_buffer-prefix_bits mask (a ∷ []) le v = absurd (omega (arith, v.four))
and_buffer-prefix_bits mask (a ∷ b ∷ []) le v = absurd (omega (arith, v.four))
and_buffer-prefix_bits mask (a ∷ b ∷ c ∷ []) le v = absurd (omega (arith, v.four))
and_buffer-prefix_bits mask (a ∷ b ∷ c ∷ d ∷ e ∷ r) le v = absurd (omega (arith, v.four))

-- A mask of up to 32 bits keeps the first `mask` bits of an address and clears the others, and a
-- longer mask fails the assertion.
pub apply_mask-prefix_bits :
    (mask : ℕ) (a : NetAddr)
    → IsAddr a.sin_addr
    → apply_mask mask a
      ≡ (if leb mask 32 then some (record a { sin_addr = prefix_bits mask a.sin_addr }) else none)
unfolding apply_mask
apply_mask-prefix_bits mask a v = ground (arith, and_buffer-prefix_bits mask a.sin_addr)

top_bits_twice : (k x : ℕ) → top_bits k (top_bits k x) ≡ top_bits k x
top_bits_twice k x =
    ap (λ (n : ℕ). n * 2 ^ (8 - k))
      (mul-div_cancel (x / 2 ^ (8 - k)) (one-le-pow (8 - k) 2 (omega arith)))

prefix_bits_idem :
    (mask : ℕ) (bytes : List ℕ) → prefix_bits mask (prefix_bits mask bytes) ≡ prefix_bits mask bytes
unfolding prefix_bits
prefix_bits_idem mask [] = refl
prefix_bits_idem mask (b ∷ bs) = cc (top_bits_twice (min 8 mask) b, prefix_bits_idem (mask - 8) bs)

top_bits-le : (k x : ℕ) → top_bits k x ≤ x
top_bits-le k x = div-mul-le_self x (2 ^ (8 - k))

pub length-prefix_bits :
    (mask : ℕ) (bytes : List ℕ) → length (prefix_bits mask bytes) ≡ length bytes
unfolding prefix_bits
length-prefix_bits mask [] = refl
length-prefix_bits mask (b ∷ bs) = omega (arith, length-prefix_bits (mask - 8) bs)

prefix_bits_small :
    (mask : ℕ) (bytes : List ℕ)
    → All (λ b. b < 256) bytes
    → All (λ b. b < 256) (prefix_bits mask bytes)
unfolding prefix_bits
prefix_bits_small mask [] h = tt
prefix_bits_small mask (b ∷ bs) h =
    (omega (arith, top_bits-le (min 8 mask) b, h.0), prefix_bits_small (mask - 8) bs h.1)

pub prefix_bits-IsAddr :
    (mask : ℕ) (bytes : List ℕ) → IsAddr bytes → IsAddr (prefix_bits mask bytes)
prefix_bits-IsAddr mask bytes v = record {
  four = length-prefix_bits mask bytes ∙ v.four;
  small = prefix_bits_small mask bytes v.small;
}

-- An address that is read from text is a masked one of the IPv4 family, and its mask is in range,
-- given that the system's reader gives four bytes.
pub parse_addr_masked :
    (inet_pton : Text → Option (List ℕ)) (item : Text) (addr : NetAddr) (mask : ℕ)
    → ((host : Text) (bytes : List ℕ) → inet_pton host ≡ some bytes → IsAddr bytes)
    → parse_addr inet_pton item ≡ some (addr, mask)
    → (addr.family ≡ af_inet)
      × IsAddr addr.sin_addr
      × (mask ≤ 32)
      × (prefix_bits mask addr.sin_addr ≡ addr.sin_addr)
parse_addr_masked inet_pton item addr mask reads e =
    let (host, bytes, e', le, masked) = parse_addr_steps inet_pton item e in
    let v = reads host bytes e' in
    let read : NetAddr = record { family = af_inet; sin_addr = bytes } in
    let out = record read { sin_addr = prefix_bits mask bytes } in
    let known : out ≡ addr = ground (arith, apply_mask-prefix_bits mask read v) in
    subst
      (λ (a : NetAddr).
        (a.family ≡ af_inet)
        × IsAddr a.sin_addr
        × (mask ≤ 32)
        × (prefix_bits mask a.sin_addr ≡ a.sin_addr))
      known (refl, prefix_bits-IsAddr mask bytes v, le, prefix_bits_idem mask bytes)
