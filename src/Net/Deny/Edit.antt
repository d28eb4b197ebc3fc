-- ===== src/Net/Deny/Edit.antt =====
-- What `IPDenyList::add` and `IPDenyList::remove` change.
use sourcemud.Base.{
  sym, ◌∙◌, ℕ, ◌≡◌, ◌↔◌, ◌⊎◌, inl, inr, refl, Bool, true, false, Option, none, some, List, [], ◌∷◌,
  ◌++◌, arith,
}
use sourcemud.Base.Int.{ℤ, pos, negsuc, is_zero}
use sourcemud.Base.Lists.{All}
use sourcemud.Base.Tests.{Bool-cases, Option-cases}
use sourcemud.Base.Text.{Text, text_eq_iff}
use sourcemud.Net.Addr.{NetAddr, parse_addr}
use sourcemud.Net.Deny.{IpDeny, listed, add, add_parsed}
use sourcemud.Net.Deny.Laws.{IsHost, IsEntry, addrcmp-text_eq, Covered}
use sourcemud.Net.Mask.{IsAddr, prefix_bits, parse_addr_masked}

-- Some entry has the address.
abbrev pub Listed : List IpDeny → NetAddr → Type 0
Listed [] a = ⊥
Listed (d ∷ ds) a = (a.sin_addr ≡ d.addr.sin_addr) ⊎ Listed ds a

listed-Listed :
    (ds : List IpDeny) (a : NetAddr)
    → All IsEntry ds
    → IsHost a
    → (b : Bool) × (listed ds a ≡ some b) × ((b ≡ true) ↔ Listed ds a)
unfolding listed
listed-Listed [] a hs ha = (false, refl, (λ e. cc, λ h. absurd h))
listed-Listed (d ∷ ds) a hs ha =
    let (sign, e, z) = addrcmp-text_eq a d.addr ha hs.0.host in
    let (b, rest, (there, back)) = listed-Listed ds a hs.1 ha in
    let (same, same') = text_eq_iff a.sin_addr d.addr.sin_addr in
    elim (Bool-cases (is_zero sign)) [
      | inl hit ↦ (true, rw (e, hit), (λ k. inl (same (sym z ∙ hit)), λ k. refl))
      | inr miss ↦ (
        b,
        rw (e, miss, rest),
        (
          λ k. inr (there k),
          elim [ inl k ↦ absurd (ground (arith, sym z ∙ miss, same' k)) | inr k ↦ back k ],
        ),
      )
    ]

All-append {ℓ κ} :
    {A : Type ℓ} (P : A → Type κ) (xs : List A) (x : A) → All P xs → P x → All P (xs ++ x ∷ [])
All-append P [] x hs h = (h, tt)
All-append P (y ∷ ys) x hs h = (hs.0, All-append P ys x hs.1 h)

Covered-append :
    (ds : List IpDeny) (d : IpDeny) (a : NetAddr)
    → Covered (ds ++ d ∷ []) a ↔ (Covered ds a ⊎ (prefix_bits d.mask a.sin_addr ≡ d.addr.sin_addr))
Covered-append [] d a =
    (elim [ inl h ↦ inr h | inr h ↦ absurd h ], elim [ inl h ↦ absurd h | inr h ↦ inl h ])
Covered-append (x ∷ ds) d a =
    let (there, back) = Covered-append ds d a in
    (
      elim [ inl h ↦ inl (inl h) | inr h ↦ elim (there h) [ inl k ↦ inl (inr k) | inr k ↦ inr k ] ],
      elim [
        | inl h ↦ elim h [ inl k ↦ inl k | inr k ↦ inr (back (inl k)) ]
        | inr h ↦ inr (back (inr h))
      ],
    )

-- What a call of `add` leaves: where an entry has the address, the same list and 1; where none has, the
-- entry behind the others, 0, and the hosts under it denied too.
abbrev pub Adds : List IpDeny → NetAddr → ℕ → List IpDeny × ℤ → Type 0
Adds ds addr mask (ds', code) =
    (Listed ds addr × (code ≡ pos 1) × (ds' ≡ ds))
    ⊎ ((¬ Listed ds addr)
        × (code ≡ pos 0)
        × (ds' ≡ ds ++ record { addr = addr; mask = mask } ∷ [])
        × ((a : NetAddr)
            → Covered ds' a ↔ (Covered ds a ⊎ (prefix_bits mask a.sin_addr ≡ addr.sin_addr))))

module _ (inet_pton : Text → Option (List ℕ))
    (reads : (host : Text) (bytes : List ℕ) → inet_pton host ≡ some bytes → IsAddr bytes)
    (ds : List IpDeny) (line : Text) (entries : All IsEntry ds) where
  -- To a list of well-formed entries, add of a line that is no address changes nothing and gives
  -- -1. Any other line keeps the entries well formed: where an entry has the line's address, the
  -- list stays as it is and the result is 1; where none has, the result is 0, the line's address
  -- and mask are one more entry, and exactly the hosts whose first bits are the address are denied
  -- besides those denied before.
  pub add-Adds :
      ((parse_addr inet_pton line ≡ none) × (add inet_pton ds line ≡ some (ds, negsuc 0)))
      ⊎ ((addr : NetAddr) × (mask : ℕ) × (r : List IpDeny × ℤ) × (parse_addr inet_pton line
            ≡ some (addr, mask))
          × (add inet_pton ds line ≡ some r)
          × All IsEntry r.0
          × Adds ds addr mask r)
  unfolding add
  add-Adds = elim (Option-cases (parse_addr inet_pton line)) [
    | inl e ↦ inl (e, rw (e, add_parsed))
    | inr ((addr, mask), e) ↦ inr (added addr mask e)
  ]
    where
      added :
          (addr : NetAddr) (mask : ℕ)
          → parse_addr inet_pton line ≡ some (addr, mask)
          → (addr : NetAddr) × (mask : ℕ) × (r : List IpDeny × ℤ) × (parse_addr inet_pton line
              ≡ some (addr, mask))
            × (add inet_pton ds line ≡ some r)
            × All IsEntry r.0
            × Adds ds addr mask r
      added addr mask e =
          let (inet, bytes, le, whole) = parse_addr_masked inet_pton line addr mask reads e in
          let host : IsHost addr = record { inet = inet; bytes = bytes } in
          let (b, found, (is_listed, must)) = listed-Listed ds addr entries host in
          let d : IpDeny = record { addr = addr; mask = mask } in
          elim (Bool-cases b) [
            | inl old ↦ (
              addr,
              mask,
              (ds, pos 1),
              e,
              rw (e, add_parsed, found, old),
              entries,
              inl (is_listed old, refl, refl),
            )
            | inr new ↦ (
              addr,
              mask,
              (ds ++ d ∷ [], pos 0),
              e,
              rw (e, add_parsed, found, new),
              All-append IsEntry ds d entries (record { host = host; mask_le = le }),
              inr (λ k. ground (arith, must k), refl, refl, λ a. Covered-append ds d a),
            )
          ]
