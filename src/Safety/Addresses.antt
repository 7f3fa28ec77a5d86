-- ===== src/Safety/Addresses.antt =====
-- Which hosts are private: ar724/safety.py, `is_private_ip`.
use ztrade_ares_7x.Base.{
  any, ℕ, ◌≤◌, String, ◌≡◌, refl, ◌↔◌, ◌⊎◌, inl, inr, Bool, true, false, ◌||◌, Option, none, some,
  List, [], ◌∷◌, arith, subst,
}
use ztrade_ares_7x.Safety.{
  ip, private_nets, in_net, any_private, resolved, is_private_ip, Address, invalid, v6, v4,
}

-- the addresses from one to another
abbrev pub Between : (first last : ℕ) → ℕ → Type 0
Between first last n = (first ≤ n) × (n ≤ last)

-- The private networks of RFC 1918, loopback, link-local, this network, and shared addresses.
abbrev pub IsLocal : ℕ → Type 0
IsLocal n =
    Between (ip 10 0 0 0) (ip 10 255 255 255) n
    ⊎ Between (ip 172 16 0 0) (ip 172 31 255 255) n
    ⊎ Between (ip 192 168 0 0) (ip 192 168 255 255) n
    ⊎ Between (ip 127 0 0 0) (ip 127 255 255 255) n
    ⊎ Between (ip 169 254 0 0) (ip 169 254 255 255) n
    ⊎ Between (ip 0 0 0 0) (ip 0 255 255 255) n
    ⊎ Between (ip 100 64 0 0) (ip 100 127 255 255) n

IsLocal-iff : (n : ℕ) → (any (in_net n) private_nets ≡ true) ↔ IsLocal n
IsLocal-iff n = (λ h. ground arith, λ h. ground arith)

-- An answer is local, and all in front of it parse.
abbrev pub Exposed : List Address → Type 0
Exposed [] = ⊥
Exposed (invalid ∷ infos) = ⊥
Exposed (v6 ∷ infos) = Exposed infos
Exposed (v4 n ∷ infos) = IsLocal n ⊎ Exposed infos

or_iff : {A B : Type 0} (a b : Bool) → (a ≡ true) ↔ A → (b ≡ true) ↔ B → ((a || b) ≡ true) ↔ (A ⊎ B)
or_iff true b f g = (λ _. inl (f.0 refl), λ _. refl)
or_iff false b f g = (λ h. inr (g.0 h), λ h. elim h [ inl x ↦ absurd (cc (f.1 x)) | inr y ↦ g.1 y ])

any_private_iff : (infos : List Address) → (any_private infos ≡ true) ↔ Exposed infos
unfolding any_private
any_private_iff [] = (λ h. cc, λ h. absurd h)
any_private_iff (invalid ∷ infos) = (λ h. cc, λ h. absurd h)
any_private_iff (v6 ∷ infos) = any_private_iff infos
any_private_iff (v4 n ∷ infos) =
    or_iff (any (in_net n) private_nets) (any_private infos) (IsLocal-iff n) (any_private_iff infos)

-- A host is taken for private exactly if the resolver knows it, and among its answers is an IPv4
-- address of one of these ranges, with no text in front of it that is no address. So an IPv6
-- address never makes a host private, whatever it is.
pub is_private_ip_iff :
    (resolve : String → Option (List Address)) (host : String)
    → (is_private_ip resolve host ≡ true)
      ↔ ((infos : List Address) × (resolve host ≡ some infos) × Exposed infos)
unfolding is_private_ip
is_private_ip_iff resolve host = found (resolve host)
  where
    found :
        (o : Option (List Address))
        → (resolved o ≡ true) ↔ ((infos : List Address) × (o ≡ some infos) × Exposed infos)
    found none = (λ h. cc, λ h. cc (h.1))
    found (some infos) = (
      λ h. (infos, refl, (any_private_iff infos).0 h),
      λ (seen, same, h).
          (any_private_iff infos).1 (subst Exposed {x = seen} {y = infos} (cc same) h),
    )
