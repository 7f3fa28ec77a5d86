-- ===== src/Safety.antt =====
-- The validators of paths, hosts and calls of ar724/safety.py. The resolver is the system's: it is an
-- argument. A path is the text that `Path(path).as_posix()` gives.
pub mod Write
pub mod Addresses
pub mod Examples
use text.Mathlib.Text.{find?}
use ztrade_ares_7x.Base.{
  ◌==◌, ℕ, ◌+◌, ◌*◌, ◌/◌, if◌then◌else◌, is_some, any, String, Bool, true, false, not, ◌&&◌, ◌||◌,
  Option, none, some, List, [], ◌∷◌, str_eq, starts_with,
}
use ztrade_ares_7x.Base.Result.{◌>>◌, Result, safety_violation, ok, err}

abbrev pub allowed_write_prefixes : List String
allowed_write_prefixes =
    "autoresearch/candidates/" ∷ "autoresearch/mutable/" ∷ "autoresearch/reports/"
    ∷ "autoresearch/protocol/" ∷ []

-- A denied prefix, and the same text without the slashes at its end.
abbrev pub denied_write_prefixes : List (String × String)
denied_write_prefixes =
    ("autoresearch/best/", "autoresearch/best")
    ∷ ("ar724/", "ar724")
    ∷ ("config/safety_policy.yaml", "config/safety_policy.yaml")
    ∷ (".ares/state.db", ".ares/state.db")
    ∷ (".ares/events.jsonl", ".ares/events.jsonl")
    ∷ []

-- `p.is_absolute()`, on a POSIX system
abbrev pub is_absolute : String → Bool
is_absolute posix = starts_with posix "/"

abbrev pub is_denied : String → Bool
is_denied posix =
    any (λ (prefix, bare). starts_with posix prefix || str_eq posix bare) denied_write_prefixes

abbrev pub in_mutable : String → Bool
in_mutable posix = starts_with posix "autoresearch/mutable/"

abbrev pub is_allowed : String → Bool
is_allowed posix = any (starts_with posix) allowed_write_prefixes

unfoldable pub validate_path_write : String → String → Result String
validate_path_write posix role =
    if is_absolute posix
    then err safety_violation
    else if is_denied posix
    then err safety_violation
    else if in_mutable posix && not (str_eq role "backtester")
    then err safety_violation
    else if is_allowed posix
    then ok posix
    else err safety_violation

-- `contains s t`: the text `t` occurs in `s`
abbrev pub contains : String → String → Bool
contains s t = is_some (find? s t)

unfoldable pub validate_path_read : String → Result String
validate_path_read posix =
    if is_absolute posix
    then err safety_violation
    else if starts_with posix "ar724/" && not (contains posix "/runbooks/")
    then err safety_violation
    else ok posix

-- What the text of an address parses to: nothing, an IPv4 address as its number, or an IPv6 address.
pub data Address : Type 0 where
  invalid v6 : Address
  v4 : ℕ → Address

-- the number of an IPv4 address
abbrev pub ip : (a b c d : ℕ) → ℕ
ip a b c d = ((a * 256 + b) * 256 + c) * 256 + d

-- the network's first address, and how many it has
abbrev pub private_nets : List (ℕ × ℕ)
private_nets =
    (ip 10 0 0 0, 16777216)
    ∷ (ip 172 16 0 0, 1048576)
    ∷ (ip 192 168 0 0, 65536)
    ∷ (ip 127 0 0 0, 16777216)
    ∷ (ip 169 254 0 0, 65536)
    ∷ (ip 0 0 0 0, 16777216)
    ∷ (ip 100 64 0 0, 4194304)
    ∷ []

-- `ip in net`: the leading bits are the same
abbrev pub in_net : ℕ → ℕ × ℕ → Bool
in_net n (first, size) = n / size == first / size

-- an IPv6 address is in no IPv4 network
abbrev pub next_address : Address → Bool → Bool
next_address invalid rest = false
next_address v6 rest = rest
next_address (v4 n) rest = any (in_net n) private_nets || rest

-- the loop over the answers of the resolver
unfoldable pub any_private : List Address → Bool
any_private [] = false
any_private (a ∷ as') = next_address a (any_private as')

-- The resolver gives no answer for a host that it does not know.
abbrev pub resolved : Option (List Address) → Bool
resolved none = false
resolved (some infos) = any_private infos

unfoldable pub is_private_ip : (String → Option (List Address)) → String → Bool
unfolding any_private
is_private_ip resolve host = resolved (resolve host)

-- `allowed` is the list of servers and tools in safety_policy.yaml
unfoldable pub validate_mcp_call :
    List (String × String) → (server tool : String) → Result (Unit {0})
validate_mcp_call allowed server tool =
    if any (λ (s, t). str_eq s server && str_eq t tool) allowed then ok tt else err safety_violation
