-- ===== src/Safety/Examples.antt =====
-- A path that may be written, and hosts.
use ztrade_ares_7x.Base.{
  if◌then◌else◌, str_eq, Option, List, none, true, false, String, ◌≡◌, refl, ◌↔◌, some, [], ◌∷◌,
}
use ztrade_ares_7x.Base.Result.{safety_violation, ok, err}
use ztrade_ares_7x.Safety.{validate_path_write, ip, is_private_ip, Address, v4, v6}
use ztrade_ares_7x.Safety.Write.{validate_path_write_iff, IsPermitted}
use ztrade_ares_7x.Safety.Addresses.{Exposed, is_private_ip_iff}

validate_path_write_iff_example :
    ((validate_path_write "autoresearch/mutable/candidate.json" "backtester"
        ≡ ok "autoresearch/mutable/candidate.json")
      ↔ IsPermitted "autoresearch/mutable/candidate.json" "backtester")
    × ((validate_path_write "autoresearch/mutable/candidate.json" "backtester"
          ≡ err safety_violation)
        ↔ (¬ IsPermitted "autoresearch/mutable/candidate.json" "backtester"))
validate_path_write_iff_example =
    validate_path_write_iff "autoresearch/mutable/candidate.json" "backtester"

-- a host with an IPv6 and an IPv4 address of the machine itself, and one with the former only
abbrev resolve : String → Option (List Address)
resolve host =
    if str_eq host "localhost"
    then some (v6 ∷ (v4 (ip 127 0 0 1) ∷ []))
    else if str_eq host "::1"
    then some (v6 ∷ [])
    else none

is_private_ip_iff_example :
    (is_private_ip resolve "localhost" ≡ true)
    ↔ ((infos : List Address) × (resolve "localhost" ≡ some infos) × Exposed infos)
is_private_ip_iff_example = is_private_ip_iff resolve "localhost"

loopback : (is_private_ip resolve "localhost" ≡ true) × (is_private_ip resolve "::1" ≡ false)
unfolding is_private_ip
loopback = (refl, refl)
