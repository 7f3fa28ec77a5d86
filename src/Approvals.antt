-- ===== src/Approvals.antt =====
-- The commands of ar724/cli.py that ask for an approval: `promotion set-baseline`, `mcp allowlist`
-- and `safety policy-reload`. The payload of a row is left out.
use Prim.Native.String.{◌++◌ as concat}
use ztrade_ares_7x.Base.{if◌then◌else◌, ℕ, String, Option, none, some, [], ◌∷◌, ◌++◌, str_eq}
use ztrade_ares_7x.Db.{Db}

-- the INSERT of the three commands
abbrev pub request : Db → (id : ℕ) → (reason risk_tier : String) → (now : ℕ) → Db
request db id reason risk_tier now = record db {
  approvals =
      db.approvals
      ++ record {
        id = id;
        requested_by = "operator";
        reason = reason;
        risk_tier = risk_tier;
        status = "pending";
        created_at = now;
      }
        ∷ [];
}

unfoldable pub promotion_set_baseline : Db → (id : ℕ) → (iter_tag : String) → (now : ℕ) → Db
promotion_set_baseline db id iter_tag now =
    request db id (concat "set-baseline " iter_tag) "medium" now

pub data Action : Type 0 where
  adding removing listing : Action

abbrev pub word : Action → String
word adding = "add"
word removing = "remove"
word listing = "list"

abbrev pub allowlist_for : Db → (id : ℕ) → Action → Option String → (now : ℕ) → Option Db
allowlist_for db id action none now = none
allowlist_for db id action (some server) now =
    if str_eq server ""
    then none
    else some (
        request db id (concat "mcp allowlist " (concat (word action) (concat " " server))) "high"
          now)

-- `none` is the exit with status 1, where a server is missing
unfoldable pub mcp_allowlist : Db → (id : ℕ) → Action → Option String → (now : ℕ) → Option Db
mcp_allowlist db id listing server now = some db
mcp_allowlist db id adding server now = allowlist_for db id adding server now
mcp_allowlist db id removing server now = allowlist_for db id removing server now

-- The database, and the cache of the safety policy, which is emptied at once.
unfoldable pub safety_policy_reload : {A : Type 0} → Db → Option A → (id now : ℕ) → Db × Option A
safety_policy_reload db cache id now = (request db id "safety policy reload" "high" now, none)
