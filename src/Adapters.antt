-- ===== src/Adapters.antt =====
-- ar724/adapters/__init__.py: the command lines of the three tools that work on a packet. Its
-- `to_json`, which nothing calls, and the entry `extra` that only this reads are left out.
pub mod Invocation
pub mod Examples
use Prim.Native.Nat.{◌%◌}
use ztrade_ares_7x.Base.{ltb, if◌then◌else◌, ℕ, zero, suc, ◌+◌, ◌/◌, not, List, [], ◌∷◌, ◌++◌, map}
use ztrade_ares_7x.Base.Result.{
  Result, Exception, ok, err, runtime_error, called_process_error, value_error,
}
use ztrade_ares_7x.Base.Texts.{Text, codes, text_eq}
use ztrade_ares_7x.Spawner.{quote}

pub record DelegationPacket : Type 0 where
  pub role : Text
  pub objective : Text
  pub context_paths : List Text
  pub allowed_tools : List Text
  pub write_scope : List Text
  pub output_schema : Text
  pub max_steps : ℕ
  pub timeout_seconds : ℕ
  pub budget_cents : ℕ

pub data Adapter : Type 0 where
  claude_code codex opencode : Adapter

-- `str` of a whole number that is not negative, with one unit of fuel for each digit
abbrev digits : ℕ → ℕ → Text
digits zero n = []
digits (suc fuel) n =
    let rest = digits fuel (n / 10) in
    if ltb n 10 then (48 + n) ∷ [] else rest ++ (48 + n % 10) ∷ []

unfoldable pub decimal : ℕ → Text
decimal n = digits (suc n) n

-- `separator.join(texts)`
abbrev pub join : Text → List Text → Text
join separator [] = []
join separator (t ∷ []) = t
join separator (t ∷ (u ∷ us)) = t ++ (separator ++ join separator (u ∷ us))

abbrev pub build_invocation : Adapter → DelegationPacket → (prompt : Text) → List Text
build_invocation claude_code packet prompt =
    codes "claude"
    ∷ (codes "--print"
        ∷ (codes "--tools"
            ∷ (join (codes ",") packet.allowed_tools
                ∷ (codes "--max-steps" ∷ (decimal packet.max_steps ∷ (prompt ∷ []))))))
build_invocation codex packet prompt =
    codes "codex"
    ∷ (codes "exec" ∷ (codes "--max-steps" ∷ (decimal packet.max_steps ∷ (prompt ∷ []))))
build_invocation opencode packet prompt =
    codes "opencode"
    ∷ (codes "run" ∷ (codes "--max-steps" ∷ (decimal packet.max_steps ∷ (prompt ∷ []))))

abbrev pub registry : List (Text × Adapter)
registry =
    (codes "claude_code", claude_code)
    ∷ ((codes "codex", codex) ∷ ((codes "opencode", opencode) ∷ []))

abbrev pub lookup_adapter : Text → List (Text × Adapter) → Result Adapter
lookup_adapter name [] = err value_error
lookup_adapter name ((key, adapter) ∷ entries) =
    let rest = lookup_adapter name entries in if text_eq key name then ok adapter else rest

unfoldable pub get_adapter : Text → Result Adapter
get_adapter name = lookup_adapter name registry

-- the registry's keys, which stand in their order
unfoldable pub list_adapters : List Text
list_adapters = map (λ e. e.0) registry

unfoldable pub quote_invocation : List Text → Text
quote_invocation argv = join (codes " ") (map quote argv)
