-- ===== src/Adapters/Examples.antt =====
-- A packet for the tool `claude`, with a prompt that has a quote and a semicolon.
use ztrade_ares_7x.Base.{any, ◌≡◌, refl, true, List, [], ◌∷◌, ◌++◌}
use ztrade_ares_7x.Base.Result.{ok}
use ztrade_ares_7x.Base.Texts.{Text, codes, text_eq}
use ztrade_ares_7x.Spawner.Words.{Words}
use ztrade_ares_7x.Adapters.{
  decimal, build_invocation, get_adapter, list_adapters, quote_invocation, DelegationPacket,
  claude_code,
}
use ztrade_ares_7x.Adapters.Invocation.{get_adapter-Words}

abbrev packet : DelegationPacket
packet = record {
  role = codes "builder";
  objective = codes "weights";
  context_paths = [];
  allowed_tools = codes "Read" ∷ (codes "Edit" ∷ []);
  write_scope = [];
  output_schema = [];
  max_steps = 120;
  timeout_seconds = 60;
  budget_cents = 10;
}

abbrev prompt : Text
prompt = codes "don't; stop"

line_test :
    quote_invocation (build_invocation claude_code packet prompt)
    ≡ codes "claude --print --tools Read,Edit --max-steps 120 'don'\"'\"'t; stop'"
unfolding quote_invocation decimal
line_test = refl

get_adapter_test : get_adapter (codes "claude_code") ≡ ok claude_code
unfolding get_adapter
get_adapter_test = refl

get_adapter-Words_example :
    (any (text_eq (codes "claude_code")) list_adapters ≡ true)
    × Words
        (10 ∷ [])
        (quote_invocation (build_invocation claude_code packet prompt) ++ 10 ∷ [])
        (build_invocation claude_code packet prompt)
        []
    × ((argv : List Text) × (build_invocation claude_code packet prompt ≡ argv ++ prompt ∷ []))
get_adapter-Words_example =
    get_adapter-Words (codes "claude_code") claude_code packet prompt [] get_adapter_test
