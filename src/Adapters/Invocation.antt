-- ===== src/Adapters/Invocation.antt =====
-- What a shell makes of `quote_invocation` of ar724/adapters.
use ztrade_ares_7x.Base.{
  Bool-cases, any, ◌≡◌, refl, inl, inr, true, List, [], ◌∷◌, ◌++◌, map, append_assoc, arith,
}
use ztrade_ares_7x.Base.Result.{ok}
use ztrade_ares_7x.Base.Texts.{Text, codes, text_eq, text_eq_refl, text_eq→eq}
use ztrade_ares_7x.Spawner.{quote}
use ztrade_ares_7x.Spawner.Words.{first_word-quote, Words, last, next}
use ztrade_ares_7x.Adapters.{
  decimal, join, build_invocation, registry, lookup_adapter, get_adapter, list_adapters,
  quote_invocation, DelegationPacket, Adapter, claude_code, codex, opencode,
}

-- The line of a command is read back as its arguments.
quote_invocation-Words :
    (arg : Text) (argv : List Text) (rest : Text)
    → Words (10 ∷ []) (quote_invocation (arg ∷ argv) ++ 10 ∷ rest) (arg ∷ argv) rest
unfolding quote_invocation
quote_invocation-Words arg [] rest =
    last (quote arg ++ 10 ∷ rest) arg (first_word-quote arg (10 ∷ rest) refl)
quote_invocation-Words arg (more ∷ argv) rest =
    let others = quote_invocation (more ∷ argv) ++ 10 ∷ rest in
    rw (append_assoc (quote arg) (codes " " ++ quote_invocation (more ∷ argv)) (10 ∷ rest)) (
      next (quote arg ++ 32 ∷ others) arg others (first_word-quote arg (32 ∷ others) refl)
        (quote_invocation-Words more argv rest))

lookup_adapter-listed :
    (name : Text) (a : Adapter) (entries : List (Text × Adapter))
    → lookup_adapter name entries ≡ ok a
    → any (text_eq name) (map (λ e. e.0) entries) ≡ true
lookup_adapter-listed name a [] h = cc
lookup_adapter-listed name a ((key, adapter) ∷ entries) h = elim (Bool-cases (text_eq key name)) [
  | inl e ↦ rw (text_eq→eq key name e, text_eq_refl name) refl
  | inr e ↦ ground (arith, lookup_adapter-listed name a entries (rw e at h))
]

prompt_last :
    (a : Adapter) (packet : DelegationPacket) (prompt : Text)
    → (argv : List Text) × (build_invocation a packet prompt ≡ argv ++ prompt ∷ [])
prompt_last claude_code packet prompt = (
  codes "claude"
      ∷ (codes "--print"
          ∷ (codes "--tools"
              ∷ (join (codes ",") packet.allowed_tools
                  ∷ (codes "--max-steps" ∷ (decimal packet.max_steps ∷ []))))),
  refl,
)
prompt_last codex packet prompt =
    (codes "codex" ∷ (codes "exec" ∷ (codes "--max-steps" ∷ (decimal packet.max_steps ∷ []))), refl)
prompt_last opencode packet prompt = (
  codes "opencode" ∷ (codes "run" ∷ (codes "--max-steps" ∷ (decimal packet.max_steps ∷ []))),
  refl,
)

invocation-Words :
    (a : Adapter) (packet : DelegationPacket) (prompt rest : Text)
    → Words
        (10 ∷ [])
        (quote_invocation (build_invocation a packet prompt) ++ 10 ∷ rest)
        (build_invocation a packet prompt)
        rest
invocation-Words claude_code packet prompt rest = quote_invocation-Words _ _ rest
invocation-Words codex packet prompt rest = quote_invocation-Words _ _ rest
invocation-Words opencode packet prompt rest = quote_invocation-Words _ _ rest

-- For every adapter that get_adapter gives for a name, the name is one of list_adapters; and for
-- every packet and prompt the line of quote_invocation is, to a shell, the words that
-- build_invocation put together: the prompt is the last word, whatever characters are in it.
pub get_adapter-Words :
    (name : Text) (adapter : Adapter) (packet : DelegationPacket) (prompt rest : Text)
    → get_adapter name ≡ ok adapter
    → (any (text_eq name) list_adapters ≡ true)
      × Words
          (10 ∷ [])
          (quote_invocation (build_invocation adapter packet prompt) ++ 10 ∷ rest)
          (build_invocation adapter packet prompt)
          rest
      × ((argv : List Text) × (build_invocation adapter packet prompt ≡ argv ++ prompt ∷ []))
unfolding get_adapter list_adapters
get_adapter-Words name adapter packet prompt rest h = (
  lookup_adapter-listed name adapter registry h,
  invocation-Words adapter packet prompt rest,
  prompt_last adapter packet prompt,
)
