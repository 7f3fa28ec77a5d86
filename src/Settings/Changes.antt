-- ===== src/Settings/Changes.antt =====
-- What the commands of ar724/cli.py that change the configuration do as a whole.
use ztrade_ares_7x.Base.{
  Bool-cases, ℕ, String, ◌≡◌, refl, ◌⊎◌, inl, inr, false, Option, none, some, str_eq,
}
use ztrade_ares_7x.Base.Result.{Result, Exception, os_error, err, ok}
use ztrade_ares_7x.Db.{Event, Db}
use ztrade_ares_7x.Events.{
  is_valid_event_type, is_valid_severity, insert_event, emit_event, global_event,
}
use ztrade_ares_7x.Files.{Files, put, config_path, World}
use ztrade_ares_7x.Files.Atomic.{Tidy}
use ztrade_ares_7x.Settings.{
  changed, severity_of, get_loop_config, prepared, Answers, Json, Setting, goal_set, budget_set,
  scope_set, oscillation_set_policy,
}

-- the event of a change
abbrev pub audited : Setting → ℕ → Event
audited setting now = global_event "safety_violation_blocked" (severity_of setting) now

-- Either all is done: the configuration that is read next is the changed one, no other file has
-- changed, and one event is written. Or the file is changed so and there is no event: what comes
-- between the two has raised. Or an OSError is raised, there is no event, and no file but the
-- temporary one has changed.
abbrev pub IsWhole :
    Json → World → Answers → Files → Option String → Db → Setting → ℕ → Files × Result Db → Type 0
IsWhole json w a files env db setting now (files', result) =
    let old = get_loop_config json files none env in
    let config = changed setting old in
    (((prepared a setting old ≡ ok tt) × (result ≡ ok (insert_event db (audited setting now)))
        ⊎ ((e : Exception) × (prepared a setting old ≡ err e) × (result ≡ err e)))
      × (get_loop_config json files' none env ≡ config)
      × ((x : String) → files' x ≡ put files (config_path none env) (some (json.dumps config)) x))
    ⊎ ((result ≡ err os_error)
        × ((x : String) → str_eq w.temporary x ≡ false → files' x ≡ files x)
        × Tidy w files')

pub audit-ok :
    (db : Db) (setting : Setting) (now : ℕ)
    → emit_event db (audited setting now) ≡ ok (insert_event db (audited setting now))
unfolding emit_event is_valid_event_type is_valid_severity
audit-ok db (goal_set text) now = refl
audit-ok db (budget_set daily iter_runtime run_budget) now = refl
audit-ok db (scope_set method) now = refl
audit-ok db (oscillation_set_policy policy) now = elim (Bool-cases (str_eq policy "halt")) [
  | inl e ↦ rw e
  | inr e ↦ rw e
]
