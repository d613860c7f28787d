-- ===== src/Frontend/Field/RoundTrip.antt =====
-- backend/src/agent/graph.py, `_build_metadata_prefix`, with frontend/app.py, `extract_field`: what is read of what was
-- written.
use mathlib.Core.Option
use drift_triage_co_pilot.Prelude.{
  ℕ, ◌≡◌, refl, ap, ◌∙◌, true, String, ◌&◌, truthy, truthy-append, codes, codes-append, str_int,
  nat_eq, Option, none, some, List, ◌++◌, append_assoc, arith,
}
use drift_triage_co_pilot.Drift.Severity.{severity_text}
use drift_triage_co_pilot.Worker.Dedup.{action_text, no_action}
use drift_triage_co_pilot.Agent.State.{AgentState}
use drift_triage_co_pilot.Agent.Dispatch.{build_metadata_prefix, status_text}
use drift_triage_co_pilot.Frontend.Field.{
  strip_prefix, match_here, search, pattern_of, extract_field,
}
use drift_triage_co_pilot.Frontend.Field.Search.{
  IsPlain, search-value, search-hit, keys_checked, severity_or-IsPlain, version_or-IsPlain,
  action_text-IsPlain,
}

-- The search passes over what stands between the values.
to_name_severity :
    (rest : List ℕ)
    → search (pattern_of "model_name") (codes "severity=" ++ rest)
      ≡ search (pattern_of "model_name") (rest)
unfolding search match_here strip_prefix
to_name_severity rest = refl

to_name :
    (rest : List ℕ)
    → search (pattern_of "model_name") (codes ", model_name=" ++ rest)
      ≡ search (pattern_of "model_name") (pattern_of "model_name" ++ rest)
unfolding search match_here strip_prefix
to_name rest = refl

to_version_severity :
    (rest : List ℕ)
    → search (pattern_of "model_version") (codes "severity=" ++ rest)
      ≡ search (pattern_of "model_version") (rest)
unfolding search match_here strip_prefix
to_version_severity rest = refl

to_version_name :
    (rest : List ℕ)
    → search (pattern_of "model_version") (codes ", model_name=" ++ rest)
      ≡ search (pattern_of "model_version") (rest)
unfolding search match_here strip_prefix
to_version_name rest = refl

to_version :
    (rest : List ℕ)
    → search (pattern_of "model_version") (codes ", model_version=" ++ rest)
      ≡ search (pattern_of "model_version") (pattern_of "model_version" ++ rest)
unfolding search match_here strip_prefix
to_version rest = refl

to_action_severity :
    (rest : List ℕ)
    → search (pattern_of "action") (codes "severity=" ++ rest) ≡ search (pattern_of "action") (rest)
unfolding search match_here strip_prefix
to_action_severity rest = refl

to_action_name :
    (rest : List ℕ)
    → search (pattern_of "action") (codes ", model_name=" ++ rest)
      ≡ search (pattern_of "action") (rest)
unfolding search match_here strip_prefix
to_action_name rest = refl

to_action_version :
    (rest : List ℕ)
    → search (pattern_of "action") (codes ", model_version=" ++ rest)
      ≡ search (pattern_of "action") (rest)
unfolding search match_here strip_prefix
to_action_version rest = refl

to_action :
    (rest : List ℕ)
    → search (pattern_of "action") (codes ", action=" ++ rest)
      ≡ search (pattern_of "action") (pattern_of "action" ++ rest)
unfolding search match_here strip_prefix
to_action rest = refl

module _ {F : Type 0} where
  -- What the agent knows of the alert and the action, in words.
  abbrev pub shown_severity : AgentState F → String
  shown_severity s = elim s.alert.severity [ none ↦ "unknown" | some v ↦ severity_text v ]

  abbrev pub shown_name : AgentState F → String
  shown_name s = Option.get_or s.alert.model_name "unknown"

  abbrev pub shown_version : AgentState F → String
  shown_version s = elim s.alert.model_version [ none ↦ "unknown" | some v ↦ str_int v ]

  abbrev pub shown_action : AgentState F → String
  shown_action s = action_text (Option.get_or s.proposed_action no_action)

  abbrev after_action : AgentState F → String → List ℕ
  after_action s body =
      codes ", dispatch=" ++ (codes (status_text s.dispatch_status) ++ (codes "\n\n" ++ codes body))

  prefix_codes :
      (s : AgentState F) (body : String)
      → codes (build_metadata_prefix s & body)
        ≡ codes "severity="
          ++ (codes (shown_severity s)
              ++ (codes ", model_name="
                  ++ (codes (shown_name s)
                      ++ (codes ", model_version="
                          ++ (codes (shown_version s)
                              ++ (codes ", action="
                                  ++ (codes (shown_action s) ++ after_action s body)))))))
  unfolding build_metadata_prefix
  prefix_codes s body = simp (codes-append, append_assoc)

  abbrev field_in : AgentState F → String → String → Option (List ℕ)
  field_in s body name = search (pattern_of name) (codes (build_metadata_prefix s & body))

  severity-IsPlain : (s : AgentState F) → IsPlain (codes (shown_severity s))
  severity-IsPlain s = severity_or-IsPlain s.alert.severity

  version-IsPlain : (s : AgentState F) → IsPlain (codes (shown_version s))
  version-IsPlain s = version_or-IsPlain s.alert.model_version

  find_severity :
      (s : AgentState F) (body : String)
      → field_in s body "severity" ≡ some (codes (shown_severity s))
  find_severity s body =
      ap (search (pattern_of "severity")) (prefix_codes s body)
      ∙ search-hit (pattern_of "severity") (codes (shown_severity s)) _ (omega arith)
          (severity-IsPlain s)

  find_name :
      (s : AgentState F) (body : String)
      → IsPlain (codes (shown_name s))
      → field_in s body "model_name" ≡ some (codes (shown_name s))
  find_name s body name =
      ap (search (pattern_of "model_name")) (prefix_codes s body)
      ∙ (to_name_severity _
          ∙ (search-value (codes "model_name") (codes (shown_severity s)) _
                (keys_checked (codes "model_name") refl) (severity-IsPlain s).plain
              ∙ (to_name _
                  ∙ search-hit (pattern_of "model_name") (codes (shown_name s)) _ (omega arith)
                      name)))

  find_version :
      (s : AgentState F) (body : String)
      → IsPlain (codes (shown_name s))
      → field_in s body "model_version" ≡ some (codes (shown_version s))
  find_version s body name =
      let key = keys_checked (codes "model_version") refl in
      ap (search (pattern_of "model_version")) (prefix_codes s body)
      ∙ (to_version_severity _
          ∙ (search-value (codes "model_version") (codes (shown_severity s)) _ key
                (severity-IsPlain s).plain
              ∙ (to_version_name _
                  ∙ (search-value (codes "model_version") (codes (shown_name s)) _ key name.plain
                      ∙ (to_version _
                          ∙ search-hit (pattern_of "model_version") (codes (shown_version s)) _
                              (omega arith) (version-IsPlain s))))))

  find_action :
      (s : AgentState F) (body : String)
      → IsPlain (codes (shown_name s))
      → field_in s body "action" ≡ some (codes (shown_action s))
  find_action s body name =
      let key = keys_checked (codes "action") refl in
      ap (search (pattern_of "action")) (prefix_codes s body)
      ∙ (to_action_severity _
          ∙ (search-value (codes "action") (codes (shown_severity s)) _ key
                (severity-IsPlain s).plain
              ∙ (to_action_name _
                  ∙ (search-value (codes "action") (codes (shown_name s)) _ key name.plain
                      ∙ (to_action_version _
                          ∙ (search-value (codes "action") (codes (shown_version s)) _ key
                                (version-IsPlain s).plain
                              ∙ (to_action _
                                  ∙ search-hit (pattern_of "action") (codes (shown_action s)) _
                                      (omega arith)
                                      (action_text-IsPlain
                                        (Option.get_or s.proposed_action no_action)))))))))

  prefix-truthy :
      (s : AgentState F) (body : String) → truthy (build_metadata_prefix s & body) ≡ true
  unfolding build_metadata_prefix
  prefix-truthy s body = truthy-append _ body (truthy-append "severity=" _ refl)

  extract-found :
      (s : AgentState F) (body name : String) (v : List ℕ)
      → field_in s body name ≡ some v
      → extract_field (some (build_metadata_prefix s & body)) name ≡ v
  unfolding extract_field
  extract-found s body name v found = rw (prefix-truthy s body) (rw found refl)

  -- Whatever summary the agent writes below its metadata: the dashboard reads the severity, the model's name and
  -- version, and the action from it as the agent has written them, if the name is not empty and has no comma, no dot,
  -- no white space and no equals sign.
  pub extract_field-build_metadata_prefix :
      (s : AgentState F) (body : String)
      → IsPlain (codes (shown_name s))
      → (extract_field (some (build_metadata_prefix s & body)) "severity"
          ≡ codes (shown_severity s))
        × (extract_field (some (build_metadata_prefix s & body)) "model_name"
            ≡ codes (shown_name s))
        × (extract_field (some (build_metadata_prefix s & body)) "model_version"
            ≡ codes (shown_version s))
        × (extract_field (some (build_metadata_prefix s & body)) "action" ≡ codes (shown_action s))
  extract_field-build_metadata_prefix s body name = (
    extract-found s body "severity" _ (find_severity s body),
    extract-found s body "model_name" _ (find_name s body name),
    extract-found s body "model_version" _ (find_version s body name),
    extract-found s body "action" _ (find_action s body name),
  )
