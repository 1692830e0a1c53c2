-- ===== src/Skills/Tests.antt =====
-- The skills of src/skills on a small host, and their properties at inputs that meet the hypotheses.
use claude_powerplant.Prelude.{
  ℕ, ◌≡◌, ◌≢◌, refl, ◌∙◌, ◌↔◌, String, ◌==◌, eq_iff, Bool, false, none, some, [], ◌∷◌, get, arith,
  if◌then◌else◌, keys, has, inherited_names,
}
use claude_powerplant.Text.{sort_texts}
use claude_powerplant.Skills.{
  SkillManifest, SkillRegistryRecord, absent, stored, disabled_inherited, file, Entries, nothing,
  entry, get_node, put_node, SkillStore, Host,
}
use claude_powerplant.Skills.Hash.{
  compute_skill_content_hash, hash_lines, join_lines, walk_entries, relative, in_order,
}
use claude_powerplant.Skills.Lifecycle.{
  success, Validated, Promoted, RolledBack, load_registry, read_text, read_candidate_manifest,
  bind_hash, validate_skill, bind_version, promote_skill, next_version, take_version,
  rollback_skill, summary_of, is_inherited, disable_skill, disable_inherited, save_registry,
}
use claude_powerplant.Skills.Envelope.{SkillEnvelope, envelope_text, render_prompt_envelope}
use claude_powerplant.Skills.Validation.{KeepsManifests, bound_manifest, validate_then_promote}
use claude_powerplant.Skills.Rendering.{Renders, render_iff}
use claude_powerplant.Skills.Versions.{tally, history}
use claude_powerplant.Skills.Rollback.{rollback_conserves, rollback_undone}
use claude_powerplant.Skills.Replay.{InSync, fresh, validate, promote, Operated-InSync}

abbrev plain : SkillManifest
plain = record {
  id = "c1";
  name = "my-skill";
  version = 1;
  description = "d";
  tags = [];
  created_at = "t0";
  promoted_at = none;
  source_run_id = none;
  sha256 = none;
  evaluation_passed = false;
  evaluation_at = none;
}

-- Two manifests, each with its own text.
abbrev host : Host
host = record {
  sha = λ s. "h";
  parse_manifest = λ s.
      if s == "raw"
      then some plain
      else if s == "bound"
      then some (bound_manifest plain "h" "t1")
      else none;
  print_manifest = λ m. elim m.sha256 [ none ↦ "raw" | some _ ↦ "bound" ];
}

keeps : KeepsManifests host "t1"
keeps = record { printed = λ content m bytes e. ground arith }

abbrev root : Entries
root = entry "SKILL.md" (file "# guide") (entry "manifest.json" (file "raw") nothing)

abbrev store : SkillStore
store = record { candidates = ("c1", root) ∷ []; registry_file = absent; audit = [] }

abbrev v1 : Validated
v1 = record { candidate_id = "c1"; content_hash = "h"; name = "my-skill" }

validated : (validate_skill host "t1" store "c1").1 ≡ success v1
unfolding validate_skill get read_candidate_manifest read_text get_node bind_hash
    compute_skill_content_hash
validated = refl

free : has inherited_names "my-skill" ≡ false
unfolding has
free = refl

-- An inherited name: the log has an event, the registry no record.
constructor_disabled : disable_skill store "constructor" ≡ (
  record store { registry_file = stored []; audit = disabled_inherited "constructor" ∷ [] },
  success (record { name = "constructor"; version = none }),
)
unfolding disable_skill disable_inherited is_inherited has get load_registry save_registry
constructor_disabled = refl

validate_then_promote_example :
    ((r : Entries) × (get (validate_skill host "t1" store "c1").0.candidates "c1" ≡ some r)
      × (compute_skill_content_hash host.sha r ≡ "h"))
    × ((promote_skill host "t2" (validate_skill host "t1" store "c1").0 "c1").1
        ≡ success (record {
          name = "my-skill";
          version = next_version (get (load_registry store.registry_file) "my-skill");
          content_hash = "h";
          candidate_id = "c1";
        }))
validate_then_promote_example =
    validate_then_promote host "t1" "t2" store "c1" v1 keeps free validated

Operated-InSync_example :
    InSync (promote_skill host "t2" (validate_skill host "t1" store "c1").0 "c1").0
Operated-InSync_example =
    Operated-InSync host (promote "t2" "c1" (validate "t1" "c1" (fresh (("c1", root) ∷ []))))

-- A skill at its second version.
abbrev second : SkillRegistryRecord
second = record {
  name = "my-skill";
  active_version = 2;
  candidate_id = "c1";
  activated_at = "t2";
  is_disabled = false;
  content_hash = "h";
  previous_versions =
      record { version = 1; candidate_id = "c0"; activated_at = "t1"; content_hash = "g" } ∷ [];
}

abbrev promoted_store : SkillStore
promoted_store = record store { registry_file = stored (("my-skill", second) ∷ []) }

registered : get (load_registry promoted_store.registry_file) "my-skill" ≡ some second
unfolding get load_registry
registered = refl

abbrev to_first : RolledBack
to_first = record { name = "my-skill"; from_version = 2; to_version = 1 }

rolled_back : (rollback_skill "t3" promoted_store "my-skill" 1).1 ≡ success to_first
unfolding rollback_skill get load_registry take_version
rolled_back = refl

rollback_conserves_example :
    (r : SkillRegistryRecord) × (get
        (load_registry (rollback_skill "t3" promoted_store "my-skill" 1).0.registry_file)
        "my-skill"
      ≡ some r)
    × (r.active_version ≡ 1)
    × (r.is_disabled ≡ false)
    × ((p : ℕ → String → String → Bool) → tally p (history r) ≡ tally p (history second))
rollback_conserves_example =
    rollback_conserves "t3" promoted_store "my-skill" 1 second to_first registered rolled_back

rollback_undone_example :
    (r : SkillRegistryRecord) × (get
        (load_registry
          (rollback_skill "t4"
            (rollback_skill "t3" promoted_store "my-skill" 1).0
            "my-skill"
            2).0.registry_file)
        "my-skill"
      ≡ some r)
    × (r.active_version ≡ 2)
    × (r.candidate_id ≡ "c1")
    × (r.content_hash ≡ "h")
    × (r.is_disabled ≡ false)
rollback_undone_example =
    rollback_undone "t3" "t4" promoted_store "my-skill" 1 second to_first registered refl
      rolled_back

abbrev bound_store : SkillStore
bound_store = record promoted_store {
  candidates = ("c1", put_node "manifest.json" (file "bound") root) ∷ [];
}

abbrev third : Promoted
third = record { name = "my-skill"; version = 3; content_hash = "h"; candidate_id = "c1" }

promotes : (promote_skill host "t3" bound_store "c1").1 ≡ success third
unfolding promote_skill is_inherited has read_candidate_manifest read_text get get_node put_node
    bind_version load_registry next_version
promotes = refl

abbrev shown : SkillEnvelope
shown = record {
  skill_name = "my-skill";
  version = 2;
  content_hash = "h";
  text = envelope_text "my-skill" (summary_of second) "# guide";
}

render_iff_example :
    (render_prompt_envelope host promoted_store "my-skill" ≡ some shown)
    ↔ Renders host promoted_store "my-skill" shown
render_iff_example =
    render_iff host promoted_store "my-skill" shown (unfold load_registry in (refl, tt))

-- A digest without collisions, and a guide changed after the promotion.
abbrev clear_host : Host
clear_host = record host { sha = λ s. s }

abbrev edited : Entries
edited = entry "SKILL.md" (file "# other") nothing

abbrev edited_record : SkillRegistryRecord
edited_record = record second { content_hash = compute_skill_content_hash clear_host.sha root }

abbrev edited_store : SkillStore
edited_store = record {
  candidates = ("c1", edited) ∷ [];
  registry_file = stored (("my-skill", edited_record) ∷ []);
  audit = [];
}

edited_text : join_lines (hash_lines clear_host.sha edited) ≡ "SKILL.md:# other"
unfolding join_lines hash_lines walk_entries relative in_order sort_texts get keys
edited_text = refl

root_text : join_lines (hash_lines clear_host.sha root) ≡ "SKILL.md:# guide"
unfolding join_lines hash_lines walk_entries relative in_order sort_texts get keys
root_text = refl

other_text : (a : String) → a ≡ "SKILL.md:# other" → a ≢ "SKILL.md:# guide"
other_text a other guide = ground (arith, eq_iff "SKILL.md:# other" "SKILL.md:# guide")

differ : join_lines (hash_lines clear_host.sha edited) ≢ join_lines (hash_lines clear_host.sha root)
differ same = other_text _ edited_text (same ∙ root_text)
