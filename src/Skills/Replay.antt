-- ===== src/Skills/Replay.antt =====
-- The audit log of src/skills/skill-audit.ts against the registry of src/skills/skill-lifecycle.ts.
use claude_powerplant.Prelude.{
  ℕ, ◌≡◌, refl, ◌∙◌, inl, inr, String, ◌==◌, eq_iff, Bool, true, false, Option, none, some, List,
  [], ◌∷◌, ◌++◌, Dict, get, put, get-put, arith, Bool-cases, Option-cases, if◌then◌else◌, is_some,
}
use claude_powerplant.Skills.{
  SkillRegistryVersionEntry, SkillRegistryRecord, Registry, absent, SkillAuditEvent, imported,
  import_rejected, evaluated, promoted, rolled_back, quarantined, disabled, disabled_inherited,
  Entries, SkillStore, Host,
}
use claude_powerplant.Skills.Lifecycle.{
  load_registry, save_registry, read_candidate_manifest, bind_hash, validate_skill, bind_version,
  promote_skill, disable_skill, take_version, restore, rollback_skill, is_inherited,
  disable_inherited,
}
use claude_powerplant.Skills.Rendering.{Named}
use claude_powerplant.Skills.Versions.{take_version-version}

-- What one event says of the active version of `name` and of whether it is disabled. A `disabled` event
-- without a version tells of no skill: `disableSkill` logs it for an inherited name.
unfoldable pub replay_event : String → Option (ℕ × Bool) → SkillAuditEvent → Option (ℕ × Bool)
replay_event name known (promoted id n version prior hash) =
    if n == name then some (version, false) else known
replay_event name known (rolled_back n from to reason) =
    if n == name then some (to, false) else known
replay_event name known (disabled n version id hash) =
    if n == name then some (version, true) else known
replay_event name known (imported _ _ _) = known
replay_event name known (import_rejected _ _ _ _) = known
replay_event name known (evaluated _ _ _ _ _) = known
replay_event name known (quarantined _ _ _ _) = known
replay_event name known (disabled_inherited _) = known

-- The events of a log, read from the first on.
unfoldable pub replay : String → Option (ℕ × Bool) → List SkillAuditEvent → Option (ℕ × Bool)
replay name known [] = known
replay name known (e ∷ log) = replay name (replay_event name known e) log

-- What the registry says of a skill.
unfoldable pub active_state : Option SkillRegistryRecord → Option (ℕ × Bool)
active_state none = none
active_state (some r) = some (r.active_version, r.is_disabled)

-- The stores that the operations lead to, from no registry and an empty log. Between operations
-- the candidates' directories may change in any way.
pub data Operated (host : Host) : SkillStore → Type 0 where
  fresh :
      (candidates : Dict Entries)
      → Operated host (record { candidates = candidates; registry_file = absent; audit = [] })
  changed :
      {s : SkillStore} (candidates : Dict Entries)
      → Operated host s
      → Operated host (record s { candidates = candidates })
  validate :
      {s : SkillStore} (now id : String)
      → Operated host s
      → Operated host (validate_skill host now s id).0
  promote :
      {s : SkillStore} (now id : String)
      → Operated host s
      → Operated host (promote_skill host now s id).0
  disable :
      {s : SkillStore} (name : String) → Operated host s → Operated host (disable_skill s name).0
  rollback :
      {s : SkillStore} (now name : String) (v : ℕ)
      → Operated host s
      → Operated host (rollback_skill now s name v).0

replay-concat :
    (name : String) (known : Option (ℕ × Bool)) (log : List SkillAuditEvent) (e : SkillAuditEvent)
    → replay name known (log ++ e ∷ []) ≡ replay_event name (replay name known log) e
unfolding replay
replay-concat name known [] e = refl
replay-concat name known (x ∷ log) e = replay-concat name (replay_event name known x) log e

-- The log tells what the registry holds, and each record stands under its name.
pub record InSync (s : SkillStore) : Type 0 where
  pub told :
      (name : String)
      → replay name none s.audit ≡ active_state (get (load_registry s.registry_file) name)
  pub named : Named (load_registry s.registry_file)

Named-put :
    (m : Registry) (name : String) (r : SkillRegistryRecord)
    → Named m
    → r.name ≡ name
    → Named (put name r m)
unfolding put
Named-put [] name r n same = (same, tt)
Named-put ((j, x) ∷ m) name r n same = ground (arith, Named-put m name r n.1 same)

Named-get :
    (m : Registry) (name : String) (r : SkillRegistryRecord)
    → Named m
    → get m name ≡ some r
    → r.name ≡ name
unfolding get
Named-get [] name r n known = cc known
Named-get ((j, x) ∷ m) name r n known = ground (arith, Named-get m name r n.1, eq_iff j name, n.0)

-- An event that says of `name` what the new record is, and of every other name nothing.
abbrev Tells : SkillAuditEvent → String → SkillRegistryRecord → Type 0
Tells e name r =
    (j : String) (known : Option (ℕ × Bool))
    → replay_event j known e ≡ (if name == j then active_state (some r) else known)

save-InSync :
    (s : SkillStore) (name : String) (r : SkillRegistryRecord) (e : SkillAuditEvent)
    → InSync s
    → Tells e name r
    → r.name ≡ name
    → InSync (save_registry s (put name r (load_registry s.registry_file)) e)
unfolding save_registry load_registry
save-InSync s name r e sync tells same = record {
  told = λ j.
      replay-concat j none s.audit e
      ∙ tells j (replay j none s.audit)
      ∙ ground (arith, sync.told j, get-put name j r (load_registry s.registry_file));
  named = Named-put (load_registry s.registry_file) name r sync.named same;
}

promoted-Tells :
    (id name : String) (r : SkillRegistryRecord) (prior : Option ℕ)
    → r.is_disabled ≡ false
    → Tells (promoted id name r.active_version prior r.content_hash) name r
unfolding replay_event active_state
promoted-Tells id name r prior enabled j known = ground (arith, enabled)

disabled-Tells :
    (name : String) (r : SkillRegistryRecord)
    → Tells
        (disabled name r.active_version r.candidate_id r.content_hash)
        name
        (record r { is_disabled = true })
unfolding replay_event active_state
disabled-Tells name r j known = refl

rolled_back-Tells :
    (now name : String) (v : ℕ) (r : SkillRegistryRecord) (target : SkillRegistryVersionEntry)
    (remaining : List SkillRegistryVersionEntry)
    → target.version ≡ v
    → Tells
        (rolled_back name r.active_version v "operator rollback")
        name
        (restore now r target remaining)
unfolding replay_event active_state restore
rolled_back-Tells now name v r target remaining same j known = rw same refl

-- An event that tells of no skill.
evaluated-InSync :
    (s : SkillStore) (candidates : Dict Entries) (id name hash : String)
    → InSync s
    → InSync (record s {
      candidates = candidates;
      audit = s.audit ++ evaluated id name true none hash ∷ [];
    })
unfolding replay_event
evaluated-InSync s candidates id name hash sync = record {
  told = λ j. replay-concat j none s.audit (evaluated id name true none hash) ∙ sync.told j;
  named = sync.named;
}

validate-InSync :
    (host : Host) (now : String) (s : SkillStore) (id : String)
    → InSync s
    → InSync (validate_skill host now s id).0
unfolding validate_skill bind_hash
validate-InSync host now s id sync = elim (Option-cases (get s.candidates id)) [
  | inl missing ↦ rw (missing, validate_skill) sync
  | inr (root, listed) ↦ elim (Option-cases (read_candidate_manifest host s id)) [
    | inl bad ↦ rw (listed, bad, validate_skill) sync
    | inr (m, parsed) ↦ elim (Bool-cases (is_some m.sha256)) [
      | inl bound ↦ rw (listed, parsed, bound, validate_skill) sync
      | inr unbound ↦
          rw (listed, parsed, unbound, validate_skill) (evaluated-InSync s _ id m.name _ sync)
    ]
  ]
]

promote-InSync :
    (host : Host) (now : String) (s : SkillStore) (id : String)
    → InSync s
    → InSync (promote_skill host now s id).0
unfolding promote_skill bind_version
promote-InSync host now s id sync = elim (Option-cases (read_candidate_manifest host s id)) [
  | inl bad ↦ rw (bad, promote_skill) sync
  | inr (m, parsed) ↦ elim (Option-cases m.sha256) [
    | inl unbound ↦ rw (parsed, unbound, promote_skill) sync
    | inr (hash, bound) ↦ elim (Bool-cases (is_inherited (load_registry s.registry_file) m.name)) [
      | inl inherited ↦ rw (parsed, bound, inherited, promote_skill) sync
      | inr own ↦
          rw (parsed, bound, own, promote_skill)
            (save-InSync s m.name _ _ sync (promoted-Tells id m.name _ _ refl) refl)
    ]
  ]
]

-- The registry is saved as it was, with an event that tells of no skill.
inherited-InSync : (s : SkillStore) (name : String) → InSync s → InSync (disable_inherited s name).0
unfolding disable_inherited save_registry load_registry replay_event
inherited-InSync s name sync = record {
  told = λ j. replay-concat j none s.audit (disabled_inherited name) ∙ sync.told j;
  named = sync.named;
}

disable-InSync : (s : SkillStore) (name : String) → InSync s → InSync (disable_skill s name).0
unfolding disable_skill
disable-InSync s name sync = elim (Option-cases (get (load_registry s.registry_file) name)) [
  | inl unknown ↦ elim (Bool-cases (is_inherited (load_registry s.registry_file) name)) [
    | inl inherited ↦ rw (unknown, inherited, disable_skill) (inherited-InSync s name sync)
    | inr own ↦ rw (unknown, own, disable_skill) sync
  ]
  | inr (r, known) ↦ elim (Bool-cases r.is_disabled) [
    | inl already ↦ rw (known, already, disable_skill) sync
    | inr enabled ↦
        rw (known, enabled, disable_skill)
          (save-InSync s name (record r { is_disabled = true }) _ sync (disabled-Tells name r)
            (Named-get (load_registry s.registry_file) name r sync.named known))
  ]
]

rollback-InSync :
    (now : String) (s : SkillStore) (name : String) (v : ℕ)
    → InSync s
    → InSync (rollback_skill now s name v).0
unfolding rollback_skill
rollback-InSync now s name v sync = elim (Option-cases (get (load_registry s.registry_file) name)) [
  | inl unknown ↦ rw (unknown, rollback_skill) sync
  | inr (r, known) ↦ elim (Option-cases (take_version v r.previous_versions)) [
    | inl gone ↦ rw (known, gone, rollback_skill) sync
    | inr ((target, remaining), found) ↦
        rw (known, found, rollback_skill)
          (save-InSync s name (restore now r target remaining) _ sync
            (rolled_back-Tells now name v r target remaining
              (take_version-version v r.previous_versions remaining target found))
            (unfold restore in Named-get (load_registry s.registry_file) name r sync.named known))
  ]
]

-- Whatever operations were run, on any names, in any order and with any outcome, the audit log alone
-- tells which version of each skill is active and whether it is disabled, where a `disabled` event
-- that has no version is passed over; and each record of the registry stands under its own name.
pub Operated-InSync : (host : Host) {s : SkillStore} → Operated host s → InSync s
Operated-InSync host (fresh candidates) = record {
  told = λ name. unfold replay load_registry get active_state in refl;
  named = unfold load_registry in tt;
}
Operated-InSync host (changed candidates o) =
    let sync = Operated-InSync host o in record { told = sync.told; named = sync.named }
Operated-InSync host (validate now id o) = validate-InSync host now _ id (Operated-InSync host o)
Operated-InSync host (promote now id o) = promote-InSync host now _ id (Operated-InSync host o)
Operated-InSync host (disable name o) = disable-InSync _ name (Operated-InSync host o)
Operated-InSync host (rollback now name v o) = rollback-InSync now _ name v (Operated-InSync host o)
